-- ===== src/Db/Frame.antt =====
-- What a sequence of writes to the index file leaves alone.
use learning_notes.Base.{
  ℕ, ◌+◌, ◌≤◌, ◌≡◌, ◌∙◌, List, [], ◌∷◌, ◌++◌, arith, length, slice, write, All, length-write,
}
use learning_notes.CString.{Bytes}
use learning_notes.Db.Entry.{entry_text, PtrAt}
use learning_notes.Db.Image.{span, Apart, slice-write-Apart}
use learning_notes.Db.Chain.{Cell, IsStored, Chain}

-- Start and length of a run of bytes.
abbrev pub Region : Type 0
Region = ℕ × ℕ

-- The run of `n` bytes from `q` meets none of the regions.
abbrev pub Clear : ℕ → ℕ → List Region → Type 0
Clear q n = All (λ (r : Region). Apart q n r.0 r.1)

-- The file changed within the regions only, and did not get shorter.
pub record Frame (f f' : Bytes) (rs : List Region) : Type 0 where
  pub same : (q n : ℕ) → q + n ≤ length f → Clear q n rs → slice f' q n ≡ slice f q n
  pub longer : length f ≤ length f'

pub Frame-write :
    (f : Bytes) (o n : ℕ) (bs : Bytes)
    → o ≤ length f
    → length bs ≡ n
    → Frame f (write f o bs) ((o, n) ∷ [])
Frame-write f o n bs h l = record {
  same = λ q m inside away. slice-write-Apart f o bs q m inside (rw l away.0);
  longer = omega (arith, length-write f o bs h);
}

Clear-front : (q n : ℕ) (rs ss : List Region) → Clear q n (rs ++ ss) → Clear q n rs × Clear q n ss
Clear-front q n [] ss c = (tt, c)
Clear-front q n (r ∷ rs) ss c = let (a, b) = Clear-front q n rs ss c.1 in ((c.0, a), b)

pub Frame-trans :
    (f g h : Bytes) (rs ss : List Region) → Frame f g rs → Frame g h ss → Frame f h (rs ++ ss)
Frame-trans f g h rs ss a b = record {
  same = λ q n inside away.
      let (l, r) = Clear-front q n rs ss away in
      b.same q n (omega (arith, a.longer)) r ∙ a.same q n inside l;
  longer = omega (arith, a.longer, b.longer);
}

-- A smaller run meets no more.
pub Clear-part :
    (q n p m : ℕ) (rs : List Region) → q ≤ p → p + m ≤ q + n → Clear q n rs → Clear p m rs
Clear-part q n p m [] h k c = tt
Clear-part q n p m (r ∷ rs) h k (away, c) = (omega arith, Clear-part q n p m rs h k c)

module _ {f f' : Bytes} {rs : List Region} (fr : Frame f f' rs) where
  pub PtrAt-Frame : (o p : ℕ) → o + 7 ≤ length f → Clear o 7 rs → PtrAt f o p → PtrAt f' o p
  PtrAt-Frame o p h c at = fr.same o 7 h c ∙ at

  pub IsStored-Frame :
      (c : Cell) (next : ℕ) → Clear c.at (span c.entry) rs → IsStored f c next → IsStored f' c next
  IsStored-Frame c next away st = record {
    ne_zero = st.ne_zero;
    readable = st.readable;
    entry_at = record {
      link =
          fr.same c.at 7 (omega (arith, st.inside))
            (Clear-part c.at (span c.entry) c.at 7 rs (omega arith) (omega arith) away)
          ∙ st.entry_at.link;
      size =
          fr.same (c.at + 7) 4 (omega (arith, st.inside))
            (Clear-part c.at (span c.entry) (c.at + 7) 4 rs (omega arith) (omega arith) away)
          ∙ st.entry_at.size;
      text =
          fr.same (c.at + 11) (length (entry_text c.entry)) (omega (arith, st.inside)) (
            Clear-part c.at (span c.entry) (c.at + 11) (length (entry_text c.entry)) rs
              (omega arith) (omega arith) away)
          ∙ st.entry_at.text;
      next_le = st.entry_at.next_le;
    };
    inside = omega (arith, st.inside, fr.longer);
  }

  pub Chain-Frame :
      (o : ℕ) (cs : List Cell)
      → All (λ (c : Cell). Clear c.at (span c.entry) rs) cs
      → Chain f o cs
      → Chain f' o cs
  Chain-Frame o [] away ch = ch
  Chain-Frame o (c ∷ cs) away (next, here, st, ch) =
      (next, here, IsStored-Frame c next away.0 st, Chain-Frame next cs away.1 ch)
