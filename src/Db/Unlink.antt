-- ===== src/Db/Unlink.antt =====
-- Taking a record out of its chain.
use learning_notes.Base.{
  ℕ, ◌+◌, ◌≤◌, ◌≡◌, refl, sym, ap, ◌∙◌, true, false, some, none, Option, List, [], ◌∷◌, ◌++◌, arith,
  length, All, All-parts, All-map, Bool-cases, inl, inr,
}
use learning_notes.Base.Int.{ℤ, pos, negsuc}
use learning_notes.CString.{Bytes, str_eq, atol}
use learning_notes.CString.Digits.{atol-padded}
use learning_notes.Db.{ptr_max}
use learning_notes.Db.Entry.{entry_text, PtrAt}
use learning_notes.Db.Image.{span, Apart}
use learning_notes.Db.Chain.{Cell, IsStored, Chain, seek}
use learning_notes.Db.Frame.{Region, Clear, Frame, Clear-part, PtrAt-Frame, Chain-Frame}

-- The place of the pointer to what follows `pre` in a chain that the pointer at `p` begins.
abbrev pub place : ℕ → List Cell → ℕ
place p [] = p
place p (x ∷ pre) = place x.at pre

abbrev pub Misses : Bytes → List Cell → Type 0
Misses key = All (λ (x : Cell). str_eq x.entry.key key ≡ false)

-- The first record with a key, between those in front of it and those behind it.
pub record Split (p : ℕ) (key : Bytes) (cs : List Cell) (q : ℕ) (c : Cell) : Type 0 where
  pub pre : List Cell
  pub post : List Cell
  pub whole : cs ≡ pre ++ c ∷ post
  pub at : q ≡ place p pre
  pub first : Misses key pre
  pub hit : str_eq c.entry.key key ≡ true

abbrev pub Located : ℕ → Bytes → List Cell → Option (ℕ × Cell) → Type 0
Located p key cs none = Misses key cs
Located p key cs (some (q, c)) = Split p key cs q c

Located-cons :
    (p : ℕ) (key : Bytes) (x : Cell) (cs : List Cell) (o : Option (ℕ × Cell))
    → str_eq x.entry.key key ≡ false
    → Located x.at key cs o
    → Located p key (x ∷ cs) o
Located-cons p key x cs none miss l = (miss, l)
Located-cons p key x cs (some (q, c)) miss l = record {
  pre = x ∷ l.pre;
  post = l.post;
  whole = ap (λ (r : List Cell). x ∷ r) l.whole;
  at = l.at;
  first = (miss, l.first);
  hit = l.hit;
}

pub seek-Located : (p : ℕ) (key : Bytes) (cs : List Cell) → Located p key cs (seek p key cs)
unfolding seek
seek-Located p key [] = tt
seek-Located p key (x ∷ cs) = elim (Bool-cases (str_eq x.entry.key key)) [
  | inl hit ↦
      rw hit (record { pre = []; post = cs; whole = refl; at = refl; first = tt; hit = hit })
  | inr miss ↦ rw miss (Located-cons p key x cs (seek x.at key cs) miss (seek-Located x.at key cs))
]

-- No two records meet.
abbrev pub Spread : List Cell → Type 0
Spread [] = Unit
Spread (c ∷ cs) = All (λ (d : Cell). Apart c.at (span c.entry) d.at (span d.entry)) cs × Spread cs

magnitude_of : ℤ → ℕ
magnitude_of (pos n) = n
magnitude_of (negsuc n) = 0

-- A pointer has one value.
pub PtrAt-unique : (f : Bytes) (o a b : ℕ) → PtrAt f o a → PtrAt f o b → a ≡ b
unfolding magnitude_of
PtrAt-unique f o a b p q =
    ap magnitude_of (sym (atol-padded 7 a) ∙ ap atol (sym p ∙ q) ∙ atol-padded 7 b)

pub place-Apart :
    (q n p : ℕ) (pre : List Cell)
    → Apart q n p 7
    → All (λ (d : Cell). Apart q n d.at (span d.entry)) pre
    → Apart q n (place p pre) 7
place-Apart q n p [] h a = h
place-Apart q n p (x ∷ pre) h a = place-Apart q n x.at pre (omega (arith, a.0)) a.1

Clear-All :
    (w : ℕ) (c : Cell) (p : ℕ) (ds : List Cell)
    → All (λ (d : Cell). Apart c.at (span c.entry) d.at (span d.entry)) ds
    → All (λ (d : Cell). Apart w 7 d.at (span d.entry)) ds
    → All (λ (d : Cell). Apart p 7 d.at (span d.entry)) ds
    → All (λ (d : Cell). Clear d.at (span d.entry) ((c.at, span c.entry) ∷ (w, 7) ∷ (p, 7) ∷ [])) ds
Clear-All w c p [] a b e = tt
Clear-All w c p (d ∷ ds) a b e = (
  (omega (arith, a.0), (omega (arith, b.0), (omega (arith, e.0), tt))),
  Clear-All w c p ds a.1 b.1 e.1,
)

-- A record whose pointer alone may have changed.
relinked :
    {f f' : Bytes} {rs : List Region} (x : Cell) (n n' : ℕ)
    → Frame f f' rs
    → Clear (x.at + 7) (4 + length (entry_text x.entry)) rs
    → IsStored f x n
    → PtrAt f' x.at n'
    → n' ≤ ptr_max
    → IsStored f' x n'
relinked {rs} x n n' fr away st link le = record {
  ne_zero = st.ne_zero;
  readable = st.readable;
  entry_at = record {
    link = link;
    size =
        fr.same (x.at + 7) 4 (omega (arith, st.inside)) (
          Clear-part (x.at + 7) (4 + length (entry_text x.entry)) (x.at + 7) 4 rs (omega arith)
            (omega arith) away)
        ∙ st.entry_at.size;
    text =
        fr.same (x.at + 11) (length (entry_text x.entry)) (omega (arith, st.inside)) (
          Clear-part (x.at + 7) (4 + length (entry_text x.entry)) (x.at + 11)
            (length (entry_text x.entry)) rs (omega arith) (omega arith) away)
        ∙ st.entry_at.text;
    next_le = le;
  };
  inside = omega (arith, st.inside, fr.longer);
}

-- With the pointer in front of `c` set to its successor, the chain is that without `c`.
pub unlink :
    (w : ℕ) (f f' : Bytes) (pre post : List Cell) (c : Cell) (next p head : ℕ)
    → PtrAt f p head
    → head ≤ ptr_max
    → next ≤ ptr_max
    → Chain f head (pre ++ c ∷ post)
    → PtrAt f c.at next
    → Frame f f' ((c.at, span c.entry) ∷ (w, 7) ∷ (place p pre, 7) ∷ [])
    → PtrAt f' (place p pre) next
    → Spread (pre ++ c ∷ post)
    → All (λ (d : Cell). Apart w 7 d.at (span d.entry)) (pre ++ c ∷ post)
    → Apart w 7 p 7
    → p + 7 ≤ length f
    → All (λ (d : Cell). Apart p 7 d.at (span d.entry)) (pre ++ c ∷ post)
    → (head' : ℕ) × (head' ≤ ptr_max) × PtrAt f' p head' × (Chain f' head' (pre ++ post))
unlink w f f' [] post c next p head at hm nm (n', here, st, ch) at_c fr at' sp lo hp hf ap' = (
  next,
  nm,
  at',
  Chain-Frame fr next post (Clear-All w c p post sp.0 lo.1 ap'.1)
      (rw (PtrAt-unique f c.at next n' at_c st.entry_at.link) ch),
)
unlink w f f' (x ∷ pre) post c next p head at hm nm (n', here, st, ch) at_c fr at' sp lo hp hf ap' =
    let (n'', nm'', link, ch') =
      unlink w f f' pre post c next x.at n' st.entry_at.link st.entry_at.next_le nm ch at_c fr at'
        sp.1 lo.1 (omega (arith, lo.0)) (omega (arith, st.inside))
        (All-map (λ (d : Cell). Apart x.at (span x.entry) d.at (span d.entry))
          (λ (d : Cell). Apart x.at 7 d.at (span d.entry)) (λ d h. omega arith) (pre ++ c ∷ post)
          sp.0) in
    (
      head,
      hm,
      PtrAt-Frame fr p head hf head_clear at,
      (n'', here, relinked x n' n'' fr rest_clear st link nm'', ch'),
    )
  where
    between :
        All (λ (d : Cell). Apart p 7 d.at (span d.entry)) pre
        × All (λ (d : Cell). Apart p 7 d.at (span d.entry)) (c ∷ post)
    between = All-parts (λ (d : Cell). Apart p 7 d.at (span d.entry)) pre (c ∷ post) ap'.1

    beside :
        All (λ (d : Cell). Apart x.at (span x.entry) d.at (span d.entry)) pre
        × All (λ (d : Cell). Apart x.at (span x.entry) d.at (span d.entry)) (c ∷ post)
    beside =
        All-parts (λ (d : Cell). Apart x.at (span x.entry) d.at (span d.entry)) pre (c ∷ post) sp.0

    head_clear : Clear p 7 ((c.at, span c.entry) ∷ (w, 7) ∷ (place x.at pre, 7) ∷ [])
    head_clear = (
      between.1.0,
      (omega arith, (place-Apart p 7 x.at pre (omega (arith, ap'.0)) between.0, tt)),
    )

    rest_clear :
        Clear
          (x.at + 7)
          (4 + length (entry_text x.entry))
          ((c.at, span c.entry) ∷ (w, 7) ∷ (place x.at pre, 7) ∷ [])
    rest_clear = (
      omega (arith, beside.1.0),
      (
        omega (arith, lo.0),
        (
          place-Apart (x.at + 7) (4 + length (entry_text x.entry)) x.at pre (omega arith) (
              All-map (λ (d : Cell). Apart x.at (span x.entry) d.at (span d.entry))
                (λ (d : Cell).
                  Apart (x.at + 7) (4 + length (entry_text x.entry)) d.at (span d.entry))
                (λ d h. omega arith) pre beside.0),
          tt,
        ),
      ),
    )
