-- ===== src/Db/Sites.antt =====
-- The places that _db_dodelete writes to, and what its three writes to the index file leave.
use learning_notes.Base.{
  ℕ, ◌+◌, ◌≤◌, ◌≡◌, ◌∙◌, List, [], ◌∷◌, ◌++◌, arith, length, write, All, All-parts,
  slice-write_self, length-write,
}
use learning_notes.CString.{Bytes, padded}
use learning_notes.CString.Digits.{length-padded}
use learning_notes.Db.{ptr_max}
use learning_notes.Db.Entry.{entry_text, PtrAt, EntryAt}
use learning_notes.Db.Image.{image, span, length-image, Apart, EntryAt-write, EntryAt-write-Apart}
use learning_notes.Db.Chain.{Cell, Chain}
use learning_notes.Db.Frame.{Frame, Frame-write, Frame-trans}
use learning_notes.Db.Delete.{blank, length-blank, after_delete}
use learning_notes.Db.Unlink.{place, Spread}

pub Chain-inside :
    (f : Bytes) (o : ℕ) (cs : List Cell)
    → Chain f o cs
    → All (λ (d : Cell). d.at + span d.entry ≤ length f) cs
Chain-inside f o [] ch = tt
Chain-inside f o (c ∷ cs) (next, here, st, ch) = (st.inside, Chain-inside f next cs ch)

pub place_in :
    (f : Bytes) (p : ℕ) (pre : List Cell)
    → p + 7 ≤ length f
    → All (λ (d : Cell). d.at + span d.entry ≤ length f) pre
    → place p pre + 7 ≤ length f
place_in f p [] h a = h
place_in f p (x ∷ pre) h a = place_in f x.at pre (omega (arith, a.0)) a.1

pub place_low :
    (p : ℕ) (pre : List Cell) → 7 ≤ p → All (λ (d : Cell). 7 ≤ d.at) pre → 7 ≤ place p pre
place_low p [] h a = h
place_low p (x ∷ pre) h a = place_low x.at pre a.0 a.1

pub Spread-pre :
    (pre post : List Cell) (c : Cell)
    → Spread (pre ++ c ∷ post)
    → All (λ (d : Cell). Apart c.at (span c.entry) d.at (span d.entry)) pre
Spread-pre [] post c sp = tt
Spread-pre (x ∷ pre) post c sp =
    let (l, r) =
      All-parts (λ (d : Cell). Apart x.at (span x.entry) d.at (span d.entry)) pre (c ∷ post) sp.0 in
    (omega (arith, r.0), Spread-pre pre post c sp.1)

-- What _db_dodelete needs of the place that the index file has for the record `c`, and `q` for the
-- pointer to it.
pub record Sites (f : Bytes) (q : ℕ) (c : Cell) : Type 0 where
  pub inside : c.at + span c.entry ≤ length f
  pub low : 7 ≤ c.at
  pub reach : c.at ≤ ptr_max
  pub ptr_in : q + 7 ≤ length f
  pub ptr_low : 7 ≤ q
  pub away : Apart c.at (span c.entry) q 7
  pub max_size : length (entry_text c.entry) ≤ 1024

module _ (f : Bytes) (q : ℕ) (c : Cell) (next free : ℕ) (s : Sites f q c) (nm : next ≤ ptr_max)
    (fm : free ≤ ptr_max) where
  blanked : Bytes
  blanked = write f c.at (image free (blank c.entry))

  listed : Bytes
  listed = write blanked 0 (padded 7 c.at)

  length-blanked_image : length (image free (blank c.entry)) ≡ span c.entry
  length-blanked_image = omega (
    arith,
    length-image free (blank c.entry) fm (omega (arith, length-blank c.entry, s.max_size)),
    length-blank c.entry,
  )

  blank-Frame : Frame f blanked ((c.at, span c.entry) ∷ [])
  unfolding blanked
  blank-Frame =
      Frame-write f c.at (span c.entry) (image free (blank c.entry)) (omega (arith, s.inside))
        length-blanked_image

  listed-Frame : Frame blanked listed ((0, 7) ∷ [])
  unfolding listed
  listed-Frame =
      Frame-write blanked 0 7 (padded 7 c.at) (omega arith)
        (length-padded c.at 6 (omega (arith, s.reach)))

  linked-Frame : Frame listed (after_delete f q c next free) ((q, 7) ∷ [])
  unfolding listed blanked
  linked-Frame =
      Frame-write listed q 7 (padded 7 next)
        (omega (arith, s.ptr_in, blank-Frame.longer, listed-Frame.longer))
        (length-padded next 6 (omega arith))

  -- The three writes change nothing else.
  pub after_delete-Frame :
      Frame f (after_delete f q c next free) ((c.at, span c.entry) ∷ (0, 7) ∷ (q, 7) ∷ [])
  after_delete-Frame =
      Frame-trans f blanked (after_delete f q c next free) ((c.at, span c.entry) ∷ [])
        ((0, 7) ∷ (q, 7) ∷ []) blank-Frame
        (Frame-trans blanked listed (after_delete f q c next free) ((0, 7) ∷ []) ((q, 7) ∷ [])
          listed-Frame linked-Frame)

  -- The three writes are within the file.
  pub length-after_delete : length (after_delete f q c next free) ≡ length f
  unfolding listed blanked
  length-after_delete =
      let one : length blanked ≡ length f =
        length-write f c.at (image free (blank c.entry)) (omega (arith, s.inside))
        ∙ omega (arith, length-blanked_image, s.inside) in
      let two : length listed ≡ length f =
        length-write blanked 0 (padded 7 c.at) (omega arith)
        ∙ omega (arith, one, length-padded c.at 6 (omega (arith, s.reach)), s.ptr_in) in
      length-write listed q (padded 7 next) (omega (arith, two, s.ptr_in))
      ∙ omega (arith, two, length-padded next 6 (omega arith), s.ptr_in)

  -- The pointer that led to the record leads to its successor.
  pub after_delete-link : PtrAt (after_delete f q c next free) q next
  after_delete-link = rw (length-padded next 6 (omega arith)) at (
      slice-write_self (write (write f c.at (image free (blank c.entry))) 0 (padded 7 c.at)) q
        (padded 7 next))

  -- The free list begins with the record.
  pub after_delete-free : PtrAt (after_delete f q c next free) 0 c.at
  unfolding listed blanked
  after_delete-free =
      linked-Frame.same 0 7
        (omega (arith, s.ptr_in, s.ptr_low, blank-Frame.longer, listed-Frame.longer))
        (omega (arith, s.ptr_low), tt)
      ∙ rw (length-padded c.at 6 (omega (arith, s.reach))) at
          (slice-write_self blanked 0 (padded 7 c.at))

  -- The record is blank, and leads to the rest of the free list.
  pub after_delete-blank : EntryAt (after_delete f q c next free) c.at (blank c.entry) free
  unfolding listed blanked
  after_delete-blank =
      EntryAt-write-Apart listed q (padded 7 next) c.at (blank c.entry) free
        (omega (arith, s.inside, length-blank c.entry, blank-Frame.longer, listed-Frame.longer))
        (omega (arith, s.away, length-blank c.entry, length-padded next 6 (omega arith)))
        (EntryAt-write-Apart blanked 0 (padded 7 c.at) c.at (blank c.entry) free
          (omega (arith, s.inside, length-blank c.entry, blank-Frame.longer))
          (omega (arith, s.low, length-padded c.at 6 (omega (arith, s.reach))))
          (EntryAt-write f c.at (blank c.entry) free fm
            (omega (arith, length-blank c.entry, s.max_size))))
