-- ===== src/Db/SoundDelete.antt =====
-- db_delete on a sound database.
use learning_notes.Base.{
  ℕ, ◌+◌, ◌≤◌, ◌≡◌, ◌≢◌, ap, ◌∙◌, List, [], ◌∷◌, ◌++◌, arith, length, write, replicate,
  length-append, length-take, length-drop, drop, All, All-parts, All-map, All-replicate,
}
use learning_notes.CString.{Bytes}
use learning_notes.Db.{space, newline, sep}
use learning_notes.Db.Entry.{Entry, IsReadable}
use learning_notes.Db.Image.{span, Apart, slice-write-Apart}
use learning_notes.Db.Chain.{Cell, IsStored, HasData, Chain}
use learning_notes.Db.Frame.{Clear}
use learning_notes.Db.Delete.{blank, length-blank}
use learning_notes.Db.Unlink.{place, place-Apart}
use learning_notes.Db.Cells.{Disjoint, Between, All-without}
use learning_notes.Db.Sound.{table_end, Placed}

-- The empty record that is left of one.
abbrev pub emptied : Cell → Cell
emptied c = record { at = c.at; entry = blank c.entry; text = replicate (length c.text) space }

pub blank-IsReadable : (e : Entry) → IsReadable e → IsReadable (blank e)
blank-IsReadable e r = record {
  no_nul = All-replicate (λ c. c ≢ 0) (length e.key) space (λ q. omega arith);
  no_sep = All-replicate (λ c. c ≢ sep) (length e.key) space (λ q. omega arith);
  min_size = omega (arith, length-blank e, r.min_size);
  max_size = omega (arith, length-blank e, r.max_size);
  has_data = r.has_data;
  max_data = r.max_data;
}

pub Chain-stored :
    (f : Bytes) (head : ℕ) (pre post : List Cell) (c : Cell)
    → Chain f head (pre ++ c ∷ post)
    → (next : ℕ) × IsStored f c next
Chain-stored f head [] post c (next, here, st, ch) = (next, st)
Chain-stored f head (x ∷ pre) post c (next, here, st, ch) = Chain-stored f next pre post c ch

-- Data that are apart from what is written stay.
pub HasData-Apart :
    (g bs : Bytes) (o n : ℕ) (d : Cell)
    → length bs ≡ n
    → Apart o n d.entry.datoff d.entry.datlen
    → HasData g d
    → HasData (write g o bs) d
HasData-Apart g bs o n d l away h = record {
  size = h.size;
  data_at =
      slice-write-Apart g o bs d.entry.datoff (length d.text + 1) inside
        (rw (l, ← h.size) (omega arith))
      ∙ h.data_at;
  no_nul = h.no_nul;
}
  where
    inside : d.entry.datoff + (length d.text + 1) ≤ length g
    inside = omega (
      arith,
      ap (λ (r : Bytes). length r) h.data_at,
      length-append d.text (newline ∷ []),
      length-take (length d.text + 1) (drop d.entry.datoff g),
      length-drop d.entry.datoff g,
    )

-- The record `c` of the chain at `p` is emptied and unlinked: what the writes leave alone.
module _ (hashoff nhash w p : ℕ) (pre post : List Cell) (c : Cell)
    (w_in : w + 7 ≤ table_end hashoff nhash) where
  pub Clear-cells :
      (ds : List Cell)
      → p + 7 ≤ table_end hashoff nhash
      → All (Placed hashoff nhash) ds
      → Between ds (pre ++ c ∷ post)
      → All
          (λ (d : Cell).
            Clear d.at (span d.entry) ((c.at, span c.entry) ∷ (w, 7) ∷ (place p pre, 7) ∷ []))
          ds
  Clear-cells [] h pl bt = tt
  Clear-cells (d ∷ ds) h pl bt =
      let (at_c, rest) = All-without (Disjoint d) pre post c bt.0 in
      let (front, _) = All-parts (Disjoint d) pre post rest in
      (
        (
          omega (arith, at_c.0),
          (
            omega (arith, pl.0.0, w_in),
            (
              place-Apart d.at (span d.entry) p pre (omega (arith, pl.0.0)) (
                  All-map (Disjoint d) (λ (x : Cell). Apart d.at (span d.entry) x.at (span x.entry))
                    (λ x r. r.0) pre front),
              tt,
            ),
          ),
        ),
        Clear-cells ds h pl.1 bt.1,
      )

  pub Clear-slot :
      (o : ℕ)
      → hashoff ≤ o
      → o + 7 ≤ table_end hashoff nhash
      → Apart o 7 p 7
      → Apart o 7 w 7
      → All (Placed hashoff nhash) (pre ++ c ∷ post)
      → Clear o 7 ((c.at, span c.entry) ∷ (w, 7) ∷ (place p pre, 7) ∷ [])
  Clear-slot o h k away away' pl =
      let (at_c, rest) = All-without (Placed hashoff nhash) pre post c pl in
      (
        omega (arith, at_c.0),
        (
          away',
          (
            place-Apart o 7 p pre away (
                All-map (Placed hashoff nhash) (λ (x : Cell). Apart o 7 x.at (span x.entry))
                  (λ x r. omega (arith, r.0)) pre
                  (All-parts (Placed hashoff nhash) pre post rest).0),
            tt,
          ),
        ),
      )
