-- ===== src/Db/Append.antt =====
-- db_store behind the last record: what is appended to both files, as an addition to a layout.
use learning_notes.Base.{
  ℕ, ◌+◌, ◌≤◌, ◌<◌, ◌≡◌, refl, ◌∙◌, true, inl, inr, List, [], ◌∷◌, ◌++◌, arith, length, write, All,
  All-map, length-append, length-write, slice-write_self, slice-write_before,
}
use learning_notes.CString.{Bytes, str_eq, padded}
use learning_notes.CString.Digits.{length-padded}
use learning_notes.CString.Fields.{Lacks}
use learning_notes.Db.{ptr_max, newline}
use learning_notes.Db.Entry.{Entry, IsReadable}
use learning_notes.Db.Image.{image, span, length-image, EntryAt-write, EntryAt-write-Apart}
use learning_notes.Db.Chain.{Cell, IsStored, HasData, Chain}
use learning_notes.Db.Frame.{
  Region, Clear, Frame, Frame-write, Frame-trans, PtrAt-Frame, Chain-Frame,
}
use learning_notes.Db.Unlink.{Misses}
use learning_notes.Db.Sites.{Chain-inside}
use learning_notes.Db.Cells.{DataIn, HasData-inside, Disjoint}
use learning_notes.Db.Sound.{slot, Placed, Layout}
use learning_notes.Db.Added.{Adds}

-- Data stay where they are when others are appended.
HasData-append : (g bs : Bytes) (c : Cell) → HasData g c → HasData (write g (length g) bs) c
HasData-append g bs c d = record {
  size = d.size;
  data_at =
      slice-write_before g (length g) bs c.entry.datoff (length c.text + 1)
        (omega (arith, HasData-inside g c d, d.size)) (omega (arith, HasData-inside g c d, d.size))
      ∙ d.data_at;
  no_nul = d.no_nul;
}

pub written-HasData :
    (g : Bytes) (o : ℕ) (c : Cell)
    → c.entry.datoff ≡ o
    → c.entry.datlen ≡ length c.text + 1
    → Lacks 0 c.text
    → HasData (write g o (c.text ++ newline ∷ [])) c
written-HasData g o c e l z = record {
  size = l;
  data_at =
      rw (e, ← length-append c.text (newline ∷ [])) (slice-write_self g o (c.text ++ newline ∷ []));
  no_nul = z;
}

-- The record that is appended, and both files behind it.
abbrev pub tail_entry : Bytes → Bytes → Bytes → Entry
tail_entry g key text = record { key = key; datoff = length g; datlen = length text + 1 }

abbrev pub tail_cell : Bytes → Bytes → Bytes → Bytes → Cell
tail_cell f g key text = record { at = length f; entry = tail_entry g key text; text = text }

abbrev pub longer_index : Bytes → Bytes → ℕ → ℕ → Bytes → Bytes → Bytes
longer_index f g p head key text =
    write (write f (length f) (image head (tail_entry g key text))) p (padded 7 (length f))

abbrev pub longer_data : Bytes → Bytes → Bytes
longer_data g text = write g (length g) (text ++ newline ∷ [])

module _ (hashoff nhash : ℕ) (f g : Bytes) (rows : ℕ → List Cell) (free : List Cell) (b0 head : ℕ)
    (key text : Bytes) (l : Layout [] hashoff nhash f g rows free) (lt : b0 < nhash)
    (head_le : head ≤ ptr_max) (ch : Chain f head (rows b0))
    (r : IsReadable (tail_entry g key text)) (no_nul : Lacks 0 text) (im : length f ≤ ptr_max) where
  abbrev e : Entry
  e = tail_entry g key text

  abbrev n : Cell
  n = tail_cell f g key text

  abbrev middle : Bytes
  middle = write f (length f) (image head (tail_entry g key text))

  abbrev p : ℕ
  p = slot hashoff b0

  abbrev rs : List Region
  rs = (length f, span (tail_entry g key text)) ∷ (slot hashoff b0, 7) ∷ []

  l_image : length (image head (tail_entry g key text)) ≡ span (tail_entry g key text)
  l_image = length-image head (tail_entry g key text) head_le r.max_size

  p_in : slot hashoff b0 + 7 ≤ length f
  p_in = omega (arith, l.table_in, lt)

  first-Frame : Frame f middle ((length f, span (tail_entry g key text)) ∷ [])
  first-Frame =
      Frame-write f (length f) (span (tail_entry g key text)) (image head (tail_entry g key text))
        (omega arith) l_image

  length-middle : length f + span (tail_entry g key text) ≤ length middle
  length-middle =
      omega (
        arith,
        l_image,
        length-write f (length f) (image head (tail_entry g key text)) (omega arith),
      )

  frame : Frame f (longer_index f g (slot hashoff b0) head key text) rs
  frame =
      Frame-trans f middle (longer_index f g (slot hashoff b0) head key text)
        ((length f, span (tail_entry g key text)) ∷ []) ((slot hashoff b0, 7) ∷ []) first-Frame
        (Frame-write middle (slot hashoff b0) 7 (padded 7 (length f))
          (omega (arith, p_in, first-Frame.longer)) (length-padded (length f) 6 (omega arith)))

  stored : IsStored (longer_index f g (slot hashoff b0) head key text) n head
  stored = record {
    ne_zero = λ q. omega (arith, p_in);
    readable = r;
    entry_at =
        EntryAt-write-Apart middle (slot hashoff b0) (padded 7 (length f)) (length f)
          (tail_entry g key text) head length-middle
          (omega (arith, p_in, length-padded (length f) 6 (omega arith)))
          (EntryAt-write f (length f) (tail_entry g key text) head head_le r.max_size);
    inside = omega (
      arith,
      length-middle,
      length-write middle (slot hashoff b0) (padded 7 (length f))
          (omega (arith, p_in, first-Frame.longer)),
    );
  }

  clear :
      (ds : List Cell)
      → All (λ (d : Cell). d.at + span d.entry ≤ length f) ds
      → All (Placed hashoff nhash) ds
      → All (λ (d : Cell). Clear d.at (span d.entry) rs) ds
  clear [] a b = tt
  clear (d ∷ ds) a b = ((inl a.0, (inr (omega (arith, b.0.0, lt)), tt)), clear ds a.1 b.1)

  row_inside : (b : ℕ) → b < nhash → All (λ (d : Cell). d.at + span d.entry ≤ length f) (rows b)
  row_inside b k = let (h, at, le, chain) = l.bucket b k in Chain-inside f h (rows b) chain

  new-Disjoint :
      (ds : List Cell)
      → All (λ (d : Cell). d.at + span d.entry ≤ length f) ds
      → All (DataIn g) ds
      → All (Disjoint n) ds
  new-Disjoint [] a b = tt
  new-Disjoint (d ∷ ds) a b = ((inr a.0, inr b.0), new-Disjoint ds a.1 b.1)

  pub append-Adds :
      ((k : Bytes) → str_eq key k ≡ true → Misses k (rows b0))
      → Adds hashoff nhash f g
          (longer_index f g (slot hashoff b0) head key text)
          (longer_data g text)
          rows
          free
          b0
          n
          head
          rs
  append-Adds fresh =
      let (h, at, le, chain) = l.free_list in
      let free_in = Chain-inside f h free chain in
      record {
        frame = frame;
        Clear-slots = λ b k d. (omega (arith, l.table_in, k), (omega (arith, d), tt));
        clear_rows = λ b k. clear (rows b) (row_inside b k) (l.row_places b k);
        head_at = ch;
        link =
            rw (length-padded (length f) 6 (omega arith)) at
              (slice-write_self middle (slot hashoff b0) (padded 7 (length f)));
        stored = stored;
        placed = (l.table_in, im);
        free_list = (
          h,
          PtrAt-Frame frame 0 h (omega (arith, p_in, l.low))
              (omega (arith, p_in, l.low), (omega (arith, l.low), tt)) at,
          le,
          Chain-Frame frame h free (clear free free_in l.free_places) chain,
        );
        free_places = l.free_places;
        free_data =
            All-map (DataIn g) (DataIn (longer_data g text))
              (λ d k.
                omega (arith, k, length-write g (length g) (text ++ newline ∷ []) (omega arith)))
              free l.free_data;
        free_sparse = l.free_sparse;
        free_apart = l.free_apart;
        new_free = new-Disjoint free free_in l.free_data;
        new_rows = λ b k.
            new-Disjoint (rows b) (row_inside b k) (
              All-map (HasData g) (DataIn g) (λ d h. HasData-inside g d h) (rows b)
                (l.records b k));
        old_data = λ b k.
            All-map (HasData g) (HasData (longer_data g text))
              (λ d h. HasData-append g (text ++ newline ∷ []) d h) (rows b) (l.records b k);
        new_data = written-HasData g (length g) n refl refl no_nul;
        fresh = fresh;
      }
