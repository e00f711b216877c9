-- ===== src/Db/Reuse.antt =====
-- db_store in the place of an empty record: what is written over it, as an addition to a layout.
use learning_notes.Base.{
  ℕ, ◌+◌, ◌≤◌, ◌<◌, ◌≡◌, refl, ◌∙◌, true, inl, inr, List, [], ◌∷◌, ◌++◌, arith, length, write, All,
  All-map, All-parts, length-append, length-write, slice-write_self,
}
use learning_notes.CString.{Bytes, str_eq, padded}
use learning_notes.CString.Digits.{length-padded}
use learning_notes.CString.Fields.{Lacks}
use learning_notes.Db.{ptr_max, newline}
use learning_notes.Db.Io.{record_text}
use learning_notes.Db.Entry.{Entry, entry_text, IsReadable, PtrAt}
use learning_notes.Db.Image.{image, span, Apart, length-image, EntryAt-write, EntryAt-write-Apart}
use learning_notes.Db.Chain.{Cell, IsStored, HasData, Chain}
use learning_notes.Db.Frame.{Region, Frame, Frame-write, Frame-trans, PtrAt-Frame}
use learning_notes.Db.Unlink.{Misses, place, place-Apart, unlink}
use learning_notes.Db.Sites.{Chain-inside, place_in}
use learning_notes.Db.Cells.{
  DataIn, Disjoint, Sparse-without, Sparse-Spread, Between-sym, All-without,
}
use learning_notes.Db.Sound.{slot, table_end, Placed, Layout}
use learning_notes.Db.SoundDelete.{HasData-Apart, Clear-cells, Clear-slot}
use learning_notes.Db.Added.{Adds}
use learning_notes.Db.Append.{written-HasData}

-- The record that takes the place of the empty record `c`, and both files behind it.
abbrev pub reuse_entry : Cell → Bytes → Bytes → Entry
reuse_entry c key text = record { key = key; datoff = c.entry.datoff; datlen = length text + 1 }

abbrev pub reuse_cell : Cell → Bytes → Bytes → Cell
reuse_cell c key text = record { at = c.at; entry = reuse_entry c key text; text = text }

abbrev pub reuse_index : Bytes → Cell → ℕ → ℕ → ℕ → ℕ → Bytes → Bytes → Bytes
reuse_index f c q next p head key text =
    write (write (write f q (padded 7 next)) c.at (image head (reuse_entry c key text))) p
      (padded 7 c.at)

abbrev pub reuse_data : Bytes → Cell → Bytes → Bytes
reuse_data g c text = write g c.entry.datoff (text ++ newline ∷ [])

pub span-reuse :
    (c : Cell) (key text : Bytes)
    → length c.entry.key ≡ length key
    → c.entry.datlen ≡ length text + 1
    → length (entry_text (reuse_entry c key text)) ≡ length (entry_text c.entry)
unfolding record_text
span-reuse c key text k t = rw (← t) (omega (arith, length-append key, length-append c.entry.key))

-- The order of three regions does not matter.
Frame-turn :
    (f f' : Bytes) (a b c : Region) → Frame f f' (a ∷ b ∷ c ∷ []) → Frame f f' (b ∷ c ∷ a ∷ [])
Frame-turn f f' a b c fr = record {
  same = λ q n inside away. fr.same q n inside (away.1.1.0, (away.0, (away.1.0, tt)));
  longer = fr.longer;
}

module _ (hashoff nhash : ℕ) (f g : Bytes) (rows : ℕ → List Cell) (pre post : List Cell) (c : Cell)
    (b0 head first next : ℕ) (key text : Bytes)
    (l : Layout [] hashoff nhash f g rows (pre ++ c ∷ post)) (lt : b0 < nhash)
    (head_le : head ≤ ptr_max) (ch : Chain f head (rows b0)) (first_le : first ≤ ptr_max)
    (first_at : PtrAt f 0 first) (chf : Chain f first (pre ++ c ∷ post)) (st : IsStored f c next)
    (k : length c.entry.key ≡ length key) (t : c.entry.datlen ≡ length text + 1)
    (r : IsReadable (reuse_entry c key text)) (no_nul : Lacks 0 text) where
  abbrev p : ℕ
  p = slot hashoff b0

  abbrev q : ℕ
  q = place 0 pre

  abbrev e : Entry
  e = reuse_entry c key text

  abbrev f1 : Bytes
  f1 = write f (place 0 pre) (padded 7 next)

  abbrev f2 : Bytes
  f2 = write f1 c.at (image head (reuse_entry c key text))

  abbrev f3 : Bytes
  f3 = reuse_index f c (place 0 pre) next (slot hashoff b0) head key text

  abbrev rs : List Region
  rs = (c.at, span c.entry) ∷ (slot hashoff b0, 7) ∷ (place 0 pre, 7) ∷ []

  same-span : span (reuse_entry c key text) ≡ span c.entry
  same-span = omega (arith, span-reuse c key text k t)

  p_in : slot hashoff b0 + 7 ≤ table_end hashoff nhash
  p_in = omega (arith, lt)

  placed : Placed hashoff nhash c × All (Placed hashoff nhash) (pre ++ post)
  placed = All-without (Placed hashoff nhash) pre post c l.free_places

  sparse : All (Disjoint c) pre × All (Disjoint c) post
  sparse = All-parts (Disjoint c) pre post (Sparse-without pre post c l.free_sparse).0

  q_in : place 0 pre + 7 ≤ length f
  q_in =
      place_in f 0 pre (omega (arith, l.table_in, l.low))
        (All-parts (λ (d : Cell). d.at + span d.entry ≤ length f) pre (c ∷ post)
          (Chain-inside f first (pre ++ c ∷ post) chf)).0

  c-q : Apart c.at (span c.entry) (place 0 pre) 7
  c-q = place-Apart c.at (span c.entry) 0 pre (inr (omega (arith, placed.0.0, l.low))) (
      All-map (Disjoint c) (λ (d : Cell). Apart c.at (span c.entry) d.at (span d.entry))
        (λ d h. h.0) pre sparse.0)

  p-q : Apart (slot hashoff b0) 7 (place 0 pre) 7
  p-q = place-Apart (slot hashoff b0) 7 0 pre (inr (omega (arith, l.low))) (
      All-map (Placed hashoff nhash) (λ (d : Cell). Apart (slot hashoff b0) 7 d.at (span d.entry))
        (λ d h. inl (omega (arith, h.0, lt))) pre
        (All-parts (Placed hashoff nhash) pre post placed.1).0)

  l_image : length (image head (reuse_entry c key text)) ≡ span c.entry
  l_image = length-image head (reuse_entry c key text) head_le r.max_size ∙ same-span

  fr1 : Frame f f1 ((place 0 pre, 7) ∷ [])
  fr1 =
      Frame-write f (place 0 pre) 7 (padded 7 next) (omega (arith, q_in))
        (length-padded next 6 (omega arith))

  fr2 : Frame f1 f2 ((c.at, span c.entry) ∷ [])
  fr2 =
      Frame-write f1 c.at (span c.entry) (image head (reuse_entry c key text))
        (omega (arith, st.inside, fr1.longer)) l_image

  fr3 : Frame f2 f3 ((slot hashoff b0, 7) ∷ [])
  fr3 =
      Frame-write f2 (slot hashoff b0) 7 (padded 7 c.at)
        (omega (arith, p_in, l.table_in, fr1.longer, fr2.longer))
        (length-padded c.at 6 (omega (arith, placed.0.1)))

  later : Frame f1 f3 ((c.at, span c.entry) ∷ (slot hashoff b0, 7) ∷ [])
  later = Frame-trans f1 f2 f3 ((c.at, span c.entry) ∷ []) ((slot hashoff b0, 7) ∷ []) fr2 fr3

  frame : Frame f f3 rs
  frame =
      Frame-turn f f3 (place 0 pre, 7) (c.at, span c.entry) (slot hashoff b0, 7)
        (Frame-trans f f1 f3 ((place 0 pre, 7) ∷ [])
          ((c.at, span c.entry) ∷ (slot hashoff b0, 7) ∷ []) fr1 later)

  q_at : PtrAt f3 (place 0 pre) next
  q_at =
      PtrAt-Frame later (place 0 pre) next (omega (arith, q_in, fr1.longer))
        (omega (arith, c-q), (omega (arith, p-q), tt))
        (rw (length-padded next 6 (omega arith)) at
          (slice-write_self f (place 0 pre) (padded 7 next)))

  free' : (h : ℕ) × (h ≤ ptr_max) × PtrAt f3 0 h × Chain f3 h (pre ++ post)
  free' =
      unlink (slot hashoff b0) f f3 pre post c next 0 first first_at first_le st.entry_at.next_le
        chf st.entry_at.link frame q_at (Sparse-Spread (pre ++ c ∷ post) l.free_sparse)
        (All-map (Placed hashoff nhash)
          (λ (d : Cell). Apart (slot hashoff b0) 7 d.at (span d.entry))
          (λ d h. inl (omega (arith, h.0, lt))) (pre ++ c ∷ post) l.free_places)
        (inr (omega (arith, l.low))) (omega (arith, l.table_in, l.low))
        (All-map (Placed hashoff nhash) (λ (d : Cell). Apart 0 7 d.at (span d.entry))
          (λ d h. inl (omega (arith, h.0, l.low))) (pre ++ c ∷ post) l.free_places)

  stored : IsStored f3 (reuse_cell c key text) head
  stored = record {
    ne_zero = st.ne_zero;
    readable = r;
    entry_at =
        EntryAt-write-Apart f2 (slot hashoff b0) (padded 7 c.at) c.at (reuse_entry c key text) head
          (omega (arith, same-span, st.inside, fr1.longer, fr2.longer))
          (omega (arith, placed.0.0, lt, length-padded c.at 6 (omega (arith, placed.0.1))))
          (EntryAt-write f1 c.at (reuse_entry c key text) head head_le r.max_size);
    inside = omega (arith, same-span, st.inside, frame.longer);
  }

  -- What keeps apart from the empty record keeps apart from the new one.
  new-Disjoint : (ds : List Cell) → All (Disjoint c) ds → All (Disjoint (reuse_cell c key text)) ds
  new-Disjoint =
      All-map (Disjoint c) (Disjoint (reuse_cell c key text))
        (λ d h. (omega (arith, h.0, same-span), omega (arith, h.1, t)))

  row_apart : (b : ℕ) → b < nhash → All (Disjoint c) (rows b)
  row_apart b lb =
      (All-without (λ (x : Cell). All (Disjoint x) (rows b)) pre post c
        (Between-sym (rows b) (pre ++ c ∷ post) (l.free_apart b lb))).0

  kept-data :
      (ds : List Cell)
      → All (Disjoint c) ds
      → All (HasData g) ds
      → All (HasData (reuse_data g c text)) ds
  kept-data [] a h = tt
  kept-data (d ∷ ds) a h = (
    HasData-Apart g (text ++ newline ∷ []) c.entry.datoff c.entry.datlen d
        (omega (arith, t, length-append text (newline ∷ []))) a.0.1 h.0,
    kept-data ds a.1 h.1,
  )

  pub reuse-Adds :
      ((x : Bytes) → str_eq key x ≡ true → Misses x (rows b0))
      → Adds hashoff nhash f g f3
          (reuse_data g c text)
          rows
          (pre ++ post)
          b0
          (reuse_cell c key text)
          head
          rs
  reuse-Adds fresh =
      let (h, le, at, chain) = free' in
      let data_in = All-without (DataIn g) pre post c l.free_data in
      record {
        frame = frame;
        Clear-slots = λ b lb d.
            Clear-slot hashoff nhash (slot hashoff b0) 0 pre post c p_in (slot hashoff b)
              (omega arith) (omega (arith, lb)) (inr (omega (arith, l.low))) (omega (arith, d))
              l.free_places;
        clear_rows = λ b lb.
            Clear-cells hashoff nhash (slot hashoff b0) 0 pre post c p_in (rows b)
              (omega (arith, l.low)) (l.row_places b lb) (l.free_apart b lb);
        head_at = ch;
        link =
            rw (length-padded c.at 6 (omega (arith, placed.0.1))) at
              (slice-write_self f2 (slot hashoff b0) (padded 7 c.at));
        stored = stored;
        placed = placed.0;
        free_list = (h, at, le, chain);
        free_places = placed.1;
        free_data =
            All-map (DataIn g) (DataIn (reuse_data g c text))
              (λ d i. omega (
                arith,
                i,
                data_in.0,
                length-write g c.entry.datoff (text ++ newline ∷ []) (omega (arith, data_in.0)),
              ))
              (pre ++ post) data_in.1;
        free_sparse = (Sparse-without pre post c l.free_sparse).1;
        free_apart = λ b lb.
            All-map (λ (d : Cell). All (Disjoint d) (pre ++ c ∷ post))
              (λ (d : Cell). All (Disjoint d) (pre ++ post))
              (λ d i. (All-without (Disjoint d) pre post c i).1) (rows b) (l.free_apart b lb);
        new_free = new-Disjoint (pre ++ post) (Sparse-without pre post c l.free_sparse).0;
        new_rows = λ b lb. new-Disjoint (rows b) (row_apart b lb);
        old_data = λ b lb. kept-data (rows b) (row_apart b lb) (l.records b lb);
        new_data = written-HasData g c.entry.datoff (reuse_cell c key text) refl refl no_nul;
        fresh = fresh;
      }
