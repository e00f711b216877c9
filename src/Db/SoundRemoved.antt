-- ===== src/Db/SoundRemoved.antt =====
-- What db_delete leaves is sound, with the record in the free list.
use mathlib.Core.Path.{subst}
use learning_notes.Base.{
  ℕ, ◌+◌, ◌≤◌, ◌<◌, ◌≡◌, ◌≢◌, refl, sym, List, [], ◌∷◌, ◌++◌, arith, length, write, replicate,
  length-replicate, length-append, length-write, All, All-map,
}
use learning_notes.CString.{Bytes}
use learning_notes.Db.{ptr_max, space, newline, Db}
use learning_notes.Db.Search.{hash}
use learning_notes.Db.Chain.{Cell, IsStored, HasData, Chain}
use learning_notes.Db.Locate.{chain_of}
use learning_notes.Db.Frame.{PtrAt-Frame, Chain-Frame}
use learning_notes.Db.Delete.{length-blank}
use learning_notes.Db.Unlink.{place}
use learning_notes.Db.Removed.{Removed}
use learning_notes.Db.DeleteFetch.{Single}
use learning_notes.Db.Cells.{
  DataIn, HasData-inside, Disjoint, Disjoint-sym, Sparse, Sparse-without, Between, Between-sym,
  All-without, Single-without,
}
use learning_notes.Db.Sound.{slot, table_end, From, Placed, Layout, Sound, Sound-eq, hash-lt}
use learning_notes.Db.Rows.{update, update-ind}
use learning_notes.Db.SoundDelete.{
  emptied, blank-IsReadable, Chain-stored, HasData-Apart, Clear-cells, Clear-slot,
}

-- A record that is emptied keeps apart from what it kept apart from.
Disjoint-emptied : (c d : Cell) → Disjoint c d → Disjoint (emptied c) d
Disjoint-emptied c d (a, b) = (omega (arith, a, length-blank c.entry), b)

module _ (db db' : Db) (rows : ℕ → List Cell) (free : List Cell) (key : Bytes)
    (pre post : List Cell) (c : Cell) (head first : ℕ) (s : Sound db rows free)
    (whole : rows (hash db key) ≡ pre ++ c ∷ post)
    (ch : Chain db.idxfd.bytes head (pre ++ c ∷ post)) (free_le : first ≤ ptr_max)
    (chf : Chain db.idxfd.bytes first free)
    (z : Removed db db' key (place (chain_of db key) pre) c (pre ++ post) first) where
  lt : hash db key < db.nhash
  lt = hash-lt db key s.table

  abbrev rows' : ℕ → List Cell
  rows' = update rows (hash db key) (pre ++ post)

  placed : All (Placed db.hashoff db.nhash) (pre ++ c ∷ post)
  placed = subst (All (Placed db.hashoff db.nhash)) whole (s.row_places (hash db key) lt)

  sparse : Sparse (pre ++ c ∷ post)
  sparse = subst Sparse whole (s.row_sparse (hash db key) lt)

  -- The others keep apart from the records of the bucket.
  others : (b : ℕ) → b < db.nhash → b ≢ hash db key → Between (rows b) (pre ++ c ∷ post)
  others b l n = subst (Between (rows b)) whole (s.rows_apart b (hash db key) l lt n)

  free_apart : Between free (pre ++ c ∷ post)
  free_apart =
      subst (Between free) whole
        (Between-sym (rows (hash db key)) free (s.free_apart (hash db key) lt))

  slot_in : (b : ℕ) → b < db.nhash → slot db.hashoff b + 7 ≤ table_end db.hashoff db.nhash
  slot_in b l = omega arith

  low_in : 0 + 7 ≤ table_end db.hashoff db.nhash
  low_in = omega (arith, s.low)

  other-bucket :
      (b : ℕ) → b < db.nhash → b ≢ hash db key → From db'.idxfd.bytes (slot db.hashoff b) (rows b)
  other-bucket b l n =
      let (h, at, le, chain) = s.bucket b l in
      (
        h,
        PtrAt-Frame z.frame (slot db.hashoff b) h (omega (arith, s.table_in, slot_in b l))
            (Clear-slot db.hashoff db.nhash 0 (chain_of db key) pre post c low_in
              (slot db.hashoff b) (omega arith) (slot_in b l) (omega arith) (omega (arith, s.low))
              placed)
            at,
        le,
        Chain-Frame z.frame h (rows b)
            (Clear-cells db.hashoff db.nhash 0 (chain_of db key) pre post c low_in (rows b)
              (slot_in (hash db key) lt) (s.row_places b l) (others b l n))
            chain,
      )

  bucket' : (b : ℕ) → b < db.nhash → From db'.idxfd.bytes (slot db.hashoff b) (rows' b)
  bucket' b =
      update-ind (λ b cs. b < db.nhash → From db'.idxfd.bytes (slot db.hashoff b) cs) rows
        (hash db key) (pre ++ post) (λ l. (z.new_head, z.head_at, z.head_le, z.chain))
        (λ b n l. other-bucket b l n) b

  at_c : Placed db.hashoff db.nhash c
  at_c = (All-without (Placed db.hashoff db.nhash) pre post c placed).0

  emptied-stored : IsStored db'.idxfd.bytes (emptied c) first
  emptied-stored =
      let (next, st) = Chain-stored db.idxfd.bytes head pre post c ch in
      record {
        ne_zero = st.ne_zero;
        readable = blank-IsReadable c.entry st.readable;
        entry_at = z.blank_at;
        inside = omega (arith, st.inside, length-blank c.entry, z.frame.longer);
      }

  free' : From db'.idxfd.bytes 0 (emptied c ∷ free)
  free' = (
    c.at,
    z.free_at,
    at_c.1,
    (
      first,
      refl,
      emptied-stored,
      Chain-Frame z.frame first free
          (Clear-cells db.hashoff db.nhash 0 (chain_of db key) pre post c low_in free
            (slot_in (hash db key) lt) s.free_places free_apart)
          chf,
    ),
  )

  -- The data of the other records stay.
  kept-data :
      (ds : List Cell)
      → All (Disjoint c) ds
      → c.entry.datlen ≡ length c.text + 1
      → All (HasData db.datfd.bytes) ds
      → All
          (HasData
            (write db.datfd.bytes c.entry.datoff (replicate (length c.text) space ++ newline ∷ [])))
          ds
  kept-data [] a e h = tt
  kept-data (d ∷ ds) a e h = (
    HasData-Apart db.datfd.bytes (replicate (length c.text) space ++ newline ∷ []) c.entry.datoff
        c.entry.datlen d
        (omega (
          arith,
          e,
          length-append (replicate (length c.text) space) (newline ∷ []),
          length-replicate {A = ℕ} (length c.text) space,
        ))
        a.0.1 h.0,
    kept-data ds a.1 e h.1,
  )

  held : All (HasData db.datfd.bytes) (pre ++ c ∷ post)
  held = subst (All (HasData db.datfd.bytes)) whole (s.records (hash db key) lt)

  size_c : c.entry.datlen ≡ length c.text + 1
  size_c = (All-without (HasData db.datfd.bytes) pre post c held).0.size

  held_c : HasData db.datfd.bytes c
  held_c = (All-without (HasData db.datfd.bytes) pre post c held).0

  in-data :
      (d : Cell)
      → DataIn db.datfd.bytes d
      → DataIn
          (write db.datfd.bytes c.entry.datoff (replicate (length c.text) space ++ newline ∷ []))
          d
  in-data d h = omega (
    arith,
    h,
    HasData-inside db.datfd.bytes c held_c,
    length-write db.datfd.bytes c.entry.datoff (replicate (length c.text) space ++ newline ∷ [])
        (omega (arith, HasData-inside db.datfd.bytes c held_c)),
  )

  apart_c : (b : ℕ) → b < db.nhash → b ≢ hash db key → All (Disjoint c) (rows b)
  apart_c b l n =
      (All-without (λ (x : Cell). All (Disjoint x) (rows b)) pre post c
        (Between-sym (rows b) (pre ++ c ∷ post) (others b l n))).0

  records' :
      (b : ℕ)
      → b < db.nhash
      → All
          (HasData
            (write db.datfd.bytes c.entry.datoff (replicate (length c.text) space ++ newline ∷ [])))
          (rows' b)
  records' b =
      update-ind
        (λ b cs.
          b < db.nhash
          → All
              (HasData (
                write db.datfd.bytes c.entry.datoff
                  (replicate (length c.text) space ++ newline ∷ [])))
              cs)
        rows (hash db key) (pre ++ post)
        (λ l.
          kept-data (pre ++ post) (Sparse-without pre post c sparse).0 size_c
            (All-without (HasData db.datfd.bytes) pre post c held).1)
        (λ b n l. kept-data (rows b) (apart_c b l n) size_c (s.records b l)) b

  pub Layout-removed :
      Layout [] db.hashoff db.nhash db'.idxfd.bytes
        (write db.datfd.bytes c.entry.datoff (replicate (length c.text) space ++ newline ∷ []))
        rows'
        (emptied c ∷ free)
  Layout-removed = record {
    no_locks = refl;
    low = s.low;
    table = s.table;
    table_in = omega (arith, s.table_in, z.frame.longer);
    bucket = bucket';
    free_list = free';
    row_places = λ b.
        update-ind (λ b cs. b < db.nhash → All (Placed db.hashoff db.nhash) cs) rows (hash db key)
          (pre ++ post) (λ l. (All-without (Placed db.hashoff db.nhash) pre post c placed).1)
          (λ b n l. s.row_places b l) b;
    free_places = (at_c, s.free_places);
    free_data = (
      in-data c (HasData-inside db.datfd.bytes c held_c),
      All-map (DataIn db.datfd.bytes)
          (DataIn
            (write db.datfd.bytes c.entry.datoff (replicate (length c.text) space ++ newline ∷ [])))
          in-data free s.free_data,
    );
    records = records';
    row_sparse = λ b.
        update-ind (λ b cs. b < db.nhash → Sparse cs) rows (hash db key) (pre ++ post)
          (λ l. (Sparse-without pre post c sparse).1) (λ b n l. s.row_sparse b l) b;
    free_sparse = (
      All-map (Disjoint c) (Disjoint (emptied c)) (λ d p. Disjoint-emptied c d p) free
          (All-without (λ (x : Cell). All (Disjoint x) free) pre post c
            (Between-sym free (pre ++ c ∷ post) free_apart)).0,
      s.free_sparse,
    );
    rows_apart = λ b b'.
        update-ind (λ b cs. b < db.nhash → b' < db.nhash → b ≢ b' → Between cs (rows' b')) rows
          (hash db key) (pre ++ post) (λ l l' n. rest-apart b' l' (λ e. n (sym e)))
          (λ b n l l' d. old-apart b n l b' l' d) b;
    free_apart = λ b.
        update-ind (λ b cs. b < db.nhash → Between cs (emptied c ∷ free)) rows (hash db key)
          (pre ++ post)
          (λ l.
            with-emptied (pre ++ post) (Sparse-without pre post c sparse).0
              (Between-sym free (pre ++ post) (without-Between free free_apart)))
          (λ b n l. with-emptied (rows b) (apart_c b l n) (s.free_apart b l)) b;
    unique = λ b.
        update-ind (λ b cs. b < db.nhash → (k : Bytes) → Single k cs) rows (hash db key)
          (pre ++ post)
          (λ l k.
            Single-without k pre post c
              (subst (λ cs. Single k cs) whole (s.unique (hash db key) lt k)))
          (λ b n l k. s.unique b l k) b;
  }
    where
      without-Between : (ds : List Cell) → Between ds (pre ++ c ∷ post) → Between ds (pre ++ post)
      without-Between ds h =
          All-map (λ (d : Cell). All (Disjoint d) (pre ++ c ∷ post))
            (λ (d : Cell). All (Disjoint d) (pre ++ post))
            (λ d p. (All-without (Disjoint d) pre post c p).1) ds h

      rest-apart : (b' : ℕ) → b' < db.nhash → b' ≢ hash db key → Between (pre ++ post) (rows' b')
      rest-apart b' l' n =
          update-ind (λ b cs. b < db.nhash → b ≢ hash db key → Between (pre ++ post) cs) rows
            (hash db key) (pre ++ post) (λ l d. absurd (d refl))
            (λ b d l e.
              Between-sym (rows b) (pre ++ post) (without-Between (rows b) (others b l d)))
            b' l' n

      old-apart :
          (b : ℕ)
          → b ≢ hash db key
          → b < db.nhash
          → (b' : ℕ) → b' < db.nhash
          → b ≢ b'
          → Between (rows b) (rows' b')
      old-apart b n l b' l' d =
          update-ind (λ b' cs. b' < db.nhash → b ≢ b' → Between (rows b) cs) rows (hash db key)
            (pre ++ post) (λ l' e. without-Between (rows b) (others b l n))
            (λ b' m l' e. s.rows_apart b b' l l' e) b' l' d

      with-emptied :
          (ds : List Cell) → All (Disjoint c) ds → Between ds free → Between ds (emptied c ∷ free)
      with-emptied [] a h = tt
      with-emptied (d ∷ ds) a h =
          ((Disjoint-sym (emptied c) d (Disjoint-emptied c d a.0), h.0), with-emptied ds a.1 h.1)

  pub Sound-removed : Sound db' rows' (emptied c ∷ free)
  Sound-removed =
      Sound-eq db' rows' (emptied c ∷ free) z.locks z.hashoff z.nhash refl z.records Layout-removed
