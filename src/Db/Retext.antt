-- ===== src/Db/Retext.antt =====
-- db_store of a text as long as the one that the key has: it is written over the data of the
-- record, and the index file stays.
use mathlib.Core.Path.{subst}
use learning_notes.Base.{
  ℕ, ◌+◌, ◌<◌, ◌≡◌, ◌≢◌, refl, false, some, List, [], ◌∷◌, ◌++◌, arith, length, write, All, All-map,
  length-append, length-write, if◌then◌else◌, inl, inr, Bool-cases,
}
use learning_notes.CString.{Bytes, str_eq}
use learning_notes.CString.Fields.{Lacks, eq_of_str_eq}
use learning_notes.Db.{newline}
use learning_notes.Db.Chain.{Cell, HasData, Chain}
use learning_notes.Db.Unlink.{Misses}
use learning_notes.Db.DeleteFetch.{Single}
use learning_notes.Db.Cells.{
  DataIn, HasData-inside, Disjoint, Sparse, Sparse-without, Between, Between-sym, All-without,
}
use learning_notes.Db.Sound.{slot, From, Placed, Layout, find_text}
use learning_notes.Db.Rows.{update, update-ind}
use learning_notes.Db.SoundDelete.{HasData-Apart}
use learning_notes.Db.Append.{written-HasData}

-- The record with another text.
abbrev pub retext : Cell → Bytes → Cell
retext c text = record { at = c.at; entry = c.entry; text = text }

abbrev pub retext_data : Bytes → Cell → Bytes → Bytes
retext_data g c text = write g c.entry.datoff (text ++ newline ∷ [])

All-swap :
    (P Q : Cell → Type 0) (pre post : List Cell) (c c' : Cell)
    → ((d : Cell) → P d → Q d)
    → (P c → Q c')
    → All P (pre ++ c ∷ post)
    → All Q (pre ++ c' ∷ post)
All-swap P Q [] post c c' f g a = (g a.0, All-map P Q f post a.1)
All-swap P Q (x ∷ pre) post c c' f g a = (f x a.0, All-swap P Q pre post c c' f g a.1)

module _ (c : Cell) (text : Bytes) where
  Chain-retext :
      (f : Bytes) (o : ℕ) (pre post : List Cell)
      → Chain f o (pre ++ c ∷ post)
      → Chain f o (pre ++ retext c text ∷ post)
  Chain-retext f o [] post (next, here, st, ch) = (
    next,
    here,
    record {
      ne_zero = st.ne_zero;
      readable = st.readable;
      entry_at = st.entry_at;
      inside = st.inside;
    },
    ch,
  )
  Chain-retext f o (x ∷ pre) post (next, here, st, ch) =
      (next, here, st, Chain-retext f next pre post ch)

  Sparse-retext :
      (pre post : List Cell) → Sparse (pre ++ c ∷ post) → Sparse (pre ++ retext c text ∷ post)
  Sparse-retext [] post s = s
  Sparse-retext (x ∷ pre) post s = (
    All-swap (Disjoint x) (Disjoint x) pre post c (retext c text) (λ d h. h) (λ h. h) s.0,
    Sparse-retext pre post s.1,
  )

  Single-retext :
      (key : Bytes) (pre post : List Cell)
      → Single key (pre ++ c ∷ post)
      → Single key (pre ++ retext c text ∷ post)
  Single-retext key [] post s = s
  Single-retext key (x ∷ pre) post s = (
    λ hit.
        All-swap (λ (d : Cell). str_eq d.entry.key key ≡ false)
          (λ (d : Cell). str_eq d.entry.key key ≡ false) pre post c (retext c text) (λ d h. h)
          (λ h. h) (s.0 hit),
    Single-retext key pre post s.1,
  )

  pub find_text-retext :
      (key k : Bytes) (pre post : List Cell)
      → Misses key pre
      → c.entry.key ≡ key
      → find_text k (pre ++ retext c text ∷ post)
        ≡ (if str_eq key k then some text else find_text k (pre ++ c ∷ post))
  find_text-retext key k [] post m e = elim (Bool-cases (str_eq key k)) [
    | inl hit ↦ rw (e, hit) refl
    | inr miss ↦ rw (e, miss) refl
  ]
  find_text-retext key k (x ∷ pre) post m e = elim (Bool-cases (str_eq key k)) [
    | inl hit ↦
        (let other : str_eq x.entry.key k ≡ false =
            subst (λ (t : Bytes). str_eq x.entry.key t ≡ false) (eq_of_str_eq key k hit) m.0 in
          rw (other, find_text-retext key k pre post m.1 e, hit) refl)
    | inr miss ↦ rw (find_text-retext key k pre post m.1 e, miss) refl
  ]

module _ (hashoff nhash : ℕ) (f g : Bytes) (rows : ℕ → List Cell) (free : List Cell) (b0 : ℕ)
    (pre post : List Cell) (c : Cell) (text : Bytes) (l : Layout [] hashoff nhash f g rows free)
    (lt : b0 < nhash) (whole : rows b0 ≡ pre ++ c ∷ post) (t : c.entry.datlen ≡ length text + 1)
    (no_nul : Lacks 0 text) where
  abbrev cs' : List Cell
  cs' = pre ++ retext c text ∷ post

  abbrev rows' : ℕ → List Cell
  rows' = update rows b0 (pre ++ retext c text ∷ post)

  -- What holds of the old records of the bucket and of the others, and passes on to the new ones.
  each :
      (P : ℕ → List Cell → Type 0)
      → (P b0 (pre ++ c ∷ post) → P b0 (pre ++ retext c text ∷ post))
      → ((b : ℕ) → b < nhash → P b (rows b))
      → (b : ℕ) → b < nhash
      → P b (rows' b)
  each P pass all =
      update-ind (λ b cs. b < nhash → P b cs) rows b0 (pre ++ retext c text ∷ post)
        (λ lb. pass (subst (P b0) whole (all b0 lb))) (λ b d lb. all b lb)

  Between-new : (ds : List Cell) → Between (pre ++ c ∷ post) ds → Between cs' ds
  Between-new ds =
      All-swap (λ (d : Cell). All (Disjoint d) ds) (λ (d : Cell). All (Disjoint d) ds) pre post c
        (retext c text) (λ d h. h) (λ h. h)

  kept-data :
      (ds : List Cell)
      → All (Disjoint c) ds
      → All (HasData g) ds
      → All (HasData (retext_data g c text)) ds
  kept-data [] a h = tt
  kept-data (d ∷ ds) a h = (
    HasData-Apart g (text ++ newline ∷ []) c.entry.datoff c.entry.datlen d
        (omega (arith, t, length-append text (newline ∷ []))) a.0.1 h.0,
    kept-data ds a.1 h.1,
  )

  -- The new record among those that it keeps apart from.
  insert_back :
      (P : Cell → Type 0) (xs ys : List Cell)
      → P (retext c text)
      → All P (xs ++ ys)
      → All P (xs ++ retext c text ∷ ys)
  insert_back P [] ys h a = (h, a)
  insert_back P (x ∷ xs) ys h a = (a.0, insert_back P xs ys h a.1)

  others : (b : ℕ) → b < nhash → b ≢ b0 → All (Disjoint c) (rows b)
  others b lb n =
      (All-without (λ (x : Cell). All (Disjoint x) (rows b)) pre post c
        (Between-sym (rows b) (pre ++ c ∷ post)
          (subst (Between (rows b)) whole (l.rows_apart b b0 lb lt n)))).0

  old : All (HasData g) (pre ++ c ∷ post)
  old = subst (All (HasData g)) whole (l.records b0 lt)

  data_in : DataIn g c
  data_in = HasData-inside g c (All-without (HasData g) pre post c old).0

  pub Layout-retext : Layout [] hashoff nhash f (retext_data g c text) rows' free
  Layout-retext = record {
    no_locks = refl;
    low = l.low;
    table = l.table;
    table_in = l.table_in;
    bucket =
        each (λ b cs. From f (slot hashoff b) cs)
          (λ (h, at, le, ch). (h, at, le, Chain-retext c text f h pre post ch)) l.bucket;
    free_list = l.free_list;
    row_places =
        each (λ b cs. All (Placed hashoff nhash) cs)
          (All-swap (Placed hashoff nhash) (Placed hashoff nhash) pre post c (retext c text)
            (λ d h. h) (λ h. h))
          l.row_places;
    free_places = l.free_places;
    free_data =
        All-map (DataIn g) (DataIn (retext_data g c text))
          (λ d i. omega (
            arith,
            i,
            length-write g c.entry.datoff (text ++ newline ∷ []) (omega (arith, data_in)),
          ))
          free l.free_data;
    records =
        update-ind (λ b cs. b < nhash → All (HasData (retext_data g c text)) cs) rows b0 cs'
          (λ lb.
            insert_back (HasData (retext_data g c text)) pre post
              (written-HasData g c.entry.datoff (retext c text) refl t no_nul)
              (kept-data (pre ++ post)
                (Sparse-without pre post c (subst Sparse whole (l.row_sparse b0 lt))).0
                (All-without (HasData g) pre post c old).1))
          (λ b n lb. kept-data (rows b) (others b lb n) (l.records b lb));
    row_sparse = each (λ b cs. Sparse cs) (Sparse-retext c text pre post) l.row_sparse;
    free_sparse = l.free_sparse;
    rows_apart = λ b b' lb lb' n.
        each (λ b' cs. b ≢ b' → Between (rows' b) cs)
          (λ h m.
            Between-sym cs' (rows' b)
              (Between-new (rows' b) (Between-sym (rows' b) (pre ++ c ∷ post) (h m))))
          (λ b' lb' m.
            each (λ b cs. b ≢ b' → Between cs (rows b')) (λ h e. Between-new (rows b') (h e))
              (λ b lb e. l.rows_apart b b' lb lb' e) b lb m)
          b' lb' n;
    free_apart = each (λ b cs. Between cs free) (Between-new free) l.free_apart;
    unique =
        each (λ b cs. (k : Bytes) → Single k cs) (λ h k. Single-retext c text k pre post (h k))
          l.unique;
  }
