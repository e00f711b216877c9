-- ===== src/Db/Added.antt =====
-- A record is put in front of a bucket's chain: the layout that this leaves, wherever the record is.
use learning_notes.Base.{ℕ, ◌<◌, ◌≡◌, ◌≢◌, refl, true, List, [], ◌∷◌, arith, All}
use learning_notes.CString.{Bytes, str_eq}
use learning_notes.Db.Entry.{PtrAt}
use learning_notes.Db.Image.{span}
use learning_notes.Db.Chain.{Cell, IsStored, HasData, Chain}
use learning_notes.Db.Frame.{Region, Clear, Frame, PtrAt-Frame, Chain-Frame}
use learning_notes.Db.Unlink.{Misses}
use learning_notes.Db.DeleteFetch.{Single}
use learning_notes.Db.Cells.{DataIn, Disjoint, Disjoint-sym, Sparse, Between}
use learning_notes.Db.Sound.{slot, From, Placed, Layout}
use learning_notes.Db.Rows.{update, update-ind}

-- What the writes of db_store must keep to: `n` is the record, in front of what the bucket `b0` had.
pub record Adds (hashoff nhash : ℕ) (f g f' g' : Bytes) (rows : ℕ → List Cell) (free' : List Cell)
    (b0 : ℕ) (n : Cell) (head : ℕ) (rs : List Region) : Type 0 where
  pub frame : Frame f f' rs
  pub Clear-slots : (b : ℕ) → b < nhash → b ≢ b0 → Clear (slot hashoff b) 7 rs
  pub clear_rows : (b : ℕ) → b < nhash → All (λ (d : Cell). Clear d.at (span d.entry) rs) (rows b)
  pub head_at : Chain f head (rows b0)
  pub link : PtrAt f' (slot hashoff b0) n.at
  pub stored : IsStored f' n head
  pub placed : Placed hashoff nhash n
  pub free_list : From f' 0 free'
  pub free_places : All (Placed hashoff nhash) free'
  pub free_data : All (DataIn g') free'
  pub free_sparse : Sparse free'
  pub free_apart : (b : ℕ) → b < nhash → Between (rows b) free'
  pub new_free : All (Disjoint n) free'
  pub new_rows : (b : ℕ) → b < nhash → All (Disjoint n) (rows b)
  pub old_data : (b : ℕ) → b < nhash → All (HasData g') (rows b)
  pub new_data : HasData g' n
  pub fresh : (key : Bytes) → str_eq n.entry.key key ≡ true → Misses key (rows b0)

pub Layout-Adds :
    (hashoff nhash : ℕ) (f g f' g' : Bytes) (rows : ℕ → List Cell) (free free' : List Cell) (b0 : ℕ)
    (n : Cell) (head : ℕ) (rs : List Region)
    → b0 < nhash
    → Layout [] hashoff nhash f g rows free
    → Adds hashoff nhash f g f' g' rows free' b0 n head rs
    → Layout [] hashoff nhash f' g' (update rows b0 (n ∷ rows b0)) free'
Layout-Adds hashoff nhash f g f' g' rows free free' b0 n head rs lt0 s a = record {
  no_locks = refl;
  low = s.low;
  table = s.table;
  table_in = omega (arith, s.table_in, a.frame.longer);
  bucket =
      each (λ b cs. From f' (slot hashoff b) cs)
        (
          n.at,
          a.link,
          a.placed.1,
          (
            head,
            refl,
            a.stored,
            Chain-Frame a.frame head (rows b0) (a.clear_rows b0 lt0) a.head_at,
          ),
        )
        (λ b d l.
          let (h, at, le, ch) = s.bucket b l in
          (
            h,
            PtrAt-Frame a.frame (slot hashoff b) h (omega (arith, s.table_in)) (a.Clear-slots b l d)
                at,
            le,
            Chain-Frame a.frame h (rows b) (a.clear_rows b l) ch,
          ));
  free_list = a.free_list;
  row_places =
      each (λ b cs. All (Placed hashoff nhash) cs) (a.placed, s.row_places b0 lt0)
        (λ b d l. s.row_places b l);
  free_places = a.free_places;
  records =
      each (λ b cs. All (HasData g') cs) (a.new_data, a.old_data b0 lt0) (λ b d l. a.old_data b l);
  row_sparse =
      each (λ b cs. Sparse cs) (a.new_rows b0 lt0, s.row_sparse b0 lt0) (λ b d l. s.row_sparse b l);
  free_data = a.free_data;
  free_sparse = a.free_sparse;
  rows_apart = λ b b' l l'.
      each (λ b cs. b ≢ b' → Between cs (rows' b'))
        (λ d.
          each (λ b' cs. b0 ≢ b' → Between (n ∷ rows b0) cs) (λ e. absurd (e refl))
            (λ b' d' l' e. (a.new_rows b' l', s.rows_apart b0 b' lt0 l' e)) b' l' d)
        (λ b d l e.
          each (λ b' cs. b ≢ b' → Between (rows b) cs)
            (λ e. with-new (rows b) (a.new_rows b l) (s.rows_apart b b0 l lt0 e))
            (λ b' d' l' e. s.rows_apart b b' l l' e) b' l' e)
        b l;
  free_apart =
      each (λ b cs. Between cs free') (a.new_free, a.free_apart b0 lt0) (λ b d l. a.free_apart b l);
  unique =
      each (λ b cs. (key : Bytes) → Single key cs) (λ key. (a.fresh key, s.unique b0 lt0 key))
        (λ b d l. s.unique b l);
}
  where
    rows' : ℕ → List Cell
    rows' = update rows b0 (n ∷ rows b0)

    each :
        (P : ℕ → List Cell → Type 0)
        → P b0 (n ∷ rows b0)
        → ((b : ℕ) → b ≢ b0 → b < nhash → P b (rows b))
        → (b : ℕ) → b < nhash
        → P b (rows' b)
    each P new old =
        update-ind (λ b cs. b < nhash → P b cs) rows b0 (n ∷ rows b0) (λ l. new)
          (λ b d l. old b d l)

    with-new :
        (ds : List Cell) → All (Disjoint n) ds → Between ds (rows b0) → Between ds (n ∷ rows b0)
    with-new [] h k = tt
    with-new (d ∷ ds) h k = ((Disjoint-sym n d h.0, k.0), with-new ds h.1 k.1)
