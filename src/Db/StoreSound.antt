-- ===== src/Db/StoreSound.antt =====
-- db_store of a key that is not there, on a sound database: the record is put in front of the
-- chain, over the first empty record of its sizes or behind the last record.
use mathlib.Core.Path.{subst}
use learning_notes.Base.{
  ℕ, ◌+◌, ◌≤◌, ◌<◌, ◌≡◌, refl, ap, ◌∙◌, true, Option, none, some, List, [], ◌∷◌, ◌++◌, arith,
  length, inl, inr, Bool-cases,
}
use learning_notes.Base.Int.{pos}
use learning_notes.CString.{Bytes, str_eq}
use learning_notes.CString.Fields.{Lacks, eq_of_str_eq}
use learning_notes.Db.{ptr_max, Db, ok}
use learning_notes.Db.Search.{hash, findfree}
use learning_notes.Db.Api.{store_new}
use learning_notes.Db.Entry.{IsReadable, PtrAt}
use learning_notes.Db.Chain.{Cell, IsStored, Chain}
use learning_notes.Db.Locate.{chain_of}
use learning_notes.Db.Unlink.{Misses, place}
use learning_notes.Db.Sites.{Chain-inside}
use learning_notes.Db.FreeWalk.{chain_lock}
use learning_notes.Db.Cells.{length-Sparse, All-without}
use learning_notes.Db.Sound.{Placed, Layout, hash-lt}
use learning_notes.Db.Rows.{update}
use learning_notes.Db.FreeWalk.{fit, find_fit, taken_free, Taken, findfree-Taken}
use learning_notes.Db.Added.{Layout-Adds}
use learning_notes.Db.Append.{tail_entry, tail_cell, append-Adds}
use learning_notes.Db.Reuse.{reuse_entry, reuse_cell, span-reuse, reuse-Adds}
use learning_notes.Db.StoreRun.{read_head, store_new-none, store_new-some}

-- The first empty record of the sizes, between those in front of it and those behind it.
pub record FitSplit (keylen datlen p : ℕ) (free : List Cell) (q : ℕ) (c : Cell) : Type 0 where
  pub pre : List Cell
  pub post : List Cell
  pub whole : free ≡ pre ++ c ∷ post
  pub at : q ≡ place p pre
  pub fits : fit keylen datlen c ≡ true

abbrev pub Fits : ℕ → ℕ → ℕ → List Cell → Option (ℕ × Cell) → Type 0
Fits keylen datlen p free none = Unit
Fits keylen datlen p free (some (q, c)) = FitSplit keylen datlen p free q c

Fits-cons :
    (keylen datlen p : ℕ) (x : Cell) (free : List Cell) (o : Option (ℕ × Cell))
    → Fits keylen datlen x.at free o
    → Fits keylen datlen p (x ∷ free) o
Fits-cons keylen datlen p x free none h = tt
Fits-cons keylen datlen p x free (some (q, c)) h = record {
  pre = x ∷ h.pre;
  post = h.post;
  whole = ap (λ (r : List Cell). x ∷ r) h.whole;
  at = h.at;
  fits = h.fits;
}

pub find_fit-Fits :
    (keylen datlen p : ℕ) (free : List Cell)
    → Fits keylen datlen p free (find_fit keylen datlen p free)
find_fit-Fits keylen datlen p [] = tt
find_fit-Fits keylen datlen p (x ∷ free) = elim (Bool-cases (fit keylen datlen x)) [
  | inl hit ↦ rw hit (record { pre = []; post = free; whole = refl; at = refl; fits = hit })
  | inr miss ↦ rw miss (
      Fits-cons keylen datlen p x free (find_fit keylen datlen x.at free)
        (find_fit-Fits keylen datlen x.at free))
]

-- What the branch of db_store for a new key leaves: the record `n` is in front of the chain.
abbrev pub Entered : Db → Db → (ℕ → List Cell) → Bytes → Bytes → Type 0
Entered db db0 rows key text =
    (db' : Db) × (n : Cell) × (free' : List Cell) × (store_new key text db0 ≡ ok (pos 0) db')
    × (n.entry.key ≡ key)
    × (n.text ≡ text)
    × (db'.locks ≡ chain_lock (chain_of db key) ∷ [])
    × (db'.chainoff ≡ chain_of db key)
    × (db'.hashoff ≡ db.hashoff)
    × (db'.nhash ≡ db.nhash)
    × Layout [] db.hashoff db.nhash db'.idxfd.bytes db'.datfd.bytes
        (update rows (hash db key) (n ∷ rows (hash db key))) free'

module _ (db db0 : Db) (rows : ℕ → List Cell) (free : List Cell) (key text : Bytes)
    (l : Layout [] db.hashoff db.nhash db.idxfd.bytes db.datfd.bytes rows free)
    (m : Misses key (rows (hash db key))) (r : IsReadable (tail_entry db.datfd.bytes key text))
    (no_nul : Lacks 0 text) (im : length db.idxfd.bytes ≤ ptr_max)
    (bytes : db0.idxfd.bytes ≡ db.idxfd.bytes) (records : db0.datfd.bytes ≡ db.datfd.bytes)
    (chainoff : db0.chainoff ≡ chain_of db key) (hashoff : db0.hashoff ≡ db.hashoff)
    (nhash : db0.nhash ≡ db.nhash) (locks : db0.locks ≡ chain_lock (chain_of db key) ∷ []) where
  lt : hash db key < db.nhash
  lt = hash-lt db key l.table

  fresh : (x : Bytes) → str_eq key x ≡ true → Misses x (rows (hash db key))
  fresh x h = subst (λ (t : Bytes). Misses t (rows (hash db key))) (eq_of_str_eq key x h) m

  entered :
      (db1 : Db) (head first : ℕ) (o : Option (ℕ × Cell))
      → head ≤ ptr_max
      → PtrAt db.idxfd.bytes (chain_of db key) head
      → Chain db.idxfd.bytes head (rows (hash db key))
      → first ≤ ptr_max
      → PtrAt db.idxfd.bytes 0 first
      → Chain db.idxfd.bytes first free
      → Fits (length key) (length text + 1) 0 free o
      → findfree (length key) (length text + 1) (read_head db0) ≡ ok (taken_free o) db1
      → Taken o (read_head db0) db1
      → Entered db db0 rows key text
  entered db1 head first none le at ch le' at' ch' _ run k =
      let i : db1.idxfd.bytes ≡ db.idxfd.bytes = k.bytes ∙ bytes in
      let d : db1.datfd.bytes ≡ db.datfd.bytes = ap (λ t. t.bytes) k.datfd ∙ records in
      let c : db1.chainoff ≡ chain_of db key = k.chainoff ∙ chainoff in
      let ls : db1.locks ≡ chain_lock (chain_of db key) ∷ [] = k.locks ∙ locks in
      (
        _,
        tail_cell db.idxfd.bytes db.datfd.bytes key text,
        free,
        store_new-none db0 db1 head key text le (rw (bytes, chainoff) at) run (rw ls (refl, tt))
            (rw d r) (rw i im),
        refl,
        refl,
        ls,
        c,
        k.hashoff ∙ hashoff,
        k.nhash ∙ nhash,
        rw (i, d, c)
            (Layout-Adds db.hashoff db.nhash db.idxfd.bytes db.datfd.bytes _ _ rows free free
              (hash db key) (tail_cell db.idxfd.bytes db.datfd.bytes key text) head _ lt l
              (append-Adds db.hashoff db.nhash db.idxfd.bytes db.datfd.bytes rows free (hash db key)
                head key text l lt le ch r no_nul im fresh)),
      )
  entered db1 head first (some (q, c)) le at ch le' at' ch' split run
        (next, st0, holds, index, datfd, choff, hoff, nh, lks) =
      let st : IsStored db.idxfd.bytes c next = rw (← bytes) st0 in
      let sizes : (length c.entry.key ≡ length key) × (c.entry.datlen ≡ length text + 1) =
        fit-sizes c split.fits in
      let whole = split.whole in
      let readable : IsReadable (reuse_entry c key text) = record {
        no_nul = r.no_nul;
        no_sep = r.no_sep;
        min_size = omega (arith, st.readable.min_size, span-reuse c key text sizes.0 sizes.1);
        max_size = omega (arith, st.readable.max_size, span-reuse c key text sizes.0 sizes.1);
        has_data = r.has_data;
        max_data = r.max_data;
      } in
      let at_c : Placed db.hashoff db.nhash c =
        (All-without (Placed db.hashoff db.nhash) split.pre split.post c
          (subst
            (λ (t : List Cell). Layout [] db.hashoff db.nhash db.idxfd.bytes db.datfd.bytes rows t)
            whole l).free_places).0 in
      let d : db1.datfd.bytes ≡ db.datfd.bytes = ap (λ t. t.bytes) datfd ∙ records in
      (
        _,
        reuse_cell c key text,
        split.pre ++ split.post,
        store_new-some db0 db1 head key text le (rw (bytes, chainoff) at) run
            (rw holds.datoff readable) (rw holds.idxoff at_c.1),
        refl,
        refl,
        lks ∙ locks,
        choff ∙ chainoff,
        hoff ∙ hashoff,
        nh ∙ nhash,
        rw (holds.idxoff, holds.datoff, index, bytes, split.at, d, choff, chainoff)
            (Layout-Adds db.hashoff db.nhash db.idxfd.bytes db.datfd.bytes _ _ rows
              (split.pre ++ c ∷ split.post) (split.pre ++ split.post) (hash db key)
              (reuse_cell c key text) head _ lt
              (subst
                (λ (t : List Cell).
                  Layout [] db.hashoff db.nhash db.idxfd.bytes db.datfd.bytes rows t)
                whole l)
              (reuse-Adds db.hashoff db.nhash db.idxfd.bytes db.datfd.bytes rows split.pre
                split.post c (hash db key) head first next key text
                (subst
                  (λ (t : List Cell).
                    Layout [] db.hashoff db.nhash db.idxfd.bytes db.datfd.bytes rows t)
                  whole l)
                lt le ch le' at' (subst (λ (t : List Cell). Chain db.idxfd.bytes first t) whole ch')
                st sizes.0 sizes.1 readable no_nul fresh)),
      )
    where
      fit-sizes :
          (c : Cell)
          → fit (length key) (length text + 1) c ≡ true
          → (length c.entry.key ≡ length key) × (c.entry.datlen ≡ length text + 1)
      fit-sizes c h = (ground (arith, h), ground (arith, h))

  pub store_new-Entered : Entered db db0 rows key text
  store_new-Entered =
      let (head, at, le, ch) = l.bucket (hash db key) lt in
      let (first, at', le', ch') = l.free_list in
      let (db1, run, taken) =
        findfree-Taken (read_head db0) (length key) (length text + 1) first (chain_of db key) free
          (omega (arith, l.low)) locks le' (rw bytes at') (rw bytes ch')
          (rw bytes (
            length-Sparse (length db.idxfd.bytes) free l.free_sparse
              (Chain-inside db.idxfd.bytes first free ch'))) in
      entered db1 head first (find_fit (length key) (length text + 1) 0 free) le at ch le' at' ch'
        (find_fit-Fits (length key) (length text + 1) 0 free) run taken
