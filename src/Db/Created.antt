-- ===== src/Db/Created.antt =====
-- db_open on a database that it creates: an empty one.
use mathlib.Core.Path.{subst}
use learning_notes.Base.{
  ℕ, zero, suc, ◌+◌, ◌*◌, ◌<◌, ◌≡◌, ◌≢◌, refl, sym, ap, ◌∙◌, true, some, [], ◌∷◌, ◌++◌, arith,
  length, length-append, append_assoc, append-nil, codes,
}
use learning_notes.CString.{Bytes, padded, decimal}
use learning_notes.CString.Digits.{length-padded}
use learning_notes.Db.{newline, Db, ok}
use learning_notes.Db.Sys.{lseek, writev, writew_lock, un_lock}
use learning_notes.Db.Api.{db_rewind}
use learning_notes.Db.Open.{
  Found, denied, absent, present, open_found, open_file, opened, alloc, zero_table, init_table,
  db_open,
}
use learning_notes.Db.Entry.{PtrAt}
use learning_notes.Db.Sound.{Sound}

-- The hash table of a new database: so many pointers, all 0.
zeros : ℕ → Bytes
zeros zero = []
zeros (suc n) = padded 7 0 ++ zeros n

zero_table-zeros : (n : ℕ) (table : Bytes) → zero_table n table ≡ table ++ zeros n
unfolding zero_table zeros
zero_table-zeros zero table = sym (append-nil table)
zero_table-zeros (suc n) table =
    zero_table-zeros n (table ++ padded 7 0) ∙ append_assoc table (padded 7 0) (zeros n)

length-zeros : (n : ℕ) → length (zeros n) ≡ n * 7
unfolding zeros
length-zeros zero = refl
length-zeros (suc n) =
    omega
      (arith, length-append (padded 7 0) (zeros n), length-padded 0 6 (omega arith), length-zeros n)

zeros-PtrAt : (n i : ℕ) (rest : Bytes) → i < n → PtrAt (zeros n ++ rest) (i * 7) 0
unfolding zeros padded decimal
zeros-PtrAt zero i rest l = elim l [ ]
zeros-PtrAt (suc n) zero rest l = refl
zeros-PtrAt (suc n) (suc i) rest l =
    let e : (suc i) * 7 ≡ suc (suc (suc (suc (suc (suc (suc (i * 7))))))) = omega arith in
    rw e (zeros-PtrAt n i rest (omega arith))

abbrev table : Bytes
table = zero_table 138 [] ++ newline ∷ []

table-zeros : zero_table 138 [] ++ newline ∷ [] ≡ zeros 138 ++ newline ∷ []
table-zeros = ap (λ (r : Bytes). r ++ newline ∷ []) (zero_table-zeros 138 [])

length-table : length (zero_table 138 [] ++ newline ∷ []) ≡ 967
length-table =
    ap (λ (r : Bytes). length r) table-zeros
    ∙ omega (arith, length-append (zeros 138) (newline ∷ []), length-zeros 138)

-- The database that db_open leaves.
abbrev pub created : Bytes → Db
created name = record (alloc (name ++ codes ".dat") [] []) {
  idxfd = record { bytes = zero_table 138 [] ++ newline ∷ []; offset = 967 };
  idxoff = 967;
}

created-Sound : (name : Bytes) → Sound (created name) (λ b. []) []
created-Sound name = record {
  no_locks = refl;
  low = omega arith;
  table = omega arith;
  table_in = omega (arith, length-table);
  bucket = λ b l.
      let e : suc b * 7 ≡ b * 7 + 7 = omega arith in
      (
        0,
        subst (λ n. PtrAt (zero_table 138 [] ++ newline ∷ []) n 0) e
            (pointer (suc b) (omega arith)),
        omega arith,
        refl,
      );
  free_list = (0, pointer 0 (omega arith), omega arith, refl);
  row_places = λ b l. tt;
  free_places = tt;
  free_data = tt;
  records = λ b l. tt;
  row_sparse = λ b l. tt;
  free_sparse = tt;
  rows_apart = λ b b' l l' n. tt;
  free_apart = λ b l. tt;
  unique = λ b l key. tt;
}
  where
    pointer : (i : ℕ) → i < 138 → PtrAt (zero_table 138 [] ++ newline ∷ []) (i * 7) 0
    pointer i l = rw table-zeros (zeros-PtrAt 138 i (newline ∷ []) l)

created_file :
    (fs : Bytes → Found) (name : Bytes) → fs name ≢ denied → open_file fs name true true ≡ some []
unfolding open_file
created_file fs name ne = known (fs name) ne
  where
    known : (o : Found) → o ≢ denied → open_found o true true ≡ some []
    known denied h = absurd (h refl)
    known absent h = refl
    known (present old) h = refl

db_open-created :
    (fs : Bytes → Found) (name : Bytes)
    → fs (name ++ codes ".idx") ≢ denied
    → fs (name ++ codes ".dat") ≢ denied
    → db_open fs name true true ≡ some (ok tt (created name))
unfolding db_open opened init_table db_rewind lseek writev writew_lock un_lock padded
db_open-created fs name i d =
    rw
      (
        created_file fs (name ++ codes ".idx") i,
        created_file fs (name ++ codes ".dat") d,
        length-table,
      )
      refl

-- db_open with O_CREAT and O_TRUNC returns a sound database, whatever the two files held before or
-- whether they were there, if both may be opened: no key is there, in any chain, and the free list
-- is empty.
pub db_open-Sound :
    (fs : Bytes → Found) (name : Bytes)
    → fs (name ++ codes ".idx") ≢ denied
    → fs (name ++ codes ".dat") ≢ denied
    → (db_open fs name true true ≡ some (ok tt (created name))) × Sound (created name) (λ b. []) []
db_open-Sound fs name i d = (db_open-created fs name i d, created-Sound name)
