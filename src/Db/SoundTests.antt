-- ===== src/Db/SoundTests.antt =====
-- A small sound database, and one with an empty record.
use mathlib.Core.Path.{subst}
use learning_notes.Base.{ℕ, zero, ◌<◌, ◌≡◌, refl, sym, ◌∙◌, arith, List, [], ◌∷◌, ◌++◌, codes}
use learning_notes.CString.{padded, decimal, str_eq}
use learning_notes.Db.{Db, ok}
use learning_notes.Db.Io.{record_text}
use learning_notes.Db.Search.{findfree}
use learning_notes.Db.Api.{db_fetch}
use learning_notes.Db.Image.{image}
use learning_notes.Db.Chain.{Cell, Chain}
use learning_notes.Db.Scan.{scan, full_texts, db_rewind-scan}
use learning_notes.Db.Api.{db_rewind}
use learning_notes.Db.{◌>>◌}
use learning_notes.Db.Fetch.{Unchanged}
use learning_notes.Db.Session.{db_store-db_fetch}
use learning_notes.Db.Created.{created, db_open-Sound}
use learning_notes.Db.Open.{present, db_open}
use learning_notes.Db.Api.{db_store}
use learning_notes.Base.{true, some}
use learning_notes.Base.Int.{pos}
use learning_notes.Db.FreeWalk.{chain_lock}
use learning_notes.Db.Sound.{slot, From, Sound, view, db_fetch-view}
use learning_notes.Db.DeleteView.{DeleteView, db_delete-view}
use learning_notes.Db.StoreView.{StoreView, db_store-view}
use learning_notes.Db.FreeWalk.{find_fit, taken_free, Taken, findfree-Taken}
use learning_notes.Db.Sample.{
  sample, sample_entry, sample_cell, sample-IsReadable, sample-Chain, sample_data,
}

abbrev sample_rows : ℕ → List Cell
sample_rows b = sample_cell ∷ []

first_bucket : (b : ℕ) → b < 1 → zero ≡ b
first_bucket b l = omega arith

sample-From : From sample.idxfd.bytes 7 (sample_cell ∷ [])
unfolding padded
sample-From = (15, refl, omega arith, sample-Chain)

sample-Sound : Sound sample sample_rows []
unfolding padded record_text decimal
sample-Sound = record {
  no_locks = refl;
  low = omega arith;
  table = omega arith;
  table_in = omega arith;
  bucket = λ b l.
      subst (λ (t : ℕ). From sample.idxfd.bytes (slot 7 t) (sample_cell ∷ [])) (first_bucket b l)
        sample-From;
  free_list = (0, refl, omega arith, refl);
  row_places = λ b l. ((omega arith, omega arith), tt);
  free_places = tt;
  free_data = tt;
  records = λ b l. (sample_data, tt);
  row_sparse = λ b l. (tt, tt);
  free_sparse = tt;
  rows_apart = λ b b' l l' n. absurd (n (sym (first_bucket b l) ∙ first_bucket b' l'));
  free_apart = λ b l. (tt, tt);
  unique = λ b l key. ((λ _. tt), tt);
}

db_fetch-view_example :
    (db' : Db) × (db_fetch (codes "k1") sample ≡ ok (view sample sample_rows (codes "k1")) db')
    × Sound db' sample_rows []
db_fetch-view_example = db_fetch-view sample sample_rows [] (codes "k1") sample-Sound

db_delete-view_example : DeleteView sample sample_rows (codes "k1")
db_delete-view_example = db_delete-view sample sample_rows [] (codes "k1") sample-Sound

db_store-view_example : StoreView sample sample_rows (codes "k1") (codes "yes") 3
unfolding record_text decimal padded
db_store-view_example =
    db_store-view sample sample_rows [] (codes "k1") (codes "yes") 3 sample-Sound
      (record {
        no_nul = sample-IsReadable.no_nul;
        no_sep = sample-IsReadable.no_sep;
        min_size = omega arith;
        max_size = omega arith;
        has_data = omega arith;
        max_data = omega arith;
      })
      (omega arith) ((λ q. omega arith), ((λ q. omega arith), ((λ q. omega arith), tt)))
      (omega arith)

db_store-db_fetch_example :
    (db1 : Db) × (db2 : Db) × (db_store (codes "k2") (codes "yes") 1 sample ≡ ok (pos 0) db1)
    × (db_fetch (codes "k2") db1 ≡ ok (some (codes "yes")) db2)
    × (db2.locks ≡ [])
unfolding record_text decimal padded str_eq
db_store-db_fetch_example =
    db_store-db_fetch sample sample_rows [] (codes "k2") (codes "yes") 1 sample-Sound
      (record {
        no_nul = ((λ q. omega arith), ((λ q. omega arith), tt));
        no_sep = ((λ q. omega arith), ((λ q. omega arith), tt));
        min_size = omega arith;
        max_size = omega arith;
        has_data = omega arith;
        max_data = omega arith;
      })
      (omega arith) ((λ q. omega arith), ((λ q. omega arith), ((λ q. omega arith), tt)))
      (omega arith) refl

db_open-Sound_example :
    (db_open (λ _. present (codes "old")) (codes "db") true true
      ≡ some (ok tt (created (codes "db"))))
    × Sound (created (codes "db")) (λ b. []) []
db_open-Sound_example =
    db_open-Sound (λ _. present (codes "old")) (codes "db") (λ e. ground arith) (λ e. ground arith)

db_rewind-scan_example :
    (db' : Db) × ((db_rewind >> scan 2) sample ≡ ok (full_texts (sample_cell ∷ [])) db')
    × Unchanged sample db'
unfolding record_text decimal padded
db_rewind-scan_example =
    db_rewind-scan 2 sample (sample_cell ∷ []) (omega arith) refl
      (
        0,
        refl,
        record {
          ne_zero = λ q. omega arith;
          readable = sample-IsReadable;
          entry_at = record { link = refl; size = refl; text = refl; next_le = omega arith };
          inside = omega arith;
        },
        refl,
      )
      ((λ q. sample_data), tt)

-- The record of `sample` is in the free list, and the chain of its one bucket is locked.
abbrev spare : Db
spare = record sample {
  idxfd = record { bytes = padded 7 15 ++ (padded 7 0 ++ 10 ∷ image 0 sample_entry); offset = 0 };
  locks = chain_lock 7 ∷ [];
}

spare-Chain : Chain spare.idxfd.bytes 15 (sample_cell ∷ [])
unfolding padded record_text decimal
spare-Chain = (
  0,
  refl,
  record {
    ne_zero = λ q. omega arith;
    readable = sample-IsReadable;
    entry_at = record { link = refl; size = refl; text = refl; next_le = omega arith };
    inside = omega arith;
  },
  refl,
)

findfree-Taken_example :
    (db' : Db) × (findfree 2 3 spare ≡ ok (taken_free (find_fit 2 3 0 (sample_cell ∷ []))) db')
    × Taken (find_fit 2 3 0 (sample_cell ∷ [])) spare db'
unfolding padded record_text decimal
findfree-Taken_example =
    findfree-Taken spare 2 3 15 7 (sample_cell ∷ []) (omega arith) refl (omega arith) refl
      spare-Chain (omega arith)
