-- ===== src/Db/Tests.antt =====
-- Runs of the database on small inputs.
use learning_notes.Base.{
  ◌≡◌, refl, arith, true, Option, none, some, [], ◌∷◌, ◌++◌, codes, length, write, inl,
}
use learning_notes.Base.Int.{ℤ, pos}
use learning_notes.CString.{Bytes, padded, decimal, str_eq, atol, cstr, split_at}
use learning_notes.Db.Sys.{writew_lock, readw_lock, un_lock, lseek, read, writev}
use learning_notes.Db.{
  newline, seek_end, Db, Run, ok, dumped, overrun, out_of_fuel, Cmd, pure, ◌>>=◌, ◌>>◌,
}
use learning_notes.Db.Io.{
  record_text, readidx_body, readptr, writeptr, readidx, writeidx, readdat, writedat,
}
use learning_notes.Db.Search.{
  hash, char_value, hash_loop, find_loop, findfree_loop, findfree, find_and_lock,
}
use learning_notes.Db.Api.{
  all_blank, dodelete, nextrec_loop, store_new, store_old, db_fetch, db_store, db_delete, db_rewind,
  db_nextrec,
}
use learning_notes.Db.Open.{absent, open_file, opened, init_table, zero_table, db_open}
use learning_notes.Db.Chain.{seek}
use learning_notes.Db.Locate.{chain_of}
use learning_notes.Db.Removed.{Bucket}
use learning_notes.Db.Remove.{DeleteOutcome, db_delete-outcome}
use learning_notes.Db.RoundTrip.{writeidx-readidx, writedat-readdat}
use learning_notes.Db.Sample.{sample, sample_cell, sample-IsReadable, sample-Chain, sample_data}

-- Runs a client on a database just created.
abbrev session : {A : Type 0} → Cmd A → Run A
session c = elim (db_open (λ _. absent) (codes "db") true true) [
  | none ↦ dumped
  | some r ↦ elim r [
    | ok _ db ↦ c db
    | dumped ↦ dumped
    | overrun ↦ overrun
    | out_of_fuel ↦ out_of_fuel
  ]
]

sample-Bucket : (key : Bytes) → chain_of sample key ≡ 7 → Bucket sample key 15 (sample_cell ∷ []) 0
unfolding padded record_text decimal
sample-Bucket key e = record {
  no_locks = refl;
  head_at = rw e refl;
  head_le = omega arith;
  chain = sample-Chain;
  fits = omega arith;
  spread = (tt, tt);
  low = (omega arith, tt);
  reach = (omega arith, tt);
  table = (inl (omega arith), tt);
  records = (sample_data, tt);
  chain_low = omega arith;
  chain_in = omega arith;
  free_at = refl;
  free_le = omega arith;
}

db_delete-outcome_example :
    DeleteOutcome sample
      (codes "k1")
      (sample_cell ∷ [])
      0
      (seek (chain_of sample (codes "k1")) (codes "k1") (sample_cell ∷ []))
unfolding hash
db_delete-outcome_example =
    db_delete-outcome sample (codes "k1") 15 (sample_cell ∷ []) 0 (sample-Bucket (codes "k1") refl)

abbrev sample_written : Db
sample_written = record sample { datoff = 3; datlen = 6 }

writeidx-readidx_example :
    (db1 : Db) × (db2 : Db) × (writeidx (codes "k1") 0 seek_end (pos 15) sample_written ≡ ok tt db1)
    × (db1.idxoff ≡ length sample_written.idxfd.bytes)
    × (readidx (pos db1.idxoff) db1 ≡ ok (pos 15) db2)
    × (db2.idxbuf ≡ codes "k1")
    × (db2.datoff ≡ 3)
    × (db2.datlen ≡ 6)
unfolding padded record_text decimal
writeidx-readidx_example =
    writeidx-readidx sample_written (codes "k1") 15 tt (λ q. omega arith) (omega arith)
      (record {
        no_nul = sample-IsReadable.no_nul;
        no_sep = sample-IsReadable.no_sep;
        min_size = omega arith;
        max_size = omega arith;
        has_data = omega arith;
        max_data = omega arith;
      })

writedat-readdat_example :
    (db1 : Db) × (db2 : Db) × (writedat (codes "hi") 0 seek_end sample ≡ ok tt db1)
    × (readdat db1 ≡ ok (codes "hi") db2)
    × (db2.datfd.bytes
        ≡ write sample.datfd.bytes (length sample.datfd.bytes) (codes "hi" ++ newline ∷ []))
writedat-readdat_example = writedat-readdat sample (codes "hi") tt sample_data.no_nul (omega arith)

abbrev value : {A : Type 0} → Run A → Option A
value (ok a db) = some a
value dumped = none
value overrun = none
value out_of_fuel = none

abbrev client : Cmd (ℤ × Option Bytes × ℤ × Option Bytes × Option (Bytes × Bytes))
client = do
  a ← db_store (codes "k1") (codes "first") 1
  _ ← db_store (codes "k2") (codes "second") 1
  x ← db_fetch (codes "k1")
  d ← db_delete (codes "k1")
  y ← db_fetch (codes "k1")
  db_rewind
  n ← db_nextrec
  pure (a, x, d, y, n)

client_run :
    value (session client)
    ≡ some (pos 0, some (codes "first"), pos 0, none, some (codes "k2", codes "second"))
unfolding db_open open_file opened db_store db_fetch db_delete db_rewind db_nextrec writew_lock
    writev un_lock lseek find_and_lock readptr read hash padded atol findfree writedat writeidx
    writeptr readw_lock readidx readidx_body cstr decimal split_at str_eq all_blank dodelete
    init_table nextrec_loop store_new store_old zero_table readdat record_text char_value find_loop
    findfree_loop hash_loop
client_run = refl
