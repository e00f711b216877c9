-- ===== src/Db/RoundTrip.antt =====
-- What the library writes, it reads back.
use learning_notes.Base.{
  ℕ, ◌+◌, ◌≤◌, ◌≡◌, ◌≢◌, refl, [], ◌∷◌, ◌++◌, arith, length, write, slice-write_self, length-append,
}
use learning_notes.Base.Int.{pos}
use learning_notes.CString.{Bytes, padded}
use learning_notes.CString.Fields.{Lacks}
use learning_notes.CString.Digits.{length-padded}
use learning_notes.Db.{ptr_max, datlen_max, newline, seek_end, Db, ok}
use learning_notes.Db.Io.{readptr, writeptr, readidx, writeidx, readdat, writedat, record_text}
use learning_notes.Db.Entry.{Entry, IsReadable, loaded, readptr-PtrAt, readidx-EntryAt}
use learning_notes.Db.Image.{image, EntryAt-write}
use learning_notes.Db.Writes.{ByteLocks, writeptr-eq, writeidx-end, writedat-end}
use learning_notes.Db.Fetch.{readdat-written}

-- For a pointer of at most PTR_MAX, what _db_writeptr puts into the index file, _db_readptr gets
-- from there without changing the file.
pub writeptr-readptr :
    (db : Db) (o p : ℕ)
    → p ≤ ptr_max
    → (db1 : Db) × (db2 : Db) × (writeptr (pos o) (pos p) db ≡ ok tt db1)
      × (readptr (pos o) db1 ≡ ok (pos p) db2)
      × (db2.idxfd.bytes ≡ db1.idxfd.bytes)
writeptr-readptr db o p h =
    let f = write db.idxfd.bytes o (padded 7 p) in
    let db1 = record db { idxfd = record { bytes = f; offset = o + 7 } } in
    (
      db1,
      record db1 { idxfd = record { bytes = f; offset = o + 7 } },
      writeptr-eq db o p h,
      readptr-PtrAt db1 o p h (
          rw (length-padded p 6 (omega arith)) at (slice-write_self db.idxfd.bytes o (padded 7 p))),
      refl,
    )

-- The record that the state describes, under a key.
abbrev pub described : Db → Bytes → Entry
described db key = record { key = key; datoff = db.datoff; datlen = db.datlen }

-- Where only single bytes are locked and the index file is not empty, what _db_writeidx appends to
-- it under a readable key and with a pointer of at most PTR_MAX, _db_readidx reads from where it
-- went: the pointer, the key, and the place and the size of the data.
pub writeidx-readidx :
    (db : Db) (key : Bytes) (next : ℕ)
    → ByteLocks db
    → length db.idxfd.bytes ≢ 0
    → next ≤ ptr_max
    → IsReadable (described db key)
    → (db1 : Db) × (db2 : Db) × (writeidx key 0 seek_end (pos next) db ≡ ok tt db1)
      × (db1.idxoff ≡ length db.idxfd.bytes)
      × (readidx (pos db1.idxoff) db1 ≡ ok (pos next) db2)
      × (db2.idxbuf ≡ key)
      × (db2.datoff ≡ db.datoff)
      × (db2.datlen ≡ db.datlen)
writeidx-readidx db key next b ne h r =
    let o = length db.idxfd.bytes in
    let e = described db key in
    let f = write db.idxfd.bytes o (image next e) in
    let db1 = record db {
      idxfd = record { bytes = f; offset = o + length (image next e) };
      idxbuf = record_text key db.datoff db.datlen;
      idxoff = o;
      ptrval = pos next;
    } in
    (
      db1,
      loaded db1 o e next,
      writeidx-end db key next b h r.min_size r.max_size,
      refl,
      readidx-EntryAt db1 o e next ne r (EntryAt-write db.idxfd.bytes o e next h r.max_size),
      refl,
      refl,
      refl,
    )

-- Where only single bytes are locked, a text without NUL that has, with its newline, no more than
-- DATLEN_MAX bytes and that _db_writedat appends to the data file stands at its end with a newline,
-- and _db_readdat reads it within its buffer.
pub writedat-readdat :
    (db : Db) (text : Bytes)
    → ByteLocks db
    → Lacks 0 text
    → length text + 1 ≤ datlen_max
    → (db1 : Db) × (db2 : Db) × (writedat text 0 seek_end db ≡ ok tt db1)
      × (readdat db1 ≡ ok text db2)
      × (db2.datfd.bytes ≡ write db.datfd.bytes (length db.datfd.bytes) (text ++ newline ∷ []))
writedat-readdat db text b lacks max =
    let o = length db.datfd.bytes in
    let g = write db.datfd.bytes o (text ++ newline ∷ []) in
    let db1 = record db {
      datfd = record { bytes = g; offset = o + length (text ++ newline ∷ []) };
      datoff = o;
      datlen = length text + 1;
    } in
    (
      db1,
      record db1 { datfd = record { bytes = g; offset = o + (length text + 1) }; datbuf = text },
      writedat-end db text b,
      readdat-written db1 text o refl refl max lacks (
          rw (length-append text (newline ∷ [])) at
            (slice-write_self db.datfd.bytes o (text ++ newline ∷ []))),
      refl,
    )
