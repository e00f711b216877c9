-- ===== src/Db/StoreRun.antt =====
-- db_store: the writes that it makes for a key that is not there, the state that they leave, and the
-- call as a whole.
use learning_notes.Base.{ℕ, ◌+◌, ◌≤◌, ◌≡◌, refl, true, false, [], ◌∷◌, ◌++◌, arith, length, write}
use learning_notes.Base.Int.{pos}
use learning_notes.CString.{Bytes, padded}
use learning_notes.Db.{ptr_max, newline, Db, ok}
use learning_notes.Db.Search.{findfree}
use learning_notes.Db.Api.{store_new}
use learning_notes.Db.Entry.{Entry, entry_text, IsReadable, PtrAt, readptr-PtrAt}
use learning_notes.Db.Image.{image}
use learning_notes.Db.Writes.{
  ByteLocks, writeptr-eq, writeidx-set, writeidx-end, writedat-set, writedat-end,
}
use learning_notes.Db.Append.{tail_entry, longer_index, longer_data}
use learning_notes.Base.{◌<◌, ◌||◌, ◌==◌, le→ltb}
use learning_notes.Base.Int.{negsuc}
use learning_notes.Db.{idx}
use learning_notes.Db.Sys.{un_lock, release}
use learning_notes.Db.Search.{find_and_lock}
use learning_notes.Db.Api.{db_insert, db_replace, db_store_flag, store_old, db_store}

-- The state behind the read of the chain's pointer.
abbrev pub read_head : Db → Db
read_head db = record db { idxfd = record { bytes = db.idxfd.bytes; offset = db.chainoff + 7 } }

-- The record is written behind the last one.
abbrev pub data_appended : Db → Bytes → Db
data_appended db text = record db {
  datfd = record {
    bytes = longer_data db.datfd.bytes text;
    offset = length db.datfd.bytes + length (text ++ newline ∷ []);
  };
  datoff = length db.datfd.bytes;
  datlen = length text + 1;
}

abbrev pub index_appended : Db → ℕ → Bytes → Bytes → Db
index_appended db head key text = record (data_appended db text) {
  idxfd = record {
    bytes =
        write db.idxfd.bytes (length db.idxfd.bytes)
          (image head (tail_entry db.datfd.bytes key text));
    offset = length db.idxfd.bytes + length (image head (tail_entry db.datfd.bytes key text));
  };
  idxbuf = entry_text (tail_entry db.datfd.bytes key text);
  idxoff = length db.idxfd.bytes;
  ptrval = pos head;
}

abbrev pub appended : Db → ℕ → Bytes → Bytes → Db
appended db head key text = record (index_appended db head key text) {
  idxfd = record {
    bytes = longer_index db.idxfd.bytes db.datfd.bytes db.chainoff head key text;
    offset = db.chainoff + 7;
  };
}

pub store_new-none :
    (db db1 : Db) (head : ℕ) (key text : Bytes)
    → head ≤ ptr_max
    → PtrAt db.idxfd.bytes db.chainoff head
    → findfree (length key) (length text + 1) (read_head db) ≡ ok false db1
    → ByteLocks db1
    → IsReadable (tail_entry db1.datfd.bytes key text)
    → length db1.idxfd.bytes ≤ ptr_max
    → store_new key text db
      ≡ ok (pos 0) (record (appended db1 head key text) { cnt_stor1 = db1.cnt_stor1 + 1 })
unfolding store_new
store_new-none db db1 head key text le at run b r im =
    rw
      (
        readptr-PtrAt db db.chainoff head le at,
        run,
        writedat-end db1 text b,
        writeidx-end (data_appended db1 text) key head b le r.min_size r.max_size,
        writeptr-eq (index_appended db1 head key text) db1.chainoff (length db1.idxfd.bytes) im,
      )
      refl

-- The record is written over the empty record that the state holds.
abbrev held_entry : Db → Bytes → Bytes → Entry
held_entry db key text = record { key = key; datoff = db.datoff; datlen = length text + 1 }

abbrev data_reused : Db → Bytes → Db
data_reused db text = record db {
  datfd = record {
    bytes = write db.datfd.bytes db.datoff (text ++ newline ∷ []);
    offset = db.datoff + length (text ++ newline ∷ []);
  };
  datoff = db.datoff;
  datlen = length text + 1;
}

abbrev index_reused : Db → ℕ → Bytes → Bytes → Db
index_reused db head key text = record (data_reused db text) {
  idxfd = record {
    bytes = write db.idxfd.bytes db.idxoff (image head (held_entry db key text));
    offset = db.idxoff + length (image head (held_entry db key text));
  };
  idxbuf = entry_text (held_entry db key text);
  idxoff = db.idxoff;
  ptrval = pos head;
}

abbrev pub reused : Db → ℕ → Bytes → Bytes → Db
reused db head key text = record (index_reused db head key text) {
  idxfd = record {
    bytes =
        write (write db.idxfd.bytes db.idxoff (image head (held_entry db key text))) db.chainoff
          (padded 7 db.idxoff);
    offset = db.chainoff + 7;
  };
}

pub store_new-some :
    (db db1 : Db) (head : ℕ) (key text : Bytes)
    → head ≤ ptr_max
    → PtrAt db.idxfd.bytes db.chainoff head
    → findfree (length key) (length text + 1) (read_head db) ≡ ok true db1
    → IsReadable (record { key = key; datoff = db1.datoff; datlen = length text + 1 })
    → db1.idxoff ≤ ptr_max
    → store_new key text db
      ≡ ok (pos 0) (record (reused db1 head key text) { cnt_stor2 = db1.cnt_stor2 + 1 })
unfolding store_new
store_new-some db db1 head key text le at run r im =
    rw
      (
        readptr-PtrAt db db.chainoff head le at,
        run,
        writedat-set,
        writeidx-set (data_reused db1 text) key db1.idxoff head le r.min_size r.max_size,
        writeptr-eq (index_reused db1 head key text) db1.chainoff db1.idxoff im,
      )
      refl

-- db_store around its two branches, and where it refuses.
-- The state behind the release of the chain's lock.
abbrev pub unlocked : Db → Db
unlocked db = record db { locks = release idx db.chainoff 1 db.locks }

module _ (db db0 : Db) (key text : Bytes) (flag : ℕ)
    (known : (flag == db_insert || (flag == db_replace || flag == db_store_flag)) ≡ true)
    (l : 0 < length text) (u : length text + 1 ≤ 1024) where
  pub run_new :
      (db1 : Db)
      → (flag == db_replace) ≡ false
      → find_and_lock key true db ≡ ok false db0
      → store_new key text db0 ≡ ok (pos 0) db1
      → db_store key text flag db ≡ ok (pos 0) (unlocked db1)
  unfolding db_store un_lock
  run_new db1 w run inner =
      rw
        (
          known,
          le→ltb (length text + 1) 2 (omega arith),
          le→ltb 1024 (length text + 1) u,
          run,
          w,
          inner,
        )
        refl

  pub run_old :
      (db1 : Db)
      → (flag == db_insert) ≡ false
      → find_and_lock key true db ≡ ok true db0
      → store_old key text db0 ≡ ok (pos 0) db1
      → db_store key text flag db ≡ ok (pos 0) (unlocked db1)
  unfolding db_store un_lock
  run_old db1 w run inner =
      rw
        (
          known,
          le→ltb (length text + 1) 2 (omega arith),
          le→ltb 1024 (length text + 1) u,
          run,
          w,
          inner,
        )
        refl

  pub run_refused_old :
      (flag == db_insert) ≡ true
      → find_and_lock key true db ≡ ok true db0
      → db_store key text flag db
        ≡ ok (pos 1) (unlocked (record db0 { cnt_storerr = db0.cnt_storerr + 1 }))
  unfolding db_store un_lock
  run_refused_old w run =
      rw (known, le→ltb (length text + 1) 2 (omega arith), le→ltb 1024 (length text + 1) u, run, w)
        refl

  pub run_refused_new :
      (flag == db_replace) ≡ true
      → find_and_lock key true db ≡ ok false db0
      → db_store key text flag db
        ≡ ok (negsuc 0) (unlocked (record db0 { cnt_storerr = db0.cnt_storerr + 1; errno = 2 }))
  unfolding db_store un_lock
  run_refused_new w run =
      rw (known, le→ltb (length text + 1) 2 (omega arith), le→ltb 1024 (length text + 1) u, run, w)
        refl
