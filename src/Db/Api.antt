-- ===== src/Db/Api.antt =====
-- db.c: the operations that apue_db.h declares.
use learning_notes.Base.{
  ℕ, zero, suc, ◌+◌, ◌-◌, ◌*◌, Bool, true, false, ◌&&◌, ◌||◌, not, Option, none, some, [], ◌∷◌, ltb,
  ◌==◌, if◌then◌else◌, length, replicate,
}
use learning_notes.Base.Int.{ℤ, pos, negsuc}
use learning_notes.CString.{Bytes}
use learning_notes.Db.{
  ptr_sz, datlen_min, datlen_max, space, free_off, idx, seek_set, seek_end, out_of_fuel, Cmd, pure,
  ◌>>=◌, ◌>>◌, get, modify, check,
}
use learning_notes.Db.Sys.{or_dump, lseek, writew_lock, readw_lock, un_lock}
use learning_notes.Db.Io.{readptr, readidx, readdat, writedat, writeidx, writeptr}
use learning_notes.Db.Search.{find_and_lock, findfree, rounds}

-- db_fetch; `none` is NULL.
unfoldable pub db_fetch : Bytes → Cmd (Option Bytes)
db_fetch key = do
  found ← find_and_lock key false
  ptr ←
      (if found
        then (do
          data' ← readdat
          modify (λ db. record db { cnt_fetchok = db.cnt_fetchok + 1 })
          pure (some data'))
        else (do modify (λ db. record db { cnt_fetcherr = db.cnt_fetcherr + 1 }); pure none))
  db ← get
  un_lock idx db.chainoff 1
  pure ptr

-- _db_dodelete. It passes idxbuf on as the key, which is then both source and target of `sprintf`: see
-- `record_text`.
unfoldable pub dodelete : Cmd (Unit {0})
dodelete = do
  modify (λ db. record db {
    datbuf = replicate (db.datlen - 1) space;
    idxbuf = replicate (length db.idxbuf) space;
  })
  writew_lock idx 0 1
  db ← get
  writedat db.datbuf db.datoff seek_set
  freeptr ← readptr free_off
  db ← get
  let saveptr = db.ptrval
  writeidx db.idxbuf db.idxoff seek_set freeptr
  db ← get
  writeptr free_off (pos db.idxoff)
  writeptr db.ptroff saveptr
  un_lock idx 0 1

-- db_delete
unfoldable pub db_delete : Bytes → Cmd ℤ
unfolding dodelete
db_delete key = do
  found ← find_and_lock key true
  rc ←
      (if found
        then (do dodelete; modify (λ db. record db { cnt_delok = db.cnt_delok + 1 }); pure (pos 0))
        else (do modify (λ db. record db { cnt_delerr = db.cnt_delerr + 1 }); pure (negsuc 0)))
  db ← get
  un_lock idx db.chainoff 1
  pure rc

-- `flag` of db_store: one of DB_INSERT, DB_REPLACE and DB_STORE, or another number.
abbrev pub db_insert : ℕ
db_insert = 1

abbrev pub db_replace : ℕ
db_replace = 2

abbrev pub db_store_flag : ℕ
db_store_flag = 3

abbrev einval : ℕ
einval = 22

abbrev enoent : ℕ
enoent = 2

-- The branch of db_store for a key that is not there.
unfoldable pub store_new : Bytes → Bytes → Cmd ℤ
store_new key text = do
  db ← get
  ptrval ← readptr (pos db.chainoff)
  found ← findfree (length key) (length text + 1)
  if found
      then (do
        db ← get
        writedat text db.datoff seek_set
        db ← get
        writeidx key db.idxoff seek_set ptrval
        db ← get
        writeptr (pos db.chainoff) (pos db.idxoff)
        modify (λ db. record db { cnt_stor2 = db.cnt_stor2 + 1 })
        pure (pos 0))
      else (do
        writedat text 0 seek_end
        writeidx key 0 seek_end ptrval
        db ← get
        writeptr (pos db.chainoff) (pos db.idxoff)
        modify (λ db. record db { cnt_stor1 = db.cnt_stor1 + 1 })
        pure (pos 0))

-- The branch of db_store for a key that is there.
unfoldable pub store_old : Bytes → Bytes → Cmd ℤ
unfolding dodelete
store_old key text = do
  db ← get
  if length text + 1 == db.datlen
      then (do
        writedat text db.datoff seek_set
        modify (λ db. record db { cnt_stor4 = db.cnt_stor4 + 1 })
        pure (pos 0))
      else (do
        dodelete
        db ← get
        ptrval ← readptr (pos db.chainoff)
        writedat text 0 seek_end
        writeidx key 0 seek_end ptrval
        db ← get
        writeptr (pos db.chainoff) (pos db.idxoff)
        modify (λ db. record db { cnt_stor3 = db.cnt_stor3 + 1 })
        pure (pos 0))

abbrev known_flag : ℕ → Bool
known_flag flag = flag == db_insert || (flag == db_replace || flag == db_store_flag)

-- db_store
unfoldable pub db_store : Bytes → Bytes → ℕ → Cmd ℤ
unfolding store_new store_old
db_store key text flag =
    if not (known_flag flag)
    then (modify (λ db. record db { errno = einval }) >> pure (negsuc 0))
    else do
      check (not (ltb (length text + 1) datlen_min || ltb datlen_max (length text + 1)))
      found ← find_and_lock key true
      rc ←
          (if found
            then (if flag == db_insert
                then (do
                  modify (λ db. record db { cnt_storerr = db.cnt_storerr + 1 })
                  pure (pos 1))
                else store_old key text)
            else (if flag == db_replace
                then (do
                  modify (λ db. record db { cnt_storerr = db.cnt_storerr + 1; errno = enoent })
                  pure (negsuc 0))
                else store_new key text))
      db ← get
      un_lock idx db.chainoff 1
      pure rc

-- db_rewind
unfoldable pub db_rewind : Cmd (Unit {0})
db_rewind = do
  db ← get
  idxoff ← (lseek idx (pos ((db.nhash + 1) * ptr_sz + 1)) seek_set >>= or_dump)
  modify (λ db. record db { idxoff = idxoff })

abbrev is_negative : ℤ → Bool
is_negative (pos n) = false
is_negative (negsuc n) = true

-- A key that is all blank marks an empty record.
unfoldable pub all_blank : Bytes → Bool
all_blank [] = true
all_blank (c ∷ key) = c == space && all_blank key

-- The loop of db_nextrec; `false` is the end of the file.
unfoldable pub nextrec_loop : ℕ → Cmd Bool
unfolding all_blank
nextrec_loop zero = λ db. out_of_fuel
nextrec_loop (suc k) = do
  next ← readidx (pos 0)
  db ← get
  if is_negative next then pure false else if all_blank db.idxbuf then nextrec_loop k else pure true

-- db_nextrec: the key and the data of the next record.
unfoldable pub db_nextrec : Cmd (Option (Bytes × Bytes))
unfolding nextrec_loop
db_nextrec = do
  readw_lock idx 0 1
  db ← get
  more ← nextrec_loop (rounds db)
  result ←
      (if more
        then (do
          db ← get
          text ← readdat
          modify (λ db. record db { cnt_nextrec = db.cnt_nextrec + 1 })
          pure (some (db.idxbuf, text)))
        else pure none)
  un_lock idx 0 1
  pure result
