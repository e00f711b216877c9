-- ===== src/Db/Search.antt =====
-- db.c: the hash of a key, the walk along a hash chain, and the walk along the free list.
use learning_notes.Base.{
  ℕ, zero, suc, ◌+◌, ◌-◌, ◌*◌, ◌%◌, ◌^◌, Bool, true, false, ◌&&◌, [], ◌∷◌, ltb, ◌==◌, if◌then◌else◌,
  length,
}
use learning_notes.Base.Int.{ℤ, pos}
use learning_notes.CString.{Bytes, str_eq}
use learning_notes.Db.{ptr_sz, free_off, idx, Db, out_of_fuel, Cmd, pure, ◌>>=◌, ◌>>◌, get, modify}
use learning_notes.Db.Sys.{writew_lock, readw_lock, un_lock}
use learning_notes.Db.Io.{is_zero, readptr, readidx, writeptr}

-- A `char`, which is signed, as an unsigned long.
unfoldable pub char_value : ℕ → ℕ
char_value c = if ltb c 128 then c else 2 ^ 64 + c - 256

unfoldable pub hash_loop : ℕ → ℕ → Bytes → ℕ
unfolding char_value
hash_loop hval i [] = hval
hash_loop hval i (c ∷ key) = hash_loop ((hval + char_value c * i) % 2 ^ 64) (i + 1) key

-- _db_hash
unfoldable pub hash : Db → Bytes → ℕ
unfolding hash_loop
hash db key = hash_loop 0 1 key % db.nhash

-- The loop of _db_find_and_lock: the offset of the record with the key, or 0.
unfoldable pub find_loop : ℕ → Bytes → ℤ → Cmd ℤ
find_loop zero key offset = λ db. out_of_fuel
find_loop (suc k) key offset = if is_zero offset then pure offset else do
  nextoffset ← readidx offset
  db ← get
  if str_eq db.idxbuf key
      then pure offset
      else do modify (λ db. record db { ptroff = offset }); find_loop k key nextoffset

-- One round more than the index file has bytes: a chain without a cycle is shorter.
abbrev pub rounds : Db → ℕ
rounds db = suc (length db.idxfd.bytes)

-- _db_find_and_lock; the result says whether the key was found.
unfoldable pub find_and_lock : Bytes → Bool → Cmd Bool
unfolding find_loop
find_and_lock key writelock = do
  modify (λ db. record db { chainoff = hash db key * ptr_sz + db.hashoff })
  modify (λ db. record db { ptroff = pos db.chainoff })
  db ← get
  if writelock then writew_lock idx db.chainoff 1 else readw_lock idx db.chainoff 1
  offset ← readptr db.ptroff
  offset ← find_loop (rounds db) key offset
  pure (if is_zero offset then false else true)

-- The loop of _db_findfree: the offset of the first fitting record, or 0, and the offset of the
-- pointer that leads to it.
unfoldable pub findfree_loop : ℕ → ℕ → ℕ → ℤ → ℤ → Cmd (ℤ × ℤ)
findfree_loop zero keylen datlen saveoffset offset = λ db. out_of_fuel
findfree_loop (suc k) keylen datlen saveoffset offset =
    if is_zero offset then pure (saveoffset, offset) else do
      nextoffset ← readidx offset
      db ← get
      if length db.idxbuf == keylen && db.datlen == datlen
          then pure (saveoffset, offset)
          else findfree_loop k keylen datlen offset nextoffset

-- _db_findfree; the result says whether a record was found.
unfoldable pub findfree : ℕ → ℕ → Cmd Bool
unfolding findfree_loop
findfree keylen datlen = do
  writew_lock idx 0 1
  offset ← readptr free_off
  db ← get
  (saveoffset, offset) ← findfree_loop (rounds db) keylen datlen free_off offset
  db ← get
  found ← (if is_zero offset then pure false else (writeptr saveoffset db.ptrval >> pure true))
  un_lock idx 0 1
  pure found
