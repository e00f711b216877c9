-- ===== src/Db/Io.antt =====
-- db.c: the reading and writing of chain pointers, index records and data records.
use learning_notes.Base.{
  ℕ, ◌+◌, ◌-◌, ◌*◌, Bool, true, false, ◌&&◌, ◌||◌, Option, none, some, [], ◌∷◌, ◌++◌, ltb, leb,
  ◌==◌, if◌then◌else◌, length, take, drop, get_or,
}
use learning_notes.Base.Int.{ℤ, pos, negsuc}
use learning_notes.CString.{Bytes, cstr, split_at, atol, decimal, padded}
use learning_notes.Db.{
  idxlen_sz, ptr_sz, ptr_max, idxlen_min, idxlen_max, datlen_max, sep, newline, idx, dat, Whence,
  seek_set, seek_cur, seek_end, Cmd, pure, err_dump, ◌>>=◌, ◌>>◌, get, modify, check, in_buffer,
}
use learning_notes.Db.Sys.{or_dump, lseek, read, writev, writew_lock, un_lock}

abbrev pub is_zero : ℤ → Bool
is_zero (pos n) = n == 0
is_zero (negsuc n) = false

-- A signed value stored in a size_t and tested against two limits; a negative one is huge.
abbrev pub size_in : ℕ → ℕ → ℤ → Option ℕ
size_in lo hi (pos n) = if ltb n lo || ltb hi n then none else some n
size_in lo hi (negsuc n) = none

abbrev pub nonneg : ℤ → Option ℕ
nonneg (pos n) = some n
nonneg (negsuc n) = none

abbrev pub is_none : {A : Type 0} → Option A → Bool
is_none none = true
is_none (some a) = false

abbrev pub is_end : Whence → Bool
is_end seek_end = true
is_end seek_set = false
is_end seek_cur = false

-- _db_readptr
unfoldable pub readptr : ℤ → Cmd ℤ
readptr offset = do
  (lseek idx offset seek_set >>= or_dump) >> pure tt
  asciiptr ← read idx ptr_sz
  check (length asciiptr == ptr_sz)
  pure (atol asciiptr)

-- The part of _db_readidx that reads and takes apart the record behind its header.
unfoldable pub readidx_body : Bytes → Cmd ℤ
readidx_body header = do
  let ptrval = atol (take ptr_sz header)
  modify (λ db. record db { ptrval = ptrval })
  idxlen ← or_dump (size_in idxlen_min idxlen_max (atol (drop ptr_sz header)))
  modify (λ db. record db { idxlen = idxlen })
  body ← read idx idxlen
  check (length body == idxlen)
  check (get_or body (idxlen - 1) 0 == newline)
  (key, rest) ← or_dump (split_at sep (cstr (take (idxlen - 1) body)))
  (off, len) ← or_dump (split_at sep rest)
  check (is_none (split_at sep len))
  modify (λ db. record db { idxbuf = key })
  datoff ← or_dump (nonneg (atol off))
  modify (λ db. record db { datoff = datoff })
  datlen ← or_dump (size_in 1 datlen_max (atol len))
  modify (λ db. record db { datlen = datlen })
  pure ptrval

-- _db_readidx
unfoldable pub readidx : ℤ → Cmd ℤ
readidx offset = do
  idxoff ← (lseek idx offset (if is_zero offset then seek_cur else seek_set) >>= or_dump)
  modify (λ db. record db { idxoff = idxoff })
  header ← read idx (ptr_sz + idxlen_sz)
  if length header == ptr_sz + idxlen_sz
      then readidx_body header
      else if length header == 0 && is_zero offset
      then pure (negsuc 0)
      else err_dump

-- _db_readdat; datbuf has DATLEN_MAX + 2 bytes.
unfoldable pub readdat : Cmd Bytes
readdat = do
  db ← get
  (lseek dat (pos db.datoff) seek_set >>= or_dump) >> pure tt
  in_buffer (leb db.datlen (datlen_max + 2))
  got ← read dat db.datlen
  check (length got == db.datlen)
  check (get_or got (db.datlen - 1) 0 == newline)
  modify (λ db. record db { datbuf = cstr (take (db.datlen - 1) got) })
  pure (cstr (take (db.datlen - 1) got))

abbrev when : Bool → Cmd (Unit {0}) → Cmd (Unit {0})
when true c = c
when false c = λ db. pure tt db

-- _db_writedat
unfoldable pub writedat : Bytes → ℕ → Whence → Cmd (Unit {0})
writedat text offset whence = do
  when (is_end whence) (writew_lock dat 0 0)
  datoff ← (lseek dat (pos offset) whence >>= or_dump)
  modify (λ db. record db { datoff = datoff; datlen = length text + 1 })
  writev dat (text ++ newline ∷ [])
  when (is_end whence) (un_lock dat 0 0)

-- What `sprintf` leaves in idxbuf: key, separator, data offset, separator, data length, newline. In
-- a call from _db_dodelete the key lies in idxbuf itself, which C leaves undefined: here the key is
-- read as it was before the call.
unfoldable pub record_text : Bytes → ℕ → ℕ → Bytes
record_text key datoff datlen =
    key ++ sep ∷ (decimal datoff ++ sep ∷ (decimal datlen ++ newline ∷ []))

abbrev pub ptr_ok : ℤ → Bool
ptr_ok (pos n) = leb n ptr_max
ptr_ok (negsuc n) = false

abbrev pub magnitude : ℤ → ℕ
magnitude (pos n) = n
magnitude (negsuc n) = 0

-- _db_writeidx; `magnitude` is taken only of a pointer that passed the first test. idxbuf has
-- IDXLEN_MAX + 2 bytes, for the text and a NUL.
unfoldable pub writeidx : Bytes → ℕ → Whence → ℤ → Cmd (Unit {0})
unfolding record_text
writeidx key offset whence ptrval = do
  modify (λ db. record db { ptrval = ptrval })
  check (ptr_ok ptrval)
  db ← get
  let text = record_text key db.datoff db.datlen
  in_buffer (leb (length text + 1) (idxlen_max + 2))
  modify (λ db. record db { idxbuf = text })
  check (leb idxlen_min (length text) && leb (length text) idxlen_max)
  when (is_end whence) (writew_lock idx ((db.nhash + 1) * ptr_sz + 1) 0)
  idxoff ← (lseek idx (pos offset) whence >>= or_dump)
  modify (λ db. record db { idxoff = idxoff })
  writev idx ((padded ptr_sz (magnitude ptrval) ++ padded idxlen_sz (length text)) ++ text)
  when (is_end whence) (un_lock idx ((db.nhash + 1) * ptr_sz + 1) 0)

-- _db_writeptr
unfoldable pub writeptr : ℤ → ℤ → Cmd (Unit {0})
writeptr offset ptrval = do
  check (ptr_ok ptrval)
  (lseek idx offset seek_set >>= or_dump) >> pure tt
  writev idx (padded ptr_sz (magnitude ptrval))
