-- ===== src/Db/Sys.antt =====
-- The calls of the system that db.c makes on its two descriptors: lseek, read, write and writev,
-- and the record locks of apue.h. A write puts down all its bytes; a lock is granted at once.
use learning_notes.Base.{
  ℕ, ◌+◌, ◌-◌, Bool, true, false, ◌&&◌, Option, none, some, List, [], ◌∷◌, ltb, ◌==◌, if◌then◌else◌,
  length, slice, write,
}
use learning_notes.Base.Int.{ℤ, pos, negsuc}
use learning_notes.CString.{Bytes}
use learning_notes.Db.{
  File, Which, idx, dat, Whence, seek_set, seek_cur, seek_end, Lock, Cmd, ok, dumped, file_of,
  set_file,
}

-- `if (x == -1) err_dump(...)`
abbrev pub or_dump : {A : Type 0} → Option A → Cmd A
or_dump none = λ db. dumped
or_dump (some a) = λ db. ok a db

abbrev add_offset : ℕ → ℤ → Option ℕ
add_offset b (pos n) = some (b + n)
add_offset b (negsuc n) = if ltb n b then some (b - n - 1) else none

-- Where `lseek` goes; `none` is its -1, before the start of the file.
abbrev pub target : File → ℤ → Whence → Option ℕ
target f (pos n) seek_set = some n
target f (negsuc n) seek_set = none
target f off seek_cur = add_offset f.offset off
target f off seek_end = add_offset (length f.bytes) off

-- `lseek`
unfoldable pub lseek : Which → ℤ → Whence → Cmd (Option ℕ)
lseek w off whence db = elim (target (file_of db w) off whence) [
  | none ↦ ok none db
  | some p ↦ ok (some p) (set_file db w (record { bytes = (file_of db w).bytes; offset = p }))
]

-- `read`, and `readv` into adjoining parts
unfoldable pub read : Which → ℕ → Cmd Bytes
read w n db =
    let f = file_of db w in
    let got = slice f.bytes f.offset n in
    ok got (set_file db w (record f { offset = f.offset + length got }))

-- `write`, and `writev` of adjoining parts
unfoldable pub writev : Which → Bytes → Cmd (Unit {0})
writev w bs db =
    let f = file_of db w in
    ok tt
      (set_file db w (record { bytes = write f.bytes f.offset bs; offset = f.offset + length bs }))

unfoldable pub writew_lock : Which → ℕ → ℕ → Cmd (Unit {0})
writew_lock w start len db = ok tt (record db {
  locks = record { exclusive = true; file = w; start = start; len = len } ∷ db.locks;
})

unfoldable pub readw_lock : Which → ℕ → ℕ → Cmd (Unit {0})
readw_lock w start len db = ok tt (record db {
  locks = record { exclusive = false; file = w; start = start; len = len } ∷ db.locks;
})

abbrev pub same_file : Which → Which → Bool
same_file idx idx = true
same_file idx dat = false
same_file dat idx = false
same_file dat dat = true

abbrev pub release : Which → ℕ → ℕ → List Lock → List Lock
release w start len [] = []
release w start len (l ∷ ls) =
    let rest = release w start len ls in
    if same_file l.file w && (l.start == start && l.len == len) then rest else l ∷ rest

-- `un_lock` of a region that was locked as a whole
unfoldable pub un_lock : Which → ℕ → ℕ → Cmd (Unit {0})
un_lock w start len db = ok tt (record db { locks = release w start len db.locks })
