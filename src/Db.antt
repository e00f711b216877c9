-- ===== src/Db.antt =====
-- apue.3e/db/db.c: the state of an open database, and the files it works on.
pub mod Sys
pub mod Io
pub mod Search
pub mod Api
pub mod Open
pub mod Entry
pub mod Image
pub mod Writes
pub mod Chain
pub mod Locate
pub mod Fetch
pub mod Frame
pub mod Delete
pub mod Unlink
pub mod Sites
pub mod Removed
pub mod Remove
pub mod DeleteFetch
pub mod Cells
pub mod Sound
pub mod Rows
pub mod SoundDelete
pub mod SoundRemoved
pub mod DeleteView
pub mod FreeWalk
pub mod Added
pub mod Append
pub mod Reuse
pub mod StoreRun
pub mod StoreSound
pub mod Retext
pub mod Views
pub mod StoreOld
pub mod StoreView
pub mod Created
pub mod Session
pub mod Next
pub mod Scan
pub mod Table
pub mod RoundTrip
mod Sample
mod Tests
mod SoundTests
use learning_notes.Base.{
  ℕ, ◌+◌, ◌*◌, ◌≡◌, Bool, true, false, ◌&&◌, Option, none, some, List, [], ◌∷◌, ◌==◌, if◌then◌else◌,
  length, slice, write, take, drop,
}
use learning_notes.Base.Int.{ℤ, pos, negsuc}
use learning_notes.CString.{Bytes}

-- IDXLEN_SZ, PTR_SZ, PTR_MAX, NHASH_DEF and the limits of apue_db.h.
abbrev pub idxlen_sz : ℕ
idxlen_sz = 4

abbrev pub ptr_sz : ℕ
ptr_sz = 7

abbrev pub ptr_max : ℕ
ptr_max = 9999999

abbrev pub nhash_def : ℕ
nhash_def = 137

abbrev pub idxlen_min : ℕ
idxlen_min = 6

abbrev pub idxlen_max : ℕ
idxlen_max = 1024

abbrev pub datlen_min : ℕ
datlen_min = 2

abbrev pub datlen_max : ℕ
datlen_max = 1024

abbrev pub sep : ℕ
sep = b':'

abbrev pub space : ℕ
space = 0x20

abbrev pub newline : ℕ
newline = 0x0a

-- FREE_OFF
abbrev pub free_off : ℤ
free_off = pos 0

-- An open file: its bytes and the descriptor's offset.
pub record File : Type 0 where
  pub bytes : Bytes
  pub offset : ℕ

pub data Which : Type 0 where
  idx dat : Which

pub data Whence : Type 0 where
  seek_set seek_cur seek_end : Whence

-- A record lock on `len` bytes from `start`, where 0 means to the end of the file.
pub record Lock : Type 0 where
  pub exclusive : Bool
  pub file : Which
  pub start : ℕ
  pub len : ℕ

-- `DB`, with the two files behind its descriptors, the record locks held, and errno.
-- `idxbuf` and `datbuf` are the C strings at the front of the two buffers.
pub record Db : Type 0 where
  pub idxfd : File
  pub datfd : File
  pub idxbuf : Bytes
  pub datbuf : Bytes
  pub name : Bytes
  pub idxoff : ℕ
  pub idxlen : ℕ
  pub datoff : ℕ
  pub datlen : ℕ
  pub ptrval : ℤ
  pub ptroff : ℤ
  pub chainoff : ℕ
  pub hashoff : ℕ
  pub nhash : ℕ
  pub cnt_delok : ℕ
  pub cnt_delerr : ℕ
  pub cnt_fetchok : ℕ
  pub cnt_fetcherr : ℕ
  pub cnt_nextrec : ℕ
  pub cnt_stor1 : ℕ
  pub cnt_stor2 : ℕ
  pub cnt_stor3 : ℕ
  pub cnt_stor4 : ℕ
  pub cnt_storerr : ℕ
  pub locks : List Lock
  pub errno : ℕ

-- A run ends with a value and a state, by err_dump or err_quit, in an access behind the end of
-- idxbuf or datbuf, or not within its fuel.
pub data Run (A : Type 0) : Type 0 where
  ok : A → Db → Run A
  dumped : Run A
  overrun : Run A
  out_of_fuel : Run A

abbrev pub Cmd : Type 0 → Type 0
Cmd A = Db → Run A

abbrev pub pure : {A : Type 0} → A → Cmd A
pure a = λ db. ok a db

abbrev pub err_dump : {A : Type 0} → Cmd A
err_dump = λ db. dumped

module _ {A B : Type 0} where
  abbrev pub and_then : Run A → (A → Cmd B) → Run B
  and_then (ok a db) k = k a db
  and_then dumped k = dumped
  and_then overrun k = overrun
  and_then out_of_fuel k = out_of_fuel

  infixl 5 ◌>>=◌ ◌>>◌
  abbrev pub ◌>>=◌ : Cmd A → (A → Cmd B) → Cmd B
  m >>= k = λ db. and_then (m db) k

  abbrev pub ◌>>◌ : Cmd A → Cmd B → Cmd B
  m >> n = m >>= λ _. n

abbrev pub get : Cmd Db
get = λ db. ok db db

abbrev pub modify : (Db → Db) → Cmd (Unit {0})
modify f = λ db. ok tt (f db)

-- `if (b) err_dump(...)`
abbrev pub check : Bool → Cmd (Unit {0})
check b = λ db. if b then ok tt db else dumped

abbrev pub file_of : Db → Which → File
file_of db idx = db.idxfd
file_of db dat = db.datfd

-- An access to a buffer, which is undefined if it does not fit.
abbrev pub in_buffer : Bool → Cmd (Unit {0})
in_buffer b = λ db. if b then ok tt db else overrun

abbrev pub set_file : Db → Which → File → Db
set_file db idx f = record db { idxfd = f }
set_file db dat f = record db { datfd = f }
