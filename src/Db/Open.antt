-- ===== src/Db/Open.antt =====
-- db.c: db_open.
use learning_notes.Base.{
  ℕ, zero, suc, ◌+◌, Bool, ◌&&◌, Option, none, some, [], ◌∷◌, ◌++◌, ◌==◌, if◌then◌else◌, length,
  codes,
}
use learning_notes.Base.Int.{pos}
use learning_notes.CString.{Bytes, padded}
use learning_notes.Db.{ptr_sz, nhash_def, newline, idx, Db, Run, Cmd, pure, ◌>>=◌, ◌>>◌, get}
use learning_notes.Db.Sys.{writev, writew_lock, un_lock}
use learning_notes.Db.Api.{db_rewind}

-- What a file system has under a name: a file that may not be opened, or created, none, or one.
pub data Found : Type 0 where
  denied : Found
  absent : Found
  present : Bytes → Found

-- `open`; `none` is its -1.
abbrev pub open_found : Found → Bool → Bool → Option Bytes
open_found denied creat trunc = none
open_found absent creat trunc = if creat then some [] else none
open_found (present old) creat trunc = if trunc then some [] else some old

unfoldable pub open_file : (Bytes → Found) → Bytes → Bool → Bool → Option Bytes
open_file fs name creat trunc = open_found (fs name) creat trunc

-- _db_alloc, with the two files open
abbrev pub alloc : Bytes → Bytes → Bytes → Db
alloc name index records = record {
  idxfd = record { bytes = index; offset = 0 };
  datfd = record { bytes = records; offset = 0 };
  idxbuf = [];
  datbuf = [];
  name = name;
  idxoff = 0;
  idxlen = 0;
  datoff = 0;
  datlen = 0;
  ptrval = pos 0;
  ptroff = pos 0;
  chainoff = 0;
  hashoff = ptr_sz;
  nhash = nhash_def;
  cnt_delok = 0;
  cnt_delerr = 0;
  cnt_fetchok = 0;
  cnt_fetcherr = 0;
  cnt_nextrec = 0;
  cnt_stor1 = 0;
  cnt_stor2 = 0;
  cnt_stor3 = 0;
  cnt_stor4 = 0;
  cnt_storerr = 0;
  locks = [];
  errno = 0;
}

-- The loop that appends `n` zero pointers to the hash table's text.
unfoldable pub zero_table : ℕ → Bytes → Bytes
zero_table zero table = table
zero_table (suc n) table = zero_table n (table ++ padded ptr_sz 0)

-- The part of db_open that initialises a database just created.
unfoldable pub init_table : Cmd (Unit {0})
unfolding zero_table
init_table = do
  writew_lock idx 0 0
  db ← get
  (if length db.idxfd.bytes == 0
      then writev idx (zero_table (nhash_def + 1) [] ++ newline ∷ [])
      else pure tt)
  un_lock idx 0 0

-- The rest of db_open, with the two files open or not.
unfoldable pub opened : Bytes → Bool → Bool → Option Bytes → Option Bytes → Option (Run (Unit {0}))
unfolding init_table
opened pathname creat trunc (some index) (some records) =
    let start = alloc (pathname ++ codes ".dat") index records in
    some ((if creat && trunc then (init_table >> db_rewind) else db_rewind) start)
opened pathname creat trunc none records = none
opened pathname creat trunc (some index) none = none

-- db_open with O_CREAT and O_TRUNC given or not; `none` is NULL.
unfoldable pub db_open : (Bytes → Found) → Bytes → Bool → Bool → Option (Run (Unit {0}))
unfolding open_file opened
db_open fs pathname creat trunc =
    opened pathname creat trunc (open_file fs (pathname ++ codes ".idx") creat trunc)
      (open_file fs (pathname ++ codes ".dat") creat trunc)
