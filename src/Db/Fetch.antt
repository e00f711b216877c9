-- ===== src/Db/Fetch.antt =====
-- db_fetch, against the chain of the key.
use learning_notes.Base.{
  ℕ, ◌+◌, ◌-◌, ◌≤◌, ◌≡◌, refl, ap, ◌∙◌, Bool, false, some, none, Option, List, [], ◌∷◌, ◌++◌, arith,
  ==-refl, length, slice, All, Bool-cases, inl, inr, get_or_last, length-append, take-append_length,
}
use learning_notes.Base.Int.{ℤ}
use learning_notes.CString.{Bytes, str_eq}
use learning_notes.CString.Fields.{Lacks, cstr_all}
use learning_notes.Base.{le→leb}
use learning_notes.Db.{ptr_max, datlen_max, newline, Which, idx, dat, File, Db, ok}
use learning_notes.Db.Sys.{lseek, read, un_lock, release}
use learning_notes.Db.Io.{readdat}
use learning_notes.Db.Search.{hash, find_and_lock}
use learning_notes.Db.Api.{db_fetch}
use learning_notes.Db.Entry.{PtrAt}
use learning_notes.Db.Chain.{Cell, HasData, Chain, seek, Kept, Holds, Sought}
use learning_notes.Db.Locate.{is_found, locked, chain_of, find_and_lock-Sought}

-- The text that a found record has.
abbrev pub text_of : Option (ℕ × Cell) → Option Bytes
text_of none = none
text_of (some (p, c)) = some c.text

abbrev pub OnFound {ℓ} : (Cell → Type ℓ) → Option (ℕ × Cell) → Type ℓ
OnFound P none = Unit
OnFound P (some (p, c)) = P c

pub seek-All {ℓ} :
    (P : Cell → Type ℓ) (p : ℕ) (key : Bytes) (cs : List Cell)
    → All P cs
    → OnFound P (seek p key cs)
unfolding seek
seek-All P p key [] a = tt
seek-All P p key (c ∷ cs) a = elim (Bool-cases (str_eq c.entry.key key)) [
  | inl hit ↦ rw hit a.0
  | inr miss ↦ rw miss (seek-All P c.at key cs a.1)
]

-- _db_readdat reads a text with its newline.
pub readdat-written :
    (db : Db) (text : Bytes) (o : ℕ)
    → db.datoff ≡ o
    → db.datlen ≡ length text + 1
    → length text + 1 ≤ datlen_max
    → Lacks 0 text
    → slice db.datfd.bytes o (length text + 1) ≡ text ++ newline ∷ []
    → readdat db
      ≡ ok text (record db {
        datfd = record { bytes = db.datfd.bytes; offset = o + (length text + 1) };
        datbuf = text;
      })
unfolding readdat lseek read
readdat-written db text o off size max lacks at =
    rw
      (
        off,
        size,
        le→leb (length text + 1) 1026 (omega (arith, max)),
        at,
        len,
        ==-refl (length text + 1),
        pred,
        get_or_last text newline 0,
        pred,
        take-append_length text (newline ∷ []),
        cstr_all text lacks,
      )
      refl
  where
    len : length (text ++ newline ∷ []) ≡ length text + 1
    len = length-append text (newline ∷ [])

    pred : length text + 1 - 1 ≡ length text
    pred = omega arith

-- _db_readdat reads the text of the record that the state holds.
pub readdat-HasData :
    (db : Db) (p : ℕ) (c : Cell) (next : ℕ)
    → c.entry.datlen ≤ datlen_max
    → Holds db p c next
    → HasData db.datfd.bytes c
    → readdat db
      ≡ ok c.text (record db {
        datfd = record { bytes = db.datfd.bytes; offset = c.entry.datoff + (length c.text + 1) };
        datbuf = c.text;
      })
readdat-HasData db p c next m h d =
    readdat-written db c.text c.entry.datoff h.datoff (h.datlen ∙ d.size) (omega (arith, m, d.size))
      d.no_nul d.data_at

-- What a call leaves as it was: both files, the shape of the hash table, and the locks.
pub record Unchanged (db db' : Db) : Type 0 where
  pub index : db'.idxfd.bytes ≡ db.idxfd.bytes
  pub records : db'.datfd.bytes ≡ db.datfd.bytes
  pub hashoff : db'.hashoff ≡ db.hashoff
  pub nhash : db'.nhash ≡ db.nhash
  pub locks : db'.locks ≡ db.locks

-- Nothing is left locked when the one lock of a call is released.
pub release_only :
    (w : Which) (b : Bool) (start : ℕ)
    → release w start 1 (record { exclusive = b; file = w; start = start; len = 1 } ∷ []) ≡ []
release_only idx b start = rw (==-refl start) refl
release_only dat b start = rw (==-refl start) refl

pub released :
    (db db1 : Db) (key : Bytes) (w : Bool)
    → db.locks ≡ []
    → Kept (locked db key w) db1
    → release idx db1.chainoff 1 db1.locks ≡ db.locks
unfolding hash
released db db1 key w e k = rw (k.locks, k.chainoff, e) (release_only idx w (chain_of db key))

fetch_found :
    (db db1 : Db) (key : Bytes) (s : Option (ℕ × Cell)) (r : ℤ)
    → db.locks ≡ []
    → find_and_lock key false db ≡ ok (is_found s) db1
    → Kept (locked db key false) db1
    → Sought s r db1
    → OnFound (HasData db1.datfd.bytes) s
    → (db' : Db) × (db_fetch key db ≡ ok (text_of s) db') × Unchanged db db'
unfolding db_fetch un_lock
fetch_found db db1 key none r e run k sought d = (
  record db1 { cnt_fetcherr = db1.cnt_fetcherr + 1; locks = release idx db1.chainoff 1 db1.locks },
  rw run refl,
  record {
    index = k.bytes;
    records = ap (λ (f : File). f.bytes) k.datfd;
    hashoff = k.hashoff;
    nhash = k.nhash;
    locks = released db db1 key false e k;
  },
)
fetch_found db db1 key (some (p, c)) r e run k (next, _, st, holds) d = (
  record db1 {
    datfd = record { bytes = db1.datfd.bytes; offset = c.entry.datoff + (length c.text + 1) };
    datbuf = c.text;
    cnt_fetchok = db1.cnt_fetchok + 1;
    locks = release idx db1.chainoff 1 db1.locks;
  },
  rw (run, readdat-HasData db1 p c next st.readable.max_data holds d) refl,
  record {
    index = k.bytes;
    records = ap (λ (f : File). f.bytes) k.datfd;
    hashoff = k.hashoff;
    nhash = k.nhash;
    locks = released db db1 key false e k;
  },
)

-- In a database without locks whose chain of the key is sound, with data in place and no more
-- records than the index file has bytes, db_fetch ends and returns the text of the first record of
-- the chain that has the key, or NULL if there is none. It changes neither file, and no lock is
-- left.
pub db_fetch-seek :
    (db : Db) (key : Bytes) (head : ℕ) (cs : List Cell)
    → db.locks ≡ []
    → head ≤ ptr_max
    → PtrAt db.idxfd.bytes (chain_of db key) head
    → Chain db.idxfd.bytes head cs
    → length cs ≤ length db.idxfd.bytes
    → All (HasData db.datfd.bytes) cs
    → (db' : Db) × (db_fetch key db ≡ ok (text_of (seek (chain_of db key) key cs)) db')
      × Unchanged db db'
db_fetch-seek db key head cs none_held h at ch l d =
    let (r, db1, run, kept, sought) = find_and_lock-Sought db key false head cs h at ch l in
    fetch_found db db1 key (seek (chain_of db key) key cs) r none_held run kept sought
      (rw kept.datfd (seek-All (HasData db.datfd.bytes) (chain_of db key) key cs d))

-- db_fetch where no record of the chain has the key, whatever the data file holds.
pub db_fetch-missing :
    (db : Db) (key : Bytes) (head : ℕ) (cs : List Cell)
    → db.locks ≡ []
    → head ≤ ptr_max
    → PtrAt db.idxfd.bytes (chain_of db key) head
    → Chain db.idxfd.bytes head cs
    → length cs ≤ length db.idxfd.bytes
    → seek (chain_of db key) key cs ≡ none
    → (db' : Db) × (db_fetch key db ≡ ok none db') × Unchanged db db'
db_fetch-missing db key head cs none_held h at ch l e =
    let (r, db1, run, kept, sought) =
      rw e at (find_and_lock-Sought db key false head cs h at ch l) in
    fetch_found db db1 key none r none_held run kept sought tt
