-- ===== src/Db/Next.antt =====
-- db_nextrec: the records of the index file in the order in which they lie there.
use native.Mathlib.Nat.{add-zero}
use learning_notes.Base.{
  ℕ, zero, suc, ◌+◌, ◌≤◌, ◌<◌, ◌≡◌, ◌≢◌, refl, sym, ap, ◌∙◌, Bool, true, false, inl, inr, Option,
  none, some, List, [], ◌∷◌, arith, ==_of_ne, if◌then◌else◌, length, slice, All, Bool-cases,
  slice-add, length-append,
}
use learning_notes.Base.Int.{pos, negsuc}
use learning_notes.CString.{Bytes, padded}
use learning_notes.CString.Digits.{length-padded}
use learning_notes.Db.{datlen_max, idx, File, Lock, Db, ok}
use learning_notes.Db.Sys.{lseek, read, readw_lock, un_lock, release}
use learning_notes.Db.Io.{readidx}
use learning_notes.Db.Search.{rounds}
use learning_notes.Db.Api.{all_blank, nextrec_loop, db_nextrec}
use learning_notes.Db.Entry.{Entry, entry_text, EntryAt, IsReadable, loaded, readidx-EntryAt}
use learning_notes.Db.Image.{span}
use learning_notes.Db.Chain.{Cell, IsStored, HasData, Kept, Kept-trans}
use learning_notes.Db.Fetch.{readdat-written, Unchanged}

-- From `o` the file holds the records `cs`, one behind the other, and nothing else.
abbrev pub Records : Bytes → ℕ → List Cell → Type 0
Records f o [] = o ≡ length f
Records f o (c ∷ cs) =
    (next : ℕ) × (c.at ≡ o) × IsStored f c next × Records f (c.at + span c.entry) cs

-- The records that are not empty have their data.
abbrev pub Texts : Bytes → List Cell → Type 0
Texts g = All (λ (c : Cell). all_blank c.entry.key ≡ false → HasData g c)

-- The first record that is not empty, and what follows it.
abbrev pub next_full : List Cell → Option (Cell × List Cell)
next_full [] = none
next_full (c ∷ cs) = if all_blank c.entry.key then next_full cs else some (c, cs)

pub length-Records :
    (f : Bytes) (o : ℕ) (cs : List Cell) → Records f o cs → o + length cs ≤ length f
length-Records f o [] r = omega (arith, r)
length-Records f o (c ∷ cs) (next, here, st, r) =
    omega (arith, here, length-Records f (c.at + span c.entry) cs r)

header-length :
    (db : Db) (o next : ℕ) (e : Entry)
    → EntryAt db.idxfd.bytes o e next
    → IsReadable e
    → length (slice db.idxfd.bytes o 11) ≡ 11
header-length db o next e at r =
    rw (slice-add db.idxfd.bytes o 7 4, at.link, at.size)
      (omega (
        arith,
        length-append (padded 7 next) (padded 4 (length (entry_text e))),
        length-padded next 6 (omega (arith, at.next_le)),
        length-padded (length (entry_text e)) 3 (omega (arith, r.max_size)),
      ))

-- Offset 0 asks _db_readidx for the record where the descriptor is.
readidx-here :
    (db : Db) (o : ℕ)
    → db.idxfd.offset ≡ o
    → o ≢ 0
    → length (slice db.idxfd.bytes o 11) ≡ 11
    → readidx (pos 0) db ≡ readidx (pos o) db
unfolding readidx lseek read
readidx-here db o e ne l = rw (e, ==_of_ne o 0 ne, add-zero, l) refl

slice-end : (f : Bytes) (n : ℕ) → slice f (length f) n ≡ []
slice-end [] zero = refl
slice-end [] (suc n) = refl
slice-end (x ∷ f) n = slice-end f n

readidx-end :
    (db : Db)
    → db.idxfd.offset ≡ length db.idxfd.bytes
    → (db' : Db) × (readidx (pos 0) db ≡ ok (negsuc 0) db') × Kept db db'
unfolding readidx lseek read
readidx-end db e = (
  record db {
    idxfd = record { bytes = db.idxfd.bytes; offset = db.idxfd.offset };
    idxoff = db.idxfd.offset;
  },
  rw (e, add-zero, slice-end db.idxfd.bytes 11, add-zero) refl,
  record {
    bytes = refl;
    datfd = refl;
    chainoff = refl;
    hashoff = refl;
    nhash = refl;
    locks = refl;
  },
)

-- What the loop of db_nextrec comes to.
abbrev pub NextLoop : Bytes → Option (Cell × List Cell) → Bool → Db → Type 0
NextLoop f none more db = more ≡ false
NextLoop f (some (c, cs)) more db =
    (more ≡ true)
    × (db.idxbuf ≡ c.entry.key)
    × (db.datoff ≡ c.entry.datoff)
    × (db.datlen ≡ c.entry.datlen)
    × (c.entry.datlen ≤ datlen_max)
    × (db.idxfd.offset ≡ c.at + span c.entry)
    × Records f (c.at + span c.entry) cs

nextrec_loop-NextLoop :
    (k : ℕ) (db : Db) (o : ℕ) (cs : List Cell)
    → length cs < k
    → db.idxfd.offset ≡ o
    → Records db.idxfd.bytes o cs
    → (more : Bool) × (db' : Db) × (nextrec_loop k db ≡ ok more db')
      × Kept db db'
      × NextLoop db.idxfd.bytes (next_full cs) more db'
unfolding nextrec_loop
nextrec_loop-NextLoop zero db o cs l e r = elim l [ ]
nextrec_loop-NextLoop (suc k) db o [] l e r =
    let (db', run, kept) = readidx-end db (e ∙ r) in (false, db', rw run refl, kept, refl)
nextrec_loop-NextLoop (suc k) db o (c ∷ cs) l e (next, here, st, r) =
    elim (Bool-cases (all_blank c.entry.key)) [
      | inl blank ↦
          (let (more, db', run, kept', z) =
              nextrec_loop-NextLoop k (loaded db c.at c.entry next) (c.at + span c.entry) cs
                (omega arith) (omega arith) r in
            (more, db', rw (found, blank) run, Kept-trans kept kept', rw blank z))
      | inr full ↦ (
        true,
        loaded db c.at c.entry next,
        rw (found, full) refl,
        kept,
        rw full (refl, refl, refl, refl, st.readable.max_data, omega arith, r),
      )
    ]
  where
    found : readidx (pos 0) db ≡ ok (pos next) (loaded db c.at c.entry next)
    found =
        readidx-here db c.at (e ∙ sym here) st.ne_zero
          (header-length db c.at next c.entry st.entry_at st.readable)
        ∙ readidx-EntryAt db c.at c.entry next st.ne_zero st.readable st.entry_at

    kept : Kept db (loaded db c.at c.entry next)
    kept = record {
      bytes = refl;
      datfd = refl;
      chainoff = refl;
      hashoff = refl;
      nhash = refl;
      locks = refl;
    }

-- What db_nextrec returns.
abbrev pub full_of : Option (Cell × List Cell) → Option (Bytes × Bytes)
full_of none = none
full_of (some (c, cs)) = some (c.entry.key, c.text)

abbrev pub Positioned : Bytes → Option (Cell × List Cell) → Db → Type 0
Positioned f none db = Unit
Positioned f (some (c, cs)) db =
    (db.idxfd.offset ≡ c.at + span c.entry) × Records f (c.at + span c.entry) cs

abbrev list_lock : Lock
list_lock = record { exclusive = false; file = idx; start = 0; len = 1 }

abbrev reading : Db → Db
reading db = record db { locks = list_lock ∷ db.locks }

abbrev FullData : Bytes → Option (Cell × List Cell) → Type 0
FullData g none = Unit
FullData g (some (c, cs)) = HasData g c

next_full-FullData : (g : Bytes) (cs : List Cell) → Texts g cs → FullData g (next_full cs)
next_full-FullData g [] t = tt
next_full-FullData g (c ∷ cs) t = elim (Bool-cases (all_blank c.entry.key)) [
  | inl blank ↦ rw blank (next_full-FullData g cs t.1)
  | inr full ↦ rw full (t.0 full)
]

nextrec-end :
    (db db1 : Db) (more : Bool) (o : Option (Cell × List Cell))
    → db.locks ≡ []
    → nextrec_loop (rounds (reading db)) (reading db) ≡ ok more db1
    → Kept (reading db) db1
    → NextLoop db.idxfd.bytes o more db1
    → FullData db.datfd.bytes o
    → (db' : Db) × (db_nextrec db ≡ ok (full_of o) db')
      × Unchanged db db'
      × Positioned db.idxfd.bytes o db'
unfolding db_nextrec readw_lock un_lock
nextrec-end db db1 more none e run k z d = (
  record db1 { locks = release idx 0 1 db1.locks },
  rw (run, z) refl,
  record {
    index = k.bytes;
    records = ap (λ (t : File). t.bytes) k.datfd;
    hashoff = k.hashoff;
    nhash = k.nhash;
    locks = ap (release idx 0 1) (k.locks ∙ ap (λ ls. list_lock ∷ ls) e) ∙ sym e;
  },
  tt,
)
nextrec-end db db1 more (some (c, cs)) e run k (m, key, off, len, max, at, rest) d = (
  record db1 {
    datfd = record { bytes = db1.datfd.bytes; offset = c.entry.datoff + (length c.text + 1) };
    datbuf = c.text;
    cnt_nextrec = db1.cnt_nextrec + 1;
    locks = release idx 0 1 db1.locks;
  },
  rw
      (
        run,
        m,
        readdat-written db1 c.text c.entry.datoff off (len ∙ d.size) (omega (arith, max, d.size))
            d.no_nul
            (ap (λ (t : File). slice t.bytes c.entry.datoff (length c.text + 1)) k.datfd
              ∙ d.data_at),
        key,
      )
      refl,
  record {
    index = k.bytes;
    records = ap (λ (t : File). t.bytes) k.datfd;
    hashoff = k.hashoff;
    nhash = k.nhash;
    locks = ap (release idx 0 1) (k.locks ∙ ap (λ ls. list_lock ∷ ls) e) ∙ sym e;
  },
  (at, rest),
)

-- Where the index file holds a sequence of records from the offset of its descriptor to its end,
-- with the data of those that are not empty in place, and no lock is held, db_nextrec ends. It
-- passes over the empty records and returns key and text of the first other one, or NULL if there
-- is none. It changes neither file, leaves no lock, and the descriptor stands behind the record.
pub db_nextrec-next_full :
    (db : Db) (o : ℕ) (cs : List Cell)
    → db.locks ≡ []
    → db.idxfd.offset ≡ o
    → Records db.idxfd.bytes o cs
    → Texts db.datfd.bytes cs
    → (db' : Db) × (db_nextrec db ≡ ok (full_of (next_full cs)) db')
      × Unchanged db db'
      × Positioned db.idxfd.bytes (next_full cs) db'
db_nextrec-next_full db o cs e at r t =
    let (more, db1, run, kept, z) =
      nextrec_loop-NextLoop (rounds (reading db)) (reading db) o cs
        (omega (arith, length-Records db.idxfd.bytes o cs r)) at r in
    nextrec-end db db1 more (next_full cs) e run kept z (next_full-FullData db.datfd.bytes cs t)
