-- ===== src/Db/Scan.antt =====
-- A pass over the database with db_rewind and db_nextrec.
use learning_notes.Base.{
  ℕ, zero, suc, ◌+◌, ◌*◌, ◌<◌, ◌≡◌, refl, ◌∙◌, true, inl, inr, Option, none, some, List, [], ◌∷◌,
  arith, if◌then◌else◌, length, Bool-cases,
}
use learning_notes.CString.{Bytes}
use learning_notes.Db.{Db, Cmd, ok, pure, ◌>>=◌, ◌>>◌}
use learning_notes.Db.Sys.{lseek}
use learning_notes.Db.Api.{all_blank, db_nextrec, db_rewind}
use learning_notes.Db.Chain.{Cell}
use learning_notes.Db.Fetch.{Unchanged}
use learning_notes.Db.Next.{Records, Texts, next_full, full_of, Positioned, db_nextrec-next_full}
use learning_notes.Db.Image.{span}

-- A client that asks for the next record until there is none, `n` times at most.
unfoldable pub scan : ℕ → Cmd (List (Bytes × Bytes))
scan zero = pure []
scan (suc n) =
    db_nextrec >>= λ r. elim r [ none ↦ pure [] | some x ↦ (scan n >>= λ xs. pure (x ∷ xs)) ]

-- Key and text of the records that are not empty.
abbrev pub full_texts : List Cell → List (Bytes × Bytes)
full_texts [] = []
full_texts (c ∷ cs) =
    if all_blank c.entry.key then full_texts cs else (c.entry.key, c.text) ∷ full_texts cs

abbrev Rest : Bytes → List Cell → Option (Cell × List Cell) → Type 0
Rest g cs none = full_texts cs ≡ []
Rest g cs (some (c, cs')) =
    (full_texts cs ≡ (c.entry.key, c.text) ∷ full_texts cs')
    × (length cs' < length cs)
    × Texts g cs'

Rest-cons :
    (g : Bytes) (x : Cell) (cs : List Cell) (o : Option (Cell × List Cell))
    → all_blank x.entry.key ≡ true
    → Rest g cs o
    → Rest g (x ∷ cs) o
Rest-cons g x cs none blank r = rw blank r
Rest-cons g x cs (some (c, cs')) blank (e, l, t) = (rw blank e, omega arith, t)

next_full-Rest : (g : Bytes) (cs : List Cell) → Texts g cs → Rest g cs (next_full cs)
next_full-Rest g [] t = refl
next_full-Rest g (c ∷ cs) t = elim (Bool-cases (all_blank c.entry.key)) [
  | inl blank ↦ rw blank (Rest-cons g c cs (next_full cs) blank (next_full-Rest g cs t.1))
  | inr full ↦ rw full (rw full refl, omega arith, t.1)
]

Unchanged-trans : (a b c : Db) → Unchanged a b → Unchanged b c → Unchanged a c
Unchanged-trans a b c p q = record {
  index = q.index ∙ p.index;
  records = q.records ∙ p.records;
  hashoff = q.hashoff ∙ p.hashoff;
  nhash = q.nhash ∙ p.nhash;
  locks = q.locks ∙ p.locks;
}

-- Passes of at most `n` records do as they should.
abbrev Passes : ℕ → Type 0
Passes n =
    (db : Db) (o : ℕ) (cs : List Cell)
    → length cs < n
    → db.locks ≡ []
    → db.idxfd.offset ≡ o
    → Records db.idxfd.bytes o cs
    → Texts db.datfd.bytes cs
    → (db' : Db) × (scan n db ≡ ok (full_texts cs) db') × Unchanged db db'

one_more :
    (n : ℕ) (db db1 : Db) (cs : List Cell) (x : Option (Cell × List Cell))
    → Passes n
    → length cs < suc n
    → db.locks ≡ []
    → db_nextrec db ≡ ok (full_of x) db1
    → Unchanged db db1
    → Positioned db.idxfd.bytes x db1
    → Rest db.datfd.bytes cs x
    → (db' : Db) × (scan (suc n) db ≡ ok (full_texts cs) db') × Unchanged db db'
unfolding scan
one_more n db db1 cs none pass l e run u p rest = (db1, rw (run, rest) refl, u)
one_more n db db1 cs (some (c, cs')) pass l e run u (at, r) (f, l', t) =
    let (db2, run', u') =
      pass db1 (c.at + span c.entry) cs' (omega arith) (u.locks ∙ e) at (rw u.index r)
        (rw u.records t) in
    (db2, rw (run, run', f) refl, Unchanged-trans db db1 db2 u u')

scan-Passes : (n : ℕ) → Passes n
scan-Passes zero db o cs l e at r t = elim l [ ]
scan-Passes (suc n) db o cs l e at r t =
    let (db1, run, u, p) = db_nextrec-next_full db o cs e at r t in
    one_more n db db1 cs (next_full cs) (scan-Passes n) l e run u p
      (next_full-Rest db.datfd.bytes cs t)

-- Where the index file holds a sequence of records behind the hash table, with the data of those
-- that are not empty in place, and no lock is held, a pass with db_rewind and db_nextrec ends with
-- the key and the text of each record that is not empty, once each and in the order of the file, if
-- the client asks often enough. It changes neither file and leaves no lock.
pub db_rewind-scan :
    (n : ℕ) (db : Db) (cs : List Cell)
    → length cs < n
    → db.locks ≡ []
    → Records db.idxfd.bytes ((db.nhash + 1) * 7 + 1) cs
    → Texts db.datfd.bytes cs
    → (db' : Db) × ((db_rewind >> scan n) db ≡ ok (full_texts cs) db') × Unchanged db db'
unfolding db_rewind lseek
db_rewind-scan n db cs l e r t =
    let (db', run, u) = scan-Passes n start ((db.nhash + 1) * 7 + 1) cs l e refl r t in
    (
      db',
      run,
      record {
        index = u.index;
        records = u.records;
        hashoff = u.hashoff;
        nhash = u.nhash;
        locks = u.locks;
      },
    )
  where
    start : Db
    start = record db {
      idxfd = record { bytes = db.idxfd.bytes; offset = (db.nhash + 1) * 7 + 1 };
      idxoff = (db.nhash + 1) * 7 + 1;
    }
