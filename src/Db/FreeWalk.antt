-- ===== src/Db/FreeWalk.antt =====
-- _db_findfree: the walk along the free list, and what is taken from it.
use mathlib.Core.Path.{subst}
use learning_notes.Base.{
  ℕ, zero, suc, ◌+◌, ◌≤◌, ◌<◌, ◌≡◌, refl, ap, sym, ◌∙◌, Bool, true, false, ◌&&◌, inl, inr, Option,
  none, some, List, [], ◌∷◌, arith, ◌==◌, ==_of_ne, if◌then◌else◌, length, write, Bool-cases,
}
use learning_notes.Base.Int.{ℤ, pos}
use learning_notes.CString.{Bytes, padded}
use learning_notes.Db.{ptr_max, idx, Lock, Db, ok, and_then}
use learning_notes.Db.Sys.{writew_lock, un_lock, release}
use learning_notes.Db.Io.{readidx, writeptr}
use learning_notes.Db.Search.{findfree_loop, findfree, rounds}
use learning_notes.Db.Entry.{PtrAt, loaded, readptr-PtrAt, readidx-EntryAt}
use learning_notes.Db.Writes.{writeptr-eq}
use learning_notes.Db.Chain.{Cell, IsStored, Chain, Kept, Kept-trans, Kept-refl}

-- The lock of the chain at `p`.
abbrev pub chain_lock : ℕ → Lock
chain_lock p = record { exclusive = true; file = idx; start = p; len = 1 }

-- The first empty record of exactly the sizes, and the place of the pointer that leads to it.
abbrev pub fit : ℕ → ℕ → Cell → Bool
fit keylen datlen c = length c.entry.key == keylen && c.entry.datlen == datlen

abbrev pub find_fit : ℕ → ℕ → ℕ → List Cell → Option (ℕ × Cell)
find_fit keylen datlen p [] = none
find_fit keylen datlen p (c ∷ cs) =
    if fit keylen datlen c then some (p, c) else find_fit keylen datlen c.at cs

-- The state holds the empty record `c` with the pointer `next`.
pub record HoldsFree (db : Db) (c : Cell) (next : ℕ) : Type 0 where
  pub idxoff : db.idxoff ≡ c.at
  pub datoff : db.datoff ≡ c.entry.datoff
  pub datlen : db.datlen ≡ c.entry.datlen
  pub ptrval : db.ptrval ≡ pos next

abbrev pub Walked : Option (ℕ × Cell) → ℤ × ℤ → Db → Type 0
Walked none r db = r.1 ≡ pos 0
Walked (some (q, c)) r db =
    (next : ℕ) × (r ≡ (pos q, pos c.at)) × IsStored db.idxfd.bytes c next × HoldsFree db c next

pub findfree_loop-Walked :
    (k keylen datlen : ℕ) (p o : ℕ) (cs : List Cell) (db : Db)
    → length cs < k
    → Chain db.idxfd.bytes o cs
    → (r : ℤ × ℤ) × (db' : Db) × (findfree_loop k keylen datlen (pos p) (pos o) db ≡ ok r db')
      × Kept db db'
      × Walked (find_fit keylen datlen p cs) r db'
unfolding findfree_loop
findfree_loop-Walked zero kl dl p o cs db l ch = elim l [ ]
findfree_loop-Walked (suc k) kl dl p o [] db l ch =
    ((pos p, pos 0), db, rw ch refl, Kept-refl db, refl)
findfree_loop-Walked (suc k) kl dl p o (c ∷ cs) db l (next, here, st, ch) =
    elim (Bool-cases (fit kl dl c)) [
      | inl hit ↦ (
        (pos p, pos c.at),
        loaded db c.at c.entry next,
        rw (← here, ==_of_ne c.at 0 st.ne_zero, read', hit) refl,
        kept,
        rw hit
            (next, refl, st, record { idxoff = refl; datoff = refl; datlen = refl; ptrval = refl }),
      )
      | inr miss ↦
          (let (r, db', run, kept', walked) =
              findfree_loop-Walked k kl dl c.at next cs (loaded db c.at c.entry next) (omega arith)
                ch in
            (
              r,
              db',
              rw (← here, ==_of_ne c.at 0 st.ne_zero, read', miss) run,
              Kept-trans kept kept',
              rw miss walked,
            ))
    ]
  where
    read' : readidx (pos c.at) db ≡ ok (pos next) (loaded db c.at c.entry next)
    read' = readidx-EntryAt db c.at c.entry next st.ne_zero st.readable st.entry_at

    kept : Kept db (loaded db c.at c.entry next)
    kept = record {
      bytes = refl;
      datfd = refl;
      chainoff = refl;
      hashoff = refl;
      nhash = refl;
      locks = refl;
    }

-- What _db_findfree leaves: it takes the record out of the free list, and changes nothing else.
abbrev pub Taken : Option (ℕ × Cell) → Db → Db → Type 0
Taken none db db' = Kept db db'
Taken (some (q, c)) db db' =
    (next : ℕ) × IsStored db.idxfd.bytes c next
    × HoldsFree db' c next
    × (db'.idxfd.bytes ≡ write db.idxfd.bytes q (padded 7 next))
    × (db'.datfd ≡ db.datfd)
    × (db'.chainoff ≡ db.chainoff)
    × (db'.hashoff ≡ db.hashoff)
    × (db'.nhash ≡ db.nhash)
    × (db'.locks ≡ db.locks)

abbrev free_lock : Lock
free_lock = record { exclusive = true; file = idx; start = 0; len = 1 }

-- The state in which the walk begins.
abbrev walking : Db → Db
walking db = record db {
  locks = free_lock ∷ db.locks;
  idxfd = record { bytes = db.idxfd.bytes; offset = 0 + 7 };
}

abbrev pub taken_free : Option (ℕ × Cell) → Bool
taken_free none = false
taken_free (some x) = true

unlocked : (p : ℕ) → 0 < p → release idx 0 1 (free_lock ∷ chain_lock p ∷ []) ≡ chain_lock p ∷ []
unlocked p h = rw (==_of_ne p 0 (λ e. omega arith)) refl

free-unlocked :
    (db db1 : Db) (p : ℕ)
    → 0 < p
    → db.locks ≡ chain_lock p ∷ []
    → db1.locks ≡ free_lock ∷ db.locks
    → release idx 0 1 db1.locks ≡ db.locks
free-unlocked db db1 p h lk e =
    ap (release idx 0 1) (e ∙ ap (λ ls. free_lock ∷ ls) lk) ∙ unlocked p h ∙ sym lk

findfree-end :
    (db db1 : Db) (keylen datlen first p : ℕ) (o : Option (ℕ × Cell)) (r : ℤ × ℤ)
    → 0 < p
    → db.locks ≡ chain_lock p ∷ []
    → first ≤ ptr_max
    → PtrAt db.idxfd.bytes 0 first
    → findfree_loop (rounds (walking db)) keylen datlen (pos 0) (pos first) (walking db) ≡ ok r db1
    → Kept (walking db) db1
    → Walked o r db1
    → (db' : Db) × (findfree keylen datlen db ≡ ok (taken_free o) db') × Taken o db db'
unfolding findfree writew_lock un_lock
findfree-end db db1 kl dl first p none r h lk le at run k w = (
  record db1 { locks = release idx 0 1 db1.locks },
  rw (readptr-PtrAt (record db { locks = free_lock ∷ db.locks }) 0 first le at, run, w) refl,
  record {
    bytes = k.bytes;
    datfd = k.datfd;
    chainoff = k.chainoff;
    hashoff = k.hashoff;
    nhash = k.nhash;
    locks = free-unlocked db db1 p h lk k.locks;
  },
)
findfree-end db db1 kl dl first p (some (q, c)) r h lk le at run k (next, e, st, holds) = (
  record db1 {
    idxfd = record { bytes = write db1.idxfd.bytes q (padded 7 next); offset = q + 7 };
    locks = release idx 0 1 db1.locks;
  },
  rw
      (
        readptr-PtrAt (record db { locks = free_lock ∷ db.locks }) 0 first le at,
        run,
        e,
        ==_of_ne c.at 0 st.ne_zero,
      )
      (ap
        (λ t. and_then t (λ found db'. ok found (record db' { locks = release idx 0 1 db'.locks })))
        (ap (λ (t : ℤ). and_then (writeptr (pos q) t db1) (λ u db'. ok true db')) holds.ptrval
          ∙ ap (λ t. and_then t (λ u db'. ok true db'))
              (writeptr-eq db1 q next st.entry_at.next_le))),
  (
    next,
    subst (λ (f : Bytes). IsStored f c next) k.bytes st,
    record {
      idxoff = holds.idxoff;
      datoff = holds.datoff;
      datlen = holds.datlen;
      ptrval = holds.ptrval;
    },
    ap (λ (f : Bytes). write f q (padded 7 next)) k.bytes,
    k.datfd,
    k.chainoff,
    k.hashoff,
    k.nhash,
    free-unlocked db db1 p h lk k.locks,
  ),
)

-- Where the pointer at the start of the index file leads to a free list that is a chain without a
-- cycle, with no more records than the index file has bytes, and the lock of the chain of a key is
-- the one lock that is held, _db_findfree ends. If the list has a record of exactly the sizes, it
-- returns true, with the first one read into the state and taken out of the list by one pointer, and
-- else it returns false and changes neither file. It holds the same lock afterwards.
pub findfree-Taken :
    (db : Db) (keylen datlen first p : ℕ) (free : List Cell)
    → 0 < p
    → db.locks ≡ chain_lock p ∷ []
    → first ≤ ptr_max
    → PtrAt db.idxfd.bytes 0 first
    → Chain db.idxfd.bytes first free
    → length free ≤ length db.idxfd.bytes
    → (db' : Db) × (findfree keylen datlen db ≡ ok (taken_free (find_fit keylen datlen 0 free)) db')
      × Taken (find_fit keylen datlen 0 free) db db'
findfree-Taken db kl dl first p free h lk le at ch l =
    let (r, db1, run, k, w) =
      findfree_loop-Walked (rounds (walking db)) kl dl 0 first free (walking db) (omega arith) ch in
    findfree-end db db1 kl dl first p (find_fit kl dl 0 free) r h lk le at run k w
