-- ===== src/Db/Locate.antt =====
-- _db_find_and_lock on a sound chain.
use learning_notes.Base.{
  ℕ, ◌+◌, ◌*◌, ◌≤◌, ◌≡◌, refl, ap, ◌∙◌, Bool, true, false, some, none, Option, List, ◌∷◌, arith,
  ==_of_ne, if◌then◌else◌, length,
}
use learning_notes.Base.Int.{ℤ, pos}
use learning_notes.CString.{Bytes}
use learning_notes.Db.{ptr_max, idx, Db, ok}
use learning_notes.Db.Sys.{readw_lock, writew_lock}
use learning_notes.Db.Io.{is_zero}
use learning_notes.Db.Search.{find_loop, find_and_lock, hash, rounds}
use learning_notes.Db.Entry.{PtrAt, readptr-PtrAt}
use learning_notes.Db.Chain.{Cell, Chain, seek, Kept, Kept-trans, Sought, find_loop-Sought}

-- The state that _db_find_and_lock starts to search in.
abbrev pub locked : Db → Bytes → Bool → Db
locked db key writelock =
    let at : ℕ = hash db key * 7 + db.hashoff in
    record db {
      chainoff = at;
      locks = record { exclusive = writelock; file = idx; start = at; len = 1 } ∷ db.locks;
    }

abbrev pub chain_of : Db → Bytes → ℕ
chain_of db key = hash db key * 7 + db.hashoff

abbrev pub is_found : {A : Type 0} → Option A → Bool
is_found none = false
is_found (some a) = true

-- The state in which the loop of _db_find_and_lock begins.
abbrev searching : Db → Bytes → Bool → Db
searching db key writelock = record (locked db key writelock) {
  idxfd = record { bytes = db.idxfd.bytes; offset = chain_of db key + 7 };
  ptroff = pos (chain_of db key);
}

lock_step :
    (db : Db) (key : Bytes) (writelock : Bool) (head : ℕ) {r : ℤ} {db' : Db}
    → head ≤ ptr_max
    → PtrAt db.idxfd.bytes (chain_of db key) head
    → find_loop (rounds db) key (pos head) (searching db key writelock) ≡ ok r db'
    → find_and_lock key writelock db ≡ ok (if is_zero r then false else true) db'
unfolding find_and_lock readw_lock writew_lock
lock_step db key true head h at run =
    rw
      (
        readptr-PtrAt (record (locked db key true) { ptroff = pos (chain_of db key) })
            (chain_of db key) head h at,
        run,
      )
      refl
lock_step db key false head h at run =
    rw
      (
        readptr-PtrAt (record (locked db key false) { ptroff = pos (chain_of db key) })
            (chain_of db key) head h at,
        run,
      )
      refl

found-eq :
    (s : Option (ℕ × Cell)) (r : ℤ) (db : Db)
    → Sought s r db
    → (if is_zero r then false else true) ≡ is_found s
found-eq none r db e = rw e refl
found-eq (some (p, c)) r db (_, e, st, _) = rw (e, ==_of_ne c.at 0 st.ne_zero) refl

-- Where the chain of the key is sound and not longer than the index file, _db_find_and_lock ends,
-- takes the lock of the chain and changes no file. It reports success exactly when a record of the
-- chain has the key, and then holds the first such record, its successor, and the place of the
-- pointer that leads to it.
pub find_and_lock-Sought :
    (db : Db) (key : Bytes) (writelock : Bool) (head : ℕ) (cs : List Cell)
    → head ≤ ptr_max
    → PtrAt db.idxfd.bytes (chain_of db key) head
    → Chain db.idxfd.bytes head cs
    → length cs ≤ length db.idxfd.bytes
    → (r : ℤ) × (db' : Db) × (find_and_lock key writelock db
        ≡ ok (is_found (seek (chain_of db key) key cs)) db')
      × Kept (locked db key writelock) db'
      × Sought (seek (chain_of db key) key cs) r db'
unfolding find_and_lock readw_lock writew_lock
find_and_lock-Sought db key writelock head cs h at ch l =
    let (r, db', run, kept, sought) =
      find_loop-Sought (rounds start) key head (chain_of db key) cs start (omega arith) refl ch in
    (
      r,
      db',
      lock_step db key writelock head h at run ∙ ap (λ b. ok b db') (found-eq _ r db' sought),
      Kept-trans
          (record {
            bytes = refl;
            datfd = refl;
            chainoff = refl;
            hashoff = refl;
            nhash = refl;
            locks = refl;
          })
          kept,
      sought,
    )
  where
    start : Db
    start = searching db key writelock
