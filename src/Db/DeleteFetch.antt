-- ===== src/Db/DeleteFetch.antt =====
-- db_fetch behind db_delete.
use learning_notes.Base.{
  ℕ, ◌≡◌, refl, ap, ◌∙◌, true, false, some, none, Option, List, [], ◌∷◌, ◌++◌, arith, length,
  length-append, All-append,
}
use learning_notes.Base.Int.{ℤ, pos, negsuc}
use learning_notes.CString.{Bytes, str_eq}
use learning_notes.Db.{Db, ok}
use learning_notes.Db.Search.{hash}
use learning_notes.Db.Api.{db_delete, db_fetch}
use learning_notes.Db.Chain.{Cell, seek}
use learning_notes.Db.Locate.{chain_of}
use learning_notes.Db.Fetch.{db_fetch-missing}
use learning_notes.Db.Removed.{Bucket}
use learning_notes.Db.Remove.{DeleteOutcome, db_delete-outcome}
use learning_notes.Db.Unlink.{Misses}

-- At most one record of the chain has the key.
abbrev pub Single : Bytes → List Cell → Type 0
Single key [] = Unit
Single key (c ∷ cs) = (str_eq c.entry.key key ≡ true → Misses key cs) × Single key cs

Single-Misses :
    (key : Bytes) (pre post : List Cell) (c : Cell)
    → Single key (pre ++ c ∷ post)
    → str_eq c.entry.key key ≡ true
    → Misses key post
Single-Misses key [] post c u hit = u.0 hit
Single-Misses key (x ∷ pre) post c u hit = Single-Misses key pre post c u.1 hit

pub seek-missing : (p : ℕ) (key : Bytes) (cs : List Cell) → Misses key cs → seek p key cs ≡ none
unfolding seek
seek-missing p key [] m = refl
seek-missing p key (c ∷ cs) m = rw m.0 (seek-missing c.at key cs m.1)

pub chain_of-eq :
    (db db' : Db) (key : Bytes)
    → db'.nhash ≡ db.nhash
    → db'.hashoff ≡ db.hashoff
    → chain_of db' key ≡ chain_of db key
unfolding hash
chain_of-eq db db' key n h = rw (n, h) refl

Gone : Db → Bytes → Type 0
Gone db key =
    (r : ℤ) × (db1 : Db) × (db2 : Db) × (db_delete key db ≡ ok r db1)
    × (db_fetch key db1 ≡ ok none db2)
    × (db2.locks ≡ [])

delete_then_fetch :
    (db : Db) (key : Bytes) (head : ℕ) (cs : List Cell) (free : ℕ) (o : Option (ℕ × Cell))
    → Bucket db key head cs free
    → Single key cs
    → DeleteOutcome db key cs free o
    → Gone db key
unfolding Gone hash
delete_then_fetch db key head cs free none b u (m, (db1, run, same)) =
    let here = chain_of-eq db db1 key same.nhash same.hashoff in
    let (db2, run', same') =
      db_fetch-missing db1 key head cs (same.locks ∙ b.no_locks) b.head_le
        (rw (same.index, here) b.head_at) (rw same.index b.chain) (rw same.index b.fits)
        (seek-missing (chain_of db1 key) key cs m) in
    (negsuc 0, db1, db2, run, run', same'.locks ∙ same.locks ∙ b.no_locks)
delete_then_fetch db key head cs free (some (q, c)) b u
      (pre, post, db1, whole, first, hit, _, run, z) =
    let here = chain_of-eq db db1 key z.nhash z.hashoff in
    let rest =
      All-append (λ (x : Cell). str_eq x.entry.key key ≡ false) pre post first
        (Single-Misses key pre post c (rw (← whole) u) hit) in
    let (db2, run', same') =
      db_fetch-missing db1 key z.new_head (pre ++ post) z.locks z.head_le (rw here z.head_at)
        z.chain
        (omega (
          arith,
          z.frame.longer,
          b.fits,
          ap (λ (t : List Cell). length t) whole,
          length-append pre post,
          length-append pre (c ∷ post),
        ))
        (seek-missing (chain_of db1 key) key (pre ++ post) rest) in
    (pos 0, db1, db2, run, run', same'.locks ∙ z.locks)

-- In a database without locks whose chain of the key is sound, apart from the free list and the
-- hash table, and holds the key at most once, db_fetch returns
-- NULL for the key after db_delete, and no lock is left.
pub db_delete-db_fetch :
    (db : Db) (key : Bytes) (head : ℕ) (cs : List Cell) (free : ℕ)
    → Bucket db key head cs free
    → Single key cs
    → (r : ℤ) × (db1 : Db) × (db2 : Db) × (db_delete key db ≡ ok r db1)
      × (db_fetch key db1 ≡ ok none db2)
      × (db2.locks ≡ [])
unfolding Gone
db_delete-db_fetch db key head cs free b u =
    delete_then_fetch db key head cs free (seek (chain_of db key) key cs) b u
      (db_delete-outcome db key head cs free b)
