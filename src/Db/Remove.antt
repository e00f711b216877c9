-- ===== src/Db/Remove.antt =====
-- db_delete, against the chain of the key and the free list.
use mathlib.Core.Path.{subst}
use learning_notes.Base.{
  ℕ, ◌+◌, ◌≡◌, refl, sym, ap, ◌∙◌, true, false, some, none, Option, List, [], ◌∷◌, ◌++◌,
}
use learning_notes.Base.Int.{ℤ, pos, negsuc}
use learning_notes.CString.{Bytes, str_eq}
use learning_notes.Db.{idx, File, Db, ok}
use learning_notes.Db.Sys.{un_lock, release}
use learning_notes.Db.Search.{find_and_lock}
use learning_notes.Db.Api.{db_delete}
use learning_notes.Db.Chain.{Cell, IsStored, seek, Kept, Holds, Sought}
use learning_notes.Db.Locate.{is_found, locked, chain_of, find_and_lock-Sought}
use learning_notes.Db.Fetch.{Unchanged, released}
use learning_notes.Db.Unlink.{place, Misses, Located, seek-Located}
use learning_notes.Db.Removed.{Bucket, Removed, dodelete-Removed}

-- The outcome of db_delete.
abbrev pub DeleteOutcome : Db → Bytes → List Cell → ℕ → Option (ℕ × Cell) → Type 0
DeleteOutcome db key cs free none =
    Misses key cs × ((db' : Db) × (db_delete key db ≡ ok (negsuc 0) db') × Unchanged db db')
DeleteOutcome db key cs free (some (q, c)) =
    (pre : List Cell) × (post : List Cell) × (db' : Db) × (cs ≡ pre ++ c ∷ post)
    × Misses key pre
    × (str_eq c.entry.key key ≡ true)
    × (q ≡ place (chain_of db key) pre)
    × (db_delete key db ≡ ok (pos 0) db')
    × Removed db db' key q c (pre ++ post) free

delete_none :
    (db db1 : Db) (key : Bytes) (cs : List Cell) (free : ℕ)
    → db.locks ≡ []
    → Misses key cs
    → find_and_lock key true db ≡ ok false db1
    → Kept (locked db key true) db1
    → DeleteOutcome db key cs free none
unfolding db_delete un_lock
delete_none db db1 key cs free e m run k = (
  m,
  (
    record db1 { cnt_delerr = db1.cnt_delerr + 1; locks = release idx db1.chainoff 1 db1.locks },
    rw run refl,
    record {
      index = k.bytes;
      records = ap (λ (f : File). f.bytes) k.datfd;
      hashoff = k.hashoff;
      nhash = k.nhash;
      locks = released db db1 key true e k;
    },
  ),
)

delete_some :
    {db : Db} {key : Bytes} {head free : ℕ} (pre post : List Cell) (c : Cell)
    → Bucket db key head (pre ++ c ∷ post) free
    → {db1 : Db} {next : ℕ} → find_and_lock key true db ≡ ok true db1
    → Kept (locked db key true) db1
    → IsStored db1.idxfd.bytes c next
    → Holds db1 (place (chain_of db key) pre) c next
    → Misses key pre
    → str_eq c.entry.key key ≡ true
    → DeleteOutcome db key (pre ++ c ∷ post) free (some (place (chain_of db key) pre, c))
unfolding db_delete un_lock
delete_some {db} {key} pre post c b {db1} {next} run k st h m hit =
    let (db2, deleted, ls, co, z) = dodelete-Removed pre post c b k st h in
    (
      pre,
      post,
      record db2 { cnt_delok = db2.cnt_delok + 1; locks = release idx db2.chainoff 1 db2.locks },
      refl,
      m,
      hit,
      refl,
      rw (run, deleted) refl,
      record {
        new_head = z.new_head;
        head_at = z.head_at;
        head_le = z.head_le;
        chain = z.chain;
        free_at = z.free_at;
        blank_at = z.blank_at;
        frame = z.frame;
        records = z.records;
        locks = rw (ls, co) (released db db1 key true b.no_locks k ∙ b.no_locks);
        hashoff = z.hashoff;
        nhash = z.nhash;
        same_size = z.same_size;
      },
    )

delete-Located :
    (db : Db) (key : Bytes) (head : ℕ) (cs : List Cell) (free : ℕ) (o : Option (ℕ × Cell)) (r : ℤ)
    {db1 : Db}
    → Bucket db key head cs free
    → find_and_lock key true db ≡ ok (is_found o) db1
    → Kept (locked db key true) db1
    → Sought o r db1
    → Located (chain_of db key) key cs o
    → DeleteOutcome db key cs free o
delete-Located db key head cs free none r b run k sought l =
    delete_none db _ key cs free b.no_locks l run k
delete-Located db key head cs free (some (q, c)) r {db1} b run k (next, _, st, h) l =
    subst (λ (t : ℕ). DeleteOutcome db key cs free (some (t, c))) (sym l.at)
      (subst
        (λ (t : List Cell). DeleteOutcome db key t free (some (place (chain_of db key) l.pre, c)))
        (sym l.whole)
        (delete_some l.pre l.post c (subst (λ (t : List Cell). Bucket db key head t free) l.whole b)
          run k st (subst (λ (t : ℕ). Holds db1 t c next) l.at h) l.first l.hit))

-- In a database without locks whose chain of the key is sound and apart from the free list and the
-- hash table, db_delete returns -1 and changes neither file when
-- no record of the chain has the key. Otherwise it returns 0, the chain is then that without the
-- first record with the key, that record is blank and heads the free list in front of what was its
-- head, and its data are blank. Either way no lock is left.
pub db_delete-outcome :
    (db : Db) (key : Bytes) (head : ℕ) (cs : List Cell) (free : ℕ)
    → Bucket db key head cs free
    → DeleteOutcome db key cs free (seek (chain_of db key) key cs)
db_delete-outcome db key head cs free b =
    let (r, db1, run, kept, sought) =
      find_and_lock-Sought db key true head cs b.head_le b.head_at b.chain b.fits in
    delete-Located db key head cs free (seek (chain_of db key) key cs) r b run kept sought
      (seek-Located (chain_of db key) key cs)
