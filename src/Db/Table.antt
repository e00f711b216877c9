-- ===== src/Db/Table.antt =====
-- db.c: the hash of a key lies in the hash table.
use learning_notes.Base.{◌+◌, ◌*◌, ◌≤◌, ◌<◌, arith}
use native.Mathlib.Nat.{mod-lt}
use learning_notes.CString.{Bytes}
use learning_notes.Db.{Db}
use learning_notes.Db.Search.{hash_loop, hash}
use learning_notes.Db.Locate.{chain_of}

-- If the hash table has a bucket, the chain that a key hashes to has its pointer in the hash table, between the free list's
-- pointer, which is in front of the table, and the end of the table.
pub chain_of-bounds :
    (db : Db) (key : Bytes)
    → 0 < db.nhash
    → (db.hashoff ≤ chain_of db key) × (chain_of db key + 7 ≤ db.hashoff + db.nhash * 7)
unfolding hash
chain_of-bounds db key h = (omega arith, omega (arith, mod-lt (hash_loop 0 1 key) h))
