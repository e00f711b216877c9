-- ===== src/Db/Session.antt =====
-- db_fetch behind db_store and db_delete.
use learning_notes.Base.{ℕ, ◌≤◌, ◌<◌, ◌≡◌, refl, ap, ◌∙◌, true, some, List, [], length}
use learning_notes.Base.Int.{pos}
use learning_notes.CString.{Bytes}
use learning_notes.CString.Fields.{Lacks, str_eq_refl}
use learning_notes.Db.{ptr_max, Db, ok}
use learning_notes.Db.Api.{db_fetch, db_store}
use learning_notes.Db.Chain.{Cell}
use learning_notes.Db.Entry.{IsReadable}
use learning_notes.Db.Append.{tail_entry}
use learning_notes.Db.Sound.{Sound, view, db_fetch-view}
use learning_notes.Db.StoreView.{stores, db_store-view}

-- On a sound database, where db_store stores the text by the flag and by what the key has, it
-- returns 0, and db_fetch of the key behind it returns the text. The key and the text make a
-- readable record, the text is not empty and has no NUL, and the index file ends within PTR_MAX. No
-- lock is left.
pub db_store-db_fetch :
    (db : Db) (rows : ℕ → List Cell) (free : List Cell) (key text : Bytes) (flag : ℕ)
    → Sound db rows free
    → IsReadable (tail_entry db.datfd.bytes key text)
    → 0 < length text
    → Lacks 0 text
    → length db.idxfd.bytes ≤ ptr_max
    → stores flag (view db rows key) ≡ true
    → (db1 : Db) × (db2 : Db) × (db_store key text flag db ≡ ok (pos 0) db1)
      × (db_fetch key db1 ≡ ok (some text) db2)
      × (db2.locks ≡ [])
db_store-db_fetch db rows free key text flag s r l z im st =
    let (db1, rows', free', run, s1, changed) =
      db_store-view db rows free key text flag s r l z im in
    let (db2, fetched, s2) = db_fetch-view db1 rows' free' key s1 in
    let there : view db1 rows' key ≡ some text = changed key ∙ rw (st, str_eq_refl key) refl in
    (db1, db2, rw st at run, fetched ∙ ap (λ o. ok o db2) there, s2.no_locks)
