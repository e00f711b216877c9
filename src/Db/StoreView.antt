-- ===== src/Db/StoreView.antt =====
-- db_store on a sound database: insertion, replacement and both, as a change of the mapping that
-- the database stands for.
use mathlib.Core.Path.{subst}
use learning_notes.Base.{
  ℕ, ◌+◌, ◌≤◌, ◌<◌, ◌≡◌, refl, ap, ◌∙◌, Bool, true, false, ◌||◌, some, none, Option, List, [], ◌∷◌,
  arith, length, ◌==◌, if◌then◌else◌, inl, inr, Bool-cases,
}
use learning_notes.Base.Int.{ℤ, pos, negsuc}
use learning_notes.CString.{Bytes}
use learning_notes.CString.Fields.{Lacks}
use learning_notes.Db.{ptr_max, idx, File, Db, Run, ok}
use learning_notes.Db.Search.{hash, find_and_lock}
use learning_notes.Db.Api.{db_insert, db_replace, db_store_flag, store_new, store_old, db_store}
use learning_notes.Db.Entry.{IsReadable}
use learning_notes.Db.Chain.{Cell, IsStored, Chain, Kept, Holds, Sought, seek}
use learning_notes.Db.Locate.{chain_of, locked, is_found, find_and_lock-Sought}
use learning_notes.Db.Fetch.{Unchanged, release_only, released}
use learning_notes.Db.Unlink.{Misses, Located, seek-Located}
use learning_notes.Db.Removed.{Bucket}
use learning_notes.Db.FreeWalk.{chain_lock}
use learning_notes.Db.Sound.{
  Layout, Sound, Sound-eq, Sound-Bucket, Sound-Unchanged, view, find_text,
}
use learning_notes.Db.Rows.{update}
use learning_notes.Db.Append.{tail_entry}
use learning_notes.Db.DeleteView.{find_text-missing, find_text-hit, hash-eq}
use learning_notes.Db.Views.{assigned, view-assigned, find_text-front}
use learning_notes.Db.StoreRun.{unlocked, run_new, run_old, run_refused_old, run_refused_new}
use learning_notes.Db.StoreSound.{store_new-Entered}
use learning_notes.Db.StoreOld.{Wrote, store_old-Wrote}

-- Whether a call with the flag stores the text, by what the key has, and what it returns.
abbrev pub stores : ℕ → Option Bytes → Bool
stores flag none = flag == db_insert || flag == db_store_flag
stores flag (some t) = flag == db_replace || flag == db_store_flag

abbrev pub rc_stored : ℕ → Option Bytes → ℤ
rc_stored flag o = if stores flag o then pos 0 else if flag == db_insert then pos 1 else negsuc 0

-- What db_store comes to on a sound database.
abbrev pub StoreView : Db → (ℕ → List Cell) → Bytes → Bytes → ℕ → Type 0
StoreView db rows key text flag =
    (db' : Db) × (rows' : ℕ → List Cell) × (free' : List Cell) × (db_store key text flag db
      ≡ ok (rc_stored flag (view db rows key)) db')
    × Sound db' rows' free'
    × ((k : Bytes)
        → view db' rows' k ≡ (
            if stores flag (view db rows key)
            then assigned key (some text) (view db rows) k
            else view db rows k))

-- A branch that stores the text, and one that changes neither file.
stored-StoreView :
    (db : Db) (rows : ℕ → List Cell) (key text : Bytes) (flag : ℕ) (run : Run ℤ)
    → stores flag (view db rows key) ≡ true
    → Wrote db rows key text run
    → ((db1 : Db) → run ≡ ok (pos 0) db1 → db_store key text flag db ≡ ok (pos 0) (unlocked db1))
    → StoreView db rows key text flag
stored-StoreView db rows key text flag run st
      (db1, rows', free', inner, locks, chainoff, hashoff, nhash, layout, changed) finish =
    (
      unlocked db1,
      rows',
      free',
      rw st (finish db1 inner),
      Sound-eq (unlocked db1) rows' free'
          (rw (locks, chainoff) (release_only idx true (chain_of db key))) hashoff nhash refl refl
          layout,
      λ k. rw st (ap (λ h. find_text k (rows' h)) (hash-eq db (unlocked db1) k nhash) ∙ changed k),
    )

refused-StoreView :
    (db db1 : Db) (rows : ℕ → List Cell) (free : List Cell) (key text : Bytes) (flag : ℕ)
    → stores flag (view db rows key) ≡ false
    → Sound db rows free
    → Unchanged db db1
    → db_store key text flag db ≡ ok (if flag == db_insert then pos 1 else negsuc 0) db1
    → StoreView db rows key text flag
refused-StoreView db db1 rows free key text flag st s u run = (
  db1,
  rows,
  free,
  rw st run,
  Sound-Unchanged db db1 rows free u s,
  λ k. rw st (ap (λ h. find_text k (rows h)) (hash-eq db db1 k u.nhash)),
)

Kept-Unchanged :
    (db db0 : Db) (key : Bytes)
    → db.locks ≡ []
    → Kept (locked db key true) db0
    → (n e : ℕ) → Unchanged db (unlocked (record db0 { cnt_storerr = n; errno = e }))
Kept-Unchanged db db0 key e k n m = record {
  index = k.bytes;
  records = ap (λ (f : File). f.bytes) k.datfd;
  hashoff = k.hashoff;
  nhash = k.nhash;
  locks = released db db0 key true e k;
}

module _ (db : Db) (rows : ℕ → List Cell) (free : List Cell) (key text : Bytes) (flag : ℕ)
    (s : Sound db rows free) (r : IsReadable (tail_entry db.datfd.bytes key text))
    (l : 0 < length text) (no_nul : Lacks 0 text) (im : length db.idxfd.bytes ≤ ptr_max) where
  entered :
      (db0 : Db)
      → Kept (locked db key true) db0
      → Misses key (rows (hash db key))
      → Wrote db rows key text (store_new key text db0)
  entered db0 k m =
      let (db1, n, free', run, e, t, locks, chainoff, hashoff, nhash, layout) =
        store_new-Entered db db0 rows free key text
          (subst (λ t. Layout t db.hashoff db.nhash db.idxfd.bytes db.datfd.bytes rows free)
            s.no_locks s)
          m r no_nul im k.bytes (ap (λ (f : File). f.bytes) k.datfd) k.chainoff k.hashoff k.nhash
          (k.locks ∙ ap (λ ls. chain_lock (chain_of db key) ∷ ls) s.no_locks) in
      (
        db1,
        update rows (hash db key) (n ∷ rows (hash db key)),
        free',
        run,
        locks,
        chainoff,
        hashoff,
        nhash,
        layout,
        view-assigned db rows key (some text) (n ∷ rows (hash db key))
            (λ x. find_text-front key n (rows (hash db key)) text x e t),
      )

  -- The branches for a known flag.
  missing :
      (db0 : Db)
      → (flag == db_insert || (flag == db_replace || flag == db_store_flag)) ≡ true
      → Kept (locked db key true) db0
      → Misses key (rows (hash db key))
      → find_and_lock key true db ≡ ok false db0
      → StoreView db rows key text flag
  missing db0 known k m run =
      let none_there = find_text-missing key (rows (hash db key)) m in
      elim (Bool-cases (flag == db_replace)) [
        | inl w ↦
            refused-StoreView db _ rows free key text flag (rw none_there (ground (arith, w))) s
              (Kept-Unchanged db db0 key s.no_locks k (db0.cnt_storerr + 1) 2)
              (rw (not_insert w) (run_refused_new db db0 key text flag known l r.max_data w run))
        | inr w ↦
            stored-StoreView db rows key text flag (store_new key text db0)
              (rw none_there (ground (arith, w, known))) (entered db0 k m)
              (λ db1 inner. run_new db db0 key text flag known l r.max_data db1 w run inner)
      ]
    where
      not_insert : (flag == db_replace) ≡ true → (flag == db_insert) ≡ false
      not_insert w = ground (arith, w)

  there :
      (db0 : Db) (q : ℕ) (c : Cell) (next head first : ℕ)
      → (flag == db_insert || (flag == db_replace || flag == db_store_flag)) ≡ true
      → Kept (locked db key true) db0
      → Bucket db key head (rows (hash db key)) first
      → Chain db.idxfd.bytes first free
      → Located (chain_of db key) key (rows (hash db key)) (some (q, c))
      → IsStored db0.idxfd.bytes c next
      → Holds db0 q c next
      → find_and_lock key true db ≡ ok true db0
      → StoreView db rows key text flag
  there db0 q c next head first known k b chf z st h run =
      let found : view db rows key ≡ some c.text =
        ap (find_text key) z.whole ∙ find_text-hit key z.pre z.post c z.first z.hit in
      elim (Bool-cases (flag == db_insert)) [
        | inl w ↦
            refused-StoreView db _ rows free key text flag (rw found (ground (arith, w))) s
              (Kept-Unchanged db db0 key s.no_locks k (db0.cnt_storerr + 1) db0.errno)
              (rw w (run_refused_old db db0 key text flag known l r.max_data w run))
        | inr w ↦
            stored-StoreView db rows key text flag (store_old key text db0)
              (rw found (ground (arith, w, known)))
              (store_old-Wrote db db0 rows free key text head first z.pre z.post c next s z.whole
                (subst (λ (t : List Cell). Bucket db key head t first) z.whole b) chf z.first z.hit
                r no_nul im k st (subst (λ (t : ℕ). Holds db0 t c next) z.at h))
              (λ db1 inner. run_old db db0 key text flag known l r.max_data db1 w run inner)
      ]

  known-StoreView :
      (flag == db_insert || (flag == db_replace || flag == db_store_flag)) ≡ true
      → StoreView db rows key text flag
  known-StoreView known =
      let (head, first, b, chf) = Sound-Bucket db rows free key s in
      let (x, db0, run, kept, sought) =
        find_and_lock-Sought db key true head (rows (hash db key)) b.head_le b.head_at b.chain
          b.fits in
      cases head first b chf x db0 kept (seek (chain_of db key) key (rows (hash db key))) run sought
        (seek-Located (chain_of db key) key (rows (hash db key)))
    where
      cases :
          (head first : ℕ)
          → Bucket db key head (rows (hash db key)) first
          → Chain db.idxfd.bytes first free
          → (x : ℤ) (db0 : Db) → Kept (locked db key true) db0
          → (o : Option (ℕ × Cell)) → find_and_lock key true db ≡ ok (is_found o) db0
          → Sought o x db0
          → Located (chain_of db key) key (rows (hash db key)) o
          → StoreView db rows key text flag
      cases head first b chf x db0 k none run sought z = missing db0 known k z run
      cases head first b chf x db0 k (some (q, c)) run (next, _, st, h) z =
          there db0 q c next head first known k b chf z st h run

  unknown-StoreView :
      (flag == db_insert || (flag == db_replace || flag == db_store_flag)) ≡ false
      → StoreView db rows key text flag
  unfolding db_store
  unknown-StoreView unknown =
      refused-StoreView db (record db { errno = 22 }) rows free key text flag
        (no_store (view db rows key)) s
        (record { index = refl; records = refl; hashoff = refl; nhash = refl; locks = refl })
        (rw (unknown, not_insert) refl)
    where
      not_insert : (flag == db_insert) ≡ false
      not_insert = ground (arith, unknown)

      no_store : (o : Option Bytes) → stores flag o ≡ false
      no_store none = ground (arith, unknown)
      no_store (some t) = ground (arith, unknown)

  -- On a sound database db_store of a key and a text that make a readable record, the text not
  -- empty and without NUL, ends for every flag if the index file ends within PTR_MAX. With
  -- DB_INSERT it stores a key that is not there, with DB_REPLACE one that is there, with DB_STORE
  -- either, and returns 0; else it returns 1 with DB_INSERT, and -1 with any other flag. Afterwards
  -- the database is sound, and stands for the same mapping, in which the key has the text if the
  -- call stored it: every other key has the text that it had.
  pub db_store-view : StoreView db rows key text flag
  db_store-view =
      elim (Bool-cases (flag == db_insert || (flag == db_replace || flag == db_store_flag))) [
        | inl known ↦ known-StoreView known
        | inr unknown ↦ unknown-StoreView unknown
      ]
