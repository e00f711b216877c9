-- ===== src/Db/DeleteView.antt =====
-- db_delete takes a key out of what a sound database stands for.
use mathlib.Core.Path.{subst}
use learning_notes.Base.{
  ℕ, ◌≡◌, refl, ap, sym, ◌∙◌, true, false, inl, inr, Option, none, some, List, [], ◌∷◌, ◌++◌,
  if◌then◌else◌, Bool-cases,
}
use learning_notes.Base.Int.{ℤ, pos, negsuc}
use learning_notes.CString.{Bytes, str_eq}
use learning_notes.CString.Fields.{eq_of_str_eq}
use learning_notes.Db.{Db, ok}
use learning_notes.Db.Search.{hash}
use learning_notes.Db.Api.{db_delete}
use learning_notes.Db.Chain.{Cell, Chain, seek}
use learning_notes.Db.Locate.{chain_of}
use learning_notes.Db.Unlink.{Misses}
use learning_notes.Db.Removed.{Bucket, Removed}
use learning_notes.Db.Remove.{DeleteOutcome, db_delete-outcome}
use learning_notes.Db.DeleteFetch.{Single}
use learning_notes.Db.Sound.{Sound, Sound-Bucket, Sound-Unchanged, find_text, view, hash-lt}
use learning_notes.Db.Views.{view-assigned}
use learning_notes.Db.Rows.{update}
use learning_notes.Db.SoundRemoved.{Sound-removed}
use learning_notes.Db.SoundDelete.{emptied}

-- What db_delete returns, by whether the key was there.
abbrev pub rc_of : Option Bytes → ℤ
rc_of none = negsuc 0
rc_of (some t) = pos 0

-- The mapping without a key.
abbrev pub erased : Bytes → (Bytes → Option Bytes) → Bytes → Option Bytes
erased key m k = if str_eq key k then none else m k

pub find_text-missing : (key : Bytes) (cs : List Cell) → Misses key cs → find_text key cs ≡ none
find_text-missing key [] m = refl
find_text-missing key (c ∷ cs) m = rw m.0 (find_text-missing key cs m.1)

pub find_text-hit :
    (key : Bytes) (pre post : List Cell) (c : Cell)
    → Misses key pre
    → str_eq c.entry.key key ≡ true
    → find_text key (pre ++ c ∷ post) ≡ some c.text
find_text-hit key [] post c m hit = rw hit refl
find_text-hit key (x ∷ pre) post c m hit = rw m.0 (find_text-hit key pre post c m.1 hit)

-- Another key is found as before.
find_text-other :
    (k : Bytes) (pre post : List Cell) (c : Cell)
    → str_eq c.entry.key k ≡ false
    → find_text k (pre ++ post) ≡ find_text k (pre ++ c ∷ post)
find_text-other k [] post c miss = rw miss refl
find_text-other k (x ∷ pre) post c miss = rw (find_text-other k pre post c miss) refl

pub Single-rest :
    (key : Bytes) (pre post : List Cell) (c : Cell)
    → Single key (pre ++ c ∷ post)
    → Misses key pre
    → str_eq c.entry.key key ≡ true
    → Misses key (pre ++ post)
Single-rest key [] post c u m hit = u.0 hit
Single-rest key (x ∷ pre) post c u m hit = (m.0, Single-rest key pre post c u.1 m.1 hit)

pub find_text-without :
    (key k : Bytes) (pre post : List Cell) (c : Cell)
    → Single key (pre ++ c ∷ post)
    → Misses key pre
    → str_eq c.entry.key key ≡ true
    → find_text k (pre ++ post) ≡ (if str_eq key k then none else find_text k (pre ++ c ∷ post))
find_text-without key k pre post c u m hit = elim (Bool-cases (str_eq key k)) [
  | inl same ↦ rw same (
      let e = eq_of_str_eq key k same in
      subst (λ (t : Bytes). find_text t (pre ++ post) ≡ none) e
        (find_text-missing key (pre ++ post) (Single-rest key pre post c u m hit)))
  | inr other ↦ rw other (
      find_text-other k pre post c
        (subst (λ (t : Bytes). str_eq t k ≡ false) (sym (eq_of_str_eq c.entry.key key hit)) other))
]

pub hash-eq : (db db' : Db) (key : Bytes) → db'.nhash ≡ db.nhash → hash db' key ≡ hash db key
unfolding hash
hash-eq db db' key n = rw n refl

-- What db_delete comes to on a sound database.
abbrev pub DeleteView : Db → (ℕ → List Cell) → Bytes → Type 0
DeleteView db rows key =
    (db' : Db) × (rows' : ℕ → List Cell) × (free' : List Cell) × (db_delete key db
      ≡ ok (rc_of (view db rows key)) db')
    × Sound db' rows' free'
    × ((k : Bytes) → view db' rows' k ≡ erased key (view db rows) k)

delete-view :
    (db : Db) (rows : ℕ → List Cell) (free : List Cell) (key : Bytes) (head first : ℕ)
    (o : Option (ℕ × Cell))
    → Sound db rows free
    → Bucket db key head (rows (hash db key)) first
    → Chain db.idxfd.bytes first free
    → DeleteOutcome db key (rows (hash db key)) first o
    → DeleteView db rows key
delete-view db rows free key head first none s b chf (m, (db', run, u)) = (
  db',
  rows,
  free,
  run ∙ ap (λ v. ok (rc_of v) db') (sym (find_text-missing key (rows (hash db key)) m)),
  Sound-Unchanged db db' rows free u s,
  λ k. ap (λ h. find_text k (rows h)) (hash-eq db db' k u.nhash) ∙ gone k,
)
  where
    gone : (k : Bytes) → view db rows k ≡ erased key (view db rows) k
    gone k = elim (Bool-cases (str_eq key k)) [
      | inl same ↦ rw same (
          subst (λ (t : Bytes). view db rows t ≡ none) (eq_of_str_eq key k same)
            (find_text-missing key (rows (hash db key)) m))
      | inr other ↦ rw other refl
    ]
delete-view db rows free key head first (some (q, c)) s b chf
      (pre, post, db', whole, m, hit, at, run, z) =
    (
      db',
      update rows (hash db key) (pre ++ post),
      emptied c ∷ free,
      run
          ∙ ap (λ v. ok (rc_of v) db')
              (sym (ap (find_text key) whole ∙ find_text-hit key pre post c m hit)),
      Sound-removed db db' rows free key pre post c head first s whole
          (subst (λ (t : List Cell). Chain db.idxfd.bytes head t) whole b.chain) b.free_le chf
          (subst (λ (t : ℕ). Removed db db' key t c (pre ++ post) first) at z),
      λ k.
          ap (λ h. find_text k (update rows (hash db key) (pre ++ post) h))
            (hash-eq db db' k z.nhash)
          ∙ view-assigned db rows key none (pre ++ post)
              (λ x.
                find_text-without key x pre post c
                  (subst (λ (t : List Cell). Single key t) whole
                    (s.unique (hash db key) (hash-lt db key s.table) key))
                  m hit
                ∙ ap (λ t. if str_eq key x then none else find_text x t) (sym whole))
              k,
    )

-- On a sound database db_delete ends: it returns 0 if the database has a text for the key, and else
-- -1. Afterwards the database is sound, and stands for the same mapping without the key: every other
-- key has the text that it had, whichever chain it is in.
pub db_delete-view :
    (db : Db) (rows : ℕ → List Cell) (free : List Cell) (key : Bytes)
    → Sound db rows free
    → DeleteView db rows key
db_delete-view db rows free key s =
    let (head, first, b, chf) = Sound-Bucket db rows free key s in
    delete-view db rows free key head first (seek (chain_of db key) key (rows (hash db key))) s b
      chf (db_delete-outcome db key head (rows (hash db key)) first b)
