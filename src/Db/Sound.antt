-- ===== src/Db/Sound.antt =====
-- db.c: a whole database that is sound, the mapping from keys to texts that it stands for, and
-- db_fetch on it.
use mathlib.Core.Path.{subst}
use learning_notes.Base.{
  ℕ, ◌+◌, ◌*◌, ◌≤◌, ◌<◌, ◌≡◌, ◌≢◌, refl, ap, sym, ◌∙◌, inl, inr, Option, none, some, List, [], ◌∷◌,
  arith, if◌then◌else◌, length, All, All-map, Bool-cases,
}
use native.Mathlib.Nat.{mod-lt}
use learning_notes.CString.{Bytes, str_eq}
use learning_notes.Db.{ptr_max, Lock, Db, ok}
use learning_notes.Db.Search.{hash_loop, hash}
use learning_notes.Db.Api.{db_fetch}
use learning_notes.Db.Entry.{PtrAt}
use learning_notes.Db.Image.{span, Apart}
use learning_notes.Db.Chain.{Cell, HasData, Chain, seek}
use learning_notes.Db.Locate.{chain_of}
use learning_notes.Db.Fetch.{text_of, Unchanged, db_fetch-seek}
use learning_notes.Db.Sites.{Chain-inside}
use learning_notes.Db.Removed.{Bucket}
use learning_notes.Db.DeleteFetch.{Single}
use learning_notes.Db.Cells.{DataIn, Sparse, Between, Sparse-Spread, length-Sparse}

-- The place of the pointer to a bucket's chain, and the end of the hash table.
abbrev pub slot : ℕ → ℕ → ℕ
slot hashoff b = b * 7 + hashoff

abbrev pub table_end : ℕ → ℕ → ℕ
table_end hashoff nhash = nhash * 7 + hashoff

-- The pointer at `p` begins the chain of the records `cs`.
abbrev pub From : Bytes → ℕ → List Cell → Type 0
From f p cs = (head : ℕ) × PtrAt f p head × (head ≤ ptr_max) × Chain f head cs

-- A record lies behind the hash table, where a pointer reaches.
abbrev pub Placed : ℕ → ℕ → Cell → Type 0
Placed hashoff nhash d = (table_end hashoff nhash ≤ d.at) × (d.at ≤ ptr_max)

-- The index file `f` and the data file `g` hold the records `rows b` in the chain of each bucket `b`, and the empty records
-- `free` in the free list. All are in their places and keep apart, no key is there twice, and no lock is held.
pub record Layout (locks : List Lock) (hashoff nhash : ℕ) (f g : Bytes) (rows : ℕ → List Cell)
    (free : List Cell) : Type 0 where
  pub no_locks : locks ≡ []
  pub low : 7 ≤ hashoff
  pub table : 0 < nhash
  pub table_in : table_end hashoff nhash ≤ length f
  pub bucket : (b : ℕ) → b < nhash → From f (slot hashoff b) (rows b)
  pub free_list : From f 0 free
  pub row_places : (b : ℕ) → b < nhash → All (Placed hashoff nhash) (rows b)
  pub free_places : All (Placed hashoff nhash) free
  pub free_data : All (DataIn g) free
  pub records : (b : ℕ) → b < nhash → All (HasData g) (rows b)
  pub row_sparse : (b : ℕ) → b < nhash → Sparse (rows b)
  pub free_sparse : Sparse free
  pub rows_apart : (b b' : ℕ) → b < nhash → b' < nhash → b ≢ b' → Between (rows b) (rows b')
  pub free_apart : (b : ℕ) → b < nhash → Between (rows b) free
  pub unique : (b : ℕ) → b < nhash → (key : Bytes) → Single key (rows b)

abbrev pub Sound : Db → (ℕ → List Cell) → List Cell → Type 0
Sound db rows free = Layout db.locks db.hashoff db.nhash db.idxfd.bytes db.datfd.bytes rows free

-- The text of the first record with the key.
abbrev pub find_text : Bytes → List Cell → Option Bytes
find_text key [] = none
find_text key (c ∷ cs) = if str_eq c.entry.key key then some c.text else find_text key cs

-- What the database stands for.
abbrev pub view : Db → (ℕ → List Cell) → Bytes → Option Bytes
view db rows key = find_text key (rows (hash db key))

pub text_of-seek :
    (p : ℕ) (key : Bytes) (cs : List Cell) → text_of (seek p key cs) ≡ find_text key cs
unfolding seek
text_of-seek p key [] = refl
text_of-seek p key (c ∷ cs) = elim (Bool-cases (str_eq c.entry.key key)) [
  | inl hit ↦ rw hit refl
  | inr miss ↦ rw miss (text_of-seek c.at key cs)
]

pub hash-lt : (db : Db) (key : Bytes) → 0 < db.nhash → hash db key < db.nhash
unfolding hash
hash-lt db key h = mod-lt (hash_loop 0 1 key) h

-- The chain of a key, and the free list, as db_delete and db_store need them.
pub Sound-Bucket :
    (db : Db) (rows : ℕ → List Cell) (free : List Cell) (key : Bytes)
    → Sound db rows free
    → (head : ℕ) × (first : ℕ) × Bucket db key head (rows (hash db key)) first
      × Chain db.idxfd.bytes first free
unfolding hash
Sound-Bucket db rows free key s =
    let b = hash db key in
    let lt = hash-lt db key s.table in
    let (head, at, le, ch) = s.bucket b lt in
    let (first, at', le', ch') = s.free_list in
    (
      head,
      first,
      record {
        no_locks = s.no_locks;
        head_at = at;
        head_le = le;
        chain = ch;
        fits =
            length-Sparse (length db.idxfd.bytes) (rows b) (s.row_sparse b lt)
              (Chain-inside db.idxfd.bytes head (rows b) ch);
        spread = Sparse-Spread (rows b) (s.row_sparse b lt);
        low =
            All-map (Placed db.hashoff db.nhash) (λ (d : Cell). 7 ≤ d.at)
              (λ d p. omega (arith, p.0, s.low)) (rows b) (s.row_places b lt);
        reach =
            All-map (Placed db.hashoff db.nhash) (λ (d : Cell). d.at ≤ ptr_max) (λ d p. p.1)
              (rows b) (s.row_places b lt);
        table =
            All-map (Placed db.hashoff db.nhash)
              (λ (d : Cell). Apart (chain_of db key) 7 d.at (span d.entry))
              (λ d p. inl (omega (arith, p.0, lt))) (rows b) (s.row_places b lt);
        records = s.records b lt;
        chain_low = omega (arith, s.low);
        chain_in = omega (arith, s.table_in, lt);
        free_at = at';
        free_le = le';
      },
      ch',
    )

-- The five parts of a state that the layout is about.
pub Sound-eq :
    (db : Db) {locks : List Lock} {hashoff nhash : ℕ} {f g : Bytes} (rows : ℕ → List Cell)
    (free : List Cell)
    → db.locks ≡ locks
    → db.hashoff ≡ hashoff
    → db.nhash ≡ nhash
    → db.idxfd.bytes ≡ f
    → db.datfd.bytes ≡ g
    → Layout locks hashoff nhash f g rows free
    → Sound db rows free
Sound-eq db {locks} {hashoff} {nhash} {f} {g} rows free ls h n i r l =
    let a = subst (λ t. Layout t hashoff nhash f g rows free) (sym ls) l in
    let b = subst (λ t. Layout db.locks t nhash f g rows free) (sym h) a in
    let c = subst (λ t. Layout db.locks db.hashoff t f g rows free) (sym n) b in
    let d = subst (λ t. Layout db.locks db.hashoff db.nhash t g rows free) (sym i) c in
    subst (λ t. Layout db.locks db.hashoff db.nhash db.idxfd.bytes t rows free) (sym r) d

-- A call that changes neither file leaves a sound database sound.
pub Sound-Unchanged :
    (db db' : Db) (rows : ℕ → List Cell) (free : List Cell)
    → Unchanged db db'
    → Sound db rows free
    → Sound db' rows free
Sound-Unchanged db db' rows free u s =
    Sound-eq db' rows free u.locks u.hashoff u.nhash u.index u.records s

-- On a sound database db_fetch ends and returns the text that the database has for the key, or NULL;
-- the database is then sound with the same records.
pub db_fetch-view :
    (db : Db) (rows : ℕ → List Cell) (free : List Cell) (key : Bytes)
    → Sound db rows free
    → (db' : Db) × (db_fetch key db ≡ ok (view db rows key) db') × Sound db' rows free
db_fetch-view db rows free key s =
    let (head, first, b, _) = Sound-Bucket db rows free key s in
    let (db', run, u) =
      db_fetch-seek db key head (rows (hash db key)) b.no_locks b.head_le b.head_at b.chain b.fits
        b.records in
    (
      db',
      run ∙ ap (λ o. ok o db') (text_of-seek (chain_of db key) key (rows (hash db key))),
      Sound-Unchanged db db' rows free u s,
    )
