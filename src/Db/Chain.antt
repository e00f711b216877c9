-- ===== src/Db/Chain.antt =====
-- A chain of index records, and the walk of _db_find_and_lock along it.
use learning_notes.Base.{
  ℕ, zero, suc, ◌+◌, ◌≤◌, ◌<◌, ◌≡◌, ◌≢◌, inl, inr, refl, ◌∙◌, some, none, Option, List, [], ◌∷◌,
  ◌++◌, arith, ==_of_ne, if◌then◌else◌, length, slice, Bool-cases,
}
use learning_notes.Base.Int.{ℤ, pos}
use learning_notes.CString.{Bytes, str_eq}
use learning_notes.CString.Fields.{Lacks}
use learning_notes.Db.{newline, Db, ok}
use learning_notes.Db.Io.{readidx}
use learning_notes.Db.Search.{find_loop}
use learning_notes.Db.Entry.{Entry, IsReadable, EntryAt, loaded, readidx-EntryAt}
use learning_notes.Db.Image.{span}

-- An index record with its place and its data.
pub record Cell : Type 0 where
  pub at : ℕ
  pub entry : Entry
  pub text : Bytes

-- The record lies in the file `f` behind a pointer `next`, and can be read there.
pub record IsStored (f : Bytes) (c : Cell) (next : ℕ) : Type 0 where
  pub ne_zero : c.at ≢ 0
  pub readable : IsReadable c.entry
  pub entry_at : EntryAt f c.at c.entry next
  pub inside : c.at + span c.entry ≤ length f

-- Its data lie in the file `g`, behind them a newline.
pub record HasData (g : Bytes) (c : Cell) : Type 0 where
  pub size : c.entry.datlen ≡ length c.text + 1
  pub data_at : slice g c.entry.datoff (length c.text + 1) ≡ c.text ++ newline ∷ []
  pub no_nul : Lacks 0 c.text

-- From `o` the pointers lead through the records `cs` to 0.
abbrev pub Chain : Bytes → ℕ → List Cell → Type 0
Chain f o [] = o ≡ 0
Chain f o (c ∷ cs) = (next : ℕ) × (c.at ≡ o) × IsStored f c next × Chain f next cs

-- The first record with the key, and the place of the pointer that leads to it.
unfoldable pub seek : ℕ → Bytes → List Cell → Option (ℕ × Cell)
seek p key [] = none
seek p key (c ∷ cs) = if str_eq c.entry.key key then some (p, c) else seek c.at key cs

-- What a search leaves alone.
pub record Kept (db db' : Db) : Type 0 where
  pub bytes : db'.idxfd.bytes ≡ db.idxfd.bytes
  pub datfd : db'.datfd ≡ db.datfd
  pub chainoff : db'.chainoff ≡ db.chainoff
  pub hashoff : db'.hashoff ≡ db.hashoff
  pub nhash : db'.nhash ≡ db.nhash
  pub locks : db'.locks ≡ db.locks

pub Kept-trans : {a b c : Db} → Kept a b → Kept b c → Kept a c
Kept-trans p q = record {
  bytes = q.bytes ∙ p.bytes;
  datfd = q.datfd ∙ p.datfd;
  chainoff = q.chainoff ∙ p.chainoff;
  hashoff = q.hashoff ∙ p.hashoff;
  nhash = q.nhash ∙ p.nhash;
  locks = q.locks ∙ p.locks;
}

pub Kept-refl : (db : Db) → Kept db db
Kept-refl db = record {
  bytes = refl;
  datfd = refl;
  chainoff = refl;
  hashoff = refl;
  nhash = refl;
  locks = refl;
}

Kept-loaded : (db : Db) (c : Cell) (next : ℕ) → Kept db (loaded db c.at c.entry next)
Kept-loaded db c next = record {
  bytes = refl;
  datfd = refl;
  chainoff = refl;
  hashoff = refl;
  nhash = refl;
  locks = refl;
}

-- The state holds the record `c` and its pointer `next`, and `p` is the place of the pointer to it.
pub record Holds (db : Db) (p : ℕ) (c : Cell) (next : ℕ) : Type 0 where
  pub idxoff : db.idxoff ≡ c.at
  pub idxbuf : db.idxbuf ≡ c.entry.key
  pub datoff : db.datoff ≡ c.entry.datoff
  pub datlen : db.datlen ≡ c.entry.datlen
  pub ptrval : db.ptrval ≡ pos next
  pub ptroff : db.ptroff ≡ pos p

-- The outcome of a search: the offset that the loop ends with, and its last state.
abbrev pub Sought : Option (ℕ × Cell) → ℤ → Db → Type 0
Sought none o db = o ≡ pos 0
Sought (some (p, c)) o db =
    (next : ℕ) × (o ≡ pos c.at) × IsStored db.idxfd.bytes c next × Holds db p c next

-- The loop stops at the first record with the key, and nowhere if there is none.
pub find_loop-Sought :
    (k : ℕ) (key : Bytes) (o p : ℕ) (cs : List Cell) (db : Db)
    → length cs < k
    → db.ptroff ≡ pos p
    → Chain db.idxfd.bytes o cs
    → (r : ℤ) × (db' : Db) × (find_loop k key (pos o) db ≡ ok r db')
      × Kept db db'
      × Sought (seek p key cs) r db'
unfolding find_loop seek
find_loop-Sought zero key o p cs db l e ch = elim l [ ]
find_loop-Sought (suc k) key o p [] db l e ch = (pos 0, db, rw ch refl, Kept-refl db, refl)
find_loop-Sought (suc k) key o p (c ∷ cs) db l e (next, here, st, ch) =
    elim (Bool-cases (str_eq c.entry.key key)) [
      | inl hit ↦ (
        pos c.at,
        loaded db c.at c.entry next,
        rw (← here, ==_of_ne c.at 0 st.ne_zero, read', hit) refl,
        Kept-loaded db c next,
        rw hit (
          next,
          refl,
          st,
          record {
            idxoff = refl;
            idxbuf = refl;
            datoff = refl;
            datlen = refl;
            ptrval = refl;
            ptroff = e;
          },
        ),
      )
      | inr miss ↦
          (let (r, db', run, kept, sought) =
              find_loop-Sought k key next c.at cs
                (record (loaded db c.at c.entry next) { ptroff = pos c.at }) (omega arith) refl
                ch in
            (
              r,
              db',
              rw (← here, ==_of_ne c.at 0 st.ne_zero, read', miss) run,
              Kept-trans
                  (record {
                    bytes = refl;
                    datfd = refl;
                    chainoff = refl;
                    hashoff = refl;
                    nhash = refl;
                    locks = refl;
                  })
                  kept,
              rw miss sought,
            ))
    ]
  where
    read' : readidx (pos c.at) db ≡ ok (pos next) (loaded db c.at c.entry next)
    read' = readidx-EntryAt db c.at c.entry next st.ne_zero st.readable st.entry_at
