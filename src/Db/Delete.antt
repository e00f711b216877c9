-- ===== src/Db/Delete.antt =====
-- _db_dodelete: the writes that it makes, in their order.
use learning_notes.Base.{
  ℕ, ◌+◌, ◌-◌, ◌≤◌, ◌<◌, ◌≡◌, refl, ap, ◌∙◌, true, [], ◌∷◌, ◌++◌, arith, ==_of_ne, length, write,
  replicate, length-replicate, length-append,
}
use learning_notes.Base.Int.{pos}
use learning_notes.CString.{Bytes, padded}
use learning_notes.Db.{ptr_max, newline, space, idx, Lock, Db, ok}
use learning_notes.Db.Sys.{writew_lock, un_lock, release}
use learning_notes.Db.Io.{record_text}
use learning_notes.Db.Api.{dodelete}
use learning_notes.Db.Entry.{Entry, entry_text, PtrAt, readptr-PtrAt}
use learning_notes.Db.Image.{image}
use learning_notes.Db.Writes.{writeptr-eq, writeidx-set, writedat-set}
use learning_notes.Db.Chain.{Cell, IsStored, Holds}

-- The record with its key blank.
abbrev pub blank : Entry → Entry
blank e = record { key = replicate (length e.key) space; datoff = e.datoff; datlen = e.datlen }

pub length-blank : (e : Entry) → length (entry_text (blank e)) ≡ length (entry_text e)
unfolding record_text
length-blank e = omega (
  arith,
  length-append (replicate (length e.key) space),
  length-append e.key,
  length-replicate {A = ℕ} (length e.key) space,
)

-- The index file when the record `c`, which the pointer at `p` leads to, has been put in front of
-- the free list, whose first record was at `free`.
abbrev pub after_delete : Bytes → ℕ → Cell → ℕ → ℕ → Bytes
after_delete f p c next free =
    write (write (write f c.at (image free (blank c.entry))) 0 (padded 7 c.at)) p (padded 7 next)

-- The outcome of _db_dodelete on the record `c`.
pub record Deleted (db : Db) (p : ℕ) (c : Cell) (next free : ℕ) (db' : Db) : Type 0 where
  pub index : db'.idxfd.bytes ≡ after_delete db.idxfd.bytes p c next free
  pub records :
      db'.datfd.bytes
      ≡ write db.datfd.bytes c.entry.datoff (replicate (length c.text) space ++ newline ∷ [])
  pub locks : db'.locks ≡ db.locks
  pub hashoff : db'.hashoff ≡ db.hashoff
  pub nhash : db'.nhash ≡ db.nhash
  pub chainoff : db'.chainoff ≡ db.chainoff

-- The state that holds the record `c`, written out.
abbrev pub holding : Db → ℕ → Cell → ℕ → Db
holding db p c next = record db {
  idxoff = c.at;
  idxbuf = c.entry.key;
  datoff = c.entry.datoff;
  datlen = c.entry.datlen;
  ptrval = pos next;
  ptroff = pos p;
}

pub Holds-holding :
    (db : Db) (p : ℕ) (c : Cell) (next : ℕ) → Holds db p c next → db ≡ holding db p c next
Holds-holding db p c next h = λ i. record db {
  idxoff = h.idxoff i;
  idxbuf = h.idxbuf i;
  datoff = h.datoff i;
  datlen = h.datlen i;
  ptrval = h.ptrval i;
  ptroff = h.ptroff i;
}

-- The states of _db_dodelete: after the data record is blank and the free list has been read,
-- after the index record is blank, and after each of the two pointers.
abbrev emptied : Db → Cell → Db
emptied db c = record db {
  datbuf = replicate (length c.text) space;
  idxbuf = replicate (length c.entry.key) space;
  locks = record { exclusive = true; file = idx; start = 0; len = 1 } ∷ db.locks;
  datfd = record {
    bytes = write db.datfd.bytes c.entry.datoff (replicate (length c.text) space ++ newline ∷ []);
    offset = c.entry.datoff + length (replicate (length c.text) space ++ newline ∷ []);
  };
  datoff = c.entry.datoff;
  datlen = c.entry.datlen;
}

abbrev seven : Db → Cell → Db
seven db c = record (emptied db c) { idxfd = record { bytes = db.idxfd.bytes; offset = 0 + 7 } }

abbrev index_blank : Db → Cell → ℕ → Db
index_blank db c free = record (emptied db c) {
  idxfd = record {
    bytes = write db.idxfd.bytes c.at (image free (blank c.entry));
    offset = c.at + length (image free (blank c.entry));
  };
  idxbuf = entry_text (blank c.entry);
  idxoff = c.at;
  ptrval = pos free;
}

abbrev free_linked : Db → Cell → ℕ → Db
free_linked db c free = record (index_blank db c free) {
  idxfd = record {
    bytes = write (write db.idxfd.bytes c.at (image free (blank c.entry))) 0 (padded 7 c.at);
    offset = 0 + 7;
  };
}

abbrev unlinked : Db → ℕ → Cell → ℕ → ℕ → Db
unlinked db p c next free = record (index_blank db c free) {
  idxfd = record { bytes = after_delete db.idxfd.bytes p c next free; offset = p + 7 };
  locks = release idx 0 1 (record { exclusive = true; file = idx; start = 0; len = 1 } ∷ db.locks);
}

dodelete-holding :
    (db0 : Db) (p : ℕ) (c : Cell) (next free : ℕ)
    → let db : Db = holding db0 p c next in
      IsStored db.idxfd.bytes c next
      → c.entry.datlen ≡ length c.text + 1
      → c.at ≤ ptr_max
      → free ≤ ptr_max
      → PtrAt db.idxfd.bytes 0 free
      → dodelete db ≡ ok tt (unlinked db p c next free)
unfolding dodelete writew_lock un_lock
dodelete-holding db0 p c next free st sz atm fm fp =
    rw
      (
        pred,
        writedat-set,
        refilled,
        readptr-PtrAt (emptied db c) 0 free fm fp,
        writeidx-set (seven db c) (replicate (length c.entry.key) space) c.at free fm
            (omega (arith, length-blank c.entry, st.readable.min_size))
            (omega (arith, length-blank c.entry, st.readable.max_size)),
        writeptr-eq (index_blank db c free) 0 c.at atm,
        writeptr-eq (free_linked db c free) p next st.entry_at.next_le,
      )
      refl
  where
    db : Db
    db = holding db0 p c next

    pred : c.entry.datlen - 1 ≡ length c.text
    pred = omega arith

    refilled : length (replicate (length c.text) space) + 1 ≡ c.entry.datlen
    refilled = omega (arith, length-replicate {A = ℕ} (length c.text) space)

pub dodelete-eq :
    (db : Db) (p : ℕ) (c : Cell) (next free : ℕ) (l : Lock)
    → Holds db p c next
    → IsStored db.idxfd.bytes c next
    → c.entry.datlen ≡ length c.text + 1
    → c.at ≤ ptr_max
    → free ≤ ptr_max
    → PtrAt db.idxfd.bytes 0 free
    → db.locks ≡ l ∷ []
    → 0 < l.start
    → (db' : Db) × (dodelete db ≡ ok tt db') × Deleted db p c next free db'
dodelete-eq db p c next free l h st sz atm fm fp lk pos_start = (
  unlinked (holding db p c next) p c next free,
  ap dodelete (Holds-holding db p c next h) ∙ dodelete-holding db p c next free st sz atm fm fp,
  record {
    index = refl;
    records = refl;
    locks = rw lk (rw (==_of_ne l.start 0 (omega arith)) (ground arith));
    hashoff = refl;
    nhash = refl;
    chainoff = refl;
  },
)
