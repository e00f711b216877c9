-- ===== src/Db/Writes.antt =====
-- What _db_writeptr, _db_writeidx and _db_writedat do.
use learning_notes.Base.{
  ℕ, ◌+◌, ◌*◌, ◌≤◌, ◌≡◌, refl, List, [], ◌∷◌, ◌++◌, arith, ==-refl, le→leb, length, write, All,
}
use learning_notes.Base.Int.{pos}
use learning_notes.CString.{Bytes, padded}
use learning_notes.CString.Digits.{length-padded}
use learning_notes.Db.{
  ptr_max, idxlen_min, idxlen_max, newline, Which, idx, dat, seek_set, seek_end, Lock, Db, ok,
}
use learning_notes.Db.Sys.{lseek, writev, writew_lock, un_lock, release}
use learning_notes.Db.Io.{record_text, writedat, writeidx, writeptr}
use native.Mathlib.Nat.{add-zero}
use learning_notes.Db.Entry.{Entry, entry_text}
use learning_notes.Db.Image.{image}

-- _db_writeptr puts the pointer there.
pub writeptr-eq :
    (db : Db) (o p : ℕ)
    → p ≤ ptr_max
    → writeptr (pos o) (pos p) db
      ≡ ok tt (record db {
        idxfd = record { bytes = write db.idxfd.bytes o (padded 7 p); offset = o + 7 };
      })
unfolding writeptr lseek writev
writeptr-eq db o p h = rw (le→leb p ptr_max h, length-padded p 6 (omega arith)) refl

-- _db_writeidx over a record puts the new record there.
pub writeidx-set :
    (db : Db) (key : Bytes) (o next : ℕ)
    → let e : Entry = record { key = key; datoff = db.datoff; datlen = db.datlen } in
      next ≤ ptr_max
      → idxlen_min ≤ length (entry_text e)
      → length (entry_text e) ≤ idxlen_max
      → writeidx key o seek_set (pos next) db
        ≡ ok tt (record db {
          idxfd = record {
            bytes = write db.idxfd.bytes o (image next e);
            offset = o + length (image next e);
          };
          idxbuf = entry_text e;
          idxoff = o;
          ptrval = pos next;
        })
unfolding writeidx lseek writev
writeidx-set db key o next h lo hi =
    rw
      (
        le→leb next ptr_max h,
        le→leb (length (record_text key db.datoff db.datlen) + 1) 1026 (omega (arith, hi)),
        le→leb _ _ lo,
        le→leb _ _ hi,
      )
      refl

-- The locks held are of single bytes: those on a hash chain or on the free list.
abbrev pub ByteLocks : Db → Type 0
ByteLocks db = All (λ (l : Lock). l.len ≡ 1) db.locks

release_whole :
    (w : Which) (start : ℕ) (ls : List Lock)
    → All (λ (l : Lock). l.len ≡ 1) ls
    → release w start 0 ls ≡ ls
release_whole w start [] h = refl
release_whole w start (l ∷ ls) h = ground (arith, release_whole w start ls h.1)

-- _db_writeidx behind the last record.
pub writeidx-end :
    (db : Db) (key : Bytes) (next : ℕ)
    → let e : Entry = record { key = key; datoff = db.datoff; datlen = db.datlen } in
      let o : ℕ = length db.idxfd.bytes in
      ByteLocks db
      → next ≤ ptr_max
      → idxlen_min ≤ length (entry_text e)
      → length (entry_text e) ≤ idxlen_max
      → writeidx key 0 seek_end (pos next) db
        ≡ ok tt (record db {
          idxfd = record {
            bytes = write db.idxfd.bytes o (image next e);
            offset = o + length (image next e);
          };
          idxbuf = entry_text e;
          idxoff = o;
          ptrval = pos next;
        })
unfolding writeidx lseek writev writew_lock un_lock
writeidx-end db key next b h lo hi =
    rw
      (
        le→leb next ptr_max h,
        le→leb (length (record_text key db.datoff db.datlen) + 1) 1026 (omega (arith, hi)),
        le→leb _ _ lo,
        le→leb _ _ hi,
        add-zero,
        ==-refl ((db.nhash + 1) * 7 + 1),
        release_whole idx ((db.nhash + 1) * 7 + 1) db.locks b,
      )
      refl

-- _db_writedat over a record, and behind the last one.
pub writedat-set :
    (db : Db) (text : Bytes) (o : ℕ)
    → writedat text o seek_set db
      ≡ ok tt (record db {
        datfd = record {
          bytes = write db.datfd.bytes o (text ++ newline ∷ []);
          offset = o + length (text ++ newline ∷ []);
        };
        datoff = o;
        datlen = length text + 1;
      })
unfolding writedat lseek writev
writedat-set db text o = refl

pub writedat-end :
    (db : Db) (text : Bytes)
    → ByteLocks db
    → let o : ℕ = length db.datfd.bytes in
      writedat text 0 seek_end db
      ≡ ok tt (record db {
        datfd = record {
          bytes = write db.datfd.bytes o (text ++ newline ∷ []);
          offset = o + length (text ++ newline ∷ []);
        };
        datoff = o;
        datlen = length text + 1;
      })
unfolding writedat lseek writev writew_lock un_lock
writedat-end db text b = rw (add-zero, release_whole dat 0 db.locks b) refl
