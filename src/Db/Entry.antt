-- ===== src/Db/Entry.antt =====
-- An index record as it lies in the index file, and what _db_readidx makes of one.
use learning_notes.Base.{
  ℕ, ◌+◌, ◌-◌, ◌≤◌, ◌≡◌, ◌≢◌, refl, [], ◌∷◌, ◌++◌, arith, ==-refl, ==_of_ne, le→ltb, ◌⊎◌, inl, inr,
  length, take, drop, get_or, get_or_last, slice, slice-add, length-append, take-append_length,
  drop-append_length, append_assoc, All-append,
}
use learning_notes.Base.Int.{pos}
use learning_notes.CString.{Bytes, cstr, decimal, padded}
use learning_notes.CString.Digits.{length-padded, atol-padded, atol-decimal, decimal-AllDigits}
use learning_notes.CString.Fields.{
  Lacks, AllDigits-Lacks, AllDigits-Lacks_above, cstr_all, split_at-append, split_at-none,
}
use learning_notes.Db.{ptr_max, datlen_max, idxlen_min, idxlen_max, sep, newline, Db, ok}
use learning_notes.Db.Sys.{lseek, read}
use learning_notes.Db.Io.{readptr, readidx_body, readidx, record_text}

pub record Entry : Type 0 where
  pub key : Bytes
  pub datoff : ℕ
  pub datlen : ℕ

abbrev pub entry_text : Entry → Bytes
entry_text e = record_text e.key e.datoff e.datlen

-- The library can read the record: no NUL and no separator in the key, the lengths within limits.
pub record IsReadable (e : Entry) : Type 0 where
  pub no_nul : Lacks 0 e.key
  pub no_sep : Lacks sep e.key
  pub min_size : idxlen_min ≤ length (entry_text e)
  pub max_size : length (entry_text e) ≤ idxlen_max
  pub has_data : 1 ≤ e.datlen
  pub max_data : e.datlen ≤ datlen_max

-- A chain pointer with value `p` lies at `o`.
abbrev pub PtrAt : Bytes → ℕ → ℕ → Type 0
PtrAt f o p = slice f o 7 ≡ padded 7 p

-- A record lies at `o`, with the pointer `next` in front of it.
pub record EntryAt (f : Bytes) (o : ℕ) (e : Entry) (next : ℕ) : Type 0 where
  pub link : PtrAt f o next
  pub size : slice f (o + 7) 4 ≡ padded 4 (length (entry_text e))
  pub text : slice f (o + 11) (length (entry_text e)) ≡ entry_text e
  pub next_le : next ≤ ptr_max

-- The text without its newline.
abbrev body_of : Entry → Bytes
body_of e = e.key ++ sep ∷ (decimal e.datoff ++ sep ∷ decimal e.datlen)

entry_text-eq : (e : Entry) → entry_text e ≡ body_of e ++ newline ∷ []
unfolding record_text
entry_text-eq e = simp (append_assoc)

length-entry_text : (e : Entry) → length (entry_text e) ≡ length (body_of e) + 1
length-entry_text e = rw (entry_text-eq e) (length-append (body_of e) (newline ∷ []))

-- The newline is the last byte.
entry_text_last : (e : Entry) → get_or (entry_text e) (length (entry_text e) - 1) 0 ≡ newline
entry_text_last e =
    let n : length (entry_text e) - 1 ≡ length (body_of e) = omega (arith, length-entry_text e) in
    rw n (rw (entry_text-eq e) (get_or_last (body_of e) newline 0))

take-entry_text : (e : Entry) → take (length (entry_text e) - 1) (entry_text e) ≡ body_of e
take-entry_text e =
    let n : length (entry_text e) - 1 ≡ length (body_of e) = omega (arith, length-entry_text e) in
    rw n (rw (entry_text-eq e) (take-append_length (body_of e) (newline ∷ [])))

decimal-Lacks : (b n : ℕ) → (b ≤ 0x20) ⊎ (0x3a ≤ b) → Lacks b (decimal n)
decimal-Lacks b n (inl h) = AllDigits-Lacks b (decimal n) h (decimal-AllDigits n)
decimal-Lacks b n (inr h) = AllDigits-Lacks_above b (decimal n) h (decimal-AllDigits n)

cstr-body_of : (e : Entry) → Lacks 0 e.key → cstr (body_of e) ≡ body_of e
cstr-body_of e h = cstr_all (body_of e) (
    All-append (λ c. c ≢ 0) e.key _ h
      (
        (λ q. omega arith),
        All-append (λ c. c ≢ 0) (decimal e.datoff) _ (decimal-Lacks 0 e.datoff (inl (omega arith)))
            ((λ q. omega arith), decimal-Lacks 0 e.datlen (inl (omega arith))),
      ))

-- The two halves of a header.
take-header : (p : ℕ) (s : Bytes) → p ≤ ptr_max → take 7 (padded 7 p ++ s) ≡ padded 7 p
take-header p s h = rw (length-padded p 6 (omega arith)) at (take-append_length (padded 7 p) s)

drop-header : (p : ℕ) (s : Bytes) → p ≤ ptr_max → drop 7 (padded 7 p ++ s) ≡ s
drop-header p s h = rw (length-padded p 6 (omega arith)) at (drop-append_length (padded 7 p) s)

-- _db_readptr reads the pointer that lies there.
pub readptr-PtrAt :
    (db : Db) (o p : ℕ)
    → p ≤ ptr_max
    → PtrAt db.idxfd.bytes o p
    → readptr (pos o) db
      ≡ ok (pos p) (record db { idxfd = record { bytes = db.idxfd.bytes; offset = o + 7 } })
unfolding readptr lseek read
readptr-PtrAt db o p le at = rw (at, length-padded p 6 (omega arith), atol-padded) refl

-- The state after the record `e` at `o` has been read.
abbrev pub loaded : Db → ℕ → Entry → ℕ → Db
loaded db o e next = record db {
  idxfd = record { bytes = db.idxfd.bytes; offset = o + 11 + length (entry_text e) };
  idxoff = o;
  idxlen = length (entry_text e);
  idxbuf = e.key;
  datoff = e.datoff;
  datlen = e.datlen;
  ptrval = pos next;
}

readidx_body-EntryAt :
    (db : Db) (e : Entry) (next : ℕ)
    → IsReadable e
    → next ≤ ptr_max
    → slice db.idxfd.bytes db.idxfd.offset (length (entry_text e)) ≡ entry_text e
    → readidx_body (padded 7 next ++ padded 4 (length (entry_text e))) db
      ≡ ok (pos next) (record db {
        idxfd = record { bytes = db.idxfd.bytes; offset = db.idxfd.offset + length (entry_text e) };
        idxlen = length (entry_text e);
        idxbuf = e.key;
        datoff = e.datoff;
        datlen = e.datlen;
        ptrval = pos next;
      })
unfolding readidx_body read
readidx_body-EntryAt db e next r le at =
    rw
      (
        take-header next (padded 4 (length (entry_text e))) le,
        drop-header next (padded 4 (length (entry_text e))) le,
        atol-padded 7 next,
        atol-padded 4 (length (entry_text e)),
        le→ltb (length (entry_text e)) 6 r.min_size,
        le→ltb 1024 (length (entry_text e)) r.max_size,
        at,
        ==-refl (length (entry_text e)),
        entry_text_last e,
        take-entry_text e,
        cstr-body_of e r.no_nul,
        split_at-append sep e.key (decimal e.datoff ++ sep ∷ decimal e.datlen) r.no_sep,
        split_at-append sep (decimal e.datoff) (decimal e.datlen)
            (decimal-Lacks sep e.datoff (inr (omega arith))),
        split_at-none sep (decimal e.datlen) (decimal-Lacks sep e.datlen (inr (omega arith))),
        atol-decimal e.datoff,
        atol-decimal e.datlen,
        le→ltb e.datlen 1 r.has_data,
        le→ltb 1024 e.datlen r.max_data,
      )
      refl

pub readidx-EntryAt :
    (db : Db) (o : ℕ) (e : Entry) (next : ℕ)
    → o ≢ 0
    → IsReadable e
    → EntryAt db.idxfd.bytes o e next
    → readidx (pos o) db ≡ ok (pos next) (loaded db o e next)
unfolding readidx lseek read
readidx-EntryAt db o e next ne r at =
    rw (==_of_ne o 0 ne, header, full)
      (readidx_body-EntryAt
        (record db { idxfd = record { bytes = db.idxfd.bytes; offset = o + 11 }; idxoff = o }) e
        next r at.next_le at.text)
  where
    header : slice db.idxfd.bytes o 11 ≡ padded 7 next ++ padded 4 (length (entry_text e))
    header = rw (slice-add db.idxfd.bytes o 7 4, at.link, at.size) refl

    full : length (padded 7 next ++ padded 4 (length (entry_text e))) ≡ 11
    full = omega (
      arith,
      length-append (padded 7 next) (padded 4 (length (entry_text e))),
      length-padded next 6 (omega arith),
      length-padded (length (entry_text e)) 3 (omega arith),
    )
