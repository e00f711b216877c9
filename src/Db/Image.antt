-- ===== src/Db/Image.antt =====
-- What _db_writeidx and _db_writeptr leave in the index file, and what they leave alone.
use learning_notes.Base.{
  ℕ, ◌+◌, ◌≤◌, ◌≡◌, ◌⊎◌, inl, inr, ◌∙◌, ◌++◌, arith, length, slice, write, slice-write_self,
  slice-write_before, slice-write_after, slice-front, slice-back, length-append, append_assoc,
}
use learning_notes.CString.{Bytes, padded}
use learning_notes.CString.Digits.{length-padded}
use learning_notes.Db.{ptr_max, idxlen_max}
use learning_notes.Db.Entry.{Entry, entry_text, EntryAt}

-- The bytes of a record with its header.
abbrev pub image : ℕ → Entry → Bytes
image next e = (padded 7 next ++ padded 4 (length (entry_text e))) ++ entry_text e

-- The bytes that a record takes.
abbrev pub span : Entry → ℕ
span e = 11 + length (entry_text e)

pub length-image :
    (next : ℕ) (e : Entry)
    → next ≤ ptr_max
    → length (entry_text e) ≤ idxlen_max
    → length (image next e) ≡ span e
length-image next e h k = omega (
  arith,
  length-append (padded 7 next ++ padded 4 (length (entry_text e))) (entry_text e),
  length-append (padded 7 next) (padded 4 (length (entry_text e))),
  length-padded next 6 (omega arith),
  length-padded (length (entry_text e)) 3 (omega arith),
)

-- The record is where it was written.
pub EntryAt-write :
    (f : Bytes) (o : ℕ) (e : Entry) (next : ℕ)
    → next ≤ ptr_max
    → length (entry_text e) ≤ idxlen_max
    → EntryAt (write f o (image next e)) o e next
EntryAt-write f o e next h k = record {
  link = slice-front g o 7 (4 + length (entry_text e)) (padded 7 next) rest l7 whole;
  size =
      slice-front g (o + 7) 4 (length (entry_text e)) (padded 4 (length (entry_text e)))
        (entry_text e) l4 tail;
  text =
      let p : o + 11 ≡ o + 7 + 4 = omega arith in
      rw p (
        slice-back g (o + 7) 4 (length (entry_text e)) (padded 4 (length (entry_text e)))
          (entry_text e) l4 tail);
  next_le = h;
}
  where
    g : Bytes
    g = write f o (image next e)

    rest : Bytes
    rest = padded 4 (length (entry_text e)) ++ entry_text e

    l7 : length (padded 7 next) ≡ 7
    l7 = length-padded next 6 (omega arith)

    l4 : length (padded 4 (length (entry_text e))) ≡ 4
    l4 = length-padded (length (entry_text e)) 3 (omega arith)

    n : 7 + (4 + length (entry_text e)) ≡ length (image next e)
    n = omega (arith, length-image next e h k)

    whole : slice g o (7 + (4 + length (entry_text e))) ≡ padded 7 next ++ rest
    whole = rw n (
        slice-write_self f o (image next e)
        ∙ append_assoc (padded 7 next) (padded 4 (length (entry_text e))) (entry_text e))

    tail : slice g (o + 7) (4 + length (entry_text e)) ≡ rest
    tail = slice-back g o 7 (4 + length (entry_text e)) (padded 7 next) rest l7 whole

-- Two runs of bytes that do not meet.
abbrev pub Apart : ℕ → ℕ → ℕ → ℕ → Type 0
Apart o n p m = (o + n ≤ p) ⊎ (p + m ≤ o)

pub slice-write-Apart :
    (f : Bytes) (o : ℕ) (bs : Bytes) (p n : ℕ)
    → p + n ≤ length f
    → Apart p n o (length bs)
    → slice (write f o bs) p n ≡ slice f p n
slice-write-Apart f o bs p n h (inl before) = slice-write_before f o bs p n before h
slice-write-Apart f o bs p n h (inr after) = slice-write_after f o bs p n after

-- A record survives every write that does not meet it.
pub EntryAt-write-Apart :
    (f : Bytes) (o : ℕ) (bs : Bytes) (p : ℕ) (e : Entry) (next : ℕ)
    → p + span e ≤ length f
    → Apart p (span e) o (length bs)
    → EntryAt f p e next
    → EntryAt (write f o bs) p e next
EntryAt-write-Apart f o bs p e next h away at = record {
  link = slice-write-Apart f o bs p 7 (omega arith) (omega arith) ∙ at.link;
  size = slice-write-Apart f o bs (p + 7) 4 (omega arith) (omega arith) ∙ at.size;
  text =
      slice-write-Apart f o bs (p + 11) (length (entry_text e)) (omega arith) (omega arith)
      ∙ at.text;
  next_le = at.next_le;
}

-- A record whose pointer alone is written again.
pub EntryAt-relink :
    (f : Bytes) (p : ℕ) (e : Entry) (next next' : ℕ)
    → p + span e ≤ length f
    → next' ≤ ptr_max
    → EntryAt f p e next
    → EntryAt (write f p (padded 7 next')) p e next'
EntryAt-relink f p e next next' h k at =
    let l7 : length (padded 7 next') ≡ 7 = length-padded next' 6 (omega arith) in
    record {
      link = rw l7 at (slice-write_self f p (padded 7 next'));
      size = slice-write_after f p (padded 7 next') (p + 7) 4 (omega arith) ∙ at.size;
      text =
          slice-write_after f p (padded 7 next') (p + 11) (length (entry_text e)) (omega arith)
          ∙ at.text;
      next_le = k;
    }
