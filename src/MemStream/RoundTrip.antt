-- ===== src/MemStream/RoundTrip.antt =====
-- What is written to a memory stream is read back from it.
use learning_notes.Base.{
  if◌then◌else◌, ℕ, ◌^◌, zero, suc, ◌+◌, ◌-◌, ◌≤◌, ◌<◌, ◌≡◌, refl, ap, ◌∙◌, min, true, false, ◌&&◌,
  ◌||◌, some, List, [], ◌∷◌, arith, ltb, length, set, slice, write, slice-write_self, take_all,
  Bool-cases, inl, inr, le→ltb, leb, le→leb, length-write, length-set,
}
use learning_notes.Base.Int.{pos}
use learning_notes.MemStream.{
  Flags, Stream, Access, mstream_read, mstream_write, mstream_seek, terminate, seek_set, sub_size,
  through_int, int_of, done, write_at, settle,
}
use learning_notes.MemStream.Inv.{IsValid, through_int-eq, extended, extend-extended}

slice-set_behind : (f : List ℕ) (i v p n : ℕ) → p + n ≤ i → slice (set f i v) p n ≡ slice f p n
slice-set_behind f i v p zero h = refl
slice-set_behind [] i v p (suc n) h = refl
slice-set_behind (x ∷ f) zero v p (suc n) h = absurd (omega arith)
slice-set_behind (x ∷ f) (suc i) v zero (suc n) h =
    ap (λ l. x ∷ l) (slice-set_behind f i v zero n (omega arith))
slice-set_behind (x ∷ f) (suc i) v (suc p) (suc n) h =
    slice-set_behind f i v p (suc n) (omega arith)

-- A stream for update that does not append.
pub record IsUpdate (ms : Stream) : Type 0 where
  pub reads : ms.flags.reads ≡ true
  pub writes : ms.flags.writes ≡ true
  pub appends : ms.flags.appends ≡ false

-- The state behind a write that fits.
abbrev stored : Stream → List ℕ → Stream
stored ms bytes = record ms {
  buf = write ms.buf ms.curpos bytes;
  curpos = ms.curpos + length bytes;
}

terminate_update : (ms : Stream) → ms.flags.reads ≡ true → terminate ms ≡ some ms
unfolding terminate
terminate_update ms r = ground arith

flags-extended : (ms : Stream) → (extended ms).flags ≡ ms.flags
flags-extended ms = ground arith

storage-stored :
    (ms : Stream) (bytes : List ℕ)
    → IsValid ms
    → ms.curpos + length bytes ≤ ms.rsize
    → length (write ms.buf ms.curpos bytes) ≡ ms.rsize
storage-stored ms bytes v h =
    length-write ms.buf ms.curpos bytes (omega (arith, v.storage, h)) ∙ omega (arith, v.storage, h)

write_at-fits :
    (ms : Stream) (bytes : List ℕ)
    → IsValid ms
    → IsUpdate ms
    → ms.curpos + length bytes ≤ ms.rsize
    → write_at ms bytes ms.curpos ≡ done (length bytes, extended (stored ms bytes))
unfolding write_at settle
write_at-fits ms bytes v u h =
    rw
      (
        fits,
        take_all bytes,
        le→leb (ms.curpos + length bytes) (length ms.buf) (omega (arith, v.storage, h)),
        settle,
        extend-extended (stored ms bytes) (storage-stored ms bytes v h),
        terminate_update (extended (stored ms bytes)) reading,
      )
      (ap taken fits)
  where
    taken : ℕ → Access (ℕ × Stream)
    taken n = done (n, extended (stored ms bytes))

    fits : min (length bytes) (sub_size ms.rsize ms.curpos) ≡ length bytes
    fits = omega (arith, v.small)

    reading : (extended (stored ms bytes)).flags.reads ≡ true
    reading = ap (λ (f : Flags). f.reads) (flags-extended (stored ms bytes)) ∙ u.reads

mstream_write-fits :
    (ms : Stream) (bytes : List ℕ)
    → IsValid ms
    → IsUpdate ms
    → ms.curpos + length bytes ≤ ms.rsize
    → mstream_write ms bytes ≡ done (length bytes, extended (stored ms bytes))
unfolding mstream_write
mstream_write-fits ms bytes v u h =
    start ∙ ap (λ (o : ℕ). write_at ms bytes o) at ∙ write_at-fits ms bytes v u h
  where
    writing : (ms.flags.appends || ms.flags.writes) ≡ true
    writing = rw (u.appends, u.writes) refl

    start :
        mstream_write ms bytes
        ≡ write_at ms bytes (through_int (if ms.flags.appends then ms.vsize else ms.curpos))
    start = rw writing refl

    at : through_int (if ms.flags.appends then ms.vsize else ms.curpos) ≡ ms.curpos
    at = rw u.appends (through_int-eq ms.curpos (omega (arith, v.pos_in, v.end_in, v.small)))

extended-keeps :
    (ms : Stream) (o : ℕ) (bytes : List ℕ)
    → ms.curpos ≡ o + length bytes
    → slice ms.buf o (length bytes) ≡ bytes
    → (slice (extended ms).buf o (length bytes) ≡ bytes) × (ms.curpos ≤ (extended ms).vsize)
extended-keeps ms o bytes e h = elim (Bool-cases (ltb ms.vsize ms.curpos)) [
  | inl more ↦
      rw more (elim (Bool-cases ((ms.flags.reads && ms.flags.writes) && ltb ms.curpos ms.rsize)) [
        | inl nul ↦
            rw nul
              (slice-set_behind ms.buf ms.curpos 0 o (length bytes) (omega arith) ∙ h, omega arith)
        | inr keep ↦ rw keep (h, omega arith)
      ])
  | inr less ↦ rw less (h, ground arith)
]

int_of-small : (n : ℕ) → n < 2 ^ 31 → int_of (pos n) ≡ some n
unfolding int_of
int_of-small n h = ground arith

read_all :
    (ms : Stream) (bytes : List ℕ)
    → 0 < length bytes
    → slice ms.buf ms.curpos (length bytes) ≡ bytes
    → ms.flags.reads ≡ true
    → ms.curpos + length bytes ≤ ms.vsize
    → ms.vsize ≤ length ms.buf
    → mstream_read ms (length bytes) ≡ done (bytes, record ms { curpos = ms.curpos + length bytes })
unfolding mstream_read
read_all ms bytes some_bytes same r h k = simp (r, before, all, inside, same) refl
  where
    before : leb ms.vsize ms.curpos ≡ false
    before = ground arith

    all : min (length bytes) (ms.vsize - ms.curpos) ≡ length bytes
    all = omega arith

    inside : leb (ms.curpos + length bytes) (length ms.buf) ≡ true
    inside = le→leb (ms.curpos + length bytes) (length ms.buf) (omega arith)

-- The end stays within the buffer.
vsize-extended :
    (ms : Stream)
    → length ms.buf ≡ ms.rsize
    → ms.vsize ≤ ms.rsize
    → ms.curpos ≤ ms.rsize
    → (extended ms).vsize ≤ length (extended ms).buf
vsize-extended ms h v c = ground (arith, length-set ms.buf ms.curpos 0)

mstream_seek-set :
    (ms : Stream) (p : ℕ)
    → p < 2 ^ 31
    → p ≤ ms.vsize
    → mstream_seek ms (pos p) seek_set ≡ some (p, record ms { curpos = p })
unfolding mstream_seek
mstream_seek-set ms p small h =
    rw (mstream_seek, zero_add, int_of-small p small, le→ltb ms.vsize p h) refl
  where
    zero_add : 0 + p ≡ p
    zero_add = omega arith

-- In a valid stream for update that does not append, bytes, at least one, that fit are all taken;
-- after a seek back to where they were written, a read of as many bytes returns them.
pub write-seek-read :
    (ms : Stream) (b : ℕ) (bs : List ℕ)
    → let bytes : List ℕ = b ∷ bs in
      IsValid ms
      → IsUpdate ms
      → ms.curpos + length bytes ≤ ms.rsize
      → (ms1 : Stream) × (ms2 : Stream) × (ms3 : Stream) × (mstream_write ms bytes
          ≡ done (length bytes, ms1))
        × (mstream_seek ms1 (pos ms.curpos) seek_set ≡ some (ms.curpos, ms2))
        × (mstream_read ms2 (length bytes) ≡ done (bytes, ms3))
unfolding mstream_seek mstream_read
write-seek-read ms b bs v u h =
    let bytes : List ℕ = b ∷ bs in
    let ms1 = extended (stored ms bytes) in
    let ms2 = record ms1 { curpos = ms.curpos } in
    let (same, longer) =
      extended-keeps (stored ms bytes) ms.curpos bytes refl
        (slice-write_self ms.buf ms.curpos bytes) in
    (
      ms1,
      ms2,
      record ms2 { curpos = ms.curpos + length bytes },
      mstream_write-fits ms bytes v u h,
      mstream_seek-set ms1 ms.curpos (omega (arith, v.pos_in, v.end_in, v.small))
          (omega (arith, longer)),
      read_all ms2 bytes (omega arith) same
          (ap (λ (f : Flags). f.reads) (flags-extended (stored ms bytes)) ∙ u.reads) (omega arith)
          (vsize-extended (stored ms bytes) (storage-stored ms bytes v h) v.end_in h),
    )
