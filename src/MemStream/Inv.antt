-- ===== src/MemStream/Inv.antt =====
-- The bounds of a memory stream: its positions stay within its buffer, and so do the accesses.
use learning_notes.Base.{
  ℕ, zero, suc, ◌+◌, ◌-◌, ◌^◌, ◌≤◌, ◌<◌, ◌≡◌, min, Bool, true, false, none, some, List, [], ◌∷◌,
  ◌∙◌, ap, ◌&&◌, ◌||◌, not, refl, arith, ltb, leb, le→leb, length, take, drop, slice, set, write,
  Bool-cases, inl, inr, length-set, length-write, length-take, if◌then◌else◌,
}
use learning_notes.Base.Int.{ℤ}
use learning_notes.MemStream.{
  Stream, find_end, choose_buf, fmemopen, mstream_read, mstream_write, mstream_seek, terminate,
  done, write_at, settle, store_nul, extend, Whence, sub_size, through_int,
}

-- The buffer has `rsize` bytes, and the positions lie within it.
pub record IsValid (ms : Stream) : Type 0 where
  pub storage : length ms.buf ≡ ms.rsize
  pub end_in : ms.vsize ≤ ms.rsize
  pub pos_in : ms.curpos ≤ ms.vsize
  pub small : ms.rsize < 2 ^ 31
  pub not_empty : 0 < ms.rsize

pub find_end-le : (buf : List ℕ) (len : ℕ) → find_end buf len ≤ len
unfolding find_end
find_end-le buf zero = omega arith
find_end-le [] (suc len) = omega arith
find_end-le (c ∷ buf) (suc len) = ground (arith, find_end-le buf len)

-- A stream that fmemopen opens is valid, if the buffer that it is given, or that is allocated for
-- it, has the size that is stated, and that size is less than 2^31.
pub fmemopen-IsValid :
    (buf : List ℕ) (given : Bool) (fresh : List ℕ) (size : ℕ) (type : List ℕ) {ms : Stream}
    → length buf ≡ size
    → length fresh ≡ size
    → size < 2 ^ 31
    → fmemopen (if given then some buf else none) fresh size type ≡ some ms
    → IsValid ms
unfolding fmemopen choose_buf
fmemopen-IsValid buf true fresh size type hb hf hs e = ground (arith, find_end-le buf size)
fmemopen-IsValid buf false fresh size type hb hf hs e = ground arith

-- On a valid stream for reading, mstream_read stays within the buffer, takes no more bytes than are
-- asked for, and leaves the stream valid.
pub mstream_read-IsValid :
    (ms : Stream) (len : ℕ)
    → IsValid ms
    → ms.flags.reads ≡ true
    → (out : List ℕ) × (ms' : Stream) × (mstream_read ms len ≡ done (out, ms'))
      × IsValid ms'
      × (length out ≤ len)
unfolding mstream_read
mstream_read-IsValid ms len v r = elim (Bool-cases (leb ms.vsize ms.curpos)) [
  | inl past ↦ ([], ms, rw (r, past) refl, v, omega arith)
  | inr before ↦
      (let nr = min len (ms.vsize - ms.curpos) in
        let low : ms.curpos < ms.vsize = ground arith in
        (
          slice ms.buf ms.curpos nr,
          record ms { curpos = ms.curpos + nr },
          rw
              (
                r,
                before,
                le→leb (ms.curpos + nr) (length ms.buf) (omega (arith, v.storage, v.end_in)),
              )
              refl,
          record {
            storage = v.storage;
            end_in = v.end_in;
            pos_in = omega (arith, low);
            small = v.small;
            not_empty = v.not_empty;
          },
          omega (arith, length-take nr (drop ms.curpos ms.buf)),
        ))
]

-- mstream_seek keeps a valid stream valid, goes where it says, and leaves the bytes alone.
pub mstream_seek-IsValid :
    (ms : Stream) (p : ℤ) (w : Whence) {off : ℕ} {ms' : Stream}
    → IsValid ms
    → mstream_seek ms p w ≡ some (off, ms')
    → IsValid ms' × (ms'.curpos ≡ off) × (ms'.buf ≡ ms.buf)
unfolding mstream_seek
mstream_seek-IsValid ms p w v e = ground arith

-- The state of mstream_write before its end is moved.
record IsStored (ms : Stream) : Type 0 where
  storage : length ms.buf ≡ ms.rsize
  end_in : ms.vsize ≤ ms.rsize
  pos_in : ms.curpos ≤ ms.rsize
  small : ms.rsize < 2 ^ 31
  not_empty : 0 < ms.rsize

-- The steps of mstream_write where all stores are within the buffer.
abbrev pub extended : Stream → Stream
extended ms =
    if ltb ms.vsize ms.curpos
    then record ms {
      vsize = ms.curpos;
      buf =
          if (ms.flags.reads && ms.flags.writes) && ltb ms.curpos ms.rsize
          then set ms.buf ms.curpos 0
          else ms.buf;
    }
    else ms

abbrev pub terminated : Stream → Stream
terminated ms =
    if (ms.flags.writes || ms.flags.appends) && not ms.flags.reads
    then record ms {
      buf = set ms.buf (if ltb ms.curpos ms.rsize then ms.curpos else ms.rsize - 1) 0;
    }
    else ms

curpos-extended : (ms : Stream) → (extended ms).curpos ≡ ms.curpos
curpos-extended ms = ground arith

curpos-terminated : (ms : Stream) → (terminated ms).curpos ≡ ms.curpos
curpos-terminated ms = ground arith

rsize-extended : (ms : Stream) → (extended ms).rsize ≡ ms.rsize
rsize-extended ms = ground arith

rsize-terminated : (ms : Stream) → (terminated ms).rsize ≡ ms.rsize
rsize-terminated ms = ground arith

pub extend-extended : (ms : Stream) → length ms.buf ≡ ms.rsize → extend ms ≡ some (extended ms)
unfolding extend store_nul
extend-extended ms h = elim (Bool-cases (ltb ms.vsize ms.curpos)) [
  | inr less ↦ rw less refl
  | inl more ↦
      rw more (elim (Bool-cases ((ms.flags.reads && ms.flags.writes) && ltb ms.curpos ms.rsize)) [
        | inr keep ↦ rw keep refl
        | inl nul ↦
            (let room : ltb ms.curpos (length ms.buf) ≡ true = ground (arith, nul, h) in
              rw (nul, room) refl)
      ])
]

pub terminate-terminated :
    (ms : Stream) → length ms.buf ≡ ms.rsize → 0 < ms.rsize → terminate ms ≡ some (terminated ms)
unfolding terminate store_nul
terminate-terminated ms h pos_size =
    elim (Bool-cases ((ms.flags.writes || ms.flags.appends) && not ms.flags.reads)) [
      | inr keep ↦ rw keep refl
      | inl nul ↦ rw nul (elim (Bool-cases (ltb ms.curpos ms.rsize)) [
        | inl before ↦ rw (h, before) (rw before refl)
        | inr full ↦
            (let room : ltb (ms.rsize - 1) ms.rsize ≡ true = ground (arith, pos_size) in
              rw (full, h, room) refl)
      ])
    ]

extended-IsValid : (ms : Stream) → IsStored ms → IsValid (extended ms)
extended-IsValid ms v = ground (arith, length-set ms.buf ms.curpos 0)

terminated-IsValid : (ms : Stream) → IsValid ms → IsValid (terminated ms)
terminated-IsValid ms v =
    ground (arith, length-set ms.buf ms.curpos 0, length-set ms.buf (ms.rsize - 1) 0)

settle-IsValid :
    (ms : Stream)
    → IsStored ms
    → (settle ms ≡ some (terminated (extended ms))) × IsValid (terminated (extended ms))
unfolding settle
settle-IsValid ms s =
    let v = extended-IsValid ms s in
    (
      rw (settle, extend-extended ms s.storage)
          (terminate-terminated (extended ms) v.storage v.not_empty),
      terminated-IsValid (extended ms) v,
    )

pub through_int-eq : (n : ℕ) → n < 2 ^ 31 → through_int n ≡ n
unfolding through_int
through_int-eq n h = ground arith

pub sub_size-eq : (a b : ℕ) → a < 2 ^ 64 → b ≤ a → sub_size a b ≡ a - b
sub_size-eq a b h k = omega arith

IsStored-write :
    (ms : Stream) (off : ℕ) (bytes : List ℕ)
    → IsValid ms
    → off ≤ ms.vsize
    → let nw = min (length bytes) (sub_size ms.rsize off) in
      IsStored (record ms { buf = write ms.buf off (take nw bytes); curpos = off + nw })
IsStored-write ms off bytes v h =
    let nw = min (length bytes) (sub_size ms.rsize off) in
    record {
      storage = omega (
        arith,
        length-write ms.buf off (take nw bytes) (omega (arith, v.storage, v.end_in)),
        length-take nw bytes,
        v.storage,
        v.end_in,
        v.small,
      );
      end_in = v.end_in;
      pos_in = omega (arith, v.end_in, v.small);
      small = v.small;
      not_empty = v.not_empty;
    }

write_at-IsValid :
    (ms : Stream) (bytes : List ℕ) (at : ℕ)
    → IsValid ms
    → at ≤ ms.vsize
    → (n : ℕ) × (ms' : Stream) × (write_at ms bytes at ≡ done (n, ms'))
      × (IsValid ms'
          × (n ≡ min (length bytes) (ms.rsize - at))
          × (ms'.curpos ≡ at + n)
          × (ms'.rsize ≡ ms.rsize))
unfolding write_at
write_at-IsValid ms bytes at v low =
    let n = min (length bytes) (sub_size ms.rsize at) in
    let stored = record ms { buf = write ms.buf at (take n bytes); curpos = at + n } in
    let (run, valid) = settle-IsValid stored (IsStored-write ms at bytes v low) in
    let size : n ≡ min (length bytes) (ms.rsize - at) = omega (arith, low, v.end_in, v.small) in
    let room : leb (at + n) (length ms.buf) ≡ true =
      le→leb (at + n) (length ms.buf) (omega (arith, size, low, v.end_in, v.storage)) in
    (
      n,
      terminated (extended stored),
      rw (room, run) refl,
      (
        valid,
        size,
        curpos-terminated (extended stored) ∙ curpos-extended stored,
        rsize-terminated (extended stored) ∙ rsize-extended stored,
      ),
    )

-- On a valid stream for writing or appending, mstream_write makes no access outside the buffer and
-- ends. It takes as many of the bytes as there is room for behind the end of the data, if the stream
-- appends, and else behind the position, and leaves the stream valid, of the same size, with the
-- position behind the bytes.
pub mstream_write-IsValid :
    (ms : Stream) (bytes : List ℕ)
    → IsValid ms
    → (ms.flags.appends || ms.flags.writes) ≡ true
    → let at : ℕ = if ms.flags.appends then ms.vsize else ms.curpos in
      (n : ℕ) × (ms' : Stream) × (mstream_write ms bytes ≡ done (n, ms'))
      × (IsValid ms'
          × (n ≡ min (length bytes) (ms.rsize - at))
          × (ms'.curpos ≡ at + n)
          × (ms'.rsize ≡ ms.rsize))
unfolding mstream_write
mstream_write-IsValid ms bytes v w =
    let at : ℕ = if ms.flags.appends then ms.vsize else ms.curpos in
    let low : at ≤ ms.vsize = ground arith in
    let off : through_int at ≡ at = through_int-eq at (omega (arith, low, v.end_in, v.small)) in
    let (n, ms', run, rest) = write_at-IsValid ms bytes at v low in
    let start : mstream_write ms bytes ≡ write_at ms bytes (through_int at) = rw w refl in
    (n, ms', start ∙ ap (λ (o : ℕ). write_at ms bytes o) off ∙ run, rest)
