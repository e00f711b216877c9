-- ===== src/MemStream.antt =====
-- apue.3e/exercises/fmemopen.c: a stdio stream over a buffer in memory.
pub mod Modes
pub mod Inv
pub mod RoundTrip
mod Tests
use learning_notes.Base.{
  ℕ, zero, suc, ◌+◌, ◌-◌, ◌%◌, ◌^◌, min, Bool, true, false, ◌&&◌, ◌||◌, not, Option, none, some,
  List, [], ◌∷◌, ltb, leb, ◌==◌, if◌then◌else◌, length, take, set, slice, write,
}
use learning_notes.Base.Int.{ℤ, pos, negsuc}

-- The bits MS_READ, MS_WRITE, MS_APPEND, MS_TRUNCATE and MS_MYBUF of `flags`.
pub record Flags : Type 0 where
  pub reads : Bool
  pub writes : Bool
  pub appends : Bool
  pub truncates : Bool
  pub my_buf : Bool

abbrev pub no_flags : Flags
no_flags = record {
  reads = false;
  writes = false;
  appends = false;
  truncates = false;
  my_buf = false;
}

-- `flags == 0`
unfoldable pub is_empty : Flags → Bool
is_empty f = not (f.reads || (f.writes || (f.appends || (f.truncates || f.my_buf))))

-- `struct memstream`, with the bytes of its buffer
pub record Stream : Type 0 where
  pub buf : List ℕ
  pub rsize : ℕ
  pub vsize : ℕ
  pub curpos : ℕ
  pub flags : Flags

-- The body of the loop of type_to_flags; `none` is `return(0)`.
unfoldable pub add_mode : ℕ → Flags → Option Flags
unfolding is_empty
add_mode c f =
    if c == b'r'
    then (if is_empty f then some (record f { reads = true }) else none)
    else if c == b'w'
    then (if is_empty f then some (record f { writes = true; truncates = true }) else none)
    else if c == b'a'
    then (if is_empty f then some (record f { appends = true }) else none)
    else if c == b'+'
    then (if is_empty f then none else some (record f { reads = true; writes = true }))
    else if c == b'b'
    then (if is_empty f then none else some f)
    else none

unfoldable pub mode_loop : List ℕ → Flags → Option Flags
unfolding add_mode
mode_loop [] f = some f
mode_loop (c ∷ s) f = elim (add_mode c f) [ none ↦ none | some f' ↦ mode_loop s f' ]

-- type_to_flags; `none` is 0, also that of the empty type.
unfoldable pub type_to_flags : List ℕ → Option Flags
unfolding mode_loop
type_to_flags type = elim (mode_loop type no_flags) [
  | none ↦ none
  | some f ↦ if is_empty f then none else some f
]

-- find_end, over the first `len` bytes
unfoldable pub find_end : List ℕ → ℕ → ℕ
find_end buf zero = 0
find_end [] (suc len) = 0
find_end (c ∷ buf) (suc len) = let rest = suc (find_end buf len) in if c == 0 then 0 else rest

-- The buffer that fmemopen is given or allocates: `fresh` is what `malloc` returns, and `none` for
-- `buf` is a null pointer.
unfoldable pub choose_buf : Option (List ℕ) → List ℕ → ℕ → Flags → Option (List ℕ × ℕ × Flags)
unfolding find_end
choose_buf none fresh size f =
    if f.reads && f.writes then some (fresh, 0, record f { my_buf = true }) else none
choose_buf (some buf) fresh size f = some (buf, (if f.appends then find_end buf size else 0), f)

-- fmemopen, where `malloc` and `funopen` succeed; `none` is NULL with errno EINVAL.
unfoldable pub fmemopen : Option (List ℕ) → List ℕ → ℕ → List ℕ → Option Stream
unfolding type_to_flags choose_buf
fmemopen buf fresh size type = if size == 0 then none else elim (type_to_flags type) [
  | none ↦ none
  | some f ↦ elim (choose_buf buf fresh size f) [
    | none ↦ none
    | some (b, p, f') ↦ some (record {
      buf = b;
      rsize = size;
      vsize = if f'.appends then p else if f'.truncates then 0 else size;
      curpos = p;
      flags = f';
    })
  ]
]

-- The outcome of a read or a write: -1 with errno EBADF, an access outside the buffer, which is
-- undefined, or a value.
pub data Access (A : Type 0) : Type 0 where
  refused : Access A
  fault : Access A
  done : A → Access A

-- mstream_read: the bytes that are copied out.
unfoldable pub mstream_read : Stream → ℕ → Access (List ℕ × Stream)
mstream_read ms len =
    if not ms.flags.reads
    then refused
    else if leb ms.vsize ms.curpos
    then done ([], ms)
    else let nr = min len (ms.vsize - ms.curpos) in
      if leb (ms.curpos + nr) (length ms.buf)
      then done (slice ms.buf ms.curpos nr, record ms { curpos = ms.curpos + nr })
      else fault

-- The subtraction of two values of type size_t.
abbrev pub sub_size : ℕ → ℕ → ℕ
sub_size a b = (2 ^ 64 + a - b) % 2 ^ 64

-- A `size_t` that is put into an `int` and taken out again.
unfoldable pub through_int : ℕ → ℕ
through_int n = if ltb (n % 2 ^ 32) (2 ^ 31) then n % 2 ^ 32 else 2 ^ 64 - 2 ^ 32 + n % 2 ^ 32

-- The store of a NUL into the buffer; `none` where it is outside.
unfoldable pub store_nul : Stream → ℕ → Option Stream
store_nul ms at =
    if ltb at (length ms.buf) then some (record ms { buf = set ms.buf at 0 }) else none

-- The two stores of a NUL at the end of mstream_write.
unfoldable pub terminate : Stream → Option Stream
unfolding store_nul
terminate ms =
    if (ms.flags.writes || ms.flags.appends) && not ms.flags.reads
    then store_nul ms (if ltb ms.curpos ms.rsize then ms.curpos else ms.rsize - 1)
    else some ms

-- The step of mstream_write that moves the virtual end.
unfoldable pub extend : Stream → Option Stream
unfolding store_nul
extend ms =
    if ltb ms.vsize ms.curpos
    then (if (ms.flags.reads && ms.flags.writes) && ltb ms.curpos ms.rsize
        then store_nul (record ms { vsize = ms.curpos }) ms.curpos
        else some (record ms { vsize = ms.curpos }))
    else some ms

-- The two steps behind the copy.
unfoldable pub settle : Stream → Option Stream
unfolding extend terminate
settle ms = elim (extend ms) [ none ↦ none | some ms' ↦ terminate ms' ]

-- What mstream_write does at `off`: how many bytes it takes.
unfoldable pub write_at : Stream → List ℕ → ℕ → Access (ℕ × Stream)
unfolding settle
write_at ms bytes off =
    let nw = min (length bytes) (sub_size ms.rsize off) in
    let settled : Access (ℕ × Stream) =
      elim (settle (record ms { buf = write ms.buf off (take nw bytes); curpos = off + nw })) [
        | none ↦ fault
        | some ms' ↦ done (nw, ms')
      ] in
    if leb (off + nw) (length ms.buf) then settled else fault

-- mstream_write. `off` is an int, and the length of `bytes` is that of an int.
unfoldable pub mstream_write : Stream → List ℕ → Access (ℕ × Stream)
unfolding write_at
mstream_write ms bytes =
    if not (ms.flags.appends || ms.flags.writes)
    then refused
    else write_at ms bytes (through_int (if ms.flags.appends then ms.vsize else ms.curpos))

pub data Whence : Type 0 where
  seek_set seek_cur seek_end : Whence

abbrev pub origin : Stream → Whence → ℕ
origin ms seek_set = 0
origin ms seek_cur = ms.curpos
origin ms seek_end = ms.vsize

abbrev pub displace : ℕ → ℤ → ℤ
displace b (pos n) = pos (b + n)
displace b (negsuc n) = if ltb n b then pos (b - n - 1) else negsuc (n - b)

-- The value that an `int` has of it, where that is not negative.
unfoldable pub int_of : ℤ → Option ℕ
int_of (pos n) = if ltb (n % 2 ^ 32) (2 ^ 31) then some (n % 2 ^ 32) else none
int_of (negsuc n) =
    if ltb (2 ^ 32 - 1 - n % 2 ^ 32) (2 ^ 31) then some (2 ^ 32 - 1 - n % 2 ^ 32) else none

-- mstream_seek: the new position; `none` is -1 with errno EINVAL.
unfoldable pub mstream_seek : Stream → ℤ → Whence → Option (ℕ × Stream)
mstream_seek ms p whence = elim (int_of (displace (origin ms whence) p)) [
  | none ↦ none
  | some off ↦ if ltb ms.vsize off then none else some (off, record ms { curpos = off })
]
