-- ===== src/Async.antt =====
-- apue.3e/advio/rot13c2.c: a file is translated through NBUF buffers by asynchronous reads and
-- writes. `Rot13` is what the program and the system hold: `bufs` with the two descriptors' files,
-- `i`, `off` and `numop` of main. BSZ is the parameter `bsz`, and NBUF the number of buffers.
-- The system completes the operations that are under way in any order and at any time; every
-- other call succeeds.
pub mod Inv
pub mod Kept
pub mod Visit
pub mod System
pub mod Fixed
pub mod Output
pub mod Ends
pub mod Less
pub mod Bound
pub mod Progress
pub mod Twice
mod Tests
use learning_notes.Base.{
  ℕ, zero, suc, ◌+◌, ◌-◌, ◌≤◌, ◌≡◌, ◌≢◌, Bool, true, false, ◌&&◌, ◌||◌, not, none, some, List, [],
  ◌∷◌, ltb, leb, ◌==◌, if◌then◌else◌, length, slice, write, take, set, get_elem?, replicate,
}
use learning_notes.CString.{Bytes}

-- isalpha, in the C locale
is_alpha : ℕ → Bool
is_alpha c = (leb b'A' c && leb c b'Z') || (leb b'a' c && leb c b'z')

-- translate, of an unsigned char
unfoldable pub translate : ℕ → ℕ
unfolding is_alpha
translate c =
    if is_alpha c
    then (if leb b'n' c
        then c - 13
        else if leb b'a' c
        then c + 13
        else if leb b'N' c
        then c - 13
        else c + 13)
    else c

pub data Rwop : Type 0 where
  unused read_pending write_pending : Rwop

pub data Fd : Type 0 where
  ifd ofd : Fd

-- What aio_error and aio_return say of a control block: no operation, one in progress, one that
-- has moved so many bytes, or one that has failed.
pub data Aio : Type 0 where
  idle reading writing : Aio
  finished : ℕ → Aio
  failed : ℕ → Aio

-- `struct buf`, with the control block's fields, and `listed` for an entry of aiolist that is set.
pub record Buf : Type 0 where
  pub op : Rwop
  pub last : Bool
  pub fildes : Fd
  pub offset : ℕ
  pub nbytes : ℕ
  pub text : Bytes
  pub aio : Aio
  pub listed : Bool

pub data Status : Type 0 where
  running exited quit : Status

pub record Rot13 : Type 0 where
  pub bufs : List Buf
  pub i : ℕ
  pub off : ℕ
  pub st_size : ℕ
  pub numop : ℕ
  pub ifile : Bytes
  pub ofile : Bytes
  pub status : Status

-- A buffer as main initialises it, and the state in front of the loop.
abbrev pub fresh : ℕ → Buf
fresh bsz = record {
  op = unused;
  last = false;
  fildes = ifd;
  offset = 0;
  nbytes = 0;
  text = replicate bsz 0;
  aio = idle;
  listed = false;
}

unfoldable pub initial : ℕ → ℕ → Bytes → Rot13
initial bsz nbuf file = record {
  bufs = replicate nbuf (fresh bsz);
  i = 0;
  off = 0;
  st_size = length file;
  numop = 0;
  ifile = file;
  ofile = [];
  status = running;
}

-- The loop that translates the first `n` bytes of a buffer.
unfoldable pub translate_front : ℕ → Bytes → Bytes
translate_front zero s = s
translate_front (suc n) [] = []
translate_front (suc n) (c ∷ s) = translate c ∷ translate_front n s

abbrev pub put : Rot13 → Buf → Rot13
put s b = record s { bufs = set s.bufs s.i b }

abbrev pub stop : Rot13 → Rot13
stop s = record s { status = quit }

module _ (bsz : ℕ) where
  -- The case UNUSED: the next block is read, if there is one.
  unfoldable pub start_read : Rot13 → Buf → Rot13
  start_read s b =
      if ltb s.off s.st_size
      then (record s {
        bufs = set s.bufs s.i (record b {
          op = read_pending;
          fildes = ifd;
          offset = s.off;
          last = if leb s.st_size (s.off + bsz) then true else b.last;
          nbytes = bsz;
          aio = reading;
          listed = true;
        });
        off = s.off + bsz;
        numop = s.numop + 1;
      })
      else s

  -- The case READ_PENDING, where `n` bytes were read.
  unfoldable pub end_read : Rot13 → Buf → ℕ → Rot13
  end_read s b n =
      if not (n == bsz) && not b.last
      then stop s
      else put s (record b {
        text = translate_front n b.text;
        op = write_pending;
        fildes = ofd;
        nbytes = n;
        aio = writing;
      })

  -- The case WRITE_PENDING, where `n` bytes were written.
  unfoldable pub end_write : Rot13 → Buf → ℕ → Rot13
  end_write s b n =
      if n == b.nbytes
      then (record s {
        bufs = set s.bufs s.i (record b { listed = false; op = unused; aio = idle });
        numop = s.numop - 1;
      })
      else stop s

  -- The switch on one buffer. An operation in progress is left for later.
  unfoldable pub visit_op : Rot13 → Buf → Rwop → Aio → Rot13
  unfolding start_read end_read end_write
  visit_op s b unused a = start_read s b
  visit_op s b read_pending (finished n) = end_read s b n
  visit_op s b read_pending (failed e) = stop s
  visit_op s b read_pending idle = s
  visit_op s b read_pending reading = s
  visit_op s b read_pending writing = s
  visit_op s b write_pending (finished n) = end_write s b n
  visit_op s b write_pending (failed e) = stop s
  visit_op s b write_pending idle = s
  visit_op s b write_pending reading = s
  visit_op s b write_pending writing = s

  unfoldable pub visit : Rot13 → Rot13
  unfolding visit_op
  visit s = elim (get_elem? s.bufs s.i) [ none ↦ s | some b ↦ visit_op s b b.op b.aio ]

  -- What follows the walk over the buffers. aio_suspend returns as `Step` says.
  unfoldable pub end_of_pass : Rot13 → Rot13
  end_of_pass s =
      if s.numop == 0 && leb s.st_size s.off
      then record s { status = exited }
      else record s { i = 0 }

  -- The next step of main: one buffer of the walk, or its end.
  unfoldable pub main_step : Rot13 → Rot13
  unfolding visit end_of_pass
  main_step s = if ltb s.i (length s.bufs) then record (visit s) { i = s.i + 1 } else end_of_pass s

abbrev pub file_of : Rot13 → Fd → Bytes
file_of s ifd = s.ifile
file_of s ofd = s.ofile

abbrev pub set_file : Rot13 → Fd → Bytes → Rot13
set_file s ifd f = record s { ifile = f }
set_file s ofd f = record s { ofile = f }

-- The system ends the read of buffer `k`: it reads as many bytes as the file has there.
unfoldable pub read_done : Rot13 → ℕ → Buf → Rot13
read_done s k b =
    let got = slice (file_of s b.fildes) b.offset b.nbytes in
    record s {
      bufs = set s.bufs k (record b { text = write b.text 0 got; aio = finished (length got) });
    }

-- The system ends the write of buffer `k` after `n` bytes.
unfoldable pub write_done : Rot13 → ℕ → Buf → ℕ → Rot13
write_done s k b n =
    record (set_file s b.fildes (write (file_of s b.fildes) b.offset (take n b.text))) {
      bufs = set s.bufs k (record b { aio = finished n });
    }

-- The system ends the operation of buffer `k` with an error.
unfoldable pub op_failed : Rot13 → ℕ → Buf → ℕ → Rot13
op_failed s k b e = record s { bufs = set s.bufs k (record b { aio = failed e }) }

abbrev pub InFlight : Aio → Type 0
InFlight idle = ⊥
InFlight reading = Unit
InFlight writing = Unit
InFlight (finished n) = ⊥
InFlight (failed e) = ⊥

abbrev pub Over : Aio → Type 0
Over idle = ⊥
Over reading = ⊥
Over writing = ⊥
Over (finished n) = Unit
Over (failed e) = Unit

-- A block in aiolist whose operation is over: aio_suspend returns when there is one.
abbrev pub Woken : Rot13 → Type 0
Woken s = (k : ℕ) × (b : Buf) × (get_elem? s.bufs k ≡ some b) × (b.listed ≡ true) × Over b.aio

-- main has to wait in aio_suspend.
abbrev pub waits : Rot13 → Bool
waits s = not (ltb s.i (length s.bufs)) && not (s.numop == 0)

-- A step of main, which waits only until an operation is over, or one of the system.
pub data Step (bsz : ℕ) : Rot13 → Rot13 → Type 0 where
  walk : (s : Rot13) → s.status ≡ running → waits s ≡ false → Step bsz s (main_step bsz s)
  wake : (s : Rot13) → s.status ≡ running → waits s ≡ true → Woken s → Step bsz s (main_step bsz s)
  reads :
      (s : Rot13) (k : ℕ) (b : Buf)
      → s.status ≡ running
      → get_elem? s.bufs k ≡ some b
      → b.aio ≡ reading
      → Step bsz s (read_done s k b)
  writes :
      (s : Rot13) (k : ℕ) (b : Buf) (n : ℕ)
      → s.status ≡ running
      → get_elem? s.bufs k ≡ some b
      → b.aio ≡ writing
      → n ≤ b.nbytes
      → Step bsz s (write_done s k b n)
  fails :
      (s : Rot13) (k : ℕ) (b : Buf) (e : ℕ)
      → s.status ≡ running
      → get_elem? s.bufs k ≡ some b
      → InFlight b.aio
      → Step bsz s (op_failed s k b e)

-- The runs of the program.
pub data Reach (bsz : ℕ) (s : Rot13) : Rot13 → Type 0 where
  here : Reach bsz s s
  next : {t u : Rot13} → Reach bsz s t → Step bsz t u → Reach bsz s u
