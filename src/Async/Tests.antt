-- ===== src/Async/Tests.antt =====
-- rot13c2.c: a run on a file of one byte, and the theorems at it.
use learning_notes.Base.{
  ℕ, ◌+◌, ◌*◌, ◌≤◌, ◌≡◌, ◌≢◌, Bool, true, false, length, refl, [], ◌∷◌, arith, map,
}
use learning_notes.CString.{Bytes}
use learning_notes.Async.{
  translate, initial, main_step, read_done, write_done, op_failed, running, exited, quit, Rot13,
  Rwop, unused, read_pending, write_pending, Fd, ifd, ofd, Aio, idle, reading, writing, finished,
  failed, Buf, Reach, here, next, walk, wake, reads, writes, fails, translate_front,
}
use learning_notes.Async.Inv.{Faulty}
use learning_notes.Async.Fixed.{exit-translate, quit-Faulty}
use learning_notes.Async.Bound.{run_length, run_length_bound}
use learning_notes.Async.Progress.{Reach-ends}

-- The buffer of the run, as the program leaves it and as the system does.
abbrev held : Rwop → Fd → ℕ → Bytes → Aio → Bool → Buf
held op fildes nbytes text aio listed = record {
  op = op;
  last = true;
  fildes = fildes;
  offset = 0;
  nbytes = nbytes;
  text = text;
  aio = aio;
  listed = listed;
}

abbrev at : ℕ → Buf → ℕ → ℕ → Bytes → Rot13
at c b i numop out = record {
  bufs = b ∷ [];
  i = i;
  off = 2;
  st_size = 1;
  numop = numop;
  ifile = c ∷ [];
  ofile = out;
  status = running;
}

abbrev to_read : ℕ → Buf
to_read c = held read_pending ifd 2 (0 ∷ 0 ∷ []) reading true

abbrev was_read : ℕ → Buf
was_read c = held read_pending ifd 2 (c ∷ 0 ∷ []) (finished 1) true

abbrev to_write : ℕ → Buf
to_write c = held write_pending ofd 1 (translate c ∷ 0 ∷ []) writing true

abbrev was_written : ℕ → Buf
was_written c = held write_pending ofd 1 (translate c ∷ 0 ∷ []) (finished 1) true

abbrev freed : ℕ → Buf
freed c = held unused ofd 1 (translate c ∷ 0 ∷ []) idle false

abbrev final : ℕ → Rot13
final c = record (at c (freed c) 1 0 (translate c ∷ [])) { status = exited }

half : (c : ℕ) → Reach 2 (initial 2 1 (c ∷ [])) (at c (to_write c) 1 1 [])
unfolding initial main_step read_done translate_front
half c =
    next
      (next
        (next (next here (walk (initial 2 1 (c ∷ [])) refl refl))
          (reads (at c (to_read c) 1 1 []) 0 (to_read c) refl refl refl))
        (wake (at c (was_read c) 1 1 []) refl refl (0, was_read c, refl, refl, tt)))
      (walk (at c (was_read c) 0 1 []) refl refl)

run : (c : ℕ) → Reach 2 (initial 2 1 (c ∷ [])) (final c)
unfolding initial main_step write_done
run c =
    next
      (next
        (next
          (next (half c)
            (writes (at c (to_write c) 1 1 []) 0 (to_write c) 1 refl refl refl (omega arith)))
          (wake (at c (was_written c) 1 1 (translate c ∷ [])) refl refl
            (0, was_written c, refl, refl, tt)))
        (walk (at c (was_written c) 0 1 (translate c ∷ [])) refl refl))
      (walk (at c (freed c) 1 0 (translate c ∷ [])) refl refl)

-- The write fails, and main gives up over it.
abbrev failed_write : ℕ → Buf
failed_write c = held write_pending ofd 1 (translate c ∷ 0 ∷ []) (failed 28) true

failing :
    (c : ℕ)
    → Reach 2 (initial 2 1 (c ∷ [])) (record (at c (failed_write c) 1 1 []) { status = quit })
unfolding initial main_step op_failed
failing c =
    next
      (next (next (half c) (fails (at c (to_write c) 1 1 []) 0 (to_write c) 28 refl refl tt))
        (wake (at c (failed_write c) 1 1 []) refl refl (0, failed_write c, refl, refl, tt)))
      (walk (at c (failed_write c) 0 1 []) refl refl)

abbrev one_byte : Bytes
one_byte = b'n' ∷ []

exit-translate_example : (final b'n').ofile ≡ map translate (b'n' ∷ [])
exit-translate_example = exit-translate 2 1 (b'n' ∷ []) (run b'n') refl

quit-Faulty_example : Faulty (failed_write b'n' ∷ [])
quit-Faulty_example = quit-Faulty 2 1 (b'n' ∷ []) (failing b'n') refl

run_length_bound_example : run_length (run b'n') ≤ (2 * 1 + 3) * (5 * length one_byte) + (2 * 1 + 3)
run_length_bound_example = run_length_bound 2 1 (b'n' ∷ []) (run b'n') (omega arith) (omega arith)

Reach-ends_example : (t : Rot13) × Reach 2 (at b'n' (to_write b'n') 1 1 []) t × (t.status ≢ running)
Reach-ends_example = Reach-ends 2 1 (b'n' ∷ []) (omega arith) (omega arith) (half b'n')
