-- ===== src/Async/Fixed.antt =====
-- rot13c2.c: what no step changes: the input file and its size, and the number of buffers.
use learning_notes.Base.{
  ℕ, ◌+◌, ◌≡◌, inl, inr, refl, ap, ◌∙◌, Bool, true, false, some, length, set, get_elem?, length-set,
  if◌then◌else◌, ltb, leb, not, ◌&&◌, ◌==◌, ◌-◌, sym, map, Option-cases, take, write,
}
use learning_notes.CString.{Bytes}
use learning_notes.Async.{
  Rwop, unused, read_pending, write_pending, Aio, idle, reading, writing, finished, failed, Buf,
  Status, exited, quit, Rot13, initial, stop, translate, visit_op, visit, end_of_pass, main_step,
  start_read, end_read, end_write, read_done, write_done, op_failed, Step, walk, wake, reads,
  writes, fails, Reach, here, next,
}
use learning_notes.Base.Places.{All-get}
use learning_notes.Async.Inv.{BufOk, Faulty, GaveUp, Inv, write-op}
use learning_notes.Async.Output.{Reach-Inv, exit-wanted}
use learning_notes.Async.Kept.{start-Inv}
use learning_notes.Async.System.{write_there}
use mathlib.Core.Path.{subst}

pub record Fixed (s t : Rot13) : Type 0 where
  pub ifile : t.ifile ≡ s.ifile
  pub st_size : t.st_size ≡ s.st_size
  pub width : length t.bufs ≡ length s.bufs

Fixed-refl : (s : Rot13) → Fixed s s
Fixed-refl s = record { ifile = refl; st_size = refl; width = refl }

Fixed-trans : {s t u : Rot13} → Fixed s t → Fixed t u → Fixed s u
Fixed-trans p q = record {
  ifile = q.ifile ∙ p.ifile;
  st_size = q.st_size ∙ p.st_size;
  width = q.width ∙ p.width;
}

if-Fixed : (s x y : Rot13) (c : Bool) → Fixed s x → Fixed s y → Fixed s (if c then x else y)
if-Fixed s x y true p q = p
if-Fixed s x y false p q = q

put-Fixed :
    (s : Rot13) (k off numop : ℕ) (out : Bytes) (b : Buf)
    → Fixed s (record s { bufs = set s.bufs k b; off = off; numop = numop; ofile = out })
put-Fixed s k off numop out b = record {
  ifile = refl;
  st_size = refl;
  width = length-set s.bufs k b;
}

stop-Fixed : (s : Rot13) → Fixed s (stop s)
stop-Fixed s = record { ifile = refl; st_size = refl; width = refl }

visit_op-Fixed :
    (bsz : ℕ) (s : Rot13) (b : Buf) (o : Rwop) (a : Aio) → Fixed s (visit_op bsz s b o a)
unfolding visit_op start_read end_read end_write
visit_op-Fixed bsz s b unused a =
    if-Fixed s _ s (ltb s.off s.st_size) (put-Fixed s s.i (s.off + bsz) (s.numop + 1) s.ofile _)
      (Fixed-refl s)
visit_op-Fixed bsz s b read_pending (finished n) =
    if-Fixed s (stop s) _ (not (n == bsz) && not b.last) (stop-Fixed s)
      (put-Fixed s s.i s.off s.numop s.ofile _)
visit_op-Fixed bsz s b read_pending (failed n) = stop-Fixed s
visit_op-Fixed bsz s b read_pending idle = Fixed-refl s
visit_op-Fixed bsz s b read_pending reading = Fixed-refl s
visit_op-Fixed bsz s b read_pending writing = Fixed-refl s
visit_op-Fixed bsz s b write_pending (finished n) =
    if-Fixed s _ (stop s) (n == b.nbytes) (put-Fixed s s.i s.off (s.numop - 1) s.ofile _)
      (stop-Fixed s)
visit_op-Fixed bsz s b write_pending (failed n) = stop-Fixed s
visit_op-Fixed bsz s b write_pending idle = Fixed-refl s
visit_op-Fixed bsz s b write_pending reading = Fixed-refl s
visit_op-Fixed bsz s b write_pending writing = Fixed-refl s

pub visit-Fixed : (bsz : ℕ) (s : Rot13) → Fixed s (visit bsz s)
unfolding visit
visit-Fixed bsz s = elim (Option-cases (get_elem? s.bufs s.i)) [
  | inl e ↦ rw (e, visit) (Fixed-refl s)
  | inr (b, e) ↦ rw (e, visit) (visit_op-Fixed bsz s b b.op b.aio)
]

at-Fixed : (s t : Rot13) (k : ℕ) (r : Status) → Fixed s t → Fixed s (record t { i = k; status = r })
at-Fixed s t k r p = record { ifile = p.ifile; st_size = p.st_size; width = p.width }

pub main_step-Fixed : (bsz : ℕ) (s : Rot13) → Fixed s (main_step bsz s)
unfolding main_step end_of_pass
main_step-Fixed bsz s =
    if-Fixed s _ _ (ltb s.i (length s.bufs))
      (at-Fixed s (visit bsz s) (s.i + 1) (visit bsz s).status (visit-Fixed bsz s))
      (if-Fixed s _ _ (s.numop == 0 && leb s.st_size s.off) (at-Fixed s s s.i exited (Fixed-refl s))
        (at-Fixed s s 0 s.status (Fixed-refl s)))

pub write_done-Fixed :
    (bsz : ℕ) (s : Rot13) (k : ℕ) (b : Buf) (n : ℕ)
    → Inv bsz s
    → get_elem? s.bufs k ≡ some b
    → b.aio ≡ writing
    → Fixed s (write_done s k b n)
unfolding write_done
write_done-Fixed bsz s k b n v e a =
    let (o, at, listed', fd, size', held) =
      write-op bsz s.ifile b b.op b.aio (All-get (BufOk bsz s.ifile) s.bufs k e v.bufs_ok) a in
    subst (Fixed s)
      (sym (
        write_there s b.fildes b.offset (take n b.text)
          (set s.bufs k (record b { aio = finished n })) fd))
      (put-Fixed s k s.off s.numop (write s.ofile b.offset (take n b.text))
        (record b { aio = finished n }))

pub Step-Fixed : {bsz : ℕ} {s t : Rot13} → Step bsz s t → Inv bsz s → Fixed s t
unfolding read_done op_failed
Step-Fixed {bsz} (walk s r w) v = main_step-Fixed bsz s
Step-Fixed {bsz} (wake s r w k) v = main_step-Fixed bsz s
Step-Fixed {bsz} (reads s k b r e a) v = put-Fixed s k s.off s.numop s.ofile _
Step-Fixed {bsz} (writes s k b n r e a l) v = write_done-Fixed bsz s k b n v e a
Step-Fixed {bsz} (fails s k b n r e a) v = put-Fixed s k s.off s.numop s.ofile _

pub Reach-Fixed : {bsz : ℕ} {s t : Rot13} → Reach bsz s t → Inv bsz s → Fixed s t
Reach-Fixed {s = s} here v = Fixed-refl s
Reach-Fixed (next q st) v = Fixed-trans (Reach-Fixed q v) (Step-Fixed st (Reach-Inv q v))

-- Whatever the order in which the system completes the reads and the writes, and if the file has
-- not more than one block or many: when the program exits with 0, the output file is the input
-- file, each byte translated.
pub exit-translate :
    (bsz nbuf : ℕ) (file : Bytes) {s : Rot13}
    → Reach bsz (initial bsz nbuf file) s
    → s.status ≡ exited
    → s.ofile ≡ map translate file
unfolding initial
exit-translate bsz nbuf file {s} q e =
    exit-wanted s (Reach-Inv q (start-Inv bsz nbuf file)) e
    ∙ ap (map translate) (Reach-Fixed q (start-Inv bsz nbuf file)).ifile

-- The program gives up only over a fault: an operation of one of its buffers has failed, or has
-- written less than the buffer holds. No read is taken for a short one, the last included.
pub quit-Faulty :
    (bsz nbuf : ℕ) (file : Bytes) {s : Rot13}
    → Reach bsz (initial bsz nbuf file) s
    → s.status ≡ quit
    → Faulty s.bufs
quit-Faulty bsz nbuf file {s} q e =
    subst (GaveUp s.bufs) e (Reach-Inv q (start-Inv bsz nbuf file)).gave_up
