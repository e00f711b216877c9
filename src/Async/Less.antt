-- ===== src/Async/Less.antt =====
-- Each step of main and of the system leaves less to do.
use learning_notes.Base.{
  ℕ, zero, suc, ◌≤◌, ◌<◌, ◌≡◌, inl, inr, refl, ap, sym, ◌∙◌, Bool, true, false, ◌&&◌, ◌||◌, some,
  List, [], ◌∷◌, arith, ltb, leb, ◌==◌, length, set, get_elem?, slice, take, write, drop_past,
  Bool-cases, length-set,
}
use learning_notes.CString.{Bytes}
use mathlib.Core.Path.{subst}
use learning_notes.Async.{
  Rwop, unused, read_pending, write_pending, Aio, idle, reading, writing, finished, failed, Buf,
  running, exited, Rot13, end_of_pass, main_step, read_done, write_done, op_failed, InFlight, Over,
  Woken, file_of, waits, Step, walk, wake, reads, writes, fails,
}
use learning_notes.Base.Places.{All-get}
use learning_notes.Async.Inv.{BufOk, OpOk, in_use, use_of, Inv, read-op, write-op}
use learning_notes.Async.System.{write_there}
use learning_notes.Async.Ends.{
  stage, ready_as, any_ready, more, weight, work_less, weight_less, visit-less,
}

-- A new round lies ahead only where something will be done in it.
pub round-less :
    (s : Rot13)
    → length s.bufs ≤ s.i
    → any_ready (more s) s.bufs ≡ true
    → weight (record s { i = 0 }) < weight s
round-less s l y = rw (y, drop_past s.i s.bufs l) (omega arith)

-- Where no buffer is in use, and a block is left to be read, the first buffer is ready.
pub free-ready :
    (b : Bool) (bs : List Buf) → b ≡ true → 0 < length bs → in_use bs ≡ 0 → any_ready b bs ≡ true
free-ready b [] y l e = absurd (omega arith)
free-ready b (x ∷ bs) y l e = rw (unused_ready x.op x.aio (omega arith)) refl
  where
    unused_ready : (o : Rwop) (a : Aio) → use_of o ≡ 0 → ready_as b o a ≡ true
    unused_ready unused a z = y
    unused_ready read_pending a z = absurd (omega arith)
    unused_ready write_pending a z = absurd (omega arith)

pub Over-ready :
    (bsz : ℕ) (f : Bytes) (m : Bool) (b : Buf) (o : Rwop) (a : Aio)
    → OpOk bsz f b o a
    → Over a
    → ready_as m o a ≡ true
Over-ready bsz f m b unused a h v = absurd (rw h.0 at v)
Over-ready bsz f m b read_pending idle h v = absurd v
Over-ready bsz f m b read_pending reading h v = absurd v
Over-ready bsz f m b read_pending writing h v = absurd v
Over-ready bsz f m b read_pending (finished n) h v = refl
Over-ready bsz f m b read_pending (failed n) h v = refl
Over-ready bsz f m b write_pending idle h v = absurd v
Over-ready bsz f m b write_pending reading h v = absurd v
Over-ready bsz f m b write_pending writing h v = absurd v
Over-ready bsz f m b write_pending (finished n) h v = refl
Over-ready bsz f m b write_pending (failed n) h v = refl

pub one-ready :
    (m : Bool) (bs : List Buf) (k : ℕ) (b : Buf)
    → get_elem? bs k ≡ some b
    → ready_as m b.op b.aio ≡ true
    → any_ready m bs ≡ true
one-ready m [] k b e y = cc
one-ready m (x ∷ bs) zero b e y =
    let q : x ≡ b = cc in rw (ap (λ (t : Buf). ready_as m t.op t.aio) q ∙ y) refl
one-ready m (x ∷ bs) (suc k) b e y = rw (one-ready m bs k b e y) (or-true (ready_as m x.op x.aio))
  where
    or-true : (c : Bool) → (c || true) ≡ true
    or-true true = refl
    or-true false = refl

pub walk-less :
    (bsz : ℕ) (s : Rot13)
    → 0 < bsz
    → 0 < length s.bufs
    → Inv bsz s
    → s.status ≡ running
    → waits s ≡ false
    → (main_step bsz s).status ≡ running
    → weight (main_step bsz s) < weight s
unfolding main_step end_of_pass
walk-less bsz s p n v r w run = elim (Bool-cases (ltb s.i (length s.bufs))) [
  | inl on ↦ rw on (visit-less bsz s p (ground arith) (rw on at run))
  | inr end ↦ elim (Bool-cases (s.numop == 0 && leb s.st_size s.off)) [
    | inl done ↦ absurd (let stopped : exited ≡ running = rw done at (rw end at run) in cc)
    | inr on ↦
        let free : s.numop ≡ 0 = ground arith in
        let left : more s ≡ true = ground arith in
        rw (end, on)
          (round-less s (ground arith) (free-ready (more s) s.bufs left n (sym v.count ∙ free)))
  ]
]

pub wake-less :
    (bsz : ℕ) (s : Rot13)
    → Inv bsz s
    → waits s ≡ true
    → Woken s
    → weight (main_step bsz s) < weight s
unfolding main_step end_of_pass
wake-less bsz s v w (k, b, e, l, over) =
    let end : ltb s.i (length s.bufs) ≡ false = ground arith in
    let on : (s.numop == 0 && leb s.st_size s.off) ≡ false = ground arith in
    rw (end, on)
      (round-less s (ground arith) (
        one-ready (more s) s.bufs k b e (
          Over-ready bsz s.ifile (more s) b b.op b.aio
            (All-get (BufOk bsz s.ifile) s.bufs k e v.bufs_ok) over)))

pub flight-stage :
    (bsz : ℕ) (f : Bytes) (b : Buf) (o : Rwop) (a : Aio) (n : ℕ)
    → OpOk bsz f b o a
    → InFlight a
    → stage o (failed n) < stage o a
flight-stage bsz f b unused a n h v = absurd (rw h.0 at v)
flight-stage bsz f b read_pending idle n h v = absurd v
flight-stage bsz f b read_pending reading n h v = omega arith
flight-stage bsz f b read_pending writing n h v = absurd h.2
flight-stage bsz f b read_pending (finished m) n h v = absurd v
flight-stage bsz f b read_pending (failed m) n h v = absurd v
flight-stage bsz f b write_pending idle n h v = absurd v
flight-stage bsz f b write_pending reading n h v = absurd h.2
flight-stage bsz f b write_pending writing n h v = omega arith
flight-stage bsz f b write_pending (finished m) n h v = absurd v
flight-stage bsz f b write_pending (failed m) n h v = absurd v

-- A buffer is replaced by one whose block has fewer steps in front of it.
pub put-less :
    (s : Rot13) (k : ℕ) (b b' : Buf) (out : Bytes)
    → get_elem? s.bufs k ≡ some b
    → stage b'.op b'.aio < stage b.op b.aio
    → weight (record s { bufs = set s.bufs k b'; ofile = out }) < weight s
put-less s k b b' out e h =
    weight_less s (record s { bufs = set s.bufs k b'; ofile = out }) (length-set s.bufs k b')
      (omega (arith, work_less s.bufs k b b' b.op b.aio e refl refl h))

pub read_done-less :
    (bsz : ℕ) (s : Rot13) (k : ℕ) (b : Buf)
    → Inv bsz s
    → get_elem? s.bufs k ≡ some b
    → b.aio ≡ reading
    → weight (read_done s k b) < weight s
unfolding read_done
read_done-less bsz s k b v e a =
    let (o, _, _, _, _) =
      read-op bsz s.ifile b b.op b.aio (All-get (BufOk bsz s.ifile) s.bufs k e v.bufs_ok) a in
    let n = length (slice (file_of s b.fildes) b.offset b.nbytes) in
    let before : stage b.op b.aio ≡ 4 = λ i. stage (o i) (a i) in
    let after : stage b.op (finished n) ≡ 3 = λ i. stage (o i) (finished n) in
    put-less s k b
      (record b {
        text = write b.text 0 (slice (file_of s b.fildes) b.offset b.nbytes);
        aio = finished n;
      })
      s.ofile e (omega arith)

pub write_done-less :
    (bsz : ℕ) (s : Rot13) (k : ℕ) (b : Buf) (n : ℕ)
    → Inv bsz s
    → get_elem? s.bufs k ≡ some b
    → b.aio ≡ writing
    → weight (write_done s k b n) < weight s
unfolding write_done
write_done-less bsz s k b n v e a =
    let (o, at, listed', fd, _, _) =
      write-op bsz s.ifile b b.op b.aio (All-get (BufOk bsz s.ifile) s.bufs k e v.bufs_ok) a in
    let before : stage b.op b.aio ≡ 2 = λ i. stage (o i) (a i) in
    let after : stage b.op (finished n) ≡ 1 = λ i. stage (o i) (finished n) in
    subst (λ (t : Rot13). weight t < weight s)
      (sym (
        write_there s b.fildes b.offset (take n b.text)
          (set s.bufs k (record b { aio = finished n })) fd))
      (put-less s k b (record b { aio = finished n }) (write s.ofile b.offset (take n b.text)) e
        (omega arith))

pub op_failed-less :
    (bsz : ℕ) (s : Rot13) (k : ℕ) (b : Buf) (n : ℕ)
    → Inv bsz s
    → get_elem? s.bufs k ≡ some b
    → InFlight b.aio
    → weight (op_failed s k b n) < weight s
unfolding op_failed
op_failed-less bsz s k b n v e a =
    put-less s k b (record b { aio = failed n }) s.ofile e
      (flight-stage bsz s.ifile b b.op b.aio n (All-get (BufOk bsz s.ifile) s.bufs k e v.bufs_ok) a)

pub Step-less :
    {bsz : ℕ} {s t : Rot13}
    → Step bsz s t
    → 0 < bsz
    → 0 < length s.bufs
    → Inv bsz s
    → t.status ≡ running
    → weight t < weight s
Step-less {bsz} (walk s r w) p n v q = walk-less bsz s p n v r w q
Step-less {bsz} (wake s r w k) p n v q = wake-less bsz s v w k
Step-less {bsz} (reads s k b r e a) p n v q = read_done-less bsz s k b v e a
Step-less {bsz} (writes s k b m r e a l) p n v q = write_done-less bsz s k b m v e a
Step-less {bsz} (fails s k b m r e a) p n v q = op_failed-less bsz s k b m v e a
