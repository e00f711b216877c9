-- ===== src/Async/Bound.antt =====
-- rot13c2.c: how long a run can be, and that none is stuck before the program has ended.
use learning_notes.Base.{
  ℕ, zero, suc, ◌+◌, ◌*◌, ◌≤◌, ◌<◌, ◌≡◌, refl, ap, arith, length, replicate, length-replicate,
}
use learning_notes.CString.{Bytes}
use learning_notes.Async.{
  fresh, running, Rot13, initial, Step, walk, wake, reads, writes, fails, Reach, here, next,
}
use learning_notes.Async.Inv.{Inv}
use learning_notes.Async.Kept.{start-Inv}
use learning_notes.Async.Output.{Reach-Inv}
use learning_notes.Async.Fixed.{Reach-Fixed}
use learning_notes.Async.Ends.{work, todo, weight, ahead_le}
use learning_notes.Async.Less.{Step-less}

pub Step-running : {bsz : ℕ} {s t : Rot13} → Step bsz s t → s.status ≡ running
Step-running (walk s r w) = r
Step-running (wake s r w k) = r
Step-running (reads s k b r e a) = r
Step-running (writes s k b n r e a l) = r
Step-running (fails s k b n r e a) = r

pub run_length : {bsz : ℕ} {s t : Rot13} → Reach bsz s t → ℕ
run_length here = 0
run_length (next r st) = suc (run_length r)

-- A run uses its weight up.
run-weight :
    {bsz : ℕ} {s t : Rot13} (r : Reach bsz s t)
    → 0 < bsz
    → 0 < length s.bufs
    → Inv bsz s
    → t.status ≡ running
    → run_length r + weight t ≤ weight s
unfolding run_length
run-weight here p n v q = omega arith
run-weight (next r st) p n v q =
    let ih = run-weight r p n v (Step-running st) in
    let l = Step-less st p (rw (Reach-Fixed r v).width n) (Reach-Inv r v) q in omega arith

run_length-weight :
    {bsz : ℕ} {s t : Rot13} (r : Reach bsz s t)
    → 0 < bsz
    → 0 < length s.bufs
    → Inv bsz s
    → run_length r ≤ weight s + 1
unfolding run_length
run_length-weight here p n v = omega arith
run_length-weight (next r st) p n v = omega (arith, run-weight r p n v (Step-running st))

work-fresh : (bsz n : ℕ) → work (replicate n (fresh bsz)) ≡ 0
work-fresh bsz zero = refl
work-fresh bsz (suc n) = omega (arith, work-fresh bsz n)

weight-start :
    (bsz nbuf : ℕ) (file : Bytes)
    → weight (initial bsz nbuf file) ≤ (2 * nbuf + 3) * (5 * length file) + (2 * nbuf + 2)
unfolding initial
weight-start bsz nbuf file =
    let n = length-replicate nbuf (fresh bsz) in
    let w = work-fresh bsz nbuf in
    let a = ahead_le (initial bsz nbuf file) in
    let e : (2 * length (replicate nbuf (fresh bsz)) + 3) * todo (initial bsz nbuf file)
        ≡ (2 * nbuf + 3) * (5 * length file) =
      rw (n, w) (ap (λ (t : ℕ). (2 * nbuf + 3) * t) (omega arith)) in
    omega (arith, e, n, a)

-- Whatever the system does, and in which order, a run over `nbuf` buffers of a size above 0 has at
-- most (2 * nbuf + 3) * 5 steps for each byte of the file, and 2 * nbuf + 3 besides: main never goes
-- round without end.
pub run_length_bound :
    (bsz nbuf : ℕ) (file : Bytes) {s : Rot13} (r : Reach bsz (initial bsz nbuf file) s)
    → 0 < bsz
    → 0 < nbuf
    → run_length r ≤ (2 * nbuf + 3) * (5 * length file) + (2 * nbuf + 3)
unfolding initial
run_length_bound bsz nbuf file r p n = omega (
  arith,
  weight-start bsz nbuf file,
  run_length-weight r p (omega (arith, length-replicate nbuf (fresh bsz)))
      (start-Inv bsz nbuf file),
)
