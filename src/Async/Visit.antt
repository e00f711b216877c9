-- ===== src/Async/Visit.antt =====
-- A visit of main to a buffer, the end of a pass and a step of main keep the invariant.
use mathlib.Core.Path.{subst}
use learning_notes.Base.{
  ℕ, ◌+◌, ◌≡◌, ◌≢◌, inl, inr, refl, sym, ◌&&◌, some, arith, ltb, leb, ◌==◌, length, get_elem?,
  Bool-cases, Option-cases,
}
use learning_notes.Async.{
  Rwop, unused, read_pending, write_pending, Aio, idle, reading, writing, finished, failed, Buf,
  running, exited, Rot13, start_read, end_read, end_write, visit_op, visit, end_of_pass, main_step,
}
use learning_notes.Base.Places.{All-get}
use learning_notes.Async.Inv.{OpOk, BufOk, Fault, Inv}
use learning_notes.Async.Kept.{stop-Inv, at_index, start_read-Inv, end_read-Inv, end_write-Inv}

-- The switch, on each of its branches.
visit_op-Inv :
    (bsz : ℕ) (s : Rot13) (b : Buf) (o : Rwop) (a : Aio)
    → Inv bsz s
    → s.status ≡ running
    → get_elem? s.bufs s.i ≡ some b
    → b.op ≡ o
    → b.aio ≡ a
    → OpOk bsz s.ifile b o a
    → Inv bsz (visit_op bsz s b o a)
unfolding visit_op
visit_op-Inv bsz s b unused a v r e u q h = start_read-Inv bsz s b v r e u
visit_op-Inv bsz s b read_pending (finished n) v r e u q h = end_read-Inv bsz s b n v r e u q h
visit_op-Inv bsz s b read_pending (failed n) v r e u q h =
    stop-Inv bsz s v (s.i, b, e, subst (Fault b) (sym q) tt)
visit_op-Inv bsz s b read_pending idle v r e u q h = v
visit_op-Inv bsz s b read_pending reading v r e u q h = v
visit_op-Inv bsz s b read_pending writing v r e u q h = v
visit_op-Inv bsz s b write_pending (finished n) v r e u q h = end_write-Inv bsz s b n v r e u q
visit_op-Inv bsz s b write_pending (failed n) v r e u q h =
    stop-Inv bsz s v (s.i, b, e, subst (Fault b) (sym q) tt)
visit_op-Inv bsz s b write_pending idle v r e u q h = v
visit_op-Inv bsz s b write_pending reading v r e u q h = v
visit_op-Inv bsz s b write_pending writing v r e u q h = v

visit_op-status :
    (bsz : ℕ) (s : Rot13) (b : Buf) (o : Rwop) (a : Aio)
    → s.status ≡ running
    → (visit_op bsz s b o a).status ≢ exited
unfolding visit_op start_read end_read end_write
visit_op-status bsz s b unused a r = ground arith
visit_op-status bsz s b read_pending (finished n) r = ground arith
visit_op-status bsz s b read_pending (failed n) r = ground arith
visit_op-status bsz s b read_pending idle r = ground arith
visit_op-status bsz s b read_pending reading r = ground arith
visit_op-status bsz s b read_pending writing r = ground arith
visit_op-status bsz s b write_pending (finished n) r = ground arith
visit_op-status bsz s b write_pending (failed n) r = ground arith
visit_op-status bsz s b write_pending idle r = ground arith
visit_op-status bsz s b write_pending reading r = ground arith
visit_op-status bsz s b write_pending writing r = ground arith

visit-Inv :
    (bsz : ℕ) (s : Rot13)
    → Inv bsz s
    → s.status ≡ running
    → Inv bsz (visit bsz s) × ((visit bsz s).status ≢ exited)
unfolding visit
visit-Inv bsz s v r = elim (Option-cases (get_elem? s.bufs s.i)) [
  | inl e ↦ rw (e, visit) (v, λ q. ground arith)
  | inr (b, e) ↦
      rw (e, visit)
        (
          visit_op-Inv bsz s b b.op b.aio v r e refl refl
              (All-get (BufOk bsz s.ifile) s.bufs s.i e v.bufs_ok),
          visit_op-status bsz s b b.op b.aio r,
        )
]

end_of_pass-Inv :
    (bsz : ℕ) (s : Rot13) → Inv bsz s → s.status ≡ running → Inv bsz (end_of_pass bsz s)
unfolding end_of_pass
end_of_pass-Inv bsz s v r = elim (Bool-cases (s.numop == 0 && leb s.st_size s.off)) [
  | inl done ↦ rw done (record {
    size = v.size;
    count = v.count;
    bufs_ok = v.bufs_ok;
    covered = v.covered;
    short = v.short;
    at_end = (ground arith, ground arith);
    gave_up = tt;
  })
  | inr more ↦ rw more (at_index bsz s 0 v (λ q. ground arith))
]

-- A step of main.
pub main_step-Inv :
    (bsz : ℕ) (s : Rot13) → Inv bsz s → s.status ≡ running → Inv bsz (main_step bsz s)
unfolding main_step
main_step-Inv bsz s v r = elim (Bool-cases (ltb s.i (length s.bufs))) [
  | inl on ↦ rw on (let (w, n) = visit-Inv bsz s v r in at_index bsz (visit bsz s) (s.i + 1) w n)
  | inr end ↦ rw end (end_of_pass-Inv bsz s v r)
]
