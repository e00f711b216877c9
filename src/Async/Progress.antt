-- ===== src/Async/Progress.antt =====
-- rot13c2.c: main and the system can always go on until the program has ended.
use learning_notes.Base.{
  ℕ, zero, suc, ◌<◌, ◌≡◌, ◌≢◌, ◌⊎◌, inl, inr, refl, ◌∙◌, true, some, List, [], ◌∷◌, arith, ◌==◌,
  length, get_elem?, Bool-cases, length-replicate,
}
use learning_notes.CString.{Bytes}
use learning_notes.Async.{
  Rwop, unused, read_pending, write_pending, Aio, idle, reading, writing, finished, failed, Buf,
  fresh, Status, running, exited, quit, Rot13, initial, main_step, read_done, write_done, Over,
  waits, Step, walk, wake, reads, writes, Reach, here, next,
}
use learning_notes.Base.Places.{All-get}
use learning_notes.Async.Inv.{BufOk, OpOk, in_use, use_of, Inv}
use learning_notes.Async.Kept.{start-Inv}
use learning_notes.Async.Output.{Step-Inv, Reach-Inv}
use learning_notes.Async.Fixed.{Step-Fixed, Reach-Fixed}
use learning_notes.Async.Ends.{weight}
use learning_notes.Async.Less.{Step-less}

used :
    (bs : List Buf)
    → in_use bs ≢ 0
    → (k : ℕ) × (b : Buf) × (get_elem? bs k ≡ some b) × (use_of b.op ≢ 0)
used [] h = absurd (h refl)
used (x ∷ bs) h = elim (Bool-cases (use_of x.op == 0)) [
  | inr busy ↦ (0, x, refl, λ q. ground arith)
  | inl free ↦ let (k, b, e, u) = used bs (λ q. h (ground arith)) in (suc k, b, e, u)
]

-- A buffer in use has an operation in flight, or is one that aio_suspend returns for.
OpOk-Working :
    (bsz : ℕ) (f : Bytes) (b : Buf) (o : Rwop) (a : Aio)
    → OpOk bsz f b o a
    → use_of o ≢ 0
    → (a ≡ reading) ⊎ ((a ≡ writing) ⊎ ((b.listed ≡ true) × Over a))
OpOk-Working bsz f b unused a h u = absurd (u refl)
OpOk-Working bsz f b read_pending idle h u = absurd h.2
OpOk-Working bsz f b read_pending reading h u = inl refl
OpOk-Working bsz f b read_pending writing h u = absurd h.2
OpOk-Working bsz f b read_pending (finished n) h u = inr (inr (h.1, tt))
OpOk-Working bsz f b read_pending (failed n) h u = inr (inr (h.1, tt))
OpOk-Working bsz f b write_pending idle h u = absurd h.2
OpOk-Working bsz f b write_pending reading h u = absurd h.2
OpOk-Working bsz f b write_pending writing h u = inr (inl refl)
OpOk-Working bsz f b write_pending (finished n) h u = inr (inr (h.1, tt))
OpOk-Working bsz f b write_pending (failed n) h u = inr (inr (h.1, tt))

progress : (bsz : ℕ) (s : Rot13) → Inv bsz s → s.status ≡ running → (t : Rot13) × Step bsz s t
progress bsz s v r = elim (Bool-cases (waits s)) [
  | inr on ↦ (main_step bsz s, walk s r on)
  | inl stuck ↦
      let busy : s.numop ≢ 0 = λ q. ground arith in
      let (k, b, e, u) = used s.bufs (λ q. busy (v.count ∙ q)) in
      elim (OpOk-Working bsz s.ifile b b.op b.aio (All-get (BufOk bsz s.ifile) s.bufs k e v.bufs_ok)
        u) [
          | inl a ↦ (read_done s k b, reads s k b r e a)
          | inr (inl a) ↦ (write_done s k b b.nbytes, writes s k b b.nbytes r e a (omega arith))
          | inr (inr (l, over)) ↦ (main_step bsz s, wake s r stuck (k, b, e, l, over))
        ]
]

Reach-trans : {bsz : ℕ} {s t u : Rot13} → Reach bsz s t → Reach bsz t u → Reach bsz s u
Reach-trans p here = p
Reach-trans p (next q st) = next (Reach-trans p q) st

status-cases : (t : Status) → (t ≡ running) ⊎ (t ≢ running)
status-cases running = inl refl
status-cases exited = inr (λ q. ground arith)
status-cases quit = inr (λ q. ground arith)

ends :
    (fuel bsz : ℕ) (s : Rot13)
    → weight s < fuel
    → 0 < bsz
    → 0 < length s.bufs
    → Inv bsz s
    → (t : Rot13) × Reach bsz s t × (t.status ≢ running)
ends zero bsz s h p n v = absurd (omega arith)
ends (suc fuel) bsz s h p n v = elim (status-cases s.status) [
  | inr over ↦ (s, here, over)
  | inl r ↦
      let (t, st) = progress bsz s v r in
      elim (status-cases t.status) [
        | inr over ↦ (t, next here st, over)
        | inl r' ↦
            (let (u, q, over) =
                ends fuel bsz t (omega (arith, Step-less st p n v r')) p
                  (rw (Step-Fixed st v).width n) (Step-Inv st v) in
              (u, Reach-trans (next here st) q, over))
      ]
]

-- From wherever a run over at least one buffer of a size above 0 has come to, it can go on to the
-- end of the program: main is never left waiting for an operation that nobody has started.
pub Reach-ends :
    (bsz nbuf : ℕ) (file : Bytes) {s : Rot13}
    → 0 < bsz
    → 0 < nbuf
    → Reach bsz (initial bsz nbuf file) s
    → (t : Rot13) × Reach bsz s t × (t.status ≢ running)
unfolding initial
Reach-ends bsz nbuf file {s} p n r =
    let v = start-Inv bsz nbuf file in
    ends (suc (weight s)) bsz s (omega arith) p
      (omega (arith, (Reach-Fixed r v).width, length-replicate nbuf (fresh bsz))) (Reach-Inv r v)
