-- ===== src/Async/Ends.antt =====
-- rot13c2.c: the work that is left, and what a visit of main to a buffer does to it.
use learning_notes.Base.{
  ℕ, zero, suc, ◌+◌, ◌-◌, ◌*◌, ◌≤◌, ◌<◌, ◌≡◌, ◌⊎◌, inl, inr, refl, ap, ◌∙◌, Bool, true, false, ◌&&◌,
  ◌||◌, not, some, List, [], ◌∷◌, arith, ltb, leb, ◌==◌, if◌then◌else◌, length, set, get_elem?,
  drop, Bool-cases,
}
use learning_notes.Async.{
  Rwop, unused, read_pending, write_pending, ifd, ofd, Aio, idle, reading, writing, finished,
  failed, Buf, running, Rot13, translate_front, start_read, end_read, end_write, visit_op, visit,
}
use learning_notes.Base.Places.{get_elem?-some}
use learning_notes.Async.Fixed.{visit-Fixed}

-- The steps that a buffer's block still has in front of it, and those of all, with five for each
-- byte that is yet to be read.
abbrev pub stage : Rwop → Aio → ℕ
stage unused a = 0
stage read_pending idle = 3
stage read_pending reading = 4
stage read_pending writing = 3
stage read_pending (finished n) = 3
stage read_pending (failed e) = 3
stage write_pending idle = 1
stage write_pending reading = 1
stage write_pending writing = 2
stage write_pending (finished n) = 1
stage write_pending (failed e) = 1

abbrev pub work : List Buf → ℕ
work [] = 0
work (b ∷ bs) = stage b.op b.aio + work bs

abbrev pub todo : Rot13 → ℕ
todo s = 5 * (s.st_size - s.off) + work s.bufs

work-set :
    (bs : List Buf) (k : ℕ) (b b' : Buf)
    → get_elem? bs k ≡ some b
    → work (set bs k b') + stage b.op b.aio ≡ work bs + stage b'.op b'.aio
work-set [] k b b' e = cc
work-set (x ∷ bs) zero b b' e =
    let q : x ≡ b = cc in omega (arith, ap (λ (t : Buf). stage t.op t.aio) q)
work-set (x ∷ bs) (suc k) b b' e = omega (arith, work-set bs k b b' e)

-- main will do something at a buffer: its operation is over, or it is free and there is a block.
abbrev pub ready_as : Bool → Rwop → Aio → Bool
ready_as more unused a = more
ready_as more read_pending idle = false
ready_as more read_pending reading = false
ready_as more read_pending writing = false
ready_as more read_pending (finished n) = true
ready_as more read_pending (failed e) = true
ready_as more write_pending idle = false
ready_as more write_pending reading = false
ready_as more write_pending writing = false
ready_as more write_pending (finished n) = true
ready_as more write_pending (failed e) = true

abbrev pub any_ready : Bool → List Buf → Bool
any_ready more [] = false
any_ready more (b ∷ bs) = ready_as more b.op b.aio || any_ready more bs

abbrev pub more : Rot13 → Bool
more s = ltb s.off s.st_size

-- The steps of main until it does something or has to wait, with one round of the buffers more
-- when it will not do anything in this one.
abbrev pub ahead : Rot13 → ℕ
ahead s =
    length s.bufs - s.i + (if any_ready (more s) (drop s.i s.bufs) then 0 else length s.bufs + 2)

abbrev pub weight : Rot13 → ℕ
weight s = (2 * length s.bufs + 3) * todo s + ahead s

-- The buffer for which a read has been started.
abbrev taken : ℕ → Rot13 → Buf → Buf
taken bsz s b = record b {
  op = read_pending;
  fildes = ifd;
  offset = s.off;
  last = if leb s.st_size (s.off + bsz) then true else b.last;
  nbytes = bsz;
  aio = reading;
  listed = true;
}

-- The buffer for which a write has been started.
abbrev sent : Buf → ℕ → Buf
sent b n = record b {
  text = translate_front n b.text;
  op = write_pending;
  fildes = ofd;
  nbytes = n;
  aio = writing;
}

-- What a visit does: nothing, at a buffer that is not ready, or a piece of work, or the end.
abbrev Visited : ℕ → Rot13 → Rwop → Aio → Rot13 → Type 0
Visited bsz s o a t =
    ((t ≡ s) × (ready_as (more s) o a ≡ false)) ⊎ (t.status ≡ running → todo t < todo s)

pub work_less :
    (bs : List Buf) (k : ℕ) (b b' : Buf) (o : Rwop) (a : Aio)
    → get_elem? bs k ≡ some b
    → b.op ≡ o
    → b.aio ≡ a
    → stage b'.op b'.aio < stage o a
    → work (set bs k b') < work bs
work_less bs k b b' o a e u q l =
    let same : stage b.op b.aio ≡ stage o a = λ i. stage (u i) (q i) in
    omega (arith, work-set bs k b b' e, same)

visit_op-Visited :
    (bsz : ℕ) (s : Rot13) (b : Buf) (o : Rwop) (a : Aio)
    → 0 < bsz
    → get_elem? s.bufs s.i ≡ some b
    → b.op ≡ o
    → b.aio ≡ a
    → Visited bsz s o a (visit_op bsz s b o a)
unfolding visit_op start_read end_read end_write
visit_op-Visited bsz s b unused a p e u q = elim (Bool-cases (ltb s.off s.st_size)) [
  | inl all ↦ rw all (
      inr (λ r.
        let w = work-set s.bufs s.i b (taken bsz s b) e in
        let z : stage b.op b.aio ≡ 0 = λ i. stage (u i) (q i) in ground (arith, w, z)))
  | inr on ↦ rw on (inl (refl, refl))
]
visit_op-Visited bsz s b read_pending (finished n) p e u q =
    elim (Bool-cases (not (n == bsz) && not b.last)) [
      | inl short ↦ rw short (inr (λ r. ground arith))
      | inr full ↦ rw full (
          inr (λ r. omega (
            arith,
            work_less s.bufs s.i b (sent b n) read_pending (finished n) e u q (omega arith),
          )))
    ]
visit_op-Visited bsz s b read_pending (failed n) p e u q = inr (λ r. ground arith)
visit_op-Visited bsz s b read_pending idle p e u q = inl (refl, refl)
visit_op-Visited bsz s b read_pending reading p e u q = inl (refl, refl)
visit_op-Visited bsz s b read_pending writing p e u q = inl (refl, refl)
visit_op-Visited bsz s b write_pending (finished n) p e u q = elim (Bool-cases (n == b.nbytes)) [
  | inr short ↦ rw short (inr (λ r. ground arith))
  | inl full ↦ rw full (
      inr (λ r. omega (
        arith,
        work_less s.bufs s.i b (record b { listed = false; op = unused; aio = idle }) write_pending
            (finished n) e u q (omega arith),
      )))
]
visit_op-Visited bsz s b write_pending (failed n) p e u q = inr (λ r. ground arith)
visit_op-Visited bsz s b write_pending idle p e u q = inl (refl, refl)
visit_op-Visited bsz s b write_pending reading p e u q = inl (refl, refl)
visit_op-Visited bsz s b write_pending writing p e u q = inl (refl, refl)

drop-get_elem? :
    (bs : List Buf) (k : ℕ) (b : Buf) → get_elem? bs k ≡ some b → drop k bs ≡ b ∷ drop (suc k) bs
drop-get_elem? [] k b e = cc
drop-get_elem? (x ∷ xs) zero b e = let q : x ≡ b = cc in rw q refl
drop-get_elem? (x ∷ xs) (suc k) b e = drop-get_elem? xs k b e

pub ahead_le : (s : Rot13) → ahead s ≤ 2 * length s.bufs + 2
ahead_le s = elim (Bool-cases (any_ready (more s) (drop s.i s.bufs))) [
  | inl y ↦ rw y (omega arith)
  | inr n ↦ rw n (omega arith)
]

weigh : (n a b x y : ℕ) → a < b → x ≤ 2 * n + 2 → (2 * n + 3) * a + x < (2 * n + 3) * b + y
weigh n a b x y h k = grind arith

-- A piece of work outweighs a round of the buffers.
pub weight_less :
    (s t : Rot13) → length t.bufs ≡ length s.bufs → todo t < todo s → weight t < weight s
weight_less s t w h =
    let k =
      weigh (length s.bufs) (todo t) (todo s) (ahead t) (ahead s) h
        (omega (arith, ahead_le t, w)) in
    let e : (2 * length t.bufs + 3) * todo t ≡ (2 * length s.bufs + 3) * todo t =
      ap (λ (n : ℕ). (2 * n + 3) * todo t) w in
    omega (arith, k, e)

skip-less :
    (s : Rot13) (b : Buf)
    → s.i < length s.bufs
    → get_elem? s.bufs s.i ≡ some b
    → ready_as (more s) b.op b.aio ≡ false
    → weight (record s { i = s.i + 1 }) < weight s
skip-less s b l e n =
    let next' : s.i + 1 ≡ suc s.i = omega arith in
    let same : any_ready (more s) (drop s.i s.bufs) ≡ any_ready (more s) (drop (suc s.i) s.bufs) =
      ap (any_ready (more s)) (drop-get_elem? s.bufs s.i b e)
      ∙ ap (λ r. r || any_ready (more s) (drop (suc s.i) s.bufs)) n in
    rw (next', same) (omega arith)

pub visit-less :
    (bsz : ℕ) (s : Rot13)
    → 0 < bsz
    → s.i < length s.bufs
    → (visit bsz s).status ≡ running
    → weight (record (visit bsz s) { i = s.i + 1 }) < weight s
unfolding visit
visit-less bsz s p l r =
    let (b, e) = get_elem?-some s.bufs s.i l in
    let eq : visit bsz s ≡ visit_op bsz s b b.op b.aio = rw (e, visit) refl in
    elim (visit_op-Visited bsz s b b.op b.aio p e refl refl) [
      | inl (same, n) ↦ rw (eq ∙ same) (skip-less s b l e n)
      | inr done ↦
          weight_less s (record (visit bsz s) { i = s.i + 1 }) (visit-Fixed bsz s).width
            (rw eq (done (rw eq at r)))
    ]
