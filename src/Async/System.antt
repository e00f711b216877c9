-- ===== src/Async/System.antt =====
-- rot13c2.c: what the system does keeps the invariant. A read puts the block into the buffer; a write
-- puts the front of the block's translation into the output file.
use mathlib.Core.Path.{subst}
use learning_notes.Base.{
  ℕ, zero, suc, ◌+◌, ◌-◌, ◌≤◌, ◌<◌, ◌≡◌, ◌≢◌, ◌⊎◌, inl, inr, refl, ap, sym, ◌∙◌, min, true, false,
  some, List, [], ◌∷◌, arith, ltb, length, set, get_elem?, slice, take, drop, write, Bool-cases,
  eq-cases, length-take, length-drop, slice-write_self,
}
use learning_notes.CString.{Bytes}
use learning_notes.Async.{
  translate, Rwop, unused, read_pending, write_pending, Fd, ifd, ofd, Aio, idle, reading, writing,
  finished, failed, Buf, running, Rot13, file_of, set_file, read_done, write_done, op_failed,
  InFlight,
}
use learning_notes.Base.Places.{
  All-set, All-get, get_elem?-lt, get_elem?-write, get_elem?-write_before, get_elem?-write_after,
  get_elem?-slice, get_elem?-some, length-map, length-write_le,
}
use learning_notes.Async.Inv.{
  wanted, OpOk, BufOk, Busy, Covers, Right, Inv, Pending-set, in_use-set, read-op, write-op,
  flight-op,
}
use learning_notes.Async.Kept.{put-Inv, AtEnd-running, GaveUp-running}

take-take : (m n : ℕ) (s : Bytes) → m ≤ n → take m (take n s) ≡ take m s
take-take zero n s h = refl
take-take (suc m) zero s h = absurd (omega arith)
take-take (suc m) (suc n) [] h = refl
take-take (suc m) (suc n) (c ∷ s) h = ap (λ l. c ∷ l) (take-take m n s (omega arith))

take_clip : (m n : ℕ) (s : Bytes) → take m (take n s) ≡ take (min m n) s
take_clip zero n s = let e : min 0 n ≡ 0 = omega arith in rw e refl
take_clip (suc m) zero s = let e : min (suc m) 0 ≡ 0 = omega arith in rw e refl
take_clip (suc m) (suc n) [] =
    let e : min (suc m) (suc n) ≡ suc (min m n) = omega arith in rw e refl
take_clip (suc m) (suc n) (c ∷ s) =
    let e : min (suc m) (suc n) ≡ suc (min m n) = omega arith in
    rw e (ap (λ l. c ∷ l) (take_clip m n s))

-- Where a stretch of what is wanted is written, every place of it is right, and so is each that was.
module _ (f g : Bytes) (o m : ℕ) where
  stretch : ℕ
  stretch = length (slice (wanted f) o m)

  length-stretch : stretch ≡ min m (length f - o)
  unfolding stretch
  length-stretch =
      omega
        (arith, length-take m (drop o (wanted f)), length-drop o (wanted f), length-map translate f)

  Right-inside : (p : ℕ) → o ≤ p → p < o + stretch → Right f (write g o (slice (wanted f) o m)) p
  unfolding stretch
  Right-inside p h k =
      let e : p ≡ o + (p - o) = omega arith in
      rw e (
        get_elem?-write g o (slice (wanted f) o m) (p - o) (omega arith)
        ∙ get_elem?-slice (wanted f) o m (p - o) (omega (arith, length-stretch)))

  Right-new :
      (p : ℕ) → o ≤ p → p < o + m → p < length f → Right f (write g o (slice (wanted f) o m)) p
  Right-new p h k l = Right-inside p h (omega (arith, length-stretch))

  Right-old : (p : ℕ) → p < length f → Right f g p → Right f (write g o (slice (wanted f) o m)) p
  unfolding stretch
  Right-old p l r = elim (Bool-cases (ltb p o)) [
    | inl before ↦
        let (c, e) = get_elem?-some (wanted f) p (omega (arith, length-map translate f)) in
        get_elem?-write_before g o (slice (wanted f) o m) p (ground arith)
          (get_elem?-lt g p (r ∙ e))
        ∙ r
    | inr not_before ↦ elim (Bool-cases (ltb p (o + stretch))) [
      | inl inside ↦ Right-inside p (ground arith) (ground arith)
      | inr after ↦ get_elem?-write_after g o (slice (wanted f) o m) p (ground arith) ∙ r
    ]
  ]

  short-write :
      o ≤ length f → length g ≤ length f → length (write g o (slice (wanted f) o m)) ≤ length f
  unfolding stretch
  short-write h k =
      length-write_le g o (slice (wanted f) o m) (length f) k (omega (arith, length-stretch))

pub write_there :
    (s : Rot13) (d : Fd) (o : ℕ) (bs : Bytes) (xs : List Buf)
    → d ≡ ofd
    → record (set_file s d (write (file_of s d) o bs)) { bufs = xs }
      ≡ record s { ofile = write s.ofile o bs; bufs = xs }
write_there s ofd o bs xs e = refl
write_there s ifd o bs xs e = absurd (cc)

OpOk-written :
    (bsz : ℕ) (f : Bytes) (b : Buf) (o : Rwop) (n : ℕ)
    → o ≡ write_pending
    → b.offset ≤ length f
    → b.listed ≡ true
    → OpOk bsz f b o (finished n)
OpOk-written bsz f b unused n e h l = cc
OpOk-written bsz f b read_pending n e h l = cc
OpOk-written bsz f b write_pending n e h l = (h, l, tt)

Busy-written :
    (b : Buf) (o : Rwop) (n : ℕ) → o ≡ write_pending → n ≢ b.nbytes → Busy b o (finished n)
Busy-written b unused n e h = cc
Busy-written b read_pending n e h = tt
Busy-written b write_pending n e h = h

pub write_done-Inv :
    (bsz : ℕ) (s : Rot13) (k : ℕ) (b : Buf) (n : ℕ)
    → Inv bsz s
    → s.status ≡ running
    → get_elem? s.bufs k ≡ some b
    → b.aio ≡ writing
    → n ≤ b.nbytes
    → Inv bsz (write_done s k b n)
unfolding write_done
write_done-Inv bsz s k b n v r e a l =
    let (o, at, listed', fd, size', held) =
      write-op bsz s.ifile b b.op b.aio (All-get (BufOk bsz s.ifile) s.bufs k e v.bufs_ok) a in
    let part : take n b.text ≡ slice (wanted s.ifile) b.offset (min n bsz) =
      sym (take-take n b.nbytes b.text l) ∙ ap (take n) held ∙ take_clip n bsz _ in
    subst (Inv bsz) (sym (write_there s b.fildes b.offset (take n b.text) (set s.bufs k b') fd)) (
      rw part (record {
        size = v.size;
        count = omega (arith, v.count, in_use-set s.bufs k b b' e);
        bufs_ok =
            All-set (BufOk bsz s.ifile) s.bufs k b' v.bufs_ok
              (OpOk-written bsz s.ifile b' b.op n o at listed');
        covered = λ p h q. elim (v.covered p h q) [
          | inl pend ↦ Pending-set bsz p s.bufs k b b' e (λ d. after p q o size' d) pend
          | inr right ↦ inr (Right-old s.ifile s.ofile b.offset (min n bsz) p q right)
        ];
        short = short-write s.ifile s.ofile b.offset (min n bsz) at v.short;
        at_end = AtEnd-running _ _ _ s.status r;
        gave_up = GaveUp-running _ s.status r;
      }))
  where
    b' : Buf
    b' = record b { aio = finished n }

    after :
        (p : ℕ)
        → p < length s.ifile
        → b.op ≡ write_pending
        → b.nbytes ≡ length (slice s.ifile b.offset bsz)
        → Covers bsz p b
        → Covers bsz p b'
          ⊎ Right s.ifile (write s.ofile b.offset (slice (wanted s.ifile) b.offset (min n bsz))) p
    after p q o size' (lo, hi, busy) = elim (eq-cases n b.nbytes) [
      | inr part ↦ inl (lo, hi, Busy-written b' b.op n o part)
      | inl whole ↦ inr (
          Right-inside s.ifile s.ofile b.offset (min n bsz) p lo (
            omega (
              arith,
              size',
              length-stretch s.ifile s.ofile b.offset (min n bsz),
              length-take bsz (drop b.offset s.ifile),
              length-drop b.offset s.ifile,
            )))
    ]

OpOk-read :
    (bsz : ℕ) (f : Bytes) (b : Buf) (o : Rwop) (n : ℕ)
    → o ≡ read_pending
    → b.offset ≤ length f
    → b.listed ≡ true
    → n ≡ length (slice f b.offset bsz)
    → take n b.text ≡ slice f b.offset bsz
    → (o ≡ read_pending → b.last ≡ false → b.offset + bsz ≤ length f)
    → OpOk bsz f b o (finished n) × Busy b o (finished n)
OpOk-read bsz f b unused n e h l q t w = cc
OpOk-read bsz f b read_pending n e h l q t w = ((h, l, (q, t), w refl), tt)
OpOk-read bsz f b write_pending n e h l q t w = cc

full-op :
    (bsz : ℕ) (f : Bytes) (b : Buf) (o : Rwop) (a : Aio)
    → o ≡ read_pending
    → OpOk bsz f b o a
    → b.last ≡ false
    → b.offset + bsz ≤ length f
full-op bsz f b unused a e h l = cc
full-op bsz f b read_pending a e h l = h.3 l
full-op bsz f b write_pending a e h l = cc

read_there : (s : Rot13) (d : Fd) → d ≡ ifd → file_of s d ≡ s.ifile
read_there s ifd e = refl
read_there s ofd e = cc

pub read_done-Inv :
    (bsz : ℕ) (s : Rot13) (k : ℕ) (b : Buf)
    → Inv bsz s
    → s.status ≡ running
    → get_elem? s.bufs k ≡ some b
    → b.aio ≡ reading
    → Inv bsz (read_done s k b)
unfolding read_done
read_done-Inv bsz s k b v r e a =
    let (o, at, listed', fd, size') =
      read-op bsz s.ifile b b.op b.aio (All-get (BufOk bsz s.ifile) s.bufs k e v.bufs_ok) a in
    let block : slice (file_of s b.fildes) b.offset b.nbytes ≡ slice s.ifile b.offset bsz =
      ap (λ (t : Bytes). slice t b.offset b.nbytes) (read_there s b.fildes fd)
      ∙ ap (λ (t : ℕ). slice s.ifile b.offset t) size' in
    rw block (
      let (good, busy) =
        OpOk-read bsz s.ifile b' b.op (length (slice s.ifile b.offset bsz)) o at listed' refl
          (slice-write_self b.text 0 (slice s.ifile b.offset bsz))
          (λ q.
            full-op bsz s.ifile b b.op b.aio q
              (All-get (BufOk bsz s.ifile) s.bufs k e v.bufs_ok)) in
      put-Inv bsz s k b b' v r e good (λ p d. (d.0, d.1, busy)) refl)
  where
    b' : Buf
    b' = record b {
      text = write b.text 0 (slice s.ifile b.offset bsz);
      aio = finished (length (slice s.ifile b.offset bsz));
    }

InFlight-busy : (a : Aio) → InFlight a → a ≢ idle
InFlight-busy idle h = absurd h
InFlight-busy reading h = λ q. ground arith
InFlight-busy writing h = λ q. ground arith
InFlight-busy (finished n) h = absurd h
InFlight-busy (failed n) h = absurd h

pub op_failed-Inv :
    (bsz : ℕ) (s : Rot13) (k : ℕ) (b : Buf) (n : ℕ)
    → Inv bsz s
    → s.status ≡ running
    → get_elem? s.bufs k ≡ some b
    → InFlight b.aio
    → Inv bsz (op_failed s k b n)
unfolding op_failed
op_failed-Inv bsz s k b n v r e a =
    let (good, busy) =
      flight-op bsz s.ifile b (record b { aio = failed n }) b.op b.aio n refl refl refl
        (All-get (BufOk bsz s.ifile) s.bufs k e v.bufs_ok) (InFlight-busy b.aio a) in
    put-Inv bsz s k b (record b { aio = failed n }) v r e good (λ p d. (d.0, d.1, busy)) refl
