-- ===== src/Async/Kept.antt =====
-- rot13c2.c: every step of the program and of the system keeps the invariant.
use mathlib.Core.Path.{subst}
use learning_notes.Base.{
  ℕ, zero, suc, ◌+◌, ◌<◌, ◌≡◌, ◌≢◌, ◌⊎◌, inl, inr, refl, ap, sym, ◌∙◌, true, false, ◌&&◌, not, some,
  List, [], ◌∷◌, arith, ltb, leb, ◌==◌, if◌then◌else◌, length, set, get_elem?, take, map,
  length-slice, Bool-cases, All-replicate, replicate,
}
use learning_notes.CString.{Bytes}
use learning_notes.Async.{
  translate, translate_front, Rwop, unused, read_pending, write_pending, ifd, ofd, Aio, idle,
  reading, writing, finished, Buf, fresh, Status, running, exited, quit, Rot13, initial, stop,
  start_read, end_read, end_write,
}
use learning_notes.Base.Places.{All-set, get_elem?-lt, map-slice}
use learning_notes.Async.Inv.{
  OpOk, BufOk, Busy, Covers, Pending, Right, use_of, in_use, AtEnd, Fault, Faulty, GaveUp, Inv,
  Pending-set, Pending-new, in_use-set,
}

pub Busy-at :
    (b b' : Buf) {o : Rwop} {a : Aio} → b'.op ≡ o → b'.aio ≡ a → Busy b b'.op b'.aio → Busy b o a
Busy-at b b' {o} e q h =
    subst (λ (y : Aio). Busy b o y) q (subst (λ (x : Rwop). Busy b x b'.aio) e h)

pub start-Inv : (bsz nbuf : ℕ) (f : Bytes) → Inv bsz (initial bsz nbuf f)
unfolding initial
start-Inv bsz nbuf f = record {
  size = refl;
  count = sym (in_use-fresh nbuf);
  bufs_ok = All-replicate (BufOk bsz f) nbuf (fresh bsz) (refl, refl);
  covered = λ p h k. absurd (omega arith);
  short = omega arith;
  at_end = tt;
  gave_up = tt;
}
  where
    in_use-fresh : (n : ℕ) → in_use (replicate n (fresh bsz)) ≡ 0
    in_use-fresh zero = refl
    in_use-fresh (suc n) = omega (arith, in_use-fresh n)

pub take-translate_front :
    (n : ℕ) (s : Bytes) → take n (translate_front n s) ≡ map translate (take n s)
unfolding translate_front
take-translate_front zero s = refl
take-translate_front (suc n) [] = refl
take-translate_front (suc n) (c ∷ s) = ap (λ l. translate c ∷ l) (take-translate_front n s)

-- The program gives up over a fault.
pub stop-Inv : (bsz : ℕ) (s : Rot13) → Inv bsz s → Faulty s.bufs → Inv bsz (stop s)
stop-Inv bsz s v f = record {
  size = v.size;
  count = v.count;
  bufs_ok = v.bufs_ok;
  covered = v.covered;
  short = v.short;
  at_end = tt;
  gave_up = f;
}

-- The index has no part in the invariant.
pub at_index :
    (bsz : ℕ) (s : Rot13) (k : ℕ) → Inv bsz s → s.status ≢ exited → Inv bsz (record s { i = k })
at_index bsz s k v h = record {
  size = v.size;
  count = v.count;
  bufs_ok = v.bufs_ok;
  covered = v.covered;
  short = v.short;
  at_end = any_end s.status h;
  gave_up = v.gave_up;
}
  where
    any_end : (t : Status) → t ≢ exited → AtEnd s.numop s.st_size s.off t
    any_end running n = tt
    any_end exited n = absurd (n refl)
    any_end quit n = tt

pub AtEnd-running : (numop st_size off : ℕ) (t : Status) → t ≡ running → AtEnd numop st_size off t
AtEnd-running n m o running e = tt
AtEnd-running n m o exited e = cc
AtEnd-running n m o quit e = cc

pub GaveUp-running : (bs : List Buf) (t : Status) → t ≡ running → GaveUp bs t
GaveUp-running bs running e = tt
GaveUp-running bs exited e = cc
GaveUp-running bs quit e = cc

-- One buffer is replaced, and its block stays to be written.
pub put-Inv :
    (bsz : ℕ) (s : Rot13) (k : ℕ) (b b' : Buf)
    → Inv bsz s
    → s.status ≡ running
    → get_elem? s.bufs k ≡ some b
    → BufOk bsz s.ifile b'
    → ((p : ℕ) → Covers bsz p b → Covers bsz p b')
    → use_of b'.op ≡ use_of b.op
    → Inv bsz (record s { bufs = set s.bufs k b' })
put-Inv bsz s k b b' v r e ok' c u = record {
  size = v.size;
  count = omega (arith, v.count, in_use-set s.bufs k b b' e);
  bufs_ok = All-set (BufOk bsz s.ifile) s.bufs k b' v.bufs_ok ok';
  covered = λ p h l. elim (v.covered p h l) [
    | inl q ↦ Pending-set bsz p s.bufs k b b' e (λ d. inl (c p d)) q
    | inr q ↦ inr q
  ];
  short = v.short;
  at_end = AtEnd-running _ _ _ s.status r;
  gave_up = GaveUp-running _ s.status r;
}

pub start_read-Inv :
    (bsz : ℕ) (s : Rot13) (b : Buf)
    → Inv bsz s
    → s.status ≡ running
    → get_elem? s.bufs s.i ≡ some b
    → b.op ≡ unused
    → Inv bsz (start_read bsz s b)
unfolding start_read
start_read-Inv bsz s b v r e u = elim (Bool-cases (ltb s.off s.st_size)) [
  | inr all ↦ rw all v
  | inl more ↦ rw more (record {
    size = v.size;
    count = omega (arith, v.count, in_use-set s.bufs s.i b b' e, ap use_of u);
    bufs_ok =
        All-set (BufOk bsz s.ifile) s.bufs s.i b' v.bufs_ok
          (ground (arith, v.size), refl, (refl, refl), λ l. ground (arith, v.size));
    covered = λ p h l. split p h l;
    short = v.short;
    at_end = AtEnd-running _ _ _ s.status r;
    gave_up = GaveUp-running _ s.status r;
  })
]
  where
    b' : Buf
    b' = record b {
      op = read_pending;
      fildes = ifd;
      offset = s.off;
      last = if leb s.st_size (s.off + bsz) then true else b.last;
      nbytes = bsz;
      aio = reading;
      listed = true;
    }

    old :
        (p : ℕ) → Pending bsz p s.bufs → Pending bsz p (set s.bufs s.i b') ⊎ Right s.ifile s.ofile p
    old p q =
        Pending-set bsz p s.bufs s.i b b' e
          (λ (d : Covers bsz p b). absurd (subst (λ (x : Rwop). Busy b x b.aio) u d.2)) q

    split :
        (p : ℕ)
        → p < s.off + bsz
        → p < length s.ifile
        → Pending bsz p (set s.bufs s.i b') ⊎ Right s.ifile s.ofile p
    split p h l = elim (Bool-cases (ltb p s.off)) [
      | inl before ↦ elim (v.covered p (ground arith) l) [ inl q ↦ old p q | inr q ↦ inr q ]
      | inr new ↦
          inl (Pending-new bsz p s.bufs s.i b' (get_elem?-lt s.bufs s.i e) (ground arith, h, tt))
    ]

pub end_read-Inv :
    (bsz : ℕ) (s : Rot13) (b : Buf) (n : ℕ)
    → Inv bsz s
    → s.status ≡ running
    → get_elem? s.bufs s.i ≡ some b
    → b.op ≡ read_pending
    → b.aio ≡ finished n
    → OpOk bsz s.ifile b read_pending (finished n)
    → Inv bsz (end_read bsz s b n)
unfolding end_read
end_read-Inv bsz s b n v r e u q ok' = elim (Bool-cases (not (n == bsz) && not b.last)) [
  | inl short ↦ rw short (stop-Inv bsz s v (absurd (not_short short)))
  | inr full ↦ rw full (
      put-Inv bsz s s.i b
        (record b {
          text = translate_front n b.text;
          op = write_pending;
          fildes = ofd;
          nbytes = n;
          aio = writing;
        })
        v r e
        (
          ok'.0,
          ok'.1,
          (
            refl,
            ok'.2.0,
            take-translate_front n b.text
                ∙ ap (map translate) ok'.2.1
                ∙ map-slice translate s.ifile b.offset bsz,
          ),
        )
        (λ p d. (d.0, d.1, tt)) (sym (ap use_of u)))
]
  where
    not_short : (not (n == bsz) && not b.last) ≡ true → ⊥
    not_short short =
        let part : n ≢ bsz = ground arith in
        let before_last : b.last ≡ false = ground arith in
        let whole = ok'.3 before_last in
        omega (arith, ok'.2.0, length-slice s.ifile b.offset bsz whole, part)

pub end_write-Inv :
    (bsz : ℕ) (s : Rot13) (b : Buf) (n : ℕ)
    → Inv bsz s
    → s.status ≡ running
    → get_elem? s.bufs s.i ≡ some b
    → b.op ≡ write_pending
    → b.aio ≡ finished n
    → Inv bsz (end_write bsz s b n)
unfolding end_write
end_write-Inv bsz s b n v r e u a = elim (Bool-cases (n == b.nbytes)) [
  | inr short ↦
      rw short (stop-Inv bsz s v (s.i, b, e, subst (Fault b) (sym a) (u, λ q. ground arith)))
  | inl full ↦ rw full (record {
    size = v.size;
    count = omega (arith, v.count, in_use-set s.bufs s.i b b' e, ap use_of u);
    bufs_ok = All-set (BufOk bsz s.ifile) s.bufs s.i b' v.bufs_ok (refl, refl);
    covered = λ p h l. elim (v.covered p h l) [
      | inl q ↦
          Pending-set bsz p s.bufs s.i b b' e
            (λ (d : Covers bsz p b).
              absurd
                (Busy-at b b {o = write_pending} {a = finished n} u a d.2 (ground (arith, full))))
            q
      | inr q ↦ inr q
    ];
    short = v.short;
    at_end = AtEnd-running _ _ _ s.status r;
    gave_up = GaveUp-running _ s.status r;
  })
]
  where
    b' : Buf
    b' = record b { listed = false; op = unused; aio = idle }
