-- ===== src/Async/Inv.antt =====
-- rot13c2.c: what holds whenever the program and the system stand between two steps.
use mathlib.Core.Path.{subst}
use learning_notes.Base.{
  ℕ, zero, suc, ◌+◌, ◌≤◌, ◌<◌, ◌≡◌, ◌≢◌, ◌⊎◌, inl, inr, refl, ap, sym, ◌∙◌, true, false, some, List,
  [], ◌∷◌, arith, length, set, get_elem?, slice, take, map, All,
}
use learning_notes.CString.{Bytes}
use learning_notes.Async.{
  translate, Rwop, unused, read_pending, write_pending, ifd, ofd, Aio, idle, reading, writing,
  finished, failed, Buf, Status, running, exited, quit, Rot13,
}

-- The file that is to come out.
abbrev pub wanted : Bytes → Bytes
wanted f = map translate f

-- Of the input file `f`: what the buffer holds, by its operation.
module _ (bsz : ℕ) (f : Bytes) where
  abbrev pub ReadOk : Buf → Aio → Type 0
  ReadOk b idle = ⊥
  ReadOk b reading = (b.fildes ≡ ifd) × (b.nbytes ≡ bsz)
  ReadOk b writing = ⊥
  ReadOk b (finished n) =
      (n ≡ length (slice f b.offset bsz)) × (take n b.text ≡ slice f b.offset bsz)
  ReadOk b (failed e) = Unit

  abbrev pub WriteOk : Buf → Aio → Type 0
  WriteOk b idle = ⊥
  WriteOk b reading = ⊥
  WriteOk b writing =
      (b.fildes ≡ ofd)
      × (b.nbytes ≡ length (slice f b.offset bsz))
      × (take b.nbytes b.text ≡ slice (wanted f) b.offset bsz)
  WriteOk b (finished n) = Unit
  WriteOk b (failed e) = Unit

  abbrev pub OpOk : Buf → Rwop → Aio → Type 0
  OpOk b unused a = (a ≡ idle) × (b.listed ≡ false)
  OpOk b read_pending a =
      (b.offset ≤ length f)
      × (b.listed ≡ true)
      × ReadOk b a
      × (b.last ≡ false → b.offset + bsz ≤ length f)
  OpOk b write_pending a = (b.offset ≤ length f) × (b.listed ≡ true) × WriteOk b a

  abbrev pub BufOk : Buf → Type 0
  BufOk b = OpOk b b.op b.aio

-- The buffer's block has yet to be written: only a write that moved all its bytes ends this.
abbrev pub Busy : Buf → Rwop → Aio → Type 0
Busy b unused a = ⊥
Busy b read_pending a = Unit
Busy b write_pending idle = Unit
Busy b write_pending reading = Unit
Busy b write_pending writing = Unit
Busy b write_pending (finished n) = n ≢ b.nbytes
Busy b write_pending (failed e) = Unit

-- Place `p` of the file is in the block of the buffer `b`, of one of `bs`.
abbrev pub Covers : ℕ → ℕ → Buf → Type 0
Covers bsz p b = (b.offset ≤ p) × (p < b.offset + bsz) × Busy b b.op b.aio

abbrev pub Pending : ℕ → ℕ → List Buf → Type 0
Pending bsz p [] = ⊥
Pending bsz p (b ∷ bs) = Covers bsz p b ⊎ Pending bsz p bs

abbrev pub Right : Bytes → Bytes → ℕ → Type 0
Right f g p = get_elem? g p ≡ get_elem? (wanted f) p

abbrev pub use_of : Rwop → ℕ
use_of unused = 0
use_of read_pending = 1
use_of write_pending = 1

abbrev pub in_use : List Buf → ℕ
in_use [] = 0
in_use (b ∷ bs) = use_of b.op + in_use bs

abbrev pub AtEnd : ℕ → ℕ → ℕ → Status → Type 0
AtEnd numop st_size off running = Unit
AtEnd numop st_size off exited = (numop ≡ 0) × (st_size ≤ off)
AtEnd numop st_size off quit = Unit

-- An operation that failed, or a write that moved less than it should.
abbrev pub Fault : Buf → Aio → Type 0
Fault b idle = ⊥
Fault b reading = ⊥
Fault b writing = ⊥
Fault b (finished n) = (b.op ≡ write_pending) × (n ≢ b.nbytes)
Fault b (failed e) = Unit

abbrev pub Faulty : List Buf → Type 0
Faulty bs = (k : ℕ) × (b : Buf) × (get_elem? bs k ≡ some b) × Fault b b.aio

abbrev pub GaveUp : List Buf → Status → Type 0
GaveUp bs running = Unit
GaveUp bs exited = Unit
GaveUp bs quit = Faulty bs

pub record Inv (bsz : ℕ) (s : Rot13) : Type 0 where
  pub size : s.st_size ≡ length s.ifile
  pub count : s.numop ≡ in_use s.bufs
  pub bufs_ok : All (BufOk bsz s.ifile) s.bufs
  pub covered :
      (p : ℕ) → p < s.off → p < length s.ifile → Pending bsz p s.bufs ⊎ Right s.ifile s.ofile p
  pub short : length s.ofile ≤ length s.ifile
  pub at_end : AtEnd s.numop s.st_size s.off s.status
  pub gave_up : GaveUp s.bufs s.status

-- A place of the array of buffers is replaced.
pub Pending-set {ℓ} :
    {Q : Type ℓ} (bsz p : ℕ) (bs : List Buf) (k : ℕ) (b b' : Buf)
    → get_elem? bs k ≡ some b
    → (Covers bsz p b → Covers bsz p b' ⊎ Q)
    → Pending bsz p bs
    → Pending bsz p (set bs k b') ⊎ Q
Pending-set bsz p [] k b b' e f h = absurd h
Pending-set bsz p (x ∷ bs) zero b b' e f (inr h) = inl (inr h)
Pending-set {Q = Q} bsz p (x ∷ bs) zero b b' e f (inl h) =
    let q : x ≡ b = cc in
    elim (f (subst (Covers bsz p) q h)) [ inl c ↦ inl (inl c) | inr r ↦ inr r ]
Pending-set bsz p (x ∷ bs) (suc k) b b' e f (inl h) = inl (inl h)
Pending-set bsz p (x ∷ bs) (suc k) b b' e f (inr h) = elim (Pending-set bsz p bs k b b' e f h) [
  | inl c ↦ inl (inr c)
  | inr r ↦ inr r
]

pub Pending-new :
    (bsz p : ℕ) (bs : List Buf) (k : ℕ) (b' : Buf)
    → k < length bs
    → Covers bsz p b'
    → Pending bsz p (set bs k b')
Pending-new bsz p [] k b' h c = absurd (omega arith)
Pending-new bsz p (x ∷ bs) zero b' h c = inl c
Pending-new bsz p (x ∷ bs) (suc k) b' h c = inr (Pending-new bsz p bs k b' (omega arith) c)

pub in_use-set :
    (bs : List Buf) (k : ℕ) (b b' : Buf)
    → get_elem? bs k ≡ some b
    → in_use (set bs k b') + use_of b.op ≡ in_use bs + use_of b'.op
in_use-set [] k b b' e = cc
in_use-set (x ∷ bs) zero b b' e =
    let q : x ≡ b = cc in omega (arith, ap (λ (t : Buf). use_of t.op) q)
in_use-set (x ∷ bs) (suc k) b b' e = omega (arith, in_use-set bs k b b' e)

-- Where no buffer is in use nothing is pending.
pub Pending-none : (bsz p : ℕ) (bs : List Buf) → in_use bs ≡ 0 → Pending bsz p bs → ⊥
Pending-none bsz p [] e h = h
Pending-none bsz p (b ∷ bs) e (inr h) = Pending-none bsz p bs (omega arith) h
Pending-none bsz p (b ∷ bs) e (inl (lo, hi, busy)) = unused_idle b.op b.aio (omega arith) busy
  where
    unused_idle : (o : Rwop) (a : Aio) → use_of o ≡ 0 → Busy b o a → ⊥
    unused_idle unused a z h = h
    unused_idle read_pending a z h = omega arith
    unused_idle write_pending a z h = omega arith

-- The operation of a buffer, from what the system is doing for it.
pub read-op :
    (bsz : ℕ) (f : Bytes) (b : Buf) (o : Rwop) (a : Aio)
    → OpOk bsz f b o a
    → a ≡ reading
    → (o ≡ read_pending)
      × (b.offset ≤ length f)
      × (b.listed ≡ true)
      × (b.fildes ≡ ifd)
      × (b.nbytes ≡ bsz)
read-op bsz f b unused a h e = cc
read-op bsz f b read_pending idle h e = cc
read-op bsz f b read_pending reading (i, l, r, w) e = (refl, i, l, r.0, r.1)
read-op bsz f b read_pending writing h e = cc
read-op bsz f b read_pending (finished n) h e = cc
read-op bsz f b read_pending (failed n) h e = cc
read-op bsz f b write_pending idle h e = cc
read-op bsz f b write_pending reading h e = absurd h.2
read-op bsz f b write_pending writing h e = cc
read-op bsz f b write_pending (finished n) h e = cc
read-op bsz f b write_pending (failed n) h e = cc

pub write-op :
    (bsz : ℕ) (f : Bytes) (b : Buf) (o : Rwop) (a : Aio)
    → OpOk bsz f b o a
    → a ≡ writing
    → (o ≡ write_pending)
      × (b.offset ≤ length f)
      × (b.listed ≡ true)
      × (b.fildes ≡ ofd)
      × (b.nbytes ≡ length (slice f b.offset bsz))
      × (take b.nbytes b.text ≡ slice (wanted f) b.offset bsz)
write-op bsz f b unused a h e = cc
write-op bsz f b read_pending idle h e = cc
write-op bsz f b read_pending reading h e = cc
write-op bsz f b read_pending writing h e = absurd h.2
write-op bsz f b read_pending (finished n) h e = cc
write-op bsz f b read_pending (failed n) h e = cc
write-op bsz f b write_pending idle h e = cc
write-op bsz f b write_pending reading h e = cc
write-op bsz f b write_pending writing (i, l, r) e = (refl, i, l, r.0, r.1, r.2)
write-op bsz f b write_pending (finished n) h e = cc
write-op bsz f b write_pending (failed n) h e = cc

-- A buffer with an operation under way is in use.
pub flight-op :
    (bsz : ℕ) (f : Bytes) (b b' : Buf) (o : Rwop) (a : Aio) (e : ℕ)
    → b'.offset ≡ b.offset
    → b'.listed ≡ b.listed
    → b'.last ≡ b.last
    → OpOk bsz f b o a
    → a ≢ idle
    → OpOk bsz f b' o (failed e) × Busy b' o (failed e)
flight-op bsz f b b' unused a e p q u h n = absurd (n h.0)
flight-op bsz f b b' read_pending a e p q u h n =
    ((omega arith, cc, tt, λ l. omega (arith, h.3 (sym u ∙ l))), tt)
flight-op bsz f b b' write_pending a e p q u h n = ((omega arith, cc, tt), tt)
