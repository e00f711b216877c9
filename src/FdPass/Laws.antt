-- ===== src/FdPass/Laws.antt =====
-- recvfd.c: what recv_fd makes of what send_fd and send_err have sent.
use mathlib.Core.Path.{subst}
use learning_notes.Base.{
  ℕ, zero, suc, ◌%◌, ◌≡◌, ◌≢◌, ◌<◌, inl, inr, refl, ap, sym, ◌∙◌, Bool, true, false, ◌&&◌, Option,
  none, some, List, [], ◌∷◌, ◌++◌, append_assoc, arith, ltb, ◌==◌, ==-refl, ==_of_ne, if◌then◌else◌,
  length, ◌+◌, All, All-parts, All-map, Bool-cases,
}
use learning_notes.Base.Int.{ℤ, pos, negsuc, neg}
use learning_notes.CString.{Bytes, cstr}
use learning_notes.CString.Fields.{Lacks}
use learning_notes.FdPass.{
  Msg, status_byte, send_fd, send_err, Recv, got, plain, final, bad, scan, returned, dumped,
  turned_down, finish, recv_loop, recv_fd, maxline,
}

-- The bytes of a message as several calls of recvmsg get them: each piece is not empty.
abbrev pub Pieces : List Bytes → Type 0
Pieces = All (λ bs. 0 < length bs)

abbrev pub joined : List Bytes → Bytes
joined [] = []
joined (bs ∷ pieces) = bs ++ joined pieces

-- The calls: the pieces of the message, then the rest of it with the two bytes of the protocol.
abbrev pub delivery : List Bytes → Bytes → Msg → List Recv
delivery [] last m = got (last ++ m.bytes) m.control ∷ []
delivery (bs ∷ pieces) last m = got bs none ∷ delivery pieces last m

-- The calls when the last full buffer ends with the NUL.
abbrev pub split_delivery : List Bytes → Bytes → ℕ → Option ℕ → List Recv
split_delivery [] last status control = got (last ++ 0 ∷ []) control ∷ got (status ∷ []) none ∷ []
split_delivery (bs ∷ pieces) last status control =
    got bs none ∷ split_delivery pieces last status control

-- What recv_fd returns for a descriptor, or for -n.
abbrev pub answer : ℤ → ℤ
answer (pos fd) = pos fd
answer (negsuc n) = neg (status_byte (suc n))

-- What it returns for an error: the status behind -errcode, or -1.
abbrev pub answer_err : ℤ → ℤ
answer_err (pos n) = negsuc 0
answer_err (negsuc n) = neg (if suc n % 256 == 0 then 1 else suc n % 256)

cstr-Lacks : (s : Bytes) → Lacks 0 (cstr s)
unfolding cstr
cstr-Lacks [] = tt
cstr-Lacks (c ∷ s) = elim (Bool-cases (c == 0)) [
  | inl e ↦ rw (e, cstr) tt
  | inr n ↦ rw (n, cstr) ((λ q. ground arith), cstr-Lacks s)
]

sent-Lacks : (errcode : ℤ) (msg : Bytes) → Lacks 0 (send_err errcode msg).0
unfolding send_err
sent-Lacks (pos n) msg = cstr-Lacks msg
sent-Lacks (negsuc n) msg = cstr-Lacks msg

pieces-Lacks :
    (pieces : List Bytes) (last : Bytes)
    → Lacks 0 (joined pieces ++ last)
    → All (Lacks 0) pieces × Lacks 0 last
pieces-Lacks [] last z = (tt, z)
pieces-Lacks (bs ∷ pieces) last z =
    let (a, b) =
      All-parts (λ c. c ≢ 0) bs (joined pieces ++ last)
        (subst (Lacks 0) (append_assoc bs (joined pieces) last) z) in
    let (h, k) = pieces-Lacks pieces last b in ((a, h), k)

scan-plain : (bs : Bytes) → Lacks 0 bs → scan bs ≡ plain
unfolding scan
scan-plain [] h = refl
scan-plain (c ∷ bs) h = rw (==_of_ne c 0 h.0, scan-plain bs h.1) refl

scan-final : (bs : Bytes) (status : ℕ) → Lacks 0 bs → scan (bs ++ 0 ∷ status ∷ []) ≡ final bs status
unfolding scan
scan-final [] status h = refl
scan-final (c ∷ bs) status h = rw (==_of_ne c 0 h.0, scan-final bs status h.1) refl

scan-bad : (bs : Bytes) → Lacks 0 bs → scan (bs ++ 0 ∷ []) ≡ bad
unfolding scan
scan-bad [] h = refl
scan-bad (c ∷ bs) h = rw (==_of_ne c 0 h.0, scan-bad bs h.1) refl

-- What the loop does with a buffer that is not empty, by what the scan finds.
module _ (userfunc : Bytes → ℤ) (seen : Bytes) (control : Option ℕ) (calls : List Recv) where
  loop-final :
      (bs front : Bytes) (status : ℕ)
      → scan bs ≡ final front status
      → recv_loop userfunc seen (got bs control ∷ calls) ≡ finish userfunc seen front status control
  unfolding recv_loop scan
  loop-final [] front status e = cc
  loop-final (c ∷ bs) front status e = rw (e, recv_loop) refl

  loop-bad :
      (bs : Bytes) → scan bs ≡ bad → recv_loop userfunc seen (got bs control ∷ calls) ≡ dumped
  unfolding recv_loop scan
  loop-bad [] e = cc
  loop-bad (c ∷ bs) e = rw (e, recv_loop) refl

  loop-plain :
      (bs : Bytes)
      → 0 < length bs
      → scan bs ≡ plain
      → turned_down userfunc bs ≡ false
      → recv_loop userfunc seen (got bs control ∷ calls) ≡ recv_loop userfunc (seen ++ bs) calls
  unfolding recv_loop
  loop-plain [] h e d = absurd (omega arith)
  loop-plain (c ∷ bs) h e d = rw (e, recv_loop) (rw d refl)

status_byte-pos : (n : ℕ) → status_byte n ≢ 0
unfolding status_byte
status_byte-pos n = ground arith

module _ (userfunc : Bytes → ℤ) (takes : (bs : Bytes) → userfunc bs ≡ pos (length bs)) where
  not_down : (bs : Bytes) → turned_down userfunc bs ≡ false
  unfolding turned_down
  not_down bs = rw (takes bs, ==-refl (length bs)) (and-false (ltb 0 (length bs)))
    where
      and-false : (b : Bool) → (b && false) ≡ false
      and-false true = refl
      and-false false = refl

  finish-error :
      (seen front : Bytes) (status : ℕ) (control : Option ℕ)
      → status ≢ 0
      → finish userfunc seen front status control ≡ returned (neg status) (seen ++ front)
  unfolding finish
  finish-error seen front zero control h = absurd (h refl)
  finish-error seen front (suc n) control h = rw (not_down front) refl

  last-answer :
      (seen front : Bytes) (fd : ℤ)
      → Lacks 0 front
      → recv_loop userfunc seen (delivery [] front (send_fd fd))
        ≡ returned (answer fd) (seen ++ front)
  unfolding send_fd finish
  last-answer seen front (pos fd) h =
      loop-final userfunc seen (some fd) [] (front ++ 0 ∷ 0 ∷ []) front 0 (scan-final front 0 h)
      ∙ rw (not_down front) refl
  last-answer seen front (negsuc n) h =
      loop-final userfunc seen none [] (front ++ 0 ∷ status_byte (suc n) ∷ []) front
        (status_byte (suc n)) (scan-final front (status_byte (suc n)) h)
      ∙ finish-error seen front (status_byte (suc n)) none (status_byte-pos (suc n))

  loop-delivery :
      (seen : Bytes) (pieces : List Bytes) (last : Bytes) (fd : ℤ)
      → Pieces pieces
      → All (Lacks 0) pieces
      → Lacks 0 last
      → recv_loop userfunc seen (delivery pieces last (send_fd fd))
        ≡ returned (answer fd) (seen ++ (joined pieces ++ last))
  loop-delivery seen [] last fd p h k = last-answer seen last fd k
  loop-delivery seen (bs ∷ pieces) last fd p h k =
      loop-plain userfunc seen none (delivery pieces last (send_fd fd)) bs p.0 (scan-plain bs h.0)
        (not_down bs)
      ∙ loop-delivery (seen ++ bs) pieces last fd p.1 h.1 k
      ∙ ap (returned (answer fd)) (
          append_assoc seen bs (joined pieces ++ last)
          ∙ ap (λ (t : Bytes). seen ++ t) (sym (append_assoc bs (joined pieces) last)))

  -- Where userfunc takes all that it is given, and in whatever pieces the message comes, if only the
  -- two bytes of the protocol come in one: after send_err, recv_fd has passed on the whole message,
  -- up to its NUL, and returns -1 if the error is not negative, and else the error with its number
  -- modulo 256, or -1 where that is 0.
  pub recv_fd-send_err :
      (errcode : ℤ) (msg : Bytes) (pieces : List Bytes) (last : Bytes)
      → joined pieces ++ last ≡ (send_err errcode msg).0
      → Pieces pieces
      → recv_fd userfunc (delivery pieces last (send_err errcode msg).1)
        ≡ returned (answer_err errcode) (cstr msg)
  unfolding recv_fd send_err status_byte
  recv_fd-send_err (pos n) msg pieces last j p =
      let (h, k) = pieces-Lacks pieces last (subst (Lacks 0) (sym j) (cstr-Lacks msg)) in
      loop-delivery [] pieces last (negsuc 0) p h k ∙ ap (returned (negsuc 0)) j
  recv_fd-send_err (negsuc n) msg pieces last j p =
      let (h, k) = pieces-Lacks pieces last (subst (Lacks 0) (sym j) (cstr-Lacks msg)) in
      loop-delivery [] pieces last (negsuc n) p h k ∙ ap (returned (answer (negsuc n))) j

  -- A descriptor that is sent behind a message without NUL, which may be empty, is what recv_fd
  -- returns, with the message passed on.
  pub recv_fd-send_fd :
      (fd : ℕ) (pieces : List Bytes) (last : Bytes)
      → Pieces pieces
      → Lacks 0 (joined pieces ++ last)
      → recv_fd userfunc (delivery pieces last (send_fd (pos fd)))
        ≡ returned (pos fd) (joined pieces ++ last)
  unfolding recv_fd
  recv_fd-send_fd fd pieces last p z =
      let (h, k) = pieces-Lacks pieces last z in loop-delivery [] pieces last (pos fd) p h k

  -- The calls of a message whose data in front of the status byte end with a full buffer: each gets
  -- one of the pieces, and the next to last call the rest of the message and the NUL.
  loop-split :
      (seen : Bytes) (pieces : List Bytes) (last : Bytes) (status : ℕ) (control : Option ℕ)
      → Pieces pieces
      → All (Lacks 0) pieces
      → Lacks 0 last
      → recv_loop userfunc seen (split_delivery pieces last status control) ≡ dumped
  loop-split seen [] last status control p h k =
      loop-bad userfunc seen control (got (status ∷ []) none ∷ []) (last ++ 0 ∷ [])
        (scan-bad last k)
  loop-split seen (bs ∷ pieces) last status control p h k =
      loop-plain userfunc seen none (split_delivery pieces last status control) bs p.0
        (scan-plain bs h.0) (not_down bs)
      ∙ loop-split (seen ++ bs) pieces last status control p.1 h.1 k

  -- Where userfunc takes all that it is given, and each call of recvmsg fills the buffer of MAXLINE
  -- bytes with what send_err has sent, as long as there are as many: if the message, up to its NUL,
  -- has one byte less than a multiple of MAXLINE, recv_fd ends in err_dump, since a buffer then ends
  -- between the two bytes of the protocol.
  pub recv_fd-split :
      (errcode : ℤ) (msg : Bytes) (pieces : List Bytes) (last : Bytes) (status : ℕ)
      → joined pieces ++ last ≡ (send_err errcode msg).0
      → All (λ bs. length bs ≡ maxline) pieces
      → length last + 1 ≡ maxline
      → (send_err errcode msg).1.bytes ≡ 0 ∷ status ∷ []
      → recv_fd userfunc (split_delivery pieces last status (send_err errcode msg).1.control)
        ≡ dumped
  unfolding recv_fd send_err
  recv_fd-split errcode msg pieces last status j full f s =
      let (h, k) = pieces-Lacks pieces last (subst (Lacks 0) (sym j) (sent-Lacks errcode msg)) in
      loop-split [] pieces last status (send_err errcode msg).1.control
        (All-map (λ (bs : Bytes). length bs ≡ maxline) (λ (bs : Bytes). 0 < length bs)
          (λ bs e. omega arith) pieces full)
        h k
