-- ===== src/FdPass/Tests.antt =====
-- lib/recvfd.c: the theorems at a message in two pieces.
use learning_notes.Base.{
  ℕ, zero, suc, replicate, length-replicate, sym, ap, ◌≡◌, refl, none, [], ◌∷◌, arith, length,
  codes,
}
use learning_notes.Base.Int.{ℤ, pos, negsuc}
use learning_notes.CString.{Bytes, cstr}
use learning_notes.FdPass.{send_fd, status_byte, send_err, got, returned, dumped, recv_fd}
use learning_notes.FdPass.Laws.{
  delivery, split_delivery, answer_err, recv_fd-send_err, recv_fd-split,
}

-- `write`, which takes all.
abbrev takes_all : Bytes → ℤ
takes_all bs = pos (length bs)

abbrev refusal : Bytes
refusal = codes "no such file"

recv_fd-send_err_example :
    recv_fd takes_all
      (delivery (codes "no " ∷ []) (codes "such file") (send_err (negsuc 1) refusal).1)
    ≡ returned (answer_err (negsuc 1)) (cstr refusal)
unfolding send_err cstr
recv_fd-send_err_example =
    recv_fd-send_err takes_all (λ bs. refl) (negsuc 1) refusal (codes "no " ∷ [])
      (codes "such file") refl (omega arith, tt)

-- A message of 4095 bytes.
abbrev long : Bytes
long = replicate 4095 b'x'

cstr_long : (n : ℕ) → cstr (replicate n b'x') ≡ replicate n b'x'
unfolding cstr
cstr_long zero = refl
cstr_long (suc n) = ap (λ (r : Bytes). b'x' ∷ r) (cstr_long n)

recv_fd-split_example :
    recv_fd takes_all (split_delivery [] long 2 (send_err (negsuc 1) long).1.control) ≡ dumped
unfolding send_err send_fd status_byte
recv_fd-split_example =
    recv_fd-split takes_all (λ bs. refl) (negsuc 1) long [] long 2 (sym (cstr_long 4095)) tt
      (omega (arith, length-replicate {A = ℕ} 4095 b'x')) refl

recv_fd_run :
    recv_fd takes_all (got (codes "no") none ∷ got (0 ∷ 2 ∷ []) none ∷ [])
    ≡ returned (negsuc 1) (codes "no")
unfolding recv_fd
recv_fd_run = refl
