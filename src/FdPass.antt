-- ===== src/FdPass.antt =====
-- apue.3e/lib/sendfd.c, senderr.c and recvfd.c: a descriptor, or an error with its message, is passed
-- over a stream socket. Both ends use a protocol of two bytes behind the message: a NUL and a status.
-- What recvmsg returns is an input: the bytes of one call, with the descriptor that came with them.
pub mod Laws
mod Tests
use learning_notes.Base.{
  ℕ, zero, suc, ◌+◌, ◌-◌, ◌%◌, Bool, true, false, ◌&&◌, ◌||◌, not, Option, none, some, List, [],
  ◌∷◌, ◌++◌, ltb, ◌==◌, if◌then◌else◌, length,
}
use learning_notes.Base.Int.{ℤ, pos, negsuc, neg}
use learning_notes.CString.{Bytes, cstr}

-- A message for sendmsg, with or without a descriptor in its control part.
pub record Msg : Type 0 where
  pub bytes : Bytes
  pub control : Option ℕ

-- `buf[1]` of send_fd for an error: -fd_to_send as a char, and 1 where that would be 0.
unfoldable pub status_byte : ℕ → ℕ
status_byte n = if n % 256 == 0 then 1 else n % 256

-- send_fd: what it hands to sendmsg. fd_to_send is an int, and its negation is one too.
unfoldable pub send_fd : ℤ → Msg
unfolding status_byte
send_fd (pos fd) = record { bytes = 0 ∷ 0 ∷ []; control = some fd }
send_fd (negsuc n) = record { bytes = 0 ∷ status_byte (suc n) ∷ []; control = none }

-- send_err: what it hands to writen, if anything, and then to sendmsg.
unfoldable pub send_err : ℤ → Bytes → Bytes × Msg
unfolding send_fd
send_err (pos n) msg = (cstr msg, send_fd (negsuc 0))
send_err (negsuc n) msg = (cstr msg, send_fd (negsuc n))

-- What one call of recvmsg comes back with.
pub data Recv : Type 0 where
  failed : Recv
  got : Bytes → Option ℕ → Recv

-- What the scan of a buffer for the NUL finds: nothing, the final status behind so many bytes, or a
-- NUL that is not next to last.
pub data Scan : Type 0 where
  plain : Scan
  final : Bytes → ℕ → Scan
  bad : Scan

abbrev pub behind : ℕ → Scan → Scan
behind c plain = plain
behind c (final front status) = final (c ∷ front) status
behind c bad = bad

abbrev pub status_of : Bytes → Scan
status_of [] = bad
status_of (status ∷ []) = final [] status
status_of (status ∷ c ∷ rest) = bad

unfoldable pub scan : Bytes → Scan
scan [] = plain
scan (c ∷ rest) = let found = behind c (scan rest) in if c == 0 then status_of rest else found

-- MAXLINE, the size of `buf`: no call of recvmsg returns more.
abbrev pub maxline : ℕ
maxline = 4096

-- recv_fd returns, ends in err_dump, or waits for more. `seen` is what userfunc was given.
pub data Outcome : Type 0 where
  returned : ℤ → Bytes → Outcome
  dumped : Outcome
  waiting : Bytes → Outcome

module _ (userfunc : Bytes → ℤ) where
  -- `userfunc(STDERR_FILENO, buf, nr) != nr`
  abbrev pub refused : Bytes → ℤ → Bool
  refused bs (pos n) = not (n == length bs)
  refused bs (negsuc n) = true

  unfoldable pub turned_down : Bytes → Bool
  turned_down bs = ltb 0 (length bs) && refused bs (userfunc bs)

  -- The final data: `front` is passed on, and the descriptor or -status returned.
  unfoldable pub finish : Bytes → Bytes → ℕ → Option ℕ → Outcome
  unfolding turned_down
  finish seen front zero none = dumped
  finish seen front zero (some fd) =
      if turned_down front
      then returned (negsuc 0) (seen ++ front)
      else returned (pos fd) (seen ++ front)
  finish seen front (suc n) control =
      if turned_down front
      then returned (negsuc 0) (seen ++ front)
      else returned (negsuc n) (seen ++ front)

  -- The loop of recv_fd over what the calls of recvmsg come back with.
  unfoldable pub recv_loop : Bytes → List Recv → Outcome
  unfolding finish scan turned_down
  recv_loop seen [] = waiting seen
  recv_loop seen (failed ∷ calls) = returned (negsuc 0) seen
  recv_loop seen (got [] control ∷ calls) = returned (negsuc 0) seen
  recv_loop seen (got (c ∷ bs) control ∷ calls) =
      let go_on = recv_loop (seen ++ c ∷ bs) calls in
      elim (scan (c ∷ bs)) [
        | plain ↦ if turned_down (c ∷ bs) then returned (negsuc 0) (seen ++ c ∷ bs) else go_on
        | final front status ↦ finish seen front status control
        | bad ↦ dumped
      ]

  unfoldable pub recv_fd : List Recv → Outcome
  unfolding recv_loop
  recv_fd = recv_loop []
