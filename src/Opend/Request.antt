-- ===== src/Opend/Request.antt =====
-- lib/bufargs.c, ipc2/opend/cliargs.c and ipc2/opend/request.c: a client's request, from its bytes
-- to the answer.
use learning_notes.Base.{
  ℕ, zero, suc, ◌+◌, ◌-◌, Bool, true, false, ◌||◌, Option, none, some, List, [], ◌∷◌, ◌++◌, ◌==◌,
  leb, ltb, ◌%◌, ◌^◌, if◌then◌else◌, length, get_or, take, codes, replicate,
}
use learning_notes.Base.Int.{ℤ, pos, negsuc}
use learning_notes.CString.{Bytes, cstr, str_eq, atol, decimal}

-- WHITE
abbrev pub is_white : ℕ → Bool
is_white c = c == 0x20 || (c == 0x09 || c == 0x0a)

-- The two halves of `strtok` with WHITE: past the white space, and the token with what is behind
-- the white space that ends it.
unfoldable pub skip_white : Bytes → Bytes
skip_white [] = []
skip_white (c ∷ s) = let rest = skip_white s in if is_white c then rest else c ∷ s

unfoldable pub take_token : Bytes → Bytes × Bytes
take_token [] = ([], [])
take_token (c ∷ s) = let rest = take_token s in if is_white c then ([], s) else (c ∷ rest.0, rest.1)

-- `strtok` with WHITE; `none` is NULL.
unfoldable pub strtok : Bytes → Option (Bytes × Bytes)
unfolding skip_white take_token
strtok s = elim (skip_white s) [ [] ↦ none | c ∷ s' ↦ some (take_token (c ∷ s')) ]

-- MAXARGC
abbrev pub maxargc : ℕ
maxargc = 50

-- The loop of buf_args, from the argument `argc` on; `none` is `return(-1)`.
unfoldable pub arg_loop : ℕ → ℕ → Bytes → Option (List Bytes)
arg_loop zero argc s = none
arg_loop (suc k) argc s = elim (strtok s) [
  | none ↦ some []
  | some (ptr, s') ↦
      let rest : Option (List Bytes) = elim (arg_loop k (argc + 1) s') [
        | none ↦ none
        | some argv ↦ some (ptr ∷ argv)
      ] in
      if leb (maxargc - 1) (argc + 1) then none else rest
]

-- buf_args, less the call of `optfunc`: `none` is -1. The first argument starts where `buf` does,
-- with the white space in front of its token. Each round takes a byte at least.
unfoldable pub buf_args : Bytes → Option (List Bytes)
unfolding arg_loop
buf_args buf = elim (strtok buf) [
  | none ↦ none
  | some (ptr, s) ↦ elim (arg_loop (suc (length buf)) 0 s) [
    | none ↦ none
    | some argv ↦ some ((take (length buf - length (skip_white buf)) buf ++ ptr) ∷ argv)
  ]
]

-- `errmsg`, `pathname` and `oflag`
pub record Server : Type 0 where
  pub errmsg : Bytes
  pub pathname : Bytes
  pub oflag : ℤ

-- `atoi`: `strtol`, which stays within a long, and its value as an int.
abbrev clamp : ℤ → ℤ
clamp (pos n) = if ltb n (2 ^ 63) then pos n else pos (2 ^ 63 - 1)
clamp (negsuc n) = if ltb n (2 ^ 63) then negsuc n else negsuc (2 ^ 63 - 1)

abbrev as_int : ℤ → ℤ
as_int (pos n) = let m : ℕ = n % 2 ^ 32 in if ltb m (2 ^ 31) then pos m else negsuc (2 ^ 32 - 1 - m)
as_int (negsuc n) =
    let m : ℕ = n % 2 ^ 32 in if ltb m (2 ^ 31) then negsuc m else pos (2 ^ 32 - 1 - m)

unfoldable pub atoi : Bytes → ℤ
atoi s = as_int (clamp (atol s))

-- cli_args; the result is whether it returns 0.
unfoldable pub cli_args : List Bytes → Server → Bool × Server
cli_args (cmd ∷ path ∷ flag ∷ []) st =
    if str_eq cmd (codes "open")
    then (true, record st { pathname = path; oflag = atoi flag })
    else (false, record st { errmsg = codes "usage: <pathname> <oflag>\n" })
cli_args argv st = (false, record st { errmsg = codes "usage: <pathname> <oflag>\n" })

-- What `open` returns: the text of its error, or a descriptor.
pub data Opened : Type 0 where
  failed : Bytes → Opened
  opened : ℕ → Opened

-- What the client is sent.
pub data Answer : Type 0 where
  sent_err : Bytes → Answer
  sent_fd : ℕ → Answer

-- `snprintf` into errmsg with the size MAXLINE - 1
abbrev pub message : Bytes → Bytes
message = take 4094

-- The part of handle_request behind buf_args.
unfoldable pub answer : (Bytes → ℤ → Opened) → Bool × Server → Answer × Server
answer sys_open (false, st) = (sent_err st.errmsg, st)
answer sys_open (true, st) = elim (sys_open st.pathname st.oflag) [
  | failed why ↦
      let st' = record st {
        errmsg =
            message (codes "can't open " ++ (st.pathname ++ (codes ": " ++ (why ++ codes "\n"))));
      } in
      (sent_err st'.errmsg, st')
  | opened fd ↦ (sent_fd fd, st)
]

-- handle_request, of the bytes that were read from the client of the user `uid`
unfoldable pub handle_request : (Bytes → ℤ → Opened) → ℕ → Bytes → Server → Answer × Server
handle_request sys_open uid buf st =
    if get_or buf (length buf - 1) 0 == 0
    then answer sys_open
        (elim (buf_args (cstr buf)) [ none ↦ (false, st) | some argv ↦ cli_args argv st ])
    else let text =
        codes "request from uid "
        ++ (decimal uid
            ++ (codes " not null terminated: "
                ++ (replicate (length buf - length (cstr buf)) 0x20
                    ++ (cstr buf ++ codes "\n")))) in
      (sent_err (message text), record st { errmsg = message text })
