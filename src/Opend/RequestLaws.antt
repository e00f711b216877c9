-- ===== src/Opend/RequestLaws.antt =====
-- lib/bufargs.c and ipc2/opend/request.c: what becomes of a request.
use learning_notes.Base.{
  ℕ, zero, suc, ◌+◌, ◌-◌, ◌≡◌, ◌≢◌, ◌≤◌, ◌<◌, refl, ap, ◌∙◌, true, false, none, some, List, [], ◌∷◌,
  ◌++◌, length, get_or, codes, All, arith, leb, ltb, ◌%◌, ◌^◌, take, length-append, get_or_last,
  All-map, All-append,
}
use learning_notes.Base.Int.{ℤ, pos}
use learning_notes.CString.{Bytes, str_eq, decimal}
use learning_notes.CString.Fields.{Lacks, AllDigits-Lacks, cstr-append}
use learning_notes.CString.Digits.{decimal-AllDigits, length-decimal_pos, atol-decimal}
use learning_notes.Opend.Request.{
  is_white, skip_white, take_token, strtok, maxargc, arg_loop, buf_args, Server, atoi, cli_args,
  Opened, failed, opened, Answer, sent_fd, sent_err, answer, handle_request,
}

-- A word: not empty, and without white space.
abbrev pub IsWord : Bytes → Type 0
IsWord w = (0 < length w) × All (λ c. is_white c ≡ false) w

take_token-word : (w : Bytes) → All (λ c. is_white c ≡ false) w → take_token w ≡ (w, [])
unfolding take_token
take_token-word [] h = refl
take_token-word (c ∷ w) h = rw (h.0, take_token-word w h.1) refl

take_token-space :
    (w s : Bytes) → All (λ c. is_white c ≡ false) w → take_token (w ++ 0x20 ∷ s) ≡ (w, s)
unfolding take_token
take_token-space [] s h = refl
take_token-space (c ∷ w) s h = rw (h.0, take_token-space w s h.1) refl

skip_white-word : (w s : Bytes) → IsWord w → skip_white (w ++ s) ≡ w ++ s
unfolding skip_white
skip_white-word [] s h = elim h.0 [ ]
skip_white-word (c ∷ w) s h = rw h.1.0 refl

-- Words with a blank between them, and what follows the first.
abbrev pub words : List Bytes → Bytes
words [] = []
words (w ∷ []) = w
words (w ∷ v ∷ vs) = w ++ 0x20 ∷ words (v ∷ vs)

skip_white-cons : (c : ℕ) (s : Bytes) → is_white c ≡ false → skip_white (c ∷ s) ≡ c ∷ s
unfolding skip_white
skip_white-cons c s h = rw h refl

strtok-cons : (c : ℕ) (s : Bytes) → is_white c ≡ false → strtok (c ∷ s) ≡ some (take_token (c ∷ s))
unfolding strtok
strtok-cons c s h = rw (strtok, skip_white-cons c s h) refl

strtok-words :
    (w : Bytes) (ws : List Bytes) → IsWord w → strtok (words (w ∷ ws)) ≡ some (w, words ws)
strtok-words [] ws h = elim h.0 [ ]
strtok-words (c ∷ w) [] h =
    strtok-cons c w h.1.0 ∙ ap (λ (r : Bytes × Bytes). some r) (take_token-word (c ∷ w) h.1)
strtok-words (c ∷ w) (v ∷ vs) h =
    strtok-cons c (w ++ 0x20 ∷ words (v ∷ vs)) h.1.0
    ∙ ap (λ (r : Bytes × Bytes). some r) (take_token-space (c ∷ w) (words (v ∷ vs)) h.1)

arg_loop-words :
    (k argc : ℕ) (ws : List Bytes)
    → All IsWord ws
    → length ws < k
    → argc + length ws ≤ maxargc - 2
    → arg_loop k argc (words ws) ≡ some ws
unfolding arg_loop strtok skip_white
arg_loop-words zero argc ws h l m = elim l [ ]
arg_loop-words (suc k) argc [] h l m = refl
arg_loop-words (suc k) argc (w ∷ ws) h l m =
    let low : leb 49 (argc + 1) ≡ false = ground arith in
    rw
      (
        arg_loop,
        strtok-words w ws h.0,
        arg_loop-words k (argc + 1) ws h.1 (omega arith) (omega arith),
        low,
      )
      refl

length-words : (ws : List Bytes) → All IsWord ws → length ws ≤ length (words ws)
length-words [] h = omega arith
length-words (w ∷ []) h = omega (arith, h.0.0)
length-words (w ∷ v ∷ vs) h =
    omega (arith, length-words (v ∷ vs) h.1, length-append w (0x20 ∷ words (v ∷ vs)), h.0.0)

skip_white-words :
    (w : Bytes) (ws : List Bytes) → IsWord w → skip_white (words (w ∷ ws)) ≡ words (w ∷ ws)
skip_white-words [] ws h = elim h.0 [ ]
skip_white-words (c ∷ w) [] h = skip_white-cons c w h.1.0
skip_white-words (c ∷ w) (v ∷ vs) h = skip_white-cons c (w ++ 0x20 ∷ words (v ∷ vs)) h.1.0

-- buf_args takes words with a blank between them apart, if there is one at least and there are no
-- more than 49.
pub buf_args-words :
    (w : Bytes) (ws : List Bytes)
    → All IsWord (w ∷ ws)
    → length (w ∷ ws) ≤ 49
    → buf_args (words (w ∷ ws)) ≡ some (w ∷ ws)
unfolding buf_args
buf_args-words w ws h l =
    rw
      (
        buf_args,
        strtok-words w ws h.0,
        arg_loop-words (suc (length (words (w ∷ ws)))) 0 ws h.1
            (omega (arith, length-words (w ∷ ws) h)) (omega arith),
        skip_white-words w ws h.0,
        none_in_front,
      )
      refl
  where
    none_in_front : length (words (w ∷ ws)) - length (words (w ∷ ws)) ≡ 0
    none_in_front = omega arith

Lacks-words : (ws : List Bytes) → All (Lacks 0) ws → Lacks 0 (words ws)
Lacks-words [] h = tt
Lacks-words (w ∷ []) h = h.0
Lacks-words (w ∷ v ∷ vs) h =
    All-append (λ c. c ≢ 0) w (0x20 ∷ words (v ∷ vs)) h.0
      ((λ e. omega arith), Lacks-words (v ∷ vs) h.1)

decimal-IsWord : (n : ℕ) → IsWord (decimal n)
decimal-IsWord n = (
  length-decimal_pos n,
  All-map (λ c. (b'0' ≤ c) × (c ≤ b'9')) (λ c. is_white c ≡ false) (λ c d. ground arith) (decimal n)
      (decimal-AllDigits n),
)

-- A request that ends with its NUL.
request_end : (s : Bytes) → get_or (s ++ 0 ∷ []) (length (s ++ 0 ∷ []) - 1) 0 ≡ 0
request_end s =
    let n : length (s ++ 0 ∷ []) - 1 ≡ length s = omega (arith, length-append s (0 ∷ [])) in
    rw n (get_or_last s 0 0)

atoi-decimal : (n : ℕ) → n < 2 ^ 31 → atoi (decimal n) ≡ pos n
unfolding atoi
atoi-decimal n h =
    let small : n % 2 ^ 32 ≡ n = omega arith in
    let long : ltb n (2 ^ 63) ≡ true = ground arith in
    let int : ltb n (2 ^ 31) ≡ true = ground arith in rw (atol-decimal n, long, small, int) refl

cli_args-open :
    (path : Bytes) (flag : ℕ) (st : Server)
    → flag < 2 ^ 31
    → cli_args (codes "open" ∷ path ∷ decimal flag ∷ []) st
      ≡ (true, record st { pathname = path; oflag = pos flag })
unfolding cli_args str_eq
cli_args-open path flag st h = rw (atoi-decimal flag h) refl

-- What the client is to be sent for a path, by what `open` returned: its descriptor, or a message of
-- at most 4094 bytes with the path and the error.
abbrev pub refusal : Bytes → Bytes → Bytes
refusal path why = take 4094 (codes "can't open " ++ (path ++ (codes ": " ++ (why ++ codes "\n"))))

abbrev pub reply : Bytes → Opened → Answer
reply path (opened fd) = sent_fd fd
reply path (failed why) = sent_err (refusal path why)

abbrev pub error_left : Bytes → Opened → Bytes → Bytes
error_left path (opened fd) old = old
error_left path (failed why) old = refusal path why

-- The last step, by what `open` returned.
answer-reply :
    (sys_open : Bytes → ℤ → Opened) (st : Server) (o : Opened)
    → sys_open st.pathname st.oflag ≡ o
    → answer sys_open (true, st)
      ≡ (reply st.pathname o, record st { errmsg = error_left st.pathname o st.errmsg })
unfolding answer
answer-reply sys_open st (opened fd) e = rw (answer, e) refl
answer-reply sys_open st (failed why) e = rw (answer, e) refl

-- The request `open <path> <flag>`, with a path that is one word and has no NUL, and a flag in
-- decimal that is an int, makes the server call `open` with the path and the flag. If this returns a
-- descriptor, the client is sent that, and errmsg stays; if it fails, the client is sent a message
-- with the path and the error, which is cut off behind 4094 bytes and left in errmsg.
pub handle_request-open :
    (sys_open : Bytes → ℤ → Opened) (uid : ℕ) (path : Bytes) (flag : ℕ) (st : Server)
    → IsWord path
    → Lacks 0 path
    → flag < 2 ^ 31
    → handle_request sys_open uid (words (codes "open" ∷ path ∷ decimal flag ∷ []) ++ 0 ∷ []) st ≡ (
      reply path (sys_open path (pos flag)),
      record st {
        pathname = path;
        oflag = pos flag;
        errmsg = error_left path (sys_open path (pos flag)) st.errmsg;
      },
    )
unfolding handle_request
handle_request-open sys_open uid path flag st w n small =
    rw
      (
        request_end (words (codes "open" ∷ path ∷ decimal flag ∷ [])),
        cstr-append (words (codes "open" ∷ path ∷ decimal flag ∷ [])) [] no_nul,
        buf_args-words (codes "open") (path ∷ decimal flag ∷ [])
            (open_word, (w, (decimal-IsWord flag, tt))) (omega arith),
        cli_args-open path flag st small,
      )
      (answer-reply sys_open (record st { pathname = path; oflag = pos flag })
        (sys_open path (pos flag)) refl)
  where
    open_word : IsWord (codes "open")
    open_word = (omega arith, (refl, (refl, (refl, (refl, tt)))))

    no_nul : Lacks 0 (words (codes "open" ∷ path ∷ decimal flag ∷ []))
    no_nul = Lacks-words (codes "open" ∷ path ∷ decimal flag ∷ []) (
      ((λ e. omega arith), ((λ e. omega arith), ((λ e. omega arith), ((λ e. omega arith), tt)))),
      (n, (AllDigits-Lacks 0 (decimal flag) (omega arith) (decimal-AllDigits flag), tt)),
    )

skip_white-blank : (s : Bytes) → All (λ c. is_white c ≡ true) s → skip_white s ≡ []
unfolding skip_white
skip_white-blank [] h = refl
skip_white-blank (c ∷ s) h = rw h.0 (skip_white-blank s h.1)

strtok-blank : (s : Bytes) → All (λ c. is_white c ≡ true) s → strtok s ≡ none
unfolding strtok
strtok-blank s h = rw (strtok, skip_white-blank s h) refl

buf_args-blank : (s : Bytes) → All (λ c. is_white c ≡ true) s → buf_args s ≡ none
unfolding buf_args
buf_args-blank s h = rw (buf_args, strtok-blank s h) refl

-- A request of white space alone is answered with the message that errmsg happens to hold from an
-- earlier request: buf_args fails without setting it.
pub handle_request-blank :
    (sys_open : Bytes → ℤ → Opened) (uid : ℕ) (s : Bytes) (st : Server)
    → All (λ c. is_white c ≡ true) s
    → handle_request sys_open uid (s ++ 0 ∷ []) st ≡ (sent_err st.errmsg, st)
unfolding handle_request answer
handle_request-blank sys_open uid s st h =
    rw (request_end s, cstr-append s [] no_nul, buf_args-blank s h) refl
  where
    no_nul : Lacks 0 s
    no_nul = All-map (λ c. is_white c ≡ true) (λ c. c ≢ 0) (λ c w e. ground arith) s h
