-- ===== src/Printer/JobLaws.antt =====
-- printd.c: the job number outlives the daemon.
use learning_notes.Base.{
  ℕ, zero, suc, ◌^◌, ◌≡◌, ◌≢◌, ◌≤◌, ◌<◌, ◌⊎◌, inl, inr, refl, sym, ap, Bool, true, [], ◌∷◌, ◌++◌,
  ◌==◌, length, take, drop, write, arith, length-append, append_assoc, ==_of_ne, Bool-cases, All,
  All-map, All-append, ltb, ltb→lt, ◌||◌, ◌&&◌, not,
}
use learning_notes.Base.Int.{pos}
use learning_notes.CString.{Bytes, decimal}
use learning_notes.CString.Fields.{Lacks, AllDigits-Lacks, cstr-append}
use learning_notes.CString.Digits.{
  decimal-AllDigits, length-decimal, length-decimal_pos, atol-decimal_append,
}
use learning_notes.Printer.JobFile.{filenmsz, job_path, init_request, update_jobno}

write_front : (f bs : Bytes) → length bs ≤ length f → write f 0 bs ≡ bs ++ drop (length bs) f
write_front [] [] h = refl
write_front [] (b ∷ bs) h = absurd (omega arith)
write_front (x ∷ f) [] h = refl
write_front (x ∷ f) (b ∷ bs) h = ap (λ (r : Bytes). b ∷ r) (write_front f bs (omega arith))

write_over : (f bs : Bytes) → length f ≤ length bs → write f 0 bs ≡ bs
write_over [] bs h = refl
write_over (x ∷ f) [] h = absurd (omega arith)
write_over (x ∷ f) (b ∷ bs) h = ap (λ (r : Bytes). b ∷ r) (write_over f bs (omega arith))

take_long : (n : ℕ) (bs : Bytes) → length bs ≤ n → take n bs ≡ bs
take_long zero [] h = refl
take_long zero (b ∷ bs) h = absurd (omega arith)
take_long (suc n) [] h = refl
take_long (suc n) (b ∷ bs) h = ap (λ (r : Bytes). b ∷ r) (take_long n bs (omega arith))

-- A byte of a text that is neither NUL nor a digit.
abbrev is_plain : ℕ → Bool
is_plain c = (ltb c b'0' || ltb b'9' c) && not (c == 0)

-- What is left of the path behind the digits that were read over it.
record Rest (t u : Bytes) (k : ℕ) : Type 0 where
  head : ℕ
  tail : Bytes
  rest : drop k (t ++ u) ≡ (head ∷ tail) ++ u
  no_digit : (head < b'0') ⊎ (b'9' < head)
  no_nul : Lacks 0 (head ∷ tail)

plain-Rest : (t u : Bytes) (k : ℕ) → All (λ c. is_plain c ≡ true) t → k < length t → Rest t u k
plain-Rest [] u k a h = absurd (omega arith)
plain-Rest (c ∷ t) u zero a h = record {
  head = c;
  tail = t;
  rest = refl;
  no_digit = elim (Bool-cases (ltb c b'0')) [
    | inl low ↦ inl (ltb→lt c b'0' low)
    | inr high ↦ inr (ground arith)
  ];
  no_nul = All-map (λ d. is_plain d ≡ true) (λ d. d ≢ 0) (λ d p e. ground arith) (c ∷ t) a;
}
plain-Rest (c ∷ t) u (suc k) a h =
    let r = plain-Rest t u k a.1 (omega arith) in
    record { head = r.head; tail = r.tail; rest = r.rest; no_digit = r.no_digit; no_nul = r.no_nul }

path_plain : All (λ c. is_plain c ≡ true) job_path
path_plain = (
  refl,
  (
    refl,
    (
      refl,
      (
        refl,
        (
          refl,
          (
            refl,
            (
              refl,
              (
                refl,
                (
                  refl,
                  (
                    refl,
                    (
                      refl,
                      (
                        refl,
                        (
                          refl,
                          (
                            refl,
                            (
                              refl,
                              (
                                refl,
                                (refl, (refl, (refl, (refl, (refl, (refl, (refl, (refl, tt)))))))),
                              ),
                            ),
                          ),
                        ),
                      ),
                    ),
                  ),
                ),
              ),
            ),
          ),
        ),
      ),
    ),
  ),
)

-- The next job number that update_jobno keeps is the one that init_request finds, if what the file
-- held before is no longer than it.
pub update_jobno-init_request :
    (junk file : Bytes) (nextjob : ℕ)
    → nextjob < 2 ^ 31
    → length file ≤ length (decimal nextjob)
    → init_request junk (update_jobno file nextjob) ≡ pos nextjob
unfolding init_request update_jobno
update_jobno-init_request junk file nextjob h l =
    rw
      (
        write_over file (decimal nextjob) l,
        take_long filenmsz (decimal nextjob) (omega (arith, short)),
        ==_of_ne (length (decimal nextjob)) 0 (λ e. omega (arith, length-decimal_pos nextjob)),
        write_front (job_path ++ 0 ∷ junk) (decimal nextjob)
            (omega (arith, short, length-append job_path (0 ∷ junk))),
        r.rest,
        sym (append_assoc (decimal nextjob) (r.head ∷ r.tail) (0 ∷ junk)),
        cstr-append (decimal nextjob ++ r.head ∷ r.tail) junk no_nul,
      )
      (atol-decimal_append nextjob r.head r.tail r.no_digit)
  where
    short : length (decimal nextjob) ≤ 10
    short = length-decimal nextjob 9 (omega arith)

    r : Rest job_path (0 ∷ junk) (length (decimal nextjob))
    r = plain-Rest job_path (0 ∷ junk) (length (decimal nextjob)) path_plain (omega (arith, short))

    no_nul : Lacks 0 (decimal nextjob ++ r.head ∷ r.tail)
    no_nul =
        All-append (λ c. c ≢ 0) (decimal nextjob) (r.head ∷ r.tail)
          (AllDigits-Lacks 0 (decimal nextjob) (omega arith) (decimal-AllDigits nextjob)) r.no_nul
