-- ===== src/Transfer/WriteLaws.antt =====
-- lib/writen.c, against what `write` promises.
use learning_notes.Base.{
  ℕ, zero, suc, ◌+◌, ◌-◌, ◌≡◌, ◌≤◌, ◌<◌, refl, sym, ap, ◌∙◌, Option, none, some, [], ◌∷◌, ◌++◌,
  length, take, drop, arith, append_assoc, append-nil, eq-cases, ==_of_ne, same_test, inl, inr,
}
use learning_notes.Transfer.{Bytes, counted, write_round, write_loop, writen}

take_more :
    (k m : ℕ) (xs : Bytes) → k ≤ length xs → take k xs ++ take m (drop k xs) ≡ take (k + m) xs
take_more zero m xs h = let e : 0 + m ≡ m = omega arith in rw e refl
take_more (suc k) m [] h = absurd (omega arith)
take_more (suc k) m (x ∷ xs) h =
    let e : suc k + m ≡ suc (k + m) = omega arith in
    rw e (ap (λ (r : Bytes). x ∷ r) (take_more k m xs (omega arith)))

length-drop_le : (k : ℕ) (xs : Bytes) → k ≤ length xs → length (drop k xs) ≡ length xs - k
length-drop_le zero xs h = omega arith
length-drop_le (suc k) [] h = absurd (omega arith)
length-drop_le (suc k) (x ∷ xs) h = length-drop_le k xs (omega arith) ∙ omega arith

module _ {S : Type 0} where
  -- A call of `write`, with `output` what has been written: it appends the bytes that it counts, and
  -- an error appends nothing.
  abbrev pub WriteStep : (S → Bytes) → S → Bytes → Option ℕ × S → Type 0
  WriteStep output s bytes (none, s') = output s' ≡ output s
  WriteStep output s bytes (some k, s') =
      (output s' ≡ output s ++ take k bytes) × (k ≤ length bytes)

  abbrev pub Writes : (S → Bytes → Option ℕ × S) → (S → Bytes) → Type 0
  Writes write output = (s : S) (bytes : Bytes) → WriteStep output s bytes (write s bytes)

  abbrev LeftStep : (S → Bytes) → S → ℕ → Bytes → Option ℕ × S → Type 0
  LeftStep output s n left (none, s') = (length left ≡ n) × (output s' ≡ output s)
  LeftStep output s n left (some k, s') = (output s' ≡ output s ++ take k left) × (k ≤ length left)

  nothing : (output : S → Bytes) (s : S) (left : Bytes) → output s ≡ output s ++ take 0 left
  nothing output s left = sym (append-nil (output s))

  counted-LeftStep :
      (output : S → Bytes) (s s' : S) (k n : ℕ) (left : Bytes) (r : Option ℕ × S)
      → output s' ≡ output s ++ take (suc k) left
      → suc k ≤ length left
      → length left ≤ n
      → LeftStep output s' n (drop (suc k) left) r
      → LeftStep output s n left (counted (suc k) r)
  counted-LeftStep output s s' k n left (none, t) e l m h =
      absurd (omega (arith, h.0, length-drop_le (suc k) left l))
  counted-LeftStep output s s' k n left (some j, t) e l m h = (
    h.0
        ∙ ap (λ (r : Bytes). r ++ take j (drop (suc k) left)) e
        ∙ append_assoc (output s) (take (suc k) left) (take j (drop (suc k) left))
        ∙ ap (λ (r : Bytes). output s ++ r) (take_more (suc k) j left l),
    omega (arith, h.1, length-drop_le (suc k) left l),
  )

  write_round-LeftStep :
      (output : S → Bytes) (rest : Bytes → S → Option ℕ × S) (n : ℕ) (left : Bytes) (s : S)
      (r : Option ℕ × S)
      → length left ≤ n
      → WriteStep output s left r
      → ((ls : Bytes) (t : S) → length ls < length left → LeftStep output t n ls (rest ls t))
      → LeftStep output s n left (write_round rest n left r)
  unfolding write_round
  write_round-LeftStep output rest n left s (none, s') m h later = elim (eq-cases (length left) n) [
    | inl all ↦ rw (write_round, same_test (length left) n all) (all, h)
    | inr part ↦
        rw (write_round, ==_of_ne (length left) n part) (h ∙ nothing output s left, omega arith)
  ]
  write_round-LeftStep output rest n left s (some zero, s') m h later = h
  write_round-LeftStep output rest n left s (some (suc k), s') m h later =
      counted-LeftStep output s s' k n left (rest (drop (suc k) left) s') h.0 h.1 m
        (later (drop (suc k) left) s' (omega (arith, h.1, length-drop_le (suc k) left h.1)))

  write_loop-LeftStep :
      (write : S → Bytes → Option ℕ × S) (output : S → Bytes) (k n : ℕ) (left : Bytes) (s : S)
      → Writes write output
      → length left ≤ k
      → length left ≤ n
      → LeftStep output s n left (write_loop write k n left s)
  unfolding write_loop
  write_loop-LeftStep write output zero n left s h l m = (nothing output s left, omega arith)
  write_loop-LeftStep write output (suc k) n left s h l m = elim (eq-cases (length left) 0) [
    | inl done ↦
        rw (write_loop, same_test (length left) 0 done) (nothing output s left, omega arith)
    | inr more ↦
        rw (write_loop, ==_of_ne (length left) 0 more)
          (write_round-LeftStep output (write_loop write k n) n left s (write s left) m (h s left)
            (λ ls t j. write_loop-LeftStep write output k n ls t h (omega arith) (omega arith)))
  ]

  LeftStep-WriteStep :
      (output : S → Bytes) (s : S) (n : ℕ) (bytes : Bytes) (r : Option ℕ × S)
      → LeftStep output s n bytes r
      → WriteStep output s bytes r
  LeftStep-WriteStep output s n bytes (none, s') h = h.1
  LeftStep-WriteStep output s n bytes (some k, s') h = h

  -- If each call of `write` appends the bytes that it counts to the output, so does writen: an error
  -- that it reports has appended nothing, and else it counts the bytes appended.
  pub writen-WriteStep :
      (write : S → Bytes → Option ℕ × S) (output : S → Bytes) (bytes : Bytes) (s : S)
      → Writes write output
      → WriteStep output s bytes (writen write bytes s)
  unfolding writen
  writen-WriteStep write output bytes s h =
      LeftStep-WriteStep output s (length bytes) bytes (writen write bytes s) (
        write_loop-LeftStep write output (length bytes) (length bytes) bytes s h (omega arith)
          (omega arith))
