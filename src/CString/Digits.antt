-- ===== src/CString/Digits.antt =====
-- What a number is printed as, it is read back from.
use native.Mathlib.Nat.{pow-suc}
use learning_notes.Base.{
  ◌⊎◌, ℕ, zero, suc, ◌+◌, ◌-◌, ◌*◌, ◌/◌, ◌%◌, ◌^◌, ◌≤◌, ◌<◌, ◌≡◌, refl, ◌∙◌, Bool-cases, inl, inr,
  [], ◌∷◌, ◌++◌, arith, ltb, ltb→lt, lt→ltb, length, replicate, length-append, length-replicate,
  All, ap,
}
use learning_notes.Base.Int.{pos}
use learning_notes.CString.{Bytes, scan_digits, atol, decimal_loop, decimal, padded}

scan_one :
    (m n : ℕ) (out : Bytes)
    → n < 10
    → scan_digits m ((b'0' + n) ∷ out) ≡ scan_digits (m * 10 + n) out
unfolding scan_digits
scan_one m n out h = ground arith

scan-decimal_loop :
    (k n : ℕ) (out : Bytes) → n < k → scan_digits 0 (decimal_loop k n out) ≡ scan_digits n out
unfolding decimal_loop
scan-decimal_loop zero n out h = elim h [ ]
scan-decimal_loop (suc k) n out h = elim (Bool-cases (ltb n 10)) [
  | inl small ↦
      rw small
        (scan_one 0 n out (ltb→lt n 10 small) ∙ ap (λ (m : ℕ). scan_digits m out) (omega arith))
  | inr large ↦ rw large (
      scan-decimal_loop k (n / 10) ((b'0' + n % 10) ∷ out) (ground arith)
      ∙ scan_one (n / 10) (n % 10) out (omega arith)
      ∙ ap (λ (m : ℕ). scan_digits m out) (omega arith))
]

-- Each byte is a digit.
abbrev pub AllDigits : Bytes → Type 0
AllDigits = All (λ c. (b'0' ≤ c) × (c ≤ b'9'))

decimal_loop-AllDigits : (k n : ℕ) (out : Bytes) → AllDigits out → AllDigits (decimal_loop k n out)
unfolding decimal_loop
decimal_loop-AllDigits zero n out h = h
decimal_loop-AllDigits (suc k) n out h = elim (Bool-cases (ltb n 10)) [
  | inl small ↦ rw small ((omega arith, omega (arith, ltb→lt n 10 small)), h)
  | inr large ↦
      rw large
        (decimal_loop-AllDigits k (n / 10) ((b'0' + n % 10) ∷ out) ((omega arith, omega arith), h))
]

pub decimal-AllDigits : (n : ℕ) → AllDigits (decimal n)
unfolding decimal
decimal-AllDigits n = decimal_loop-AllDigits (n + 1) n [] tt

length-decimal_loop :
    (k n w : ℕ) (out : Bytes) → n < 10 ^ suc w → length (decimal_loop k n out) ≤ suc w + length out
unfolding decimal_loop
length-decimal_loop zero n w out h = omega arith
length-decimal_loop (suc k) n zero out h = rw (lt→ltb n 10 h) (omega arith)
length-decimal_loop (suc k) n (suc w) out h = elim (Bool-cases (ltb n 10)) [
  | inl small ↦ rw small (omega arith)
  | inr large ↦ rw large (
      omega (
        arith,
        length-decimal_loop k (n / 10) w ((b'0' + n % 10) ∷ out)
            (omega (arith, pow-suc 10 (suc w))),
      ))
]

pub length-decimal : (n w : ℕ) → n < 10 ^ suc w → length (decimal n) ≤ suc w
unfolding decimal
length-decimal n w h = omega (arith, length-decimal_loop (n + 1) n w [] h)

length-decimal_loop_ge : (k n : ℕ) (out : Bytes) → length out ≤ length (decimal_loop k n out)
unfolding decimal_loop
length-decimal_loop_ge zero n out = omega arith
length-decimal_loop_ge (suc k) n out =
    ground (arith, length-decimal_loop_ge k (n / 10) ((b'0' + n % 10) ∷ out))

decimal_loop_pos : (k n : ℕ) (out : Bytes) → length out < length (decimal_loop (suc k) n out)
unfolding decimal_loop
decimal_loop_pos k n out = ground (arith, length-decimal_loop_ge k (n / 10) ((b'0' + n % 10) ∷ out))

pub length-decimal_pos : (n : ℕ) → 0 < length (decimal n)
unfolding decimal
length-decimal_pos n = let e : n + 1 ≡ suc n = omega arith in rw e (decimal_loop_pos n n [])

scan-decimal : (n : ℕ) → scan_digits 0 (decimal n) ≡ n
unfolding decimal scan_digits
scan-decimal n = scan-decimal_loop (n + 1) n [] (omega arith)

-- A text of digits is read by its digits.
atol-AllDigits : (s : Bytes) → AllDigits s → 0 < length s → atol s ≡ pos (scan_digits 0 s)
unfolding atol
atol-AllDigits [] h l = absurd (omega arith)
atol-AllDigits (c ∷ s) h l = ground arith

pub atol-decimal : (n : ℕ) → atol (decimal n) ≡ pos n
atol-decimal n =
    atol-AllDigits (decimal n) (decimal-AllDigits n) (length-decimal_pos n)
    ∙ ap pos (scan-decimal n)

scan_digits-append :
    (m : ℕ) (t : Bytes) (c : ℕ) (s : Bytes)
    → AllDigits t
    → (c < b'0') ⊎ (b'9' < c)
    → scan_digits m (t ++ c ∷ s) ≡ scan_digits m t
unfolding scan_digits
scan_digits-append m [] c s h (inl low) = ground arith
scan_digits-append m [] c s h (inr high) = ground arith
scan_digits-append m (x ∷ t) c s h k =
    ground (arith, scan_digits-append (m * 10 + (x - b'0')) t c s h.1 k)

atol-digits_append :
    (t : Bytes) (c : ℕ) (s : Bytes)
    → AllDigits t
    → 0 < length t
    → (c < b'0') ⊎ (b'9' < c)
    → atol (t ++ c ∷ s) ≡ pos (scan_digits 0 t)
unfolding atol
atol-digits_append [] c s h l k = absurd (omega arith)
atol-digits_append (x ∷ t) c s h l k = ground (arith, scan_digits-append 0 (x ∷ t) c s h k)

-- `atol` reads a number up to the first byte that is no digit.
pub atol-decimal_append :
    (n c : ℕ) (s : Bytes) → (c < b'0') ⊎ (b'9' < c) → atol (decimal n ++ c ∷ s) ≡ pos n
atol-decimal_append n c s k =
    atol-digits_append (decimal n) c s (decimal-AllDigits n) (length-decimal_pos n) k
    ∙ ap pos (scan-decimal n)

atol-spaces : (n : ℕ) (s : Bytes) → atol (replicate n 0x20 ++ s) ≡ atol s
unfolding atol
atol-spaces zero s = refl
atol-spaces (suc n) s = atol-spaces n s

-- The width of a padded number is kept by every number that fits.
pub length-padded : (n w : ℕ) → n < 10 ^ suc w → length (padded (suc w) n) ≡ suc w
unfolding padded
length-padded n w h = omega (
  arith,
  length-append (replicate (suc w - length (decimal n)) 0x20) (decimal n),
  length-replicate {A = ℕ} (suc w - length (decimal n)) 0x20,
  length-decimal n w h,
)

-- `atol` of what `%*lld` prints is the number, at every width.
pub atol-padded : (w n : ℕ) → atol (padded w n) ≡ pos n
unfolding padded
atol-padded w n = atol-spaces (w - length (decimal n)) (decimal n) ∙ atol-decimal n
