-- ===== src/CString/Fields.antt =====
-- Cutting a C string at a separator, and its comparison.
use learning_notes.Base.{
  ℕ, ◌≤◌, ◌≡◌, ◌≢◌, refl, true, some, none, [], ◌∷◌, ◌++◌, arith, ==_of_ne, ==-refl, All, ap,
}
use learning_notes.CString.{Bytes, cstr, split_at, str_eq}
use learning_notes.CString.Digits.{AllDigits}

-- No byte of the text is `b`.
abbrev pub Lacks : ℕ → Bytes → Type 0
Lacks b = All (λ c. c ≢ b)

pub AllDigits-Lacks : (b : ℕ) (s : Bytes) → b ≤ 0x20 → AllDigits s → Lacks b s
AllDigits-Lacks b [] h d = tt
AllDigits-Lacks b (c ∷ s) h d = (omega arith, AllDigits-Lacks b s h d.1)

pub AllDigits-Lacks_above : (b : ℕ) (s : Bytes) → 0x3a ≤ b → AllDigits s → Lacks b s
AllDigits-Lacks_above b [] h d = tt
AllDigits-Lacks_above b (c ∷ s) h d = (omega arith, AllDigits-Lacks_above b s h d.1)

pub cstr_all : (s : Bytes) → Lacks 0 s → cstr s ≡ s
unfolding cstr
cstr_all [] h = refl
cstr_all (c ∷ s) h = rw (==_of_ne c 0 h.0) (ap (λ l. c ∷ l) (cstr_all s h.1))

-- The bytes in front of a NUL.
pub cstr-append : (s t : Bytes) → Lacks 0 s → cstr (s ++ 0 ∷ t) ≡ s
unfolding cstr
cstr-append [] t h = refl
cstr-append (c ∷ s) t h = rw (==_of_ne c 0 h.0) (ap (λ l. c ∷ l) (cstr-append s t h.1))

pub split_at-append : (c : ℕ) (s t : Bytes) → Lacks c s → split_at c (s ++ c ∷ t) ≡ some (s, t)
unfolding split_at
split_at-append c [] t h = rw (==-refl c) refl
split_at-append c (x ∷ s) t h = rw (==_of_ne x c h.0, split_at-append c s t h.1) refl

pub split_at-none : (c : ℕ) (s : Bytes) → Lacks c s → split_at c s ≡ none
unfolding split_at
split_at-none c [] h = refl
split_at-none c (x ∷ s) h = rw (==_of_ne x c h.0, split_at-none c s h.1) refl

pub str_eq_refl : (s : Bytes) → str_eq s s ≡ true
unfolding str_eq
str_eq_refl [] = refl
str_eq_refl (c ∷ s) = rw (==-refl c) (str_eq_refl s)

pub eq_of_str_eq : (s t : Bytes) → str_eq s t ≡ true → s ≡ t
unfolding str_eq
eq_of_str_eq [] [] h = refl
eq_of_str_eq [] (y ∷ t) h = cc
eq_of_str_eq (x ∷ s) [] h = cc
eq_of_str_eq (x ∷ s) (y ∷ t) h = ground (arith, eq_of_str_eq s t)
