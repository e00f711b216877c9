-- ===== src/CString.antt =====
-- The text routines of the C library that apue.3e/db/db.c is written with: strchr, strcmp, atol,
-- and sprintf's `%lld` and `%*lld`, over bytes. A C string is the list of its bytes, without the NUL.
pub mod Digits
pub mod Fields
use learning_notes.Base.{
  ℕ, zero, suc, ◌+◌, ◌-◌, ◌*◌, ◌/◌, ◌%◌, Bool, true, false, ◌&&◌, ◌||◌, Option, none, some, List,
  [], ◌∷◌, ◌++◌, ltb, leb, ◌==◌, if◌then◌else◌, length, replicate,
}
use learning_notes.Base.Int.{ℤ, pos, neg}

abbrev pub Bytes : Type 0
Bytes = List ℕ

-- The C string at the front of a buffer: the bytes up to the first NUL.
unfoldable pub cstr : Bytes → Bytes
cstr [] = []
cstr (c ∷ s) = let rest = cstr s in if c == 0 then [] else c ∷ rest

-- `strchr` and the store of a NUL there: the text in front of the first `c`, and what follows it.
unfoldable pub split_at : ℕ → Bytes → Option (Bytes × Bytes)
split_at c [] = none
split_at c (x ∷ s) =
    let rest = split_at c s in
    if x == c then some ([], s) else elim rest [ none ↦ none | some (a, b) ↦ some (x ∷ a, b) ]

-- `strcmp(s, t) == 0`
unfoldable pub str_eq : Bytes → Bytes → Bool
str_eq [] [] = true
str_eq [] (y ∷ t) = false
str_eq (x ∷ s) [] = false
str_eq (x ∷ s) (y ∷ t) = x == y && str_eq s t

is_space : ℕ → Bool
is_space c = c == 0x20 || (leb 9 c && leb c 13)

is_digit : ℕ → Bool
is_digit c = leb b'0' c && leb c b'9'

scan_digits : ℕ → Bytes → ℕ
unfolding is_digit
scan_digits n [] = n
scan_digits n (c ∷ s) =
    let rest = scan_digits (n * 10 + (c - b'0')) s in if is_digit c then rest else n

scan_sign : Bytes → ℤ
unfolding scan_digits
scan_sign [] = pos 0
scan_sign (c ∷ s) =
    if c == b'-'
    then neg (scan_digits 0 s)
    else if c == b'+'
    then pos (scan_digits 0 s)
    else pos (scan_digits 0 (c ∷ s))

-- `atol` (and `atoi`), with no limit on the value
unfoldable pub atol : Bytes → ℤ
unfolding scan_sign is_space
atol [] = pos 0
atol (c ∷ s) = let rest = atol s in if is_space c then rest else scan_sign (c ∷ s)

decimal_loop : ℕ → ℕ → Bytes → Bytes
decimal_loop zero n out = out
decimal_loop (suc k) n out =
    let more = decimal_loop k (n / 10) ((b'0' + n % 10) ∷ out) in
    if ltb n 10 then (b'0' + n) ∷ out else more

-- `%lld`
unfoldable pub decimal : ℕ → Bytes
unfolding decimal_loop
decimal n = decimal_loop (n + 1) n []

-- `%*lld` at width `w`
unfoldable pub padded : ℕ → ℕ → Bytes
unfolding decimal
padded w n = replicate (w - length (decimal n)) 0x20 ++ decimal n
