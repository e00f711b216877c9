-- ===== src/Printer/Laws.antt =====
-- printd.c: an option can be read back, and readmore stays within its buffer.
use learning_notes.Base.{
  ℕ, ◌+◌, ◌-◌, ◌*◌, ◌/◌, ◌%◌, ◌^◌, ◌≡◌, ◌≤◌, ◌<◌, refl, Option, none, some, [], ◌∷◌, ◌++◌, length,
  take, drop, arith, length-append, append_assoc, length-write, take-append_length,
  drop-append_length,
}
use learning_notes.CString.{Bytes}
use learning_notes.Printer.Header.{htons, add_option, grow, read_into, readmore}

-- The number at a place, and the bytes behind it.
abbrev pub ntohs : Bytes → ℕ
ntohs [] = 0
ntohs (h ∷ []) = 0
ntohs (h ∷ l ∷ s) = h * 256 + l

-- An option from the front of a header: tag, name and value, and what follows.
pub take_option : Bytes → Option (ℕ × Bytes × Bytes × Bytes)
take_option [] = none
take_option (tag ∷ s) =
    let name_len = ntohs s in
    let s1 = drop 2 s in
    let val_len = ntohs (drop name_len s1) in
    let s2 = drop 2 (drop name_len s1) in
    some (tag, take name_len s1, take val_len s2, drop val_len s2)

ntohs-htons : (n : ℕ) (s : Bytes) → n < 2 ^ 16 → ntohs (htons n ++ s) ≡ n
ntohs-htons n s h = omega arith

-- An option whose name and value are shorter than 2^16 bytes is read back from where add_option put
-- it, whatever follows it.
pub add_option-take_option :
    (cp : Bytes) (tag : ℕ) (optname optval s : Bytes)
    → tag < 256
    → length optname < 2 ^ 16
    → length optval < 2 ^ 16
    → take_option (drop (length cp) (add_option cp tag optname optval ++ s))
      ≡ some (tag, optname, optval, s)
unfolding add_option take_option
add_option-take_option cp tag optname optval s t n v =
    let tag_same : tag % 256 ≡ tag = omega arith in
    let name_len : length optname / 256 % 256 * 256 + length optname % 256 ≡ length optname =
      omega arith in
    let val_len : length optval / 256 % 256 * 256 + length optval % 256 ≡ length optval =
      omega arith in
    let rest = (length optval / 256 % 256) ∷ (length optval % 256) ∷ (optval ++ s) in
    rw
      (
        append_assoc cp
            ((tag % 256)
              ∷ (htons (length optname) ++ (optname ++ (htons (length optval) ++ optval))))
            s,
        drop-append_length cp (
            ((tag % 256)
              ∷ (htons (length optname) ++ (optname ++ (htons (length optval) ++ optval))))
            ++ s),
        append_assoc optname (htons (length optval) ++ optval) s,
        name_len,
        take-append_length optname rest,
        drop-append_length optname rest,
        val_len,
        take-append_length optval s,
        drop-append_length optval s,
        tag_same,
      )
      refl

read_into-bounds :
    (bp : Bytes) (off : ℕ) (r : Option Bytes) {bp' : Bytes} {end : ℕ}
    → off ≤ length bp
    → ((got : Bytes) → r ≡ some got → length got ≤ length bp - off)
    → read_into bp off r ≡ (bp', some end)
    → (off < end) × (end ≤ length bp') × (length bp ≤ length bp')
unfolding read_into
read_into-bounds bp off none l h e = absurd (ground arith)
read_into-bounds bp off (some got) l h e = ground (arith, h got refl, length-write bp off got l)

grow-bounds :
    (fresh : Bytes) (off : ℕ) (bp : Bytes)
    → off ≤ length bp
    → length bp ≤ length (grow fresh off bp)
unfolding grow
grow-bounds fresh off bp l = ground (arith, length-append bp fresh)

-- If `tread` keeps to the room that it is given, the data that readmore reports end behind where
-- they ended before and within the buffer, which is no smaller than before.
pub readmore-bounds :
    (tread : ℕ → Option Bytes) (fresh bp : Bytes) (off : ℕ) {bp' : Bytes} {end : ℕ}
    → ((room : ℕ) (got : Bytes) → tread room ≡ some got → length got ≤ room)
    → off ≤ length bp
    → readmore tread fresh off bp ≡ (bp', some end)
    → (off < end) × (end ≤ length bp') × (length bp ≤ length bp')
unfolding readmore
readmore-bounds tread fresh bp off h l e =
    let g = grow-bounds fresh off bp l in
    let (a, b, c) =
      read_into-bounds (grow fresh off bp) off (tread (length (grow fresh off bp) - off))
        (omega arith) (h (length (grow fresh off bp) - off)) e in
    (a, b, omega arith)
