-- ===== src/Printer/Header.antt =====
-- printd.c: add_option and readmore.
use learning_notes.Base.{
  ℕ, ◌+◌, ◌-◌, ◌/◌, ◌%◌, Option, none, some, [], ◌∷◌, ◌++◌, ◌==◌, leb, if◌then◌else◌, length, write,
}
use learning_notes.CString.{Bytes}

-- The two bytes of `htons`
abbrev pub htons : ℕ → Bytes
htons n = (n / 256 % 256) ∷ (n % 256) ∷ []

-- add_option, onto the bytes in front of `cp`
unfoldable pub add_option : Bytes → ℕ → Bytes → Bytes → Bytes
add_option cp tag optname optval =
    cp
    ++ (((tag % 256) ∷ [])
        ++ (htons (length optname) ++ (optname ++ (htons (length optval) ++ optval))))

-- IOBUFSZ
abbrev pub iobufsz : ℕ
iobufsz = 8192

-- The buffer of readmore after it may have been enlarged, by bytes that are not yet set.
unfoldable pub grow : Bytes → ℕ → Bytes → Bytes
grow fresh off bp = if leb (length bp) off then bp ++ fresh else bp

-- The buffer and the end of its data after `tread` returned; `none` is -1.
unfoldable pub read_into : Bytes → ℕ → Option Bytes → Bytes × Option ℕ
read_into bp off none = (bp, none)
read_into bp off (some got) =
    if length got == 0 then (bp, none) else (write bp off got, some (off + length got))

-- readmore. `tread` gets the room that is left, and gives back the bytes that it read; `fresh` is
-- the memory that `realloc` adds.
unfoldable pub readmore : (ℕ → Option Bytes) → Bytes → ℕ → Bytes → Bytes × Option ℕ
readmore tread fresh off bp =
    read_into (grow fresh off bp) off (tread (length (grow fresh off bp) - off))
