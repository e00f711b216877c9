-- ===== src/MemStream/Modes.antt =====
-- type_to_flags, against a description of the types that it accepts.
use learning_notes.Base.{
  ℕ, ◌≡◌, refl, Bool, true, false, ◌&&◌, ◌||◌, Option, none, some, List, [], ◌∷◌, ◌==◌,
  if◌then◌else◌, arith,
}
use learning_notes.MemStream.{Flags, no_flags, is_empty, mode_loop, type_to_flags}

-- The flags of the letter that a type begins with.
abbrev pub base_mode : ℕ → Option Flags
base_mode c =
    if c == b'r'
    then some (record no_flags { reads = true })
    else if c == b'w'
    then some (record no_flags { writes = true; truncates = true })
    else if c == b'a'
    then some (record no_flags { appends = true })
    else none

-- Only `+` and `b`.
abbrev pub modifiers : List ℕ → Bool
modifiers [] = true
modifiers (c ∷ s) = (c == b'+' || c == b'b') && modifiers s

abbrev pub has_plus : List ℕ → Bool
has_plus [] = false
has_plus (c ∷ s) = c == b'+' || has_plus s

abbrev pub updating : Bool → Flags → Flags
updating true f = record f { reads = true; writes = true }
updating false f = f

-- The flags of a type: its first letter gives the mode, and the rest must be modifiers, of which a
-- `+` makes the stream one for update.
abbrev pub spec_flags : List ℕ → Option Flags
spec_flags [] = none
spec_flags (c ∷ s) = elim (base_mode c) [
  | none ↦ none
  | some f ↦ if modifiers s then some (updating (has_plus s) f) else none
]

updating_again : (b : Bool) (f : Flags) → updating b (updating true f) ≡ updating true f
updating_again true f = refl
updating_again false f = refl

mode_loop-modifiers :
    (s : List ℕ) (f : Flags)
    → is_empty f ≡ false
    → mode_loop s f ≡ (if modifiers s then some (updating (has_plus s) f) else none)
unfolding mode_loop is_empty
mode_loop-modifiers [] f h = refl
mode_loop-modifiers (c ∷ s) f h = ground (
  arith,
  mode_loop-modifiers s f h,
  mode_loop-modifiers s (record f { reads = true; writes = true }) refl,
  updating_again (has_plus s) f,
)

-- type_to_flags accepts exactly the types that are one of `r`, `w` and `a` with any number of `+` and
-- `b` behind it, and gives them the flags of the letter, with those of reading and writing if there
-- is a `+`.
pub type_to_flags-spec_flags : (type : List ℕ) → type_to_flags type ≡ spec_flags type
unfolding type_to_flags is_empty
type_to_flags-spec_flags [] = refl
type_to_flags-spec_flags (c ∷ s) = ground (
  arith,
  mode_loop-modifiers s (record no_flags { reads = true }) refl,
  mode_loop-modifiers s (record no_flags { writes = true; truncates = true }) refl,
  mode_loop-modifiers s (record no_flags { appends = true }) refl,
)
