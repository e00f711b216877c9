-- ===== src/Transfer/Tests.antt =====
-- A reader and a writer that transfer two bytes at a time.
use learning_notes.Base.{
  ℕ, zero, suc, ◌≡◌, ◌<◌, refl, sym, ap, min, Option, some, List, [], ◌∷◌, ◌++◌, length, take, drop,
  arith, take-append-drop, length-take,
}
use learning_notes.Transfer.{Bytes, readn, writen}
use learning_notes.Transfer.Laws.{Reads, Flowing, Complete, readn-Complete}
use learning_notes.Transfer.WriteLaws.{WriteStep, Writes, writen-WriteStep}

abbrev read_two : Bytes → ℕ → Option Bytes × Bytes
read_two s n = (some (take (min 2 n) s), drop (min 2 n) s)

abbrev whole : Bytes → Bytes
whole s = s

read_two-Reads : Reads read_two whole
read_two-Reads s n = (sym (take-append-drop (min 2 n) s), omega (arith, length-take (min 2 n) s))

empty_front : (s : Bytes) (n : ℕ) → 0 < n → take (min 2 n) s ≡ [] → s ≡ []
empty_front [] n h e = refl
empty_front (x ∷ s) zero h e = elim h [ ]
empty_front (x ∷ s) (suc n) h e =
    absurd (omega (arith, length-take (min 2 (suc n)) (x ∷ s), ap (λ (r : List ℕ). length r) e))

read_two-Flowing : Flowing read_two whole
read_two-Flowing = record {
  bytes = λ s n. take (min 2 n) s;
  after = λ s n. drop (min 2 n) s;
  call = λ s n. refl;
  front = λ s n. sym (take-append-drop (min 2 n) s);
  bound = λ s n. omega (arith, length-take (min 2 n) s);
  ends = empty_front;
}

readn-Complete_example : Complete whole (1 ∷ 2 ∷ 3 ∷ []) 5 (readn read_two 5 (1 ∷ 2 ∷ 3 ∷ []))
readn-Complete_example = readn-Complete read_two whole 5 (1 ∷ 2 ∷ 3 ∷ []) read_two-Flowing

abbrev write_two : Bytes → Bytes → Option ℕ × Bytes
write_two s bytes = (some (min 2 (length bytes)), s ++ take (min 2 (length bytes)) bytes)

write_two-Writes : Writes write_two whole
write_two-Writes s bytes = (refl, omega arith)

writen-WriteStep_example :
    WriteStep whole [] (1 ∷ 2 ∷ 3 ∷ []) (writen write_two (1 ∷ 2 ∷ 3 ∷ []) [])
writen-WriteStep_example = writen-WriteStep write_two whole (1 ∷ 2 ∷ 3 ∷ []) [] write_two-Writes
