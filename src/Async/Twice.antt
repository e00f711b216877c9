-- ===== src/Async/Twice.antt =====
-- rot13c2.c: the program undoes itself.
use learning_notes.Base.{
  Bool-cases, inl, inr, ℕ, zero, suc, ◌<◌, ◌≡◌, refl, ap, ◌∙◌, Bool, true, ◌&&◌, [], ◌∷◌, arith,
  ◌==◌, map, All,
}
use learning_notes.CString.{Bytes}
use learning_notes.Async.{translate, exited, Rot13, initial, Reach}
use learning_notes.Async.Fixed.{exit-translate}

-- translate undoes itself on the bytes below `n`.
undone : ℕ → Bool
undone zero = true
undone (suc c) = undone c && translate (translate c) == c

undone-translate : (n c : ℕ) → undone n ≡ true → c < n → translate (translate c) ≡ c
unfolding undone
undone-translate zero c e l = elim l [ ]
undone-translate (suc n) c e l = elim (Bool-cases (c == n)) [
  | inl last ↦ let same : c ≡ n = ground arith in rw same (ground arith)
  | inr front ↦ undone-translate n c (ground arith) (ground arith)
]

bytes_undone : undone 256 ≡ true
unfolding undone translate
bytes_undone = refl

translate_twice : (c : ℕ) → c < 256 → translate (translate c) ≡ c
translate_twice c l = undone-translate 256 c bytes_undone l

map-translate_twice : (s : Bytes) → All (λ c. c < 256) s → map translate (map translate s) ≡ s
map-translate_twice [] h = refl
map-translate_twice (c ∷ s) h = rw (translate_twice c h.0, map-translate_twice s h.1) refl

-- A run that ends well on the output of a run that ended well puts back the bytes of the file.
pub exit-exit :
    (bsz nbuf bsz' nbuf' : ℕ) (file : Bytes) {s t : Rot13}
    → All (λ c. c < 256) file
    → Reach bsz (initial bsz nbuf file) s
    → s.status ≡ exited
    → Reach bsz' (initial bsz' nbuf' s.ofile) t
    → t.status ≡ exited
    → t.ofile ≡ file
exit-exit bsz nbuf bsz' nbuf' file {s} {t} h p e q d =
    exit-translate bsz' nbuf' s.ofile q d
    ∙ ap (map translate) (exit-translate bsz nbuf file p e)
    ∙ map-translate_twice file h
