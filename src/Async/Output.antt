-- ===== src/Async/Output.antt =====
-- rot13c2.c: the invariant holds in every run, and what a run that ends well has written.
use learning_notes.Base.{ℕ, ◌≡◌, inl, inr, sym, ◌∙◌, arith, ltb, length, get_elem?, Bool-cases}
use mathlib.Core.Path.{subst}
use learning_notes.Async.{
  translate, exited, Rot13, Step, walk, wake, reads, writes, fails, Reach, here, next,
}
use learning_notes.Base.Places.{get_elem?-ext, get_elem?-past, length-map}
use learning_notes.Async.Inv.{wanted, Pending-none, AtEnd, Inv}
use learning_notes.Async.Visit.{main_step-Inv}
use learning_notes.Async.System.{read_done-Inv, write_done-Inv, op_failed-Inv}

pub Step-Inv : {bsz : ℕ} {s t : Rot13} → Step bsz s t → Inv bsz s → Inv bsz t
Step-Inv {bsz} (walk s r w) v = main_step-Inv bsz s v r
Step-Inv {bsz} (wake s r w k) v = main_step-Inv bsz s v r
Step-Inv {bsz} (reads s k b r e a) v = read_done-Inv bsz s k b v r e a
Step-Inv {bsz} (writes s k b n r e a l) v = write_done-Inv bsz s k b n v r e a l
Step-Inv {bsz} (fails s k b n r e a) v = op_failed-Inv bsz s k b n v r e a

pub Reach-Inv : {bsz : ℕ} {s t : Rot13} → Reach bsz s t → Inv bsz s → Inv bsz t
Reach-Inv here v = v
Reach-Inv (next q st) v = Step-Inv st (Reach-Inv q v)

pub exit-wanted : {bsz : ℕ} (s : Rot13) → Inv bsz s → s.status ≡ exited → s.ofile ≡ wanted s.ifile
exit-wanted {bsz} s v e = get_elem?-ext s.ofile (wanted s.ifile) (λ p. at p)
  where
    ended : AtEnd s.numop s.st_size s.off exited
    ended = subst (AtEnd s.numop s.st_size s.off) e v.at_end

    at : (p : ℕ) → get_elem? s.ofile p ≡ get_elem? (wanted s.ifile) p
    at p = elim (Bool-cases (ltb p (length s.ifile))) [
      | inl inside ↦ elim (v.covered p (ground (arith, v.size, ended.1)) (ground arith)) [
        | inl pend ↦ absurd (Pending-none bsz p s.bufs (sym v.count ∙ ended.0) pend)
        | inr right ↦ right
      ]
      | inr outside ↦
          get_elem?-past s.ofile p (ground (arith, v.short))
          ∙ sym (get_elem?-past (wanted s.ifile) p (ground (arith, length-map translate s.ifile)))
    ]
