-- ===== src/Db/Rows.antt =====
-- One bucket of a database is given other records, and the others keep theirs.
use mathlib.Core.Path.{subst}
use learning_notes.Base.{
  ℕ, ◌≡◌, ◌≢◌, refl, inl, inr, List, ◌==◌, if◌then◌else◌, arith, ==-refl, Bool-cases,
}
use learning_notes.Db.Chain.{Cell}

unfoldable pub update : (ℕ → List Cell) → ℕ → List Cell → ℕ → List Cell
update rows b0 cs b = if b == b0 then cs else rows b

pub update-at : (rows : ℕ → List Cell) (b0 : ℕ) (cs : List Cell) → update rows b0 cs b0 ≡ cs
unfolding update
update-at rows b0 cs = rw (==-refl b0) refl

-- What holds of the new records in their bucket, and of the others in theirs, holds in each.
pub update-ind {ℓ} :
    (P : ℕ → List Cell → Type ℓ) (rows : ℕ → List Cell) (b0 : ℕ) (cs : List Cell)
    → P b0 cs
    → ((b : ℕ) → b ≢ b0 → P b (rows b))
    → (b : ℕ) → P b (update rows b0 cs b)
unfolding update
update-ind P rows b0 cs new old b = elim (Bool-cases (b == b0)) [
  | inl e ↦ rw e (let same : b0 ≡ b = ground arith in subst (λ (t : ℕ). P t cs) same new)
  | inr n ↦ rw n (old b (λ e. ground arith))
]
