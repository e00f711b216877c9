-- ===== src/Barrier/Laws.antt =====
-- barrier.c: the merge of what is left of each stretch puts out all numbers in order.
use mathlib.Core.Path.{subst}
use learning_notes.Base.{
  ℕ, zero, suc, ◌≤◌, ◌<◌, ◌≡◌, refl, ap, sym, ◌∙◌, some, List, [], ◌∷◌, arith, get_elem?, set, All,
  All-map,
}
use learning_notes.Base.Places.{All-set, All-get}
use learning_notes.Barrier.{long_max}
use learning_notes.Barrier.Runs.{
  IsSorted, count, total, count_all, pick, head_of, tail_of, merge_runs, HeadGe, round_lem,
  total-set, count_all-set, get_or-get_elem?,
}

-- The stretches are sorted, and hold numbers below LONG_MAX.
abbrev pub AllSorted : List (List ℕ) → Type 0
AllSorted = All IsSorted

abbrev pub Below : List (List ℕ) → Type 0
Below = All (All (λ x. x < long_max))

-- All of a sorted stretch is above what its front is above.
front-All : (y : ℕ) (r : List ℕ) → HeadGe y r → IsSorted r → All (λ x. y ≤ x) r
front-All y [] h s = tt
front-All y (z ∷ zs) h s = (h, All-map (λ x. z ≤ x) (λ x. y ≤ x) (λ x p. omega arith) zs s.0)

fronts-All :
    (y : ℕ) (rs : List (List ℕ)) → All (HeadGe y) rs → AllSorted rs → All (All (λ x. y ≤ x)) rs
fronts-All y [] h s = tt
fronts-All y (r ∷ rs) h s = (front-All y r h.0 s.0, fronts-All y rs h.1 s.1)

-- A round, with the rest of the loop.
step-eq :
    (n : ℕ) (rs : List (List ℕ)) (m y : ℕ) (ys : List ℕ)
    → get_elem? rs (pick 0 rs long_max m) ≡ some (y ∷ ys)
    → merge_runs (suc n) rs m
      ≡ y ∷ merge_runs n (set rs (pick 0 rs long_max m) ys) (pick 0 rs long_max m)
unfolding merge_runs
step-eq n rs m y ys e =
    ap
      (λ (r : List ℕ).
        head_of r ∷ merge_runs n (set rs (pick 0 rs long_max m) (tail_of r)) (pick 0 rs long_max m))
      (get_or-get_elem? rs (pick 0 rs long_max m) e)

pub merge_runs-IsSorted :
    (n : ℕ) (rs : List (List ℕ)) (m lo : ℕ)
    → total rs ≡ n
    → AllSorted rs
    → Below rs
    → All (All (λ x. lo ≤ x)) rs
    → All (λ x. lo ≤ x) (merge_runs n rs m) × IsSorted (merge_runs n rs m)
unfolding merge_runs
merge_runs-IsSorted zero rs m lo t s b l = (tt, tt)
merge_runs-IsSorted (suc n) rs m lo t s b l =
    let (y, ys, e, fronts) = round_lem rs n m t b in
    let k = pick 0 rs long_max m in
    let all = fronts-All y rs fronts s in
    let (above, sorted) =
      merge_runs-IsSorted n (set rs k ys) k y (omega (arith, total-set rs k y ys e))
        (All-set IsSorted rs k ys s (All-get IsSorted rs k e s).1)
        (All-set (All (λ x. x < long_max)) rs k ys b (All-get (All (λ x. x < long_max)) rs k e b).1)
        (All-set (All (λ x. y ≤ x)) rs k ys all (All-get (All (λ x. y ≤ x)) rs k e all).1) in
    let low = (All-get (All (λ x. lo ≤ x)) rs k e l).0 in
    subst (λ (out : List ℕ). All (λ x. lo ≤ x) out × IsSorted out) (sym (step-eq n rs m y ys e))
      (
        (
          low,
          All-map (λ x. y ≤ x) (λ x. lo ≤ x) (λ x p. omega arith) (merge_runs n (set rs k ys) k)
              above,
        ),
        (above, sorted),
      )

pub count-merge_runs :
    (a n : ℕ) (rs : List (List ℕ)) (m : ℕ)
    → total rs ≡ n
    → Below rs
    → count a (merge_runs n rs m) ≡ count_all a rs
unfolding merge_runs
count-merge_runs a zero rs m t b = sym (empty rs t)
  where
    empty : (rs : List (List ℕ)) → total rs ≡ 0 → count_all a rs ≡ 0
    empty [] t = refl
    empty ([] ∷ rs) t = omega (arith, empty rs (omega arith))
    empty ((y ∷ ys) ∷ rs) t = absurd (omega arith)
count-merge_runs a (suc n) rs m t b =
    let (y, ys, e, fronts) = round_lem rs n m t b in
    let k = pick 0 rs long_max m in
    let ih = count-merge_runs a n (set rs k ys) k (omega (arith, total-set rs k y ys e)) (
      All-set (All (λ x. x < long_max)) rs k ys b (All-get (All (λ x. x < long_max)) rs k e b).1) in
    ap (count a) (step-eq n rs m y ys e) ∙ omega (arith, ih, count_all-set a rs k y ys e)
