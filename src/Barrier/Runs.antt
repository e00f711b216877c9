-- ===== src/Barrier/Runs.antt =====
-- barrier.c: merge over the list of what is left of each stretch.
use learning_notes.Base.{
  ℕ, zero, suc, ◌+◌, ◌≤◌, ◌<◌, ◌≡◌, ◌⊎◌, inl, inr, refl, ap, some, List, [], ◌∷◌, arith, ltb, ◌==◌,
  if◌then◌else◌, length, get_elem?, get_or, set, All, Bool-cases,
}
use learning_notes.Barrier.{long_max}

abbrev pub IsSorted : List ℕ → Type 0
IsSorted [] = Unit
IsSorted (x ∷ xs) = All (λ y. x ≤ y) xs × IsSorted xs

-- How often a number stands in a list.
abbrev pub count : ℕ → List ℕ → ℕ
count num [] = 0
count num (first ∷ nums) = (if first == num then 1 else 0) + count num nums

abbrev pub total : List (List ℕ) → ℕ
total [] = 0
total (r ∷ rs) = length r + total rs

abbrev pub count_all : ℕ → List (List ℕ) → ℕ
count_all a [] = 0
count_all a (r ∷ rs) = count a r + count_all a rs

-- The inner loop, over what is left.
unfoldable pub pick : ℕ → List (List ℕ) → ℕ → ℕ → ℕ
pick i [] num m = m
pick i ([] ∷ rs) num m = pick (i + 1) rs num m
pick i ((y ∷ ys) ∷ rs) num m =
    pick (i + 1) rs (if ltb y num then y else num) (if ltb y num then i else m)

abbrev pub head_of : List ℕ → ℕ
head_of [] = 0
head_of (y ∷ ys) = y

abbrev pub tail_of : List ℕ → List ℕ
tail_of [] = []
tail_of (y ∷ ys) = ys

-- The outer loop.
unfoldable pub merge_runs : ℕ → List (List ℕ) → ℕ → List ℕ
merge_runs zero rs m = []
merge_runs (suc n) rs m =
    let k = pick 0 rs long_max m in
    head_of (get_or rs k []) ∷ merge_runs n (set rs k (tail_of (get_or rs k []))) k

abbrev pub HeadGe : ℕ → List ℕ → Type 0
HeadGe y [] = Unit
HeadGe y (z ∷ zs) = y ≤ z

-- A stretch is found whose front is the least of all and below `num`, or there is no front below.
abbrev pub Picked : ℕ → List (List ℕ) → ℕ → ℕ → ℕ → Type 0
Picked i rs num m k =
    ((k ≡ m) × All (HeadGe num) rs)
    ⊎ ((j : ℕ) × (y : ℕ) × (ys : List ℕ) × (k ≡ i + j)
        × (get_elem? rs j ≡ some (y ∷ ys))
        × (y < num)
        × All (HeadGe y) rs)

HeadGe-le : (x y : ℕ) → x ≤ y → (r : List ℕ) → HeadGe y r → HeadGe x r
HeadGe-le x y h [] g = tt
HeadGe-le x y h (z ∷ r) g = omega arith

shift :
    (i : ℕ) (r : List ℕ) (rs : List (List ℕ)) (num m k : ℕ)
    → ((x : ℕ) → x ≤ num → HeadGe x r)
    → Picked (i + 1) rs num m k
    → Picked i (r ∷ rs) num m k
shift i r rs num m k h (inl (e, all)) = inl (e, (h num (omega arith), all))
shift i r rs num m k h (inr (j, y, ys, e, at, lt, all)) =
    inr (suc j, y, ys, omega arith, at, lt, (h y (omega arith), all))

pub pick-Picked : (i : ℕ) (rs : List (List ℕ)) (num m : ℕ) → Picked i rs num m (pick i rs num m)
unfolding pick
pick-Picked i [] num m = inl (refl, tt)
pick-Picked i ([] ∷ rs) num m =
    shift i [] rs num m (pick (i + 1) rs num m) (λ x h. tt) (pick-Picked (i + 1) rs num m)
pick-Picked i ((y ∷ ys) ∷ rs) num m = elim (Bool-cases (ltb y num)) [
  | inr no' ↦ rw no' (
      shift i (y ∷ ys) rs num m (pick (i + 1) rs num m) (λ x h. ground arith)
        (pick-Picked (i + 1) rs num m))
  | inl yes' ↦ rw yes' (elim (pick-Picked (i + 1) rs y i) [
    | inl (e, all) ↦ inr (0, y, ys, omega arith, refl, ground arith, (omega arith, all))
    | inr (j, z, zs, e, at, lt, all) ↦
        inr (suc j, z, zs, omega arith, at, ground arith, (omega arith, all))
  ])
]

none_left :
    (rs : List (List ℕ))
    → All (HeadGe long_max) rs
    → All (All (λ x. x < long_max)) rs
    → total rs ≡ 0
none_left [] h b = refl
none_left ([] ∷ rs) h b = omega (arith, none_left rs h.1 b.1)
none_left ((y ∷ ys) ∷ rs) h b =
    absurd (let lo : long_max ≤ y = h.0 in let hi : y < long_max = b.0.0 in lt_irrefl_of lo hi)
  where
    lt_irrefl_of : {a c : ℕ} → a ≤ c → c < a → ⊥
    lt_irrefl_of p q = omega arith

pub total-set :
    (rs : List (List ℕ)) (j y : ℕ) (ys : List ℕ)
    → get_elem? rs j ≡ some (y ∷ ys)
    → total rs ≡ suc (total (set rs j ys))
total-set [] j y ys e = cc
total-set (r ∷ rs) zero y ys e =
    let q : r ≡ y ∷ ys = cc in omega (arith, ap (λ (t : List ℕ). length t) q)
total-set (r ∷ rs) (suc j) y ys e = omega (arith, total-set rs j y ys e)

pub count_all-set :
    (a : ℕ) (rs : List (List ℕ)) (j y : ℕ) (ys : List ℕ)
    → get_elem? rs j ≡ some (y ∷ ys)
    → count_all a rs ≡ (if y == a then 1 else 0) + count_all a (set rs j ys)
count_all-set a [] j y ys e = cc
count_all-set a (r ∷ rs) zero y ys e =
    let q : r ≡ y ∷ ys = cc in omega (arith, ap (λ (t : List ℕ). count a t) q)
count_all-set a (r ∷ rs) (suc j) y ys e = omega (arith, count_all-set a rs j y ys e)

pub get_or-get_elem? :
    (rs : List (List ℕ)) (j : ℕ) {r : List ℕ} → get_elem? rs j ≡ some r → get_or rs j [] ≡ r
get_or-get_elem? [] j e = cc
get_or-get_elem? (x ∷ rs) zero e = cc
get_or-get_elem? (x ∷ rs) (suc j) e = get_or-get_elem? rs j e

-- One round, while something is left: the number taken is the least of all.
abbrev pub Round : List (List ℕ) → ℕ → Type 0
Round rs m =
    (y : ℕ) × (ys : List ℕ) × (get_elem? rs (pick 0 rs long_max m) ≡ some (y ∷ ys))
    × All (HeadGe y) rs

pub round_lem :
    (rs : List (List ℕ)) (n m : ℕ)
    → total rs ≡ suc n
    → All (All (λ x. x < long_max)) rs
    → Round rs m
round_lem rs n m t b = elim (pick-Picked 0 rs long_max m) [
  | inl (e, all) ↦ absurd (omega (arith, none_left rs all b))
  | inr (j, y, ys, e, at, lt, all) ↦
      let same : pick 0 rs long_max m ≡ j = omega arith in (y, ys, rw same at, all)
]
