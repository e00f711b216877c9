-- ===== src/Barrier/Rests.antt =====
-- barrier.c: the array with its indices, as the list of what is left of each stretch.
use learning_notes.Base.{
  ℕ, zero, suc, ◌+◌, ◌-◌, ◌*◌, ◌≤◌, ◌<◌, ◌≡◌, inl, inr, refl, ap, sym, some, List, [], ◌∷◌, ◌++◌,
  arith, ltb, length, get_elem?, get_or, set, slice, take, drop, length-slice, slice-add, All,
  Bool-cases,
}
use learning_notes.Base.Places.{All-set, All-get}
use learning_notes.Barrier.{long_max, init_idx, min_loop, merge_loop}
use learning_notes.Barrier.Runs.{
  IsSorted, count, total, count_all, pick, merge_runs, round_lem, total-set, get_or-get_elem?,
}

pub count-append :
    (num : ℕ) (front back : List ℕ) → count num (front ++ back) ≡ count num front + count num back
count-append num [] back = omega arith
count-append num (first ∷ front) back = omega (arith, count-append num front back)

module _ (tnum : ℕ) (nums : List ℕ) where
  -- What is left of stretch `i` from index `x` on, and of each stretch.
  abbrev pub rest : ℕ → ℕ → List ℕ
  rest i x = slice nums x ((i + 1) * tnum - x)

  abbrev pub rests : ℕ → List ℕ → List (List ℕ)
  rests i [] = []
  rests i (x ∷ idx) = rest i x ∷ rests (i + 1) idx

  -- The indices lie in their stretches, which lie in the array.
  abbrev pub Inside : ℕ → List ℕ → Type 0
  Inside i [] = Unit
  Inside i (x ∷ idx) = (x ≤ (i + 1) * tnum) × ((i + 1) * tnum ≤ length nums) × Inside (i + 1) idx

  slice-front_item :
      (xs : List ℕ) (x n : ℕ)
      → x < length xs
      → slice xs x (suc n) ≡ get_or xs x 0 ∷ slice xs (suc x) n
  slice-front_item [] x n h = absurd (omega arith)
  slice-front_item (y ∷ xs) zero n h = refl
  slice-front_item (y ∷ xs) (suc x) n h = slice-front_item xs x n (omega arith)

  rest-cons :
      (i x : ℕ)
      → x < (i + 1) * tnum
      → (i + 1) * tnum ≤ length nums
      → rest i x ≡ get_or nums x 0 ∷ rest i (x + 1)
  rest-cons i x h l =
      let n : (i + 1) * tnum - x ≡ suc ((i + 1) * tnum - (x + 1)) = omega arith in
      let e : x + 1 ≡ suc x = omega arith in
      rw (n, slice-front_item nums x ((i + 1) * tnum - (x + 1)) (omega arith), e) refl

  rest-nil : (i x : ℕ) → (i + 1) * tnum ≤ x → rest i x ≡ []
  rest-nil i x h = let n : (i + 1) * tnum - x ≡ 0 = omega arith in rw n refl

  pub min_loop-pick :
      (i : ℕ) (idx : List ℕ) (num m : ℕ)
      → Inside i idx
      → min_loop tnum nums i idx num m ≡ pick i (rests i idx) num m
  unfolding min_loop pick
  min_loop-pick i [] num m v = refl
  min_loop-pick i (x ∷ idx) num m (lo, hi, v) = elim (Bool-cases (ltb x ((i + 1) * tnum))) [
    | inr over ↦ rw (over, rest-nil i x (ground arith)) (min_loop-pick (i + 1) idx num m v)
    | inl on ↦ rw (on, rest-cons i x (ground arith) hi) (min_loop-pick (i + 1) idx _ _ v)
  ]

  get_or-rests :
      (i : ℕ) (idx : List ℕ) (j y : ℕ) (ys : List ℕ)
      → Inside i idx
      → get_elem? (rests i idx) j ≡ some (y ∷ ys)
      → (get_or nums (get_or idx j 0) 0 ≡ y)
        × (set (rests i idx) j ys ≡ rests i (set idx j (get_or idx j 0 + 1)))
        × Inside i (set idx j (get_or idx j 0 + 1))
  get_or-rests i [] j y ys v e = cc
  get_or-rests i (x ∷ idx) zero y ys (lo, hi, v) e = elim (Bool-cases (ltb x ((i + 1) * tnum))) [
    | inr over ↦ let nil : rest i x ≡ [] = rest-nil i x (ground arith) in absurd (cc)
    | inl on ↦
        let cons : rest i x ≡ get_or nums x 0 ∷ rest i (x + 1) = rest-cons i x (ground arith) hi in
        let same : get_or nums x 0 ∷ rest i (x + 1) ≡ y ∷ ys = cc in
        let front : get_or nums x 0 ≡ y = cc in
        let back : rest i (x + 1) ≡ ys = cc in
        (front, ap (λ r. r ∷ rests (i + 1) idx) (sym back), (ground arith, hi, v))
  ]
  get_or-rests i (x ∷ idx) (suc j) y ys (lo, hi, v) e =
      let (front, tail', inside) = get_or-rests (i + 1) idx j y ys v e in
      (front, ap (λ rs. rest i x ∷ rs) tail', (lo, hi, inside))

  -- The loop over the array is the loop over what is left.
  pub merge_loop-runs :
      (n : ℕ) (idx : List ℕ) (m : ℕ)
      → Inside 0 idx
      → total (rests 0 idx) ≡ n
      → All (All (λ x. x < long_max)) (rests 0 idx)
      → merge_loop tnum nums n idx m ≡ merge_runs n (rests 0 idx) m
  unfolding merge_loop merge_runs
  merge_loop-runs zero idx m v t b = refl
  merge_loop-runs (suc n) idx m v t b =
      let (y, ys, e, _) = round_lem (rests 0 idx) n m t b in
      let k = pick 0 (rests 0 idx) long_max m in
      let (front, back, inside) = get_or-rests 0 idx k y ys v e in
      let ih =
        merge_loop-runs n (set idx k (get_or idx k 0 + 1)) k inside
          (rw (← back) (omega (arith, total-set (rests 0 idx) k y ys e)))
          (rw (← back) (
            All-set (All (λ x. x < long_max)) (rests 0 idx) k ys b
              (All-get (All (λ x. x < long_max)) (rests 0 idx) k e b).1)) in
      rw (min_loop-pick 0 idx long_max m v, front, ih, ← back, get_or-get_elem? (rests 0 idx) k e)
        refl

  -- At the start what is left of a stretch is the stretch.
  pub Inside-init : (n i : ℕ) → (i + n) * tnum ≤ length nums → Inside i (init_idx tnum nums n i)
  unfolding init_idx
  Inside-init zero i h = tt
  Inside-init (suc n) i h =
      let e : (i + suc n) * tnum ≡ (i + 1) * tnum + n * tnum = grind arith in
      let e' : (i + 1 + n) * tnum ≡ (i + 1) * tnum + n * tnum = grind arith in
      let e'' : (i + 1) * tnum ≡ i * tnum + tnum = grind arith in
      (omega arith, omega arith, Inside-init n (i + 1) (omega arith))

  rest_size : (i : ℕ) → (i + 1) * tnum - i * tnum ≡ tnum
  rest_size i = let e : (i + 1) * tnum ≡ i * tnum + tnum = grind arith in omega arith

  pub total-init :
      (n i : ℕ) → (i + n) * tnum ≤ length nums → total (rests i (init_idx tnum nums n i)) ≡ n * tnum
  unfolding init_idx
  total-init zero i h = omega arith
  total-init (suc n) i h =
      let e : (i + suc n) * tnum ≡ i * tnum + tnum + n * tnum = grind arith in
      let e' : (i + 1 + n) * tnum ≡ i * tnum + tnum + n * tnum = grind arith in
      let e'' : (i + 1) * tnum - i * tnum ≡ tnum = rest_size i in
      let e3 : suc n * tnum ≡ tnum + n * tnum = grind arith in
      rw e'' (
        omega (
          arith,
          length-slice nums (i * tnum) tnum (omega arith),
          total-init n (i + 1) (omega arith),
        ))

  -- The stretches together are the array.
  pub count_all-init :
      (a n i : ℕ)
      → count_all a (rests i (init_idx tnum nums n i)) ≡ count a (slice nums (i * tnum) (n * tnum))
  unfolding init_idx
  count_all-init a zero i = let e : 0 * tnum ≡ 0 = omega arith in rw e refl
  count_all-init a (suc n) i =
      let e : suc n * tnum ≡ tnum + n * tnum = grind arith in
      let e' : i * tnum + tnum ≡ (i + 1) * tnum = grind arith in
      rw (rest_size i, e, slice-add nums (i * tnum) tnum (n * tnum), e')
        (omega (
          arith,
          count-append a (slice nums (i * tnum) tnum) (slice nums ((i + 1) * tnum) (n * tnum)),
          count_all-init a n (i + 1),
        ))

  All-slice {ℓ} : (P : ℕ → Type ℓ) (xs : List ℕ) (o n : ℕ) → All P xs → All P (slice xs o n)
  All-slice P xs o n h = All-take n (drop o xs) (All-drop o xs h)
    where
      All-take : (n : ℕ) (xs : List ℕ) → All P xs → All P (take n xs)
      All-take zero xs h = tt
      All-take (suc n) [] h = tt
      All-take (suc n) (x ∷ xs) h = (h.0, All-take n xs h.1)

      All-drop : (n : ℕ) (xs : List ℕ) → All P xs → All P (drop n xs)
      All-drop zero xs h = h
      All-drop (suc n) [] h = tt
      All-drop (suc n) (x ∷ xs) h = All-drop n xs h.1

  pub below-init :
      (idx : List ℕ) (i : ℕ)
      → All (λ x. x < long_max) nums
      → All (All (λ x. x < long_max)) (rests i idx)
  below-init [] i h = tt
  below-init (x ∷ idx) i h =
      (All-slice (λ x. x < long_max) nums x ((i + 1) * tnum - x) h, below-init idx (i + 1) h)

  -- Each stretch of the array is sorted.
  abbrev pub Stretches : ℕ → ℕ → Type 0
  Stretches zero i = Unit
  Stretches (suc n) i = IsSorted (slice nums (i * tnum) tnum) × Stretches n (i + 1)

  pub IsSorted-init : (n i : ℕ) → Stretches n i → All IsSorted (rests i (init_idx tnum nums n i))
  unfolding init_idx
  IsSorted-init zero i h = tt
  IsSorted-init (suc n) i h = (rw (rest_size i) h.0, IsSorted-init n (i + 1) h.1)
