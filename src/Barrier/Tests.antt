-- ===== src/Barrier/Tests.antt =====
-- barrier.c: a sorting function for heapsort, and the theorem at it.
use learning_notes.Base.{
  ℕ, suc, ◌+◌, ◌≤◌, ◌<◌, ◌≡◌, refl, ap, ◌∙◌, inl, inr, List, [], ◌∷◌, arith, leb, ◌==◌,
  if◌then◌else◌, length, All, All-map, Bool-cases,
}
use learning_notes.Barrier.{sort_nums}
use learning_notes.Barrier.Runs.{IsSorted, count}
use learning_notes.Barrier.Merge.{SortedOf}
use learning_notes.Barrier.Threads.{Sorts, Runs, sort_nums-SortedOf}

put_in : ℕ → List ℕ → List ℕ
put_in x [] = x ∷ []
put_in x (y ∷ ys) = if leb x y then x ∷ y ∷ ys else y ∷ put_in x ys

insertion : List ℕ → List ℕ
unfolding put_in
insertion [] = []
insertion (x ∷ xs) = put_in x (insertion xs)

All-put_in :
    (lo x : ℕ) (ys : List ℕ) → lo ≤ x → All (λ y. lo ≤ y) ys → All (λ y. lo ≤ y) (put_in x ys)
unfolding put_in
All-put_in lo x [] h a = (h, tt)
All-put_in lo x (y ∷ ys) h a = elim (Bool-cases (leb x y)) [
  | inl le ↦ rw le (h, a)
  | inr gt ↦ rw gt (a.0, All-put_in lo x ys h a.1)
]

put_in-IsSorted : (x : ℕ) (ys : List ℕ) → IsSorted ys → IsSorted (put_in x ys)
unfolding put_in
put_in-IsSorted x [] s = (tt, tt)
put_in-IsSorted x (y ∷ ys) s = elim (Bool-cases (leb x y)) [
  | inl le ↦
      rw le ((ground arith, All-map (λ z. y ≤ z) (λ z. x ≤ z) (λ z p. ground arith) ys s.0), s)
  | inr gt ↦ rw gt (All-put_in y x ys (ground arith) s.0, put_in-IsSorted x ys s.1)
]

insertion-IsSorted : (xs : List ℕ) → IsSorted (insertion xs)
unfolding insertion
insertion-IsSorted [] = tt
insertion-IsSorted (x ∷ xs) = put_in-IsSorted x (insertion xs) (insertion-IsSorted xs)

count-put_in :
    (a x : ℕ) (ys : List ℕ) → count a (put_in x ys) ≡ (if x == a then 1 else 0) + count a ys
unfolding put_in
count-put_in a x [] = refl
count-put_in a x (y ∷ ys) = elim (Bool-cases (leb x y)) [
  | inl le ↦ rw le refl
  | inr gt ↦ rw gt (omega (arith, count-put_in a x ys))
]

count-insertion : (a : ℕ) (xs : List ℕ) → count a (insertion xs) ≡ count a xs
unfolding insertion
count-insertion a [] = refl
count-insertion a (x ∷ xs) = omega (arith, count-put_in a x (insertion xs), count-insertion a xs)

length-put_in : (x : ℕ) (ys : List ℕ) → length (put_in x ys) ≡ suc (length ys)
unfolding put_in
length-put_in x [] = refl
length-put_in x (y ∷ ys) = elim (Bool-cases (leb x y)) [
  | inl le ↦ rw le refl
  | inr gt ↦ rw gt (ap suc (length-put_in x ys))
]

length-insertion : (xs : List ℕ) → length (insertion xs) ≡ length xs
unfolding insertion
length-insertion [] = refl
length-insertion (x ∷ xs) = length-put_in x (insertion xs) ∙ ap suc (length-insertion xs)

insertion-Sorts : Sorts insertion
insertion-Sorts = record {
  sorted = insertion-IsSorted;
  same_count = count-insertion;
  same_length = length-insertion;
}

abbrev drawn : List ℕ
drawn = 9 ∷ 2 ∷ 5 ∷ 7 ∷ 1 ∷ 5 ∷ []

every : (j : ℕ) → j < 3 → Runs j (2 ∷ 0 ∷ 1 ∷ [])
every j h = elim (Bool-cases (j == 0)) [
  | inl a ↦ inr (inl (ground arith))
  | inr a ↦ elim (Bool-cases (j == 1)) [
    | inl b ↦ inr (inr (inl (ground arith)))
    | inr b ↦ inl (ground arith)
  ]
]

sort_nums-SortedOf_example : SortedOf drawn (sort_nums insertion 2 3 0 (2 ∷ 0 ∷ 1 ∷ []) drawn)
sort_nums-SortedOf_example =
    sort_nums-SortedOf insertion insertion-Sorts 2 3 0 (2 ∷ 0 ∷ 1 ∷ []) drawn (omega arith) every
      refl (omega arith)

sort_nums_run : sort_nums insertion 2 3 0 (2 ∷ 0 ∷ 1 ∷ []) drawn ≡ 1 ∷ 2 ∷ 5 ∷ 5 ∷ 7 ∷ 9 ∷ []
unfolding sort_nums insertion
sort_nums_run = refl
