-- ===== src/Barrier/Threads.antt =====
-- barrier.c: the threads, in any order, leave sorted stretches, and so main prints all in order.
use learning_notes.Base.{
  ℕ, zero, suc, ◌+◌, ◌-◌, ◌*◌, ◌≤◌, ◌<◌, ◌≡◌, ◌≢◌, ◌⊎◌, inl, inr, refl, ap, sym, ◌∙◌, List, [], ◌∷◌,
  arith, ◌==◌, if◌then◌else◌, length, slice, take, take_all, length-slice, slice-add,
  slice-write_self, slice-write_before, slice-write_after, length-write, eq-cases, ==-refl, All,
  Bool-cases, ltb,
}
use mathlib.Core.Path.{subst}
use learning_notes.Barrier.{long_max, thr_fn, run_threads, sort_nums}
use learning_notes.Barrier.Runs.{IsSorted, count}
use learning_notes.Barrier.Rests.{Stretches, count-append}
use learning_notes.Barrier.Merge.{SortedOf, merge-SortedOf}

-- What heapsort is documented to do.
pub record Sorts (heapsort : List ℕ → List ℕ) : Type 0 where
  pub sorted : (xs : List ℕ) → IsSorted (heapsort xs)
  pub same_count : (a : ℕ) (xs : List ℕ) → count a (heapsort xs) ≡ count a xs
  pub same_length : (xs : List ℕ) → length (heapsort xs) ≡ length xs

count-parts :
    (a : ℕ) (f : List ℕ) (o n : ℕ)
    → o + n ≤ length f
    → count a f
      ≡ count a (slice f 0 o)
        + (count a (slice f o n) + count a (slice f (o + n) (length f - (o + n))))
count-parts a f o n h =
    let whole : o + (n + (length f - (o + n))) ≡ length f = omega arith in
    let z : 0 + o ≡ o = omega arith in
    ap (count a) (
      sym (take_all f)
      ∙ ap (λ (t : ℕ). take t f) (sym whole)
      ∙ slice-add f 0 o (n + (length f - (o + n))))
    ∙ count-append a (slice f 0 o) (slice f (0 + o) (n + (length f - (o + n))))
    ∙ rw z (
        ap (λ (t : ℕ). count a (slice f 0 o) + t)
          (ap (count a) (slice-add f o n (length f - (o + n)))
            ∙ count-append a (slice f o n) (slice f (o + n) (length f - (o + n)))))

occurs : (P : ℕ → Type 0) (a : ℕ) (xs : List ℕ) → 0 < count a xs → All P xs → P a
occurs P a [] h p = absurd (omega arith)
occurs P a (x ∷ xs) h p = elim (eq-cases x a) [
  | inl e ↦ subst P e p.0
  | inr n ↦ occurs P a xs (ground arith) p.1
]

All-count :
    (P : ℕ → Type 0) (xs ys : List ℕ) → ((a : ℕ) → count a ys ≤ count a xs) → All P xs → All P ys
All-count P xs [] h p = tt
All-count P xs (y ∷ ys) h p =
    let one : ◌≡◌ {A = ℕ} (if y == y then 1 else 0) 1 = rw (==-refl y) refl in
    (occurs P y xs (omega (arith, h y)) p, All-count P xs ys (λ a. omega (arith, h a)) p)

apart' : (j k t : ℕ) → j * t + t ≤ (j + 1 + k) * t
apart' j k t = let e : (j + 1 + k) * t ≡ j * t + t + k * t = grind arith in omega arith

-- The thread is one of those that run.
abbrev pub Runs : ℕ → List ℕ → Type 0
Runs j [] = ⊥
Runs j (i ∷ order) = (i ≡ j) ⊎ Runs j order

module _ (heapsort : List ℕ → List ℕ) (hs : Sorts heapsort) (tnum : ℕ) where
  apart : (j i : ℕ) → j < i → j * tnum + tnum ≤ i * tnum
  apart j i h =
      let e : i ≡ j + 1 + (i - (j + 1)) = omega arith in
      subst (λ (t : ℕ). j * tnum + tnum ≤ t * tnum) (sym e) (apart' j (i - (j + 1)) tnum)

  stretch_fits :
      (nthr i : ℕ) (nums : List ℕ)
      → i < nthr
      → length nums ≡ nthr * tnum
      → i * tnum + tnum ≤ length nums
  stretch_fits nthr i nums h l = omega (arith, apart i nthr h)

  abbrev SortedAt : List ℕ → ℕ → Type 0
  SortedAt nums j = IsSorted (slice nums (j * tnum) tnum)

  module _ (nums : List ℕ) (i : ℕ) (fits : i * tnum + tnum ≤ length nums) where
    bs : List ℕ
    bs = heapsort (slice nums (i * tnum) tnum)

    length-bs : length bs ≡ tnum
    unfolding bs
    length-bs = hs.same_length (slice nums (i * tnum) tnum) ∙ length-slice nums (i * tnum) tnum fits

    length-thr_fn : length (thr_fn heapsort tnum nums (i * tnum)) ≡ length nums
    unfolding thr_fn bs
    length-thr_fn = omega (arith, length-write nums (i * tnum) bs (omega arith), length-bs)

    count-thr_fn : (a : ℕ) → count a (thr_fn heapsort tnum nums (i * tnum)) ≡ count a nums
    unfolding thr_fn bs
    count-thr_fn a =
        let out = thr_fn heapsort tnum nums (i * tnum) in
        let front : slice out 0 (i * tnum) ≡ slice nums 0 (i * tnum) =
          slice-write_before nums (i * tnum) bs 0 (i * tnum) (omega arith) (omega arith) in
        let back =
          slice-write_after nums (i * tnum) bs (i * tnum + tnum) (length nums - (i * tnum + tnum))
            (omega (arith, length-bs)) in
        let middle : slice out (i * tnum) tnum ≡ bs =
          rw length-bs at (slice-write_self nums (i * tnum) bs) in
        omega (
          arith,
          count-parts a nums (i * tnum) tnum fits,
          rw length-thr_fn at (count-parts a out (i * tnum) tnum (omega (arith, length-thr_fn))),
          ap (count a) front,
          ap (count a) back,
          ap (count a) middle,
          hs.same_count a (slice nums (i * tnum) tnum),
        )

    sorted-thr_fn : SortedAt (thr_fn heapsort tnum nums (i * tnum)) i
    unfolding thr_fn bs
    sorted-thr_fn =
        subst IsSorted (sym (rw length-bs at (slice-write_self nums (i * tnum) bs)))
          (hs.sorted (slice nums (i * tnum) tnum))

    others-thr_fn :
        (j : ℕ)
        → j * tnum + tnum ≤ length nums
        → j ≢ i
        → SortedAt nums j
        → SortedAt (thr_fn heapsort tnum nums (i * tnum)) j
    unfolding thr_fn bs
    others-thr_fn j h n s =
        let out = thr_fn heapsort tnum nums (i * tnum) in
        let same : slice out (j * tnum) tnum ≡ slice nums (j * tnum) tnum =
          elim (Bool-cases (ltb j i)) [
            | inl before ↦
                slice-write_before nums (i * tnum) bs (j * tnum) tnum (apart j i (ground arith)) h
            | inr after ↦
                slice-write_after nums (i * tnum) bs (j * tnum) tnum
                  (omega (arith, length-bs, apart i j (ground arith)))
          ] in
        subst IsSorted (sym same) s

  length-run_threads :
      (nthr : ℕ) (order nums : List ℕ)
      → All (λ i. i < nthr) order
      → length nums ≡ nthr * tnum
      → length (run_threads heapsort tnum nums order) ≡ nthr * tnum
  unfolding run_threads
  length-run_threads nthr [] nums o l = l
  length-run_threads nthr (i ∷ order) nums o l =
      length-run_threads nthr order (thr_fn heapsort tnum nums (i * tnum)) o.1
        (length-thr_fn nums i (stretch_fits nthr i nums o.0 l) ∙ l)

  count-run_threads :
      (nthr a : ℕ) (order nums : List ℕ)
      → All (λ i. i < nthr) order
      → length nums ≡ nthr * tnum
      → count a (run_threads heapsort tnum nums order) ≡ count a nums
  unfolding run_threads
  count-run_threads nthr a [] nums o l = refl
  count-run_threads nthr a (i ∷ order) nums o l =
      let fits = stretch_fits nthr i nums o.0 l in
      count-run_threads nthr a order (thr_fn heapsort tnum nums (i * tnum)) o.1
        (length-thr_fn nums i fits ∙ l)
      ∙ count-thr_fn nums i fits a

  -- A stretch stays sorted whichever thread runs next, and is sorted once its own has run.
  sorted-run_threads :
      (nthr j : ℕ) (order nums : List ℕ)
      → All (λ i. i < nthr) order
      → length nums ≡ nthr * tnum
      → j < nthr
      → Runs j order ⊎ SortedAt nums j
      → SortedAt (run_threads heapsort tnum nums order) j
  unfolding run_threads
  sorted-run_threads nthr j [] nums o l h (inl r) = absurd r
  sorted-run_threads nthr j [] nums o l h (inr s) = s
  sorted-run_threads nthr j (i ∷ order) nums o l h w =
      let fits = stretch_fits nthr i nums o.0 l in
      sorted-run_threads nthr j order (thr_fn heapsort tnum nums (i * tnum)) o.1
        (length-thr_fn nums i fits ∙ l) h (after w fits)
    where
      after :
          Runs j (i ∷ order) ⊎ SortedAt nums j
          → i * tnum + tnum ≤ length nums
          → Runs j order ⊎ SortedAt (thr_fn heapsort tnum nums (i * tnum)) j
      after w fits = elim (eq-cases j i) [
        | inl e ↦ inr (
            subst (SortedAt (thr_fn heapsort tnum nums (i * tnum))) (sym e)
              (sorted-thr_fn nums i fits))
        | inr n ↦ elim w [
          | inl (inl e) ↦ absurd (n (sym e))
          | inl (inr r) ↦ inl r
          | inr s ↦ inr (others-thr_fn nums i fits j (stretch_fits nthr j nums h l) n s)
        ]
      ]

  stretches :
      (nums : List ℕ) (n i : ℕ) → ((j : ℕ) → j < i + n → SortedAt nums j) → Stretches tnum nums n i
  stretches nums zero i f = tt
  stretches nums (suc n) i f =
      (f i (omega arith), stretches nums n (i + 1) (λ j h. f j (omega arith)))

  -- If heapsort sorts, and the number of each thread is in `order`, then what main prints is the
  -- numbers in order, each as often as it was drawn, in whatever order the threads run, if the
  -- numbers are below LONG_MAX.
  pub sort_nums-SortedOf :
      (nthr garbage : ℕ) (order nums : List ℕ)
      → All (λ i. i < nthr) order
      → ((j : ℕ) → j < nthr → Runs j order)
      → length nums ≡ nthr * tnum
      → All (λ x. x < long_max) nums
      → SortedOf nums (sort_nums heapsort tnum nthr garbage order nums)
  unfolding sort_nums
  sort_nums-SortedOf nthr garbage order nums o all l b =
      let out = run_threads heapsort tnum nums order in
      let counts = λ (a : ℕ). count-run_threads nthr a order nums o l in
      let (sorted, same) =
        merge-SortedOf tnum nthr garbage out (length-run_threads nthr order nums o l)
          (stretches out nthr 0 (λ j h.
            sorted-run_threads nthr j order nums o l (omega arith) (inl (all j (omega arith)))))
          (All-count (λ x. x < long_max) nums out (λ a. omega (arith, counts a)) b) in
      (sorted, λ a. same a ∙ counts a)
