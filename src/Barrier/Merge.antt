-- ===== src/Barrier/Merge.antt =====
-- barrier.c: merge, of sorted stretches.
use learning_notes.Base.{
  ℕ, ◌+◌, ◌*◌, ◌≤◌, ◌<◌, ◌≡◌, ap, sym, ◌∙◌, List, [], ◌∷◌, arith, length, slice, take_all, All,
}
use mathlib.Core.Path.{subst}
use learning_notes.Barrier.{long_max, init_idx, merge}
use learning_notes.Barrier.Runs.{IsSorted, count}
use learning_notes.Barrier.Laws.{merge_runs-IsSorted, count-merge_runs}
use learning_notes.Barrier.Rests.{
  rests, Stretches, merge_loop-runs, Inside-init, total-init, count_all-init, below-init,
  IsSorted-init,
}

-- The numbers in order, each as often as in the array.
abbrev pub SortedOf : List ℕ → List ℕ → Type 0
SortedOf nums out = IsSorted out × ((a : ℕ) → count a out ≡ count a nums)

any-low : (rs : List (List ℕ)) → All (All (λ x. 0 ≤ x)) rs
any-low [] = tt
any-low (r ∷ rs) = (low r, any-low rs)
  where
    low : (r : List ℕ) → All (λ x. 0 ≤ x) r
    low [] = tt
    low (x ∷ r) = (omega arith, low r)

-- Of an array of sorted stretches with numbers below LONG_MAX merge stores to snums all numbers in
-- order, each as often as it is in the array, whatever minidx is at first.
pub merge-SortedOf :
    (tnum nthr garbage : ℕ) (nums : List ℕ)
    → length nums ≡ nthr * tnum
    → Stretches tnum nums nthr 0
    → All (λ x. x < long_max) nums
    → SortedOf nums (merge tnum nums nthr garbage)
unfolding merge
merge-SortedOf tnum nthr garbage nums l s b =
    let fits : (0 + nthr) * tnum ≤ length nums =
      let e : 0 + nthr ≡ nthr = omega arith in rw e (omega arith) in
    let idx = init_idx tnum nums nthr 0 in
    let below = below-init tnum nums idx 0 b in
    let size = total-init tnum nums nthr 0 fits in
    let same =
      merge_loop-runs tnum nums (nthr * tnum) idx garbage (Inside-init tnum nums nthr 0 fits) size
        below in
    subst (SortedOf nums) (sym same) (
      (merge_runs-IsSorted (nthr * tnum) (rests tnum nums 0 idx) garbage 0 size
          (IsSorted-init tnum nums nthr 0 s) below (any-low (rests tnum nums 0 idx))).1,
      λ a.
          count-merge_runs a (nthr * tnum) (rests tnum nums 0 idx) garbage size below
          ∙ count_all-init tnum nums a nthr 0
          ∙ ap (count a) (whole nthr),
    )
  where
    whole : (n : ℕ) → slice nums (0 * tnum) (nthr * tnum) ≡ nums
    whole n = let z : 0 * tnum ≡ 0 = omega arith in rw (z, ← l) (take_all nums)
