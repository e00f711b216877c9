-- ===== src/Barrier.antt =====
-- apue.3e/threads/barrier.c: an array is cut into as many stretches as there are threads, each thread
-- sorts its own, and merge puts them together. NTHR and TNUM are parameters. The heapsort of the
-- system is a parameter; the barrier lets main go on when all threads have sorted.
pub mod Runs
pub mod Laws
pub mod Rests
pub mod Merge
pub mod Threads
mod Tests
use learning_notes.Base.{
  ℕ, zero, suc, ◌+◌, ◌-◌, ◌*◌, ◌^◌, ◌&&◌, List, [], ◌∷◌, ltb, if◌then◌else◌, get_or, set, slice,
  write,
}

-- LONG_MAX
abbrev pub long_max : ℕ
long_max = 2 ^ 63 - 1

module _ (tnum : ℕ) (nums : List ℕ) where
  -- The loop that sets idx up: `idx[i] = i * TNUM` for `n` indices from `i` on.
  unfoldable pub init_idx : ℕ → ℕ → List ℕ
  init_idx zero i = []
  init_idx (suc n) i = i * tnum ∷ init_idx n (i + 1)

  -- The inner loop: the smallest number at the front of a stretch that is not used up, and its
  -- stretch. `i` counts along `idx`, and `minidx` is what it was before.
  unfoldable pub min_loop : ℕ → List ℕ → ℕ → ℕ → ℕ
  min_loop i [] num minidx = minidx
  min_loop i (x ∷ idx) num minidx =
      let better = ltb x ((i + 1) * tnum) && ltb (get_or nums x 0) num in
      min_loop (i + 1) idx (if better then get_or nums x 0 else num) (if better then i else minidx)

  -- The outer loop, of `n` rounds: what it stores to snums.
  unfoldable pub merge_loop : ℕ → List ℕ → ℕ → List ℕ
  unfolding min_loop
  merge_loop zero idx minidx = []
  merge_loop (suc n) idx minidx =
      let m = min_loop 0 idx long_max minidx in
      get_or nums (get_or idx m 0) 0 ∷ merge_loop n (set idx m (get_or idx m 0 + 1)) m

  -- merge, of `nthr` stretches. The source does not initialise minidx, which is `garbage` at first.
  unfoldable pub merge : ℕ → ℕ → List ℕ
  unfolding merge_loop init_idx
  merge nthr garbage = merge_loop (nthr * tnum) (init_idx nthr 0) garbage

-- thr_fn: it sorts the stretch that starts at `idx`.
unfoldable pub thr_fn : (List ℕ → List ℕ) → ℕ → List ℕ → ℕ → List ℕ
thr_fn heapsort tnum nums idx = write nums idx (heapsort (slice nums idx tnum))

-- The threads, which get to their work in the order of the list.
unfoldable pub run_threads : (List ℕ → List ℕ) → ℕ → List ℕ → List ℕ → List ℕ
unfolding thr_fn
run_threads heapsort tnum nums [] = nums
run_threads heapsort tnum nums (i ∷ order) =
    run_threads heapsort tnum (thr_fn heapsort tnum nums (i * tnum)) order

-- main: what it prints of `nums`, where `order` is that of the threads.
unfoldable pub sort_nums : (List ℕ → List ℕ) → ℕ → ℕ → ℕ → List ℕ → List ℕ → List ℕ
unfolding merge run_threads
sort_nums heapsort tnum nthr garbage order nums =
    merge tnum (run_threads heapsort tnum nums order) nthr garbage
