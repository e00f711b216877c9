-- ===== src/Jobs/RwLaws.antt =====
-- threads/rwlock.c: its queue against the order of the jobs, and against printer/printd.c.
use mathlib.Core.Path.{fun_ext}
use learning_notes.Base.{
  ℕ, zero, suc, ◌<◌, ◌≡◌, ◌≢◌, refl, sym, ap, ◌∙◌, Option, some, List, [], ◌∷◌, ◌++◌, ◌==◌,
  ==_of_ne, same_test, if◌then◌else◌, arith, Bool-cases, inl, inr, length,
}
use learning_notes.Jobs.{Ptr, null, Node, node, Heap, Queue, put, Seg, IsQueue}
use learning_notes.Jobs.Spool.{add_job, replace_job, remove_job}
use learning_notes.Jobs.RwQueue.{job_insert, job_append, job_remove, find_loop, job_find}
use learning_notes.Jobs.Segments.{
  Seg-split, Seg-last, put_other, load-eq, set_next-eq, set_prev-eq, Seg-last_ne,
}
use learning_notes.Jobs.Order.{add_job-IsQueue, replace_job-IsQueue, remove_job-IsQueue}
use learning_notes.Jobs.Parts.{Ne, Distinct-Parts}

-- On a queue, job_insert of a job that is in the heap and not in the queue succeeds and puts it in
-- front of all others.
pub job_insert-IsQueue :
    (q : Queue ℕ) (xs : List (Ptr × ℕ)) (jp : Ptr) (n : Node ℕ)
    → IsQueue q xs
    → jp ≢ null
    → Ne jp xs
    → q.heap jp ≡ some n
    → (q' : Queue ℕ) × (job_insert q jp ≡ some q') × IsQueue q' ((jp, n.item) ∷ xs)
unfolding job_insert replace_job
job_insert-IsQueue q xs jp n is nz ne at = replace_job-IsQueue q xs jp n is nz ne at

-- job_append does to a job that is in the heap what add_job does to one just made.
pub job_append-add_job :
    (q : Queue ℕ) (jp : Ptr) (n : Node ℕ)
    → jp ≢ null
    → q.heap jp ≡ some n
    → job_append q jp ≡ add_job q jp n.item
unfolding job_append add_job
job_append-add_job q jp n nz at = rw (load-eq q.heap jp nz at) refl

-- On a queue, job_append of a job that is in the heap and not in the queue succeeds and puts it
-- behind all others.
pub job_append-IsQueue :
    (q : Queue ℕ) (xs : List (Ptr × ℕ)) (jp : Ptr) (n : Node ℕ)
    → IsQueue q xs
    → jp ≢ null
    → Ne jp xs
    → q.heap jp ≡ some n
    → (q' : Queue ℕ) × (job_append q jp ≡ some q') × IsQueue q' (xs ++ (jp, n.item) ∷ [])
job_append-IsQueue q xs jp n is nz ne at =
    rw (job_append-add_job q jp n nz at) (add_job-IsQueue q xs jp n.item is nz ne)

put_comm :
    (h : Heap ℕ) (a b : Ptr) (c d : Option (Node ℕ))
    → a ≢ b
    → put (put h a c) b d ≡ put (put h b d) a c
unfolding put
put_comm h a b c d ne = fun_ext λ p. ground arith

-- For a job of a queue, job_remove and remove_job, written with different tests, do the same.
pub job_remove-remove_job :
    (q : Queue ℕ) (xs : List (Ptr × ℕ)) (a : Ptr) (v : ℕ) (ys : List (Ptr × ℕ))
    → IsQueue q (xs ++ (a, v) ∷ ys)
    → job_remove q a ≡ remove_job q a
unfolding job_remove remove_job
job_remove-remove_job q [] a v [] is =
    let (n, e, az, a_at, (f, g)) = is.links in
    rw
      (
        load-eq q.heap a az a_at,
        same_test a q.head (sym e),
        same_test q.tail a g,
        same_test n null f,
        load-eq q.heap a az a_at,
      )
      refl
job_remove-remove_job q [] a v ((b, w) ∷ ys) is =
    let (n, e, az, a_at, (k, f, bz, b_at, s)) = is.links in
    let d = is.distinct in
    let a_at' : q.heap a ≡ some (node b null v) = a_at ∙ ap (λ (t : Ptr). some (node t null v)) f in
    let h = put q.heap b (some (node k null w)) in
    let a_kept : h a ≡ some (node b null v) = put_other q.heap b _ a (λ r. d.0.0 (sym r)) ∙ a_at' in
    rw
      (
        load-eq q.heap a az a_at',
        same_test a q.head (sym e),
        ==_of_ne q.tail a (Seg-last_ne q.heap a a n b w ys q.tail null d.0 (k, f, bz, b_at, s)),
        ==_of_ne b 0 bz,
        set_prev-eq q.heap b null bz b_at,
        load-eq h a az a_kept,
      )
      refl
job_remove-remove_job q ((c, u) ∷ xs) a v [] is =
    let (m, p, front, (n, e, az, a_at, (f, g))) =
      Seg-split q.heap null q.head ((c, u) ∷ xs) ((a, v) ∷ []) q.tail null is.links in
    let parts = Distinct-Parts ((c, u) ∷ xs) a v [] is.distinct in
    let (mz, (l, m_at, m_next)) = Seg-last q.heap null q.head c u xs m p front in
    let a_at' : q.heap a ≡ some (node null m v) = a_at ∙ ap (λ (t : Ptr). some (node t m v)) f in
    rw
      (
        load-eq q.heap a az a_at',
        ==_of_ne a q.head (λ r. parts.before.0 (sym (r ∙ front.1))),
        same_test a q.tail (sym g),
        load-eq q.heap a az a_at',
        ==_of_ne m 0 mz,
        set_next-eq q.heap m null mz m_at,
      )
      refl
job_remove-remove_job q ((c, u) ∷ xs) a v ((b, w) ∷ ys) is =
    let (m, p, front, (n, e, az, a_at, (k, f, bz, b_at, s))) =
      Seg-split q.heap null q.head ((c, u) ∷ xs) ((a, v) ∷ (b, w) ∷ ys) q.tail null is.links in
    let parts = Distinct-Parts ((c, u) ∷ xs) a v ((b, w) ∷ ys) is.distinct in
    let (mz, (l, m_at, m_next)) = Seg-last q.heap null q.head c u xs m p front in
    let a_at' : q.heap a ≡ some (node b m v) = a_at ∙ ap (λ (t : Ptr). some (node t m v)) f in
    let m_ne_b : m ≢ b = Seg-last_ne q.heap b null q.head c u xs m p parts.cross.0 front in
    let m_ne_a : m ≢ a = Seg-last_ne q.heap a null q.head c u xs m p parts.before front in
    let h = put q.heap b (some (node k m w)) in
    let g = put q.heap m (some (record l { next = b })) in
    let a_kept : h a ≡ some (node b m v) =
      put_other q.heap b _ a (λ r. parts.after.0 (sym r)) ∙ a_at' in
    let m_kept : h m ≡ some l = put_other q.heap b _ m m_ne_b ∙ m_at in
    let a_kept' : g a ≡ some (node b m v) = put_other q.heap m _ a (λ r. m_ne_a (sym r)) ∙ a_at' in
    let b_kept : g b ≡ some (node k a w) = put_other q.heap m _ b (λ r. m_ne_b (sym r)) ∙ b_at in
    rw
      (
        load-eq q.heap a az a_at',
        ==_of_ne a q.head (λ r. parts.before.0 (sym (r ∙ front.1))),
        ==_of_ne a q.tail (λ r.
            Seg-last_ne q.heap a a n b w ys q.tail null parts.after (k, f, bz, b_at, s) (sym r)),
        set_next-eq q.heap m b mz m_at,
        load-eq g a az a_kept',
        set_prev-eq g b m bz b_kept,
        ==_of_ne b 0 bz,
        set_prev-eq q.heap b m bz b_at,
        load-eq h a az a_kept,
        ==_of_ne m 0 mz,
        set_next-eq h m b mz m_kept,
      )
      (ap (λ (t : Heap ℕ). some (record q { heap = t })) (put_comm q.heap m b _ _ m_ne_b))

-- job_remove takes a job of a queue out of it, wherever it stands, and leaves the others in order.
pub job_remove-IsQueue :
    (q : Queue ℕ) (xs : List (Ptr × ℕ)) (a : Ptr) (v : ℕ) (ys : List (Ptr × ℕ))
    → IsQueue q (xs ++ (a, v) ∷ ys)
    → (q' : Queue ℕ) × (job_remove q a ≡ some q') × IsQueue q' (xs ++ ys)
job_remove-IsQueue q xs a v ys is =
    rw (job_remove-remove_job q xs a v ys is) (remove_job-IsQueue q xs a v ys is)

-- The first job of a thread.
abbrev pub first_of_thread : List (Ptr × ℕ) → ℕ → Ptr
first_of_thread [] id = null
first_of_thread ((a, v) ∷ xs) id = if v == id then a else first_of_thread xs id

find_loop-eq :
    (k : ℕ) (h : Heap ℕ) (prev p : Ptr) (xs : List (Ptr × ℕ)) (last : Ptr) (id : ℕ)
    → length xs < k
    → Seg h prev p xs last null
    → find_loop k h p id ≡ some (first_of_thread xs id)
unfolding find_loop
find_loop-eq zero h prev p xs last id l s = elim l [ ]
find_loop-eq (suc k) h prev p [] last id l (e, f) = rw e refl
find_loop-eq (suc k) h prev p ((a, v) ∷ xs) last id l (n, e, ne, at, s) =
    elim (Bool-cases (v == id)) [
      | inl hit ↦ rw (e, ==_of_ne a 0 ne, load-eq h a ne at, hit) refl
      | inr miss ↦
          rw (e, ==_of_ne a 0 ne, load-eq h a ne at, miss)
            (find_loop-eq k h a n xs last id (omega arith) s)
    ]

-- On a queue, job_find returns the first job of the thread, or null if it has none, and ends within
-- one round more than there are jobs.
pub job_find-first :
    (q : Queue ℕ) (xs : List (Ptr × ℕ)) (id fuel : ℕ)
    → IsQueue q xs
    → length xs < fuel
    → job_find fuel q id ≡ some (first_of_thread xs id)
unfolding job_find
job_find-first q xs id fuel is l = find_loop-eq fuel q.heap null q.head xs q.tail id l is.links
