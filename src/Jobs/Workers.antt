-- ===== src/Jobs/Workers.antt =====
-- printer/printd.c: the list of worker threads. The mutex `workerlock` is held throughout.
use mathlib.Core.Path.{subst}
use learning_notes.Base.{
  ℕ, zero, suc, ◌+◌, ◌<◌, ◌≡◌, ◌≢◌, refl, sym, ap, ◌∙◌, Option, none, some, List, [], ◌∷◌, ◌==◌,
  ==_of_ne, if◌then◌else◌, All, arith, length,
}
use learning_notes.Jobs.{Ptr, null, node, Heap, put, load, set_next, set_prev, Seg, Distinct, ◌>>=◌}
use learning_notes.Jobs.Segments.{put_other, put_self, load-eq, set_prev-eq, Seg-put}

-- `struct worker_thread` less its links
pub record Worker : Type 0 where
  pub tid : ℕ
  pub sockfd : ℕ

-- The global `workers`, the heap, and the sockets that were closed.
pub record Pool : Type 0 where
  pub workers : Ptr
  pub heap : Heap Worker
  pub closed : List ℕ

-- add_worker, with the address that `malloc` returned
unfoldable pub add_worker : Pool → Ptr → ℕ → ℕ → Option Pool
add_worker p wtp tid sockfd =
    let h = put p.heap wtp (some (node p.workers null (record { tid = tid; sockfd = sockfd }))) in
    if p.workers == null
    then some (record p { workers = wtp; heap = h })
    else (do h' ← set_prev h p.workers wtp; some (record p { heap = h' }))

-- The loop of kill_workers: the threads that it cancels, on fuel.
unfoldable pub kill_loop : ℕ → Heap Worker → Ptr → Option (List ℕ)
kill_loop zero h wtp = none
kill_loop (suc k) h wtp =
    if wtp == null
    then some []
    else (do n ← load h wtp; rest ← kill_loop k h n.next; some (n.item.tid ∷ rest))

-- kill_workers
unfoldable pub kill_workers : ℕ → Pool → Option (List ℕ)
unfolding kill_loop
kill_workers fuel p = kill_loop fuel p.heap p.workers

-- The search of client_cleanup for the thread's node, on fuel.
unfoldable pub worker_loop : ℕ → Heap Worker → Ptr → ℕ → Option Ptr
worker_loop zero h wtp tid = none
worker_loop (suc k) h wtp tid =
    if wtp == null
    then some null
    else (do n ← load h wtp; if n.item.tid == tid then some wtp else worker_loop k h n.next tid)

-- client_cleanup
unfoldable pub client_cleanup : ℕ → Pool → ℕ → Option Pool
unfolding worker_loop
client_cleanup fuel p tid = do
  wtp ← worker_loop fuel p.heap p.workers tid
  if wtp == null then some p else (do
    n ← load p.heap wtp
    h ← (if n.next == null then some p.heap else set_prev p.heap n.next n.prev)
    p' ←
        (if n.prev == null
          then some (record p { workers = n.next; heap = h })
          else (do h' ← set_next h n.prev n.next; some (record p { heap = h' })))
    n ← load p'.heap wtp
    some (record p' { closed = n.item.sockfd ∷ p'.closed; heap = put p'.heap wtp none }))

-- The workers that the list holds.
pub record IsPool (p : Pool) (xs : List (Ptr × Worker)) (last : Ptr) : Type 0 where
  pub links : Seg p.heap null p.workers xs last null
  pub distinct : Distinct xs

abbrev pub tids : List (Ptr × Worker) → List ℕ
tids [] = []
tids ((a, w) ∷ xs) = w.tid ∷ tids xs

kill_loop-tids :
    (k : ℕ) (h : Heap Worker) (prev p : Ptr) (xs : List (Ptr × Worker)) (last : Ptr)
    → length xs < k
    → Seg h prev p xs last null
    → kill_loop k h p ≡ some (tids xs)
unfolding kill_loop
kill_loop-tids zero h prev p xs last l s = elim l [ ]
kill_loop-tids (suc k) h prev p [] last l (e, f) = rw e refl
kill_loop-tids (suc k) h prev p ((a, w) ∷ xs) last l (n, e, ne, at, s) =
    rw (e, ==_of_ne a 0 ne, load-eq h a ne at, kill_loop-tids k h a n xs last (omega arith) s) refl

-- On a list of workers, kill_workers ends within one round more than there are workers, and cancels
-- exactly the threads of the list, in its order.
pub kill_workers-tids :
    (p : Pool) (xs : List (Ptr × Worker)) (last fuel : ℕ)
    → IsPool p xs last
    → length xs < fuel
    → kill_workers fuel p ≡ some (tids xs)
unfolding kill_workers
kill_workers-tids p xs last fuel is l = kill_loop-tids fuel p.heap null p.workers xs last l is.links

-- On an empty list, add_worker puts the worker there: kill_workers cancels it and no other.
pub add_worker-first :
    (p : Pool) (wtp tid sockfd fuel : ℕ)
    → p.workers ≡ null
    → wtp ≢ null
    → 1 < fuel
    → (p' : Pool) × (add_worker p wtp tid sockfd ≡ some p')
      × (kill_workers fuel p' ≡ some (tid ∷ []))
unfolding add_worker
add_worker-first p wtp tid sockfd fuel e nz l =
    let h = put p.heap wtp (some (node null null (record { tid = tid; sockfd = sockfd }))) in
    (
      record p { workers = wtp; heap = h },
      rw e refl,
      kill_workers-tids (record p { workers = wtp; heap = h })
          ((wtp, record { tid = tid; sockfd = sockfd }) ∷ []) wtp fuel
          (record {
            links = (null, refl, nz, put_self p.heap wtp _, (refl, refl));
            distinct = (tt, tt);
          })
          (omega arith),
    )

-- On a list that is not empty, add_worker of a node that is not on it leaves `workers` as it was, so that kill_workers cancels the
-- threads that it cancelled before, and not the new one.
pub add_worker-lost :
    (p : Pool) (a : Ptr) (w : Worker) (xs : List (Ptr × Worker)) (last wtp tid sockfd fuel : ℕ)
    → IsPool p ((a, w) ∷ xs) last
    → All (λ (x : Ptr × Worker). x.0 ≢ wtp) ((a, w) ∷ xs)
    → length xs + 1 < fuel
    → (p' : Pool) × (add_worker p wtp tid sockfd ≡ some p')
      × (kill_workers fuel p' ≡ some (tids ((a, w) ∷ xs)))
unfolding add_worker kill_workers
add_worker-lost p a w xs last wtp tid sockfd fuel is ne l =
    let (n, e, az, a_at, s) = is.links in
    let hz : p.workers ≢ null = λ r. az (sym e ∙ r) in
    let h = put p.heap wtp (some (node p.workers null (record { tid = tid; sockfd = sockfd }))) in
    let kept : h p.workers ≡ some (node n null w) = ap h e ∙ put_other p.heap wtp _ a ne.0 ∙ a_at in
    let h' = put h p.workers (some (node n wtp w)) in
    (
      record p { heap = h' },
      rw (==_of_ne p.workers 0 hz, set_prev-eq h p.workers wtp hz kept) refl,
      kill_loop-tids fuel h' wtp p.workers ((a, w) ∷ xs) last (omega arith) (
        n,
        e,
        az,
        ap h' (sym e) ∙ put_self h p.workers _,
        Seg-put h p.workers _ a n xs last null
            (subst (λ (t : Ptr). All (λ (x : Ptr × Worker). x.0 ≢ t) xs) (sym e) is.distinct.0)
            (Seg-put p.heap wtp _ a n xs last null ne.1 s),
      ),
    )
