-- ===== src/Jobs/Tests.antt =====
-- The operations on job lists and on the list of workers, on small inputs.
use learning_notes.Base.{ℕ, ◌≡◌, refl, arith, none, some, [], ◌∷◌}
use learning_notes.Jobs.{null, node, Heap, Queue, put, IsQueue}
use learning_notes.Jobs.Spool.{add_job, replace_job, remove_job}
use learning_notes.Jobs.RwQueue.{job_remove, job_find}
use learning_notes.Jobs.Order.{add_job-IsQueue, replace_job-IsQueue, remove_job-IsQueue}
use learning_notes.Jobs.RwLaws.{job_remove-remove_job, job_find-first, first_of_thread}
use learning_notes.Jobs.Workers.{
  Worker, Pool, IsPool, add_worker, kill_workers, tids, kill_workers-tids, add_worker-first,
  add_worker-lost,
}

-- Two jobs in a queue, at 1 and at 2, and one at 3 in none.
abbrev jobs : Heap ℕ
jobs =
    put (put (put (λ _. none) 1 (some (node 2 null 7))) 2 (some (node null 1 8))) 3
      (some (node null null 9))

abbrev queue : Queue ℕ
queue = record { head = 1; tail = 2; heap = jobs }

queue_is : IsQueue queue ((1, 7) ∷ (2, 8) ∷ [])
unfolding put
queue_is = record {
  links = (2, refl, (λ e. omega arith), refl, (null, refl, (λ e. omega arith), refl, (refl, refl)));
  distinct = (((λ e. omega arith), tt), (tt, tt));
}

add_job-IsQueue_example :
    (q' : Queue ℕ) × (add_job queue 4 9 ≡ some q') × IsQueue q' ((1, 7) ∷ (2, 8) ∷ (4, 9) ∷ [])
add_job-IsQueue_example =
    add_job-IsQueue queue ((1, 7) ∷ (2, 8) ∷ []) 4 9 queue_is (λ e. omega arith)
      ((λ e. omega arith), ((λ e. omega arith), tt))

replace_job-IsQueue_example :
    (q' : Queue ℕ) × (replace_job queue 3 ≡ some q') × IsQueue q' ((3, 9) ∷ (1, 7) ∷ (2, 8) ∷ [])
unfolding put
replace_job-IsQueue_example =
    replace_job-IsQueue queue ((1, 7) ∷ (2, 8) ∷ []) 3 (node null null 9) queue_is
      (λ e. omega arith) ((λ e. omega arith), ((λ e. omega arith), tt)) refl

remove_job-IsQueue_example :
    (q' : Queue ℕ) × (remove_job queue 2 ≡ some q') × IsQueue q' ((1, 7) ∷ [])
remove_job-IsQueue_example = remove_job-IsQueue queue ((1, 7) ∷ []) 2 8 [] queue_is

job_remove-remove_job_example : job_remove queue 1 ≡ remove_job queue 1
job_remove-remove_job_example = job_remove-remove_job queue [] 1 7 ((2, 8) ∷ []) queue_is

job_find-first_example : job_find 3 queue 8 ≡ some (first_of_thread ((1, 7) ∷ (2, 8) ∷ []) 8)
job_find-first_example = job_find-first queue ((1, 7) ∷ (2, 8) ∷ []) 8 3 queue_is (omega arith)

abbrev worker : ℕ → Worker
worker n = record { tid = n; sockfd = n }

abbrev pool : Pool
pool = record {
  workers = 1;
  heap = put (λ _. none) 1 (some (node null null (worker 5)));
  closed = [];
}

pool_is : IsPool pool ((1, worker 5) ∷ []) 1
unfolding put
pool_is = record {
  links = (null, refl, (λ e. omega arith), refl, (refl, refl));
  distinct = (tt, tt);
}

kill_workers-tids_example : kill_workers 2 pool ≡ some (tids ((1, worker 5) ∷ []))
kill_workers-tids_example = kill_workers-tids pool ((1, worker 5) ∷ []) 1 2 pool_is (omega arith)

add_worker-first_example :
    (p' : Pool) × (add_worker (record { workers = null; heap = λ _. none; closed = [] }) 1 5 6
      ≡ some p')
    × (kill_workers 2 p' ≡ some (5 ∷ []))
add_worker-first_example =
    add_worker-first (record { workers = null; heap = λ _. none; closed = [] }) 1 5 6 2 refl
      (λ e. omega arith) (omega arith)

add_worker-lost_example :
    (p' : Pool) × (add_worker pool 2 6 6 ≡ some p')
    × (kill_workers 3 p' ≡ some (tids ((1, worker 5) ∷ [])))
add_worker-lost_example =
    add_worker-lost pool 1 (worker 5) [] 1 2 6 6 3 pool_is ((λ e. omega arith), tt) (omega arith)
