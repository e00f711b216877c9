-- ===== src/Jobs/RwQueue.antt =====
-- threads/rwlock.c: a queue of jobs under a reader-writer lock, which is held throughout each
-- operation. The identity of a thread is a number, and pthread_equal its equality.
use learning_notes.Base.{ℕ, zero, suc, Option, none, some, ◌==◌, if◌then◌else◌}
use learning_notes.Jobs.{Ptr, null, Heap, Queue, put, load, set_next, set_prev, ◌>>=◌}

-- queue_init
unfoldable pub queue_init : Heap ℕ → Queue ℕ
queue_init h = record { head = null; tail = null; heap = h }

-- job_insert, of a job that is in no queue
unfoldable pub job_insert : Queue ℕ → Ptr → Option (Queue ℕ)
job_insert q jp = do
  n ← load q.heap jp
  let h = put q.heap jp (some (record n { next = q.head; prev = null }))
  if q.head == null
      then some (record { head = jp; tail = jp; heap = h })
      else (do h' ← set_prev h q.head jp; some (record { head = jp; tail = q.tail; heap = h' }))

-- job_append
unfoldable pub job_append : Queue ℕ → Ptr → Option (Queue ℕ)
job_append q jp = do
  n ← load q.heap jp
  let h = put q.heap jp (some (record n { next = null; prev = q.tail }))
  if q.tail == null
      then some (record { head = jp; tail = jp; heap = h })
      else (do h' ← set_next h q.tail jp; some (record { head = q.head; tail = jp; heap = h' }))

-- job_remove
unfoldable pub job_remove : Queue ℕ → Ptr → Option (Queue ℕ)
job_remove q jp = do
  n ← load q.heap jp
  if jp == q.head
      then (if q.tail == jp
          then some (record q { head = n.next; tail = null })
          else (do h ← set_prev q.heap n.next n.prev; some (record q { head = n.next; heap = h })))
      else if jp == q.tail
      then (do h ← set_next q.heap n.prev n.next; some (record q { tail = n.prev; heap = h }))
      else (do
        h ← set_next q.heap n.prev n.next
        n' ← load h jp
        h' ← set_prev h n'.next n'.prev
        some (record q { heap = h' }))

-- The loop of job_find, on fuel; the outer option is the fuel, and a fault.
unfoldable pub find_loop : ℕ → Heap ℕ → Ptr → ℕ → Option Ptr
find_loop zero h jp id = none
find_loop (suc k) h jp id =
    if jp == null
    then some null
    else (do n ← load h jp; if n.item == id then some jp else find_loop k h n.next id)

-- job_find, with the lock granted and `fuel` rounds at most
unfoldable pub job_find : ℕ → Queue ℕ → ℕ → Option Ptr
unfolding find_loop
job_find fuel q id = find_loop fuel q.heap q.head id
