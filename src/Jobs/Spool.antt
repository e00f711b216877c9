-- ===== src/Jobs/Spool.antt =====
-- printer/printd.c: the list of pending jobs and the job numbers. The mutex `joblock` is held
-- throughout each operation.
use learning_notes.Base.{ℕ, ◌+◌, ◌^◌, Option, some, ◌==◌, if◌then◌else◌}
use learning_notes.Jobs.{Ptr, null, node, Queue, put, load, set_next, set_prev, ◌>>=◌}

-- get_newjobno: the number given out, and the next one; `nextjob` is an int32_t that wraps to a
-- negative number behind 2^31 - 1.
unfoldable pub get_newjobno : ℕ → ℕ × ℕ
get_newjobno nextjob = (nextjob, (if nextjob + 1 == 2 ^ 31 then 1 else nextjob + 1))

module _ {A : Type 0} where
  -- add_job, with the address that `malloc` returned
  unfoldable pub add_job : Queue A → Ptr → A → Option (Queue A)
  add_job q jp req =
      let h = put q.heap jp (some (node null q.tail req)) in
      if q.tail == null
      then some (record { head = jp; tail = jp; heap = h })
      else (do h' ← set_next h q.tail jp; some (record { head = q.head; tail = jp; heap = h' }))

  -- replace_job, of a job that was taken off the list
  unfoldable pub replace_job : Queue A → Ptr → Option (Queue A)
  replace_job q jp = do
    n ← load q.heap jp
    let h = put q.heap jp (some (record n { next = q.head; prev = null }))
    if q.head == null
        then some (record { head = jp; tail = jp; heap = h })
        else (do h' ← set_prev h q.head jp; some (record { head = jp; tail = q.tail; heap = h' }))

  -- remove_job; the node itself stays in the heap.
  unfoldable pub remove_job : Queue A → Ptr → Option (Queue A)
  remove_job q target = do
    t ← load q.heap target
    q1 ←
        (if t.next == null
          then some (record q { tail = t.prev })
          else (do h ← set_prev q.heap t.next t.prev; some (record q { heap = h })))
    t ← load q1.heap target
    if t.prev == null
        then some (record q1 { head = t.next })
        else (do h ← set_next q1.heap t.prev t.next; some (record q1 { heap = h }))
