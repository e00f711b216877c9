-- ===== src/Jobs/Order.antt =====
-- printer/printd.c: what the operations on the list of pending jobs do to its order.
use learning_notes.Base.{
  ◌≡◌, ◌≢◌, refl, sym, ap, ◌∙◌, some, List, [], ◌∷◌, ◌++◌, ==_of_ne, All, append-nil,
}
use mathlib.Core.Path.{subst}
use learning_notes.Jobs.{Ptr, null, Node, node, Heap, Queue, put, Seg, IsQueue}
use learning_notes.Jobs.Spool.{add_job, replace_job, remove_job}
use learning_notes.Jobs.Segments.{
  Seg-put, Seg-append, Seg-split, Seg-last, Seg-retarget, put_self, put_other, load-eq, set_next-eq,
  set_prev-eq, Seg-last_ne,
}
use learning_notes.Jobs.Parts.{Ne, Distinct-snoc, Distinct-Parts}

module _ {A : Type 0} where
  -- On a queue, add_job with an address that is not null and not in the queue succeeds and puts the
  -- job behind all others.
  pub add_job-IsQueue :
      (q : Queue A) (xs : List (Ptr × A)) (jp : Ptr) (req : A)
      → IsQueue q xs
      → jp ≢ null
      → Ne jp xs
      → (q' : Queue A) × (add_job q jp req ≡ some q') × IsQueue q' (xs ++ (jp, req) ∷ [])
  unfolding add_job
  add_job-IsQueue q [] jp req is nz ne = (
    record { head = jp; tail = jp; heap = put q.heap jp (some (node null q.tail req)) },
    rw is.links.1 refl,
    record {
      links = (
        null,
        refl,
        nz,
        put_self q.heap jp _ ∙ ap (λ (t : Ptr). some (node null t req)) is.links.1,
        (refl, refl),
      );
      distinct = (tt, tt);
    },
  )
  add_job-IsQueue q ((a, v) ∷ xs) jp req is nz ne =
      let (tz, (n, tail_at, tail_next)) = Seg-last q.heap null q.head a v xs q.tail null is.links in
      let tail_ne = Seg-last_ne q.heap jp null q.head a v xs q.tail null ne is.links in
      let h = put q.heap jp (some (node null q.tail req)) in
      let h' = put h q.tail (some (record n { next = jp })) in
      (
        record { head = q.head; tail = jp; heap = h' },
        rw
            (
              ==_of_ne q.tail 0 tz,
              set_next-eq h q.tail jp tz (put_other q.heap jp _ q.tail tail_ne ∙ tail_at),
            )
            refl,
        record {
          links =
              Seg-append h' null q.head q.tail jp ((a, v) ∷ xs) ((jp, req) ∷ []) jp null
                (Seg-retarget h null q.head a v xs q.tail null jp n is.distinct
                  (Seg-put q.heap jp _ null q.head ((a, v) ∷ xs) q.tail null ne is.links)
                  (put_other q.heap jp _ q.tail tail_ne ∙ tail_at))
                (
                  null,
                  refl,
                  nz,
                  put_other h q.tail _ jp (λ e. tail_ne (sym e)) ∙ put_self q.heap jp _,
                  (refl, refl),
                );
          distinct = Distinct-snoc ((a, v) ∷ xs) jp req is.distinct ne;
        },
      )

  -- On a queue, replace_job of a job that is in the heap and not in the queue succeeds and puts it in
  -- front of all others.
  pub replace_job-IsQueue :
      (q : Queue A) (xs : List (Ptr × A)) (jp : Ptr) (n : Node A)
      → IsQueue q xs
      → jp ≢ null
      → Ne jp xs
      → q.heap jp ≡ some n
      → (q' : Queue A) × (replace_job q jp ≡ some q') × IsQueue q' ((jp, n.item) ∷ xs)
  unfolding replace_job
  replace_job-IsQueue q [] jp n is nz ne at = (
    record {
      head = jp;
      tail = jp;
      heap = put q.heap jp (some (record n { next = q.head; prev = null }));
    },
    rw (load-eq q.heap jp nz at, is.links.0) refl,
    record {
      links = (
        null,
        refl,
        nz,
        put_self q.heap jp _ ∙ ap (λ (t : Ptr). some (node t null n.item)) is.links.0,
        (refl, refl),
      );
      distinct = (tt, tt);
    },
  )
  replace_job-IsQueue q ((a, v) ∷ xs) jp n is nz ne at =
      let (m, e, az, a_at, s) = is.links in
      let hz : q.head ≢ null = rw e az in
      let h = put q.heap jp (some (record n { next = q.head; prev = null })) in
      let head_at : h q.head ≡ some (node m null v) = rw e (put_other q.heap jp _ a ne.0 ∙ a_at) in
      let h' = put h q.head (some (node m jp v)) in
      (
        record { head = jp; tail = q.tail; heap = h' },
        rw (load-eq q.heap jp nz at, ==_of_ne q.head 0 hz, set_prev-eq h q.head jp hz head_at) refl,
        record {
          links = (
            q.head,
            refl,
            nz,
            put_other h q.head _ jp (λ k. ne.0 (sym (k ∙ e))) ∙ put_self q.heap jp _,
            (
              m,
              e,
              az,
              ap h' (sym e) ∙ put_self h q.head _,
              Seg-put h q.head _ a m xs q.tail null
                  (subst (λ (t : Ptr). Ne t xs) (sym e) is.distinct.0)
                  (Seg-put q.heap jp _ a m xs q.tail null ne.1 s),
            ),
          );
          distinct = (ne, is.distinct);
        },
      )

  last_apart :
      (h : Heap A) (prev p c : Ptr) (u : A) (xs : List (Ptr × A)) (m stop : Ptr)
      (ys : List (Ptr × A))
      → Seg h prev p ((c, u) ∷ xs) m stop
      → All (λ (y : Ptr × A). Ne y.0 ((c, u) ∷ xs)) ys
      → Ne m ys
  last_apart h prev p c u xs m stop [] s a = tt
  last_apart h prev p c u xs m stop (y ∷ ys) s a = (
    (λ r. Seg-last_ne h y.0 prev p c u xs m stop a.0 s (sym r)),
    last_apart h prev p c u xs m stop ys s a.1,
  )

  -- remove_job takes a job of a queue out of it, wherever it stands, and leaves the others in order.
  pub remove_job-IsQueue :
      (q : Queue A) (xs : List (Ptr × A)) (a : Ptr) (v : A) (ys : List (Ptr × A))
      → IsQueue q (xs ++ (a, v) ∷ ys)
      → (q' : Queue A) × (remove_job q a ≡ some q') × IsQueue q' (xs ++ ys)
  unfolding remove_job
  remove_job-IsQueue q [] a v [] is =
      let (n, e, az, a_at, (f, g)) = is.links in
      (
        record { head = n; tail = null; heap = q.heap },
        rw (load-eq q.heap a az a_at, f, load-eq q.heap a az a_at, f) refl,
        record { links = (f, refl); distinct = tt },
      )
  remove_job-IsQueue q [] a v ((b, w) ∷ ys) is =
      let (n, e, az, a_at, (k, f, bz, b_at, s)) = is.links in
      let d = is.distinct in
      let a_at' : q.heap a ≡ some (node b null v) =
        a_at ∙ ap (λ (t : Ptr). some (node t null v)) f in
      let h = put q.heap b (some (node k null w)) in
      let a_kept : h a ≡ some (node b null v) =
        put_other q.heap b _ a (λ r. d.0.0 (sym r)) ∙ a_at' in
      (
        record { head = b; tail = q.tail; heap = h },
        rw
            (
              load-eq q.heap a az a_at',
              ==_of_ne b 0 bz,
              set_prev-eq q.heap b null bz b_at,
              load-eq h a az a_kept,
            )
            refl,
        record {
          links = (k, refl, bz, put_self q.heap b _, Seg-put q.heap b _ b k ys q.tail null d.1.0 s);
          distinct = d.1;
        },
      )
  remove_job-IsQueue q ((c, u) ∷ xs) a v [] is =
      let (m, p, front, (n, e, az, a_at, (f, g))) =
        Seg-split q.heap null q.head ((c, u) ∷ xs) ((a, v) ∷ []) q.tail null is.links in
      let parts = Distinct-Parts ((c, u) ∷ xs) a v [] is.distinct in
      let (mz, (l, m_at, m_next)) = Seg-last q.heap null q.head c u xs m p front in
      let a_at' : q.heap a ≡ some (node null m v) = a_at ∙ ap (λ (t : Ptr). some (node t m v)) f in
      (
        record { head = q.head; tail = m; heap = put q.heap m (some (record l { next = null })) },
        rw
            (
              load-eq q.heap a az a_at',
              load-eq q.heap a az a_at',
              ==_of_ne m 0 mz,
              set_next-eq q.heap m null mz m_at,
            )
            refl,
        record {
          links =
              rw append-nil
                (Seg-retarget q.heap null q.head c u xs m p null l parts.front front m_at);
          distinct = parts.rest;
        },
      )
  remove_job-IsQueue q ((c, u) ∷ xs) a v ((b, w) ∷ ys) is =
      let (m, p, front, (n, e, az, a_at, (k, f, bz, b_at, s))) =
        Seg-split q.heap null q.head ((c, u) ∷ xs) ((a, v) ∷ (b, w) ∷ ys) q.tail null is.links in
      let parts = Distinct-Parts ((c, u) ∷ xs) a v ((b, w) ∷ ys) is.distinct in
      let (mz, (l, m_at, m_next)) = Seg-last q.heap null q.head c u xs m p front in
      let a_at' : q.heap a ≡ some (node b m v) = a_at ∙ ap (λ (t : Ptr). some (node t m v)) f in
      let h = put q.heap b (some (node k m w)) in
      let h' = put h m (some (record l { next = b })) in
      let m_ne_b : m ≢ b = Seg-last_ne q.heap b null q.head c u xs m p parts.cross.0 front in
      let a_kept : h a ≡ some (node b m v) =
        put_other q.heap b _ a (λ r. parts.after.0 (sym r)) ∙ a_at' in
      let m_kept : h m ≡ some l = put_other q.heap b _ m m_ne_b ∙ m_at in
      (
        record { head = q.head; tail = q.tail; heap = h' },
        rw
            (
              load-eq q.heap a az a_at',
              ==_of_ne b 0 bz,
              set_prev-eq q.heap b m bz b_at,
              load-eq h a az a_kept,
              ==_of_ne m 0 mz,
              set_next-eq h m b mz m_kept,
            )
            refl,
        record {
          links =
              Seg-append h' null q.head m b ((c, u) ∷ xs) ((b, w) ∷ ys) q.tail null
                (Seg-retarget h null q.head c u xs m p b l parts.front
                  (Seg-put q.heap b _ null q.head ((c, u) ∷ xs) m p parts.cross.0 front) m_kept)
                (
                  k,
                  refl,
                  bz,
                  put_other h m _ b (λ r. m_ne_b (sym r)) ∙ put_self q.heap b _,
                  Seg-put h m _ b k ys q.tail null
                      (last_apart q.heap null q.head c u xs m p ys front parts.cross.1)
                      (Seg-put q.heap b _ b k ys q.tail null parts.back.0 s),
                );
          distinct = parts.rest;
        },
      )
