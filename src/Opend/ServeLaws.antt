-- ===== src/Opend/ServeLaws.antt =====
-- ipc2/opend/loop.select.c: the turn that serves the clients that are ready.
use learning_notes.Base.{
  ℕ, zero, suc, ◌+◌, ◌-◌, ◌≡◌, ◌≤◌, ◌<◌, refl, sym, ap, ◌∙◌, false, ◌&&◌, ◌||◌, not, Option, none,
  some, List, [], ◌∷◌, ◌++◌, append_assoc, append-nil, map, length, length-append, get_elem?, arith,
  Bool-cases, inl, inr,
}
use learning_notes.CString.{Bytes}
use learning_notes.Base.Int.{ℤ}
use learning_notes.Opend.Clients.{Client}
use learning_notes.Opend.ClientLaws.{Absent, nones}
use learning_notes.Opend.LoopLaws.{Covered}
use learning_notes.Opend.Request.{Server, Opened, Answer}
use learning_notes.Opend.Loop.{Loop, serve_entry, serve_loop, serve_clients}
use learning_notes.Opend.ServeSteps.{
  Distinct, at_end, has, left, request, ends, requests, closes, respond, Turned, and_true, and_not,
  or_false, respond-append, get_at, get_past, Distinct-none, serve_entry-Turned,
}

-- The clients of the list have indices below `n`.
Below : ℕ → List Client → Type 0
Below n [] = Unit
Below n (none ∷ cs) = Below (n - 1) cs
Below n (some c ∷ cs) = (0 < n) × Below (n - 1) cs

Covered-Below :
    (n : ℕ) (cs : List Client)
    → ((i : ℕ) (c : ℕ × ℕ) → get_elem? cs i ≡ some (some c) → i < n)
    → Below n cs
unfolding Below
Covered-Below n [] h = tt
Covered-Below n (none ∷ cs) h = Covered-Below (n - 1) cs (λ i c e. omega (arith, h (suc i) c e))
Covered-Below n (some c ∷ cs) h =
    (h 0 c refl, Covered-Below (n - 1) cs (λ i c e. omega (arith, h (suc i) c e)))

-- Entries that the walk does not come to are available, and nothing is done about them.
module _ (ready : ℕ → Option Bytes) where
  untouched : (cs : List Client) → Below 0 cs → cs ≡ map (left ready) cs
  unfolding Below
  untouched [] b = refl
  untouched (none ∷ cs) b = ap (λ (t : List Client). none ∷ t) (untouched cs b)
  untouched (some c ∷ cs) b = absurd (omega (arith, b.0))

  silent : (cs : List Client) (f : ℕ) → Below 0 cs → closes ready cs f ≡ false
  unfolding Below
  silent [] f b = refl
  silent (none ∷ cs) f b = silent cs f b
  silent (some c ∷ cs) f b = absurd (omega (arith, b.0))

  quiet : (cs : List Client) → Below 0 cs → requests ready cs ≡ []
  unfolding Below
  quiet [] b = refl
  quiet (none ∷ cs) b = quiet cs b
  quiet (some c ∷ cs) b = absurd (omega (arith, b.0))

past-Turned :
    (sys_open : Bytes → ℤ → Opened) (ready : ℕ → Option Bytes) (n i : ℕ) (st : Loop)
    → length st.client ≤ i
    → serve_loop sys_open ready n i st ≡ some st
unfolding serve_loop serve_entry
past-Turned sys_open ready zero i st h = refl
past-Turned sys_open ready (suc n) i st h =
    rw (serve_loop, get_past st.client i h) (past-Turned sys_open ready n (i + 1) st (omega arith))

Below-rest : (n : ℕ) (c : Client) (cs : List Client) → Below (suc n) (c ∷ cs) → Below n cs
unfolding Below
Below-rest n none cs b = let e : suc n - 1 ≡ n = omega arith in rw e at b
Below-rest n (some c) cs b = let e : suc n - 1 ≡ n = omega arith in rw e at b.1

Distinct-left :
    (ready : ℕ → Option Bytes) (xs ys : List Client) (c : Client)
    → Distinct (xs ++ c ∷ ys)
    → Distinct (xs ++ left ready c ∷ ys)
Distinct-left ready xs ys none d = d
Distinct-left ready xs ys (some (fd, uid)) d = elim (Bool-cases (at_end (ready fd))) [
  | inl e ↦ rw e (Distinct-none xs ys (some (fd, uid)) d)
  | inr n ↦ rw n d
]

-- What is done about one entry and then about the others.
Turned-trans :
    (sys_open : Bytes → ℤ → Opened) (ready : ℕ → Option Bytes) (c : Client)
    (cs mid to : List Client) (st st1 : Loop) (r : Option Loop)
    → st1.client ≡ mid
    → ((f : ℕ) → has f st1.allset ≡ (has f st.allset && not (closes ready (c ∷ []) f)))
    → (st1.server, st1.sent) ≡ respond sys_open (requests ready (c ∷ [])) st.server st.sent
    → st1.limit ≡ st.limit
    → st1.maxfd ≡ st.maxfd
    → Turned sys_open ready cs to st1 r
    → Turned sys_open ready (c ∷ cs) to st r
Turned-trans sys_open ready c cs mid to st st1 r e fds1 a1 l1 m1
      (st2, run, client, fds2, a2, l2, m2) =
    (
      st2,
      run,
      client,
      (λ f.
          fds2 f
          ∙ ap (λ b. b && not (closes ready cs f)) (fds1 f)
          ∙ and_not (has f st.allset) (closes ready (c ∷ []) f) (closes ready cs f)
          ∙ ap (λ b. has f st.allset && not (b || closes ready cs f)) (or_false (ends ready c f))),
      a2
          ∙ ap (λ (t : Server × List (ℕ × Answer)). respond sys_open (requests ready cs) t.0 t.1)
              (a1 ∙ ap (λ rs. respond sys_open rs st.server st.sent) (append-nil (request ready c)))
          ∙ sym (respond-append sys_open (request ready c) (requests ready cs) st.server st.sent),
      l2 ∙ l1,
      m2 ∙ m1,
    )

serve_loop-Turned :
    (sys_open : Bytes → ℤ → Opened) (ready : ℕ → Option Bytes) (n : ℕ) (xs ys : List Client)
    (st : Loop)
    → st.client ≡ xs ++ ys
    → Distinct (xs ++ ys)
    → Below n ys
    → Turned sys_open ready ys
        (xs ++ map (left ready) ys)
        st
        (serve_loop sys_open ready n (length xs) st)
unfolding serve_loop
serve_loop-Turned sys_open ready zero xs ys st e d b = (
  st,
  refl,
  e ∙ ap (λ (t : List Client). xs ++ t) (untouched ready ys b),
  (λ f. rw (silent ready ys f b) (and_true (has f st.allset))),
  rw (quiet ready ys b) refl,
  refl,
  refl,
)
serve_loop-Turned sys_open ready (suc n) xs [] st e d b = (
  st,
  past-Turned sys_open ready (suc n) (length xs) st (rw e (omega (arith, length-append xs []))),
  e,
  (λ f. and_true (has f st.allset)),
  refl,
  refl,
  refl,
)
serve_loop-Turned sys_open ready (suc n) xs (c ∷ ys) st e d b =
    let (st1, run1, client1, fds1, a1, l1, m1) = serve_entry-Turned sys_open ready xs ys c st e d in
    let xs' = xs ++ left ready c ∷ [] in
    let joins : xs' ++ ys ≡ xs ++ left ready c ∷ ys = append_assoc xs (left ready c ∷ []) ys in
    let at : length xs' ≡ length xs + 1 = length-append xs (left ready c ∷ []) in
    let whole : xs' ++ map (left ready) ys ≡ xs ++ map (left ready) (c ∷ ys) =
      append_assoc xs (left ready c ∷ []) (map (left ready) ys) in
    let rest =
      serve_loop-Turned sys_open ready n xs' ys st1 (client1 ∙ sym joins)
        (rw joins (Distinct-left ready xs ys c d)) (Below-rest n c ys b) in
    let here : get_elem? st.client (length xs) ≡ some c = rw e (get_at xs ys c) in
    rw (serve_loop, here, run1, ← at, ← whole)
      (Turned-trans sys_open ready c ys (xs ++ left ready c ∷ ys) (xs' ++ map (left ready) ys) st
        st1 _ client1 fds1 a1 l1 m1 rest)

-- A client that is left was there.
left_old :
    (ready : ℕ → Option Bytes) (cs : List Client) (i fd uid : ℕ)
    → get_elem? (map (left ready) cs) i ≡ some (some (fd, uid))
    → get_elem? cs i ≡ some (some (fd, uid))
left_old ready [] i fd uid e = e
left_old ready (none ∷ cs) zero fd uid e = e
left_old ready (some (f, u) ∷ cs) zero fd uid e = elim (Bool-cases (at_end (ready f))) [
  | inl gone ↦ absurd (nones 1 0 (fd, uid) (rw gone at e))
  | inr here ↦ rw here at e
]
left_old ready (c ∷ cs) (suc i) fd uid e = left_old ready cs i fd uid e

Absent-left :
    (ready : ℕ → Option Bytes) (f : ℕ) (cs : List Client)
    → Absent f cs
    → Absent f (map (left ready) cs)
Absent-left ready f [] a = tt
Absent-left ready f (none ∷ cs) a = Absent-left ready f cs a
Absent-left ready f (some (fd, uid) ∷ cs) a = elim (Bool-cases (at_end (ready fd))) [
  | inl gone ↦ rw gone (Absent-left ready f cs a.1)
  | inr here ↦ rw here (a.0, Absent-left ready f cs a.1)
]

Distinct-map :
    (ready : ℕ → Option Bytes) (cs : List Client) → Distinct cs → Distinct (map (left ready) cs)
Distinct-map ready [] d = tt
Distinct-map ready (none ∷ cs) d = Distinct-map ready cs d
Distinct-map ready (some (fd, uid) ∷ cs) d = elim (Bool-cases (at_end (ready fd))) [
  | inl gone ↦ rw gone (Distinct-map ready cs d.1)
  | inr here ↦ rw here (Absent-left ready fd cs d.0, Distinct-map ready cs d.1)
]

-- What a turn that serves the clients leaves.
pub record Served (sys_open : Bytes → ℤ → Opened) (ready : ℕ → Option Bytes) (st st' : Loop)
    : Type 0 where
  pub client : st'.client ≡ map (left ready) st.client
  pub allset : (f : ℕ) → has f st'.allset ≡ (has f st.allset && not (closes ready st.client f))
  pub answers :
      (st'.server, st'.sent) ≡ respond sys_open (requests ready st.client) st.server st.sent
  pub limit : st'.limit ≡ st.limit
  pub maxfd : st'.maxfd ≡ st.maxfd
  pub covered : Covered st'.client st'.limit st'.maxfd
  pub distinct : Distinct st'.client

-- Where no two clients have the same descriptor, and every client is below the bounds that select
-- and the walk go by, a turn that serves the clients finds each client that it has to delete. It
-- makes the entries available of exactly the clients whose input has come to its end, and takes
-- exactly their descriptors out of the set for select; each request that a client has sent is
-- handled, in the order of the array, and its answer sent to that client. The bounds stay, every
-- client is below them, and no two have the same descriptor.
pub serve_clients-Served :
    (sys_open : Bytes → ℤ → Opened) (ready : ℕ → Option Bytes) (st : Loop)
    → Distinct st.client
    → Covered st.client st.limit st.maxfd
    → (st' : Loop) × (serve_clients sys_open ready st ≡ some st') × Served sys_open ready st st'
unfolding serve_clients
serve_clients-Served sys_open ready st d c =
    let (st', run, client, fds, answers, l, m) =
      serve_loop-Turned sys_open ready st.limit [] st.client st refl d
        (Covered-Below st.limit st.client (λ i x e. (c i x.0 x.1 e).0)) in
    (
      st',
      run,
      record {
        client = client;
        allset = fds;
        answers = answers;
        limit = l;
        maxfd = m;
        covered = λ i fd uid e.
            let (a, b) = c i fd uid (
              left_old ready st.client i fd uid
                (sym (ap (λ (t : List Client). get_elem? t i) client) ∙ e)) in
            (omega (arith, a, l), omega (arith, b, m));
        distinct = rw client (Distinct-map ready st.client d);
      },
    )
