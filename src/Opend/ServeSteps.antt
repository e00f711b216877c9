-- ===== src/Opend/ServeSteps.antt =====
-- ipc2/opend/loop.select.c: what a turn that serves the clients is to do, and one entry of the array.
use learning_notes.Base.{
  ℕ, zero, suc, ◌≡◌, ◌≢◌, ◌≤◌, refl, sym, ap, ◌∙◌, Bool, true, false, ◌&&◌, ◌||◌, not, Option, none,
  some, List, [], ◌∷◌, ◌++◌, length, ◌==◌, ==-refl, ==_of_ne, get_elem?, arith, if◌then◌else◌,
}
use learning_notes.CString.{Bytes}
use learning_notes.Base.Int.{ℤ}
use learning_notes.Opend.Clients.{Client, client_del}
use learning_notes.Opend.ClientLaws.{Absent}
use learning_notes.Opend.Request.{Server, Opened, Answer, handle_request}
use learning_notes.Opend.Loop.{clear_fd, Loop, serve_fd, serve_entry}

-- No two clients have the same descriptor.
abbrev pub Distinct : List Client → Type 0
Distinct [] = Unit
Distinct (none ∷ cs) = Distinct cs
Distinct (some (fd, uid) ∷ cs) = Absent fd cs × Distinct cs

-- Whether the input of a descriptor has come to its end, and what a client asks for.
abbrev pub at_end : Option Bytes → Bool
at_end none = false
at_end (some []) = true
at_end (some (c ∷ buf)) = false

abbrev pub asked : ℕ → ℕ → Option Bytes → List (ℕ × ℕ × Bytes)
asked fd uid none = []
asked fd uid (some []) = []
asked fd uid (some (c ∷ buf)) = (fd, uid, c ∷ buf) ∷ []

abbrev pub has : ℕ → List ℕ → Bool
has f [] = false
has f (x ∷ xs) = x == f || has f xs

module _ (ready : ℕ → Option Bytes) where
  -- An entry of the array when the turn is over.
  abbrev pub left : Client → Client
  left none = none
  left (some (fd, uid)) = if at_end (ready fd) then none else some (fd, uid)

  abbrev pub request : Client → List (ℕ × ℕ × Bytes)
  request none = []
  request (some (fd, uid)) = asked fd uid (ready fd)

  abbrev pub ends : Client → ℕ → Bool
  ends none f = false
  ends (some (fd, uid)) f = at_end (ready fd) && fd == f

  -- The requests of the clients, in the order of the array.
  abbrev pub requests : List Client → List (ℕ × ℕ × Bytes)
  requests [] = []
  requests (c ∷ cs) = request c ++ requests cs

  -- Whether the descriptor is that of a client whose input has come to its end.
  abbrev pub closes : List Client → ℕ → Bool
  closes [] f = false
  closes (c ∷ cs) f = ends c f || closes cs f

-- The requests are handled one after the other.
abbrev pub respond :
    (Bytes → ℤ → Opened)
    → List (ℕ × ℕ × Bytes)
    → Server
    → List (ℕ × Answer)
    → Server × List (ℕ × Answer)
respond sys_open [] server sent = (server, sent)
respond sys_open ((fd, uid, buf) ∷ rs) server sent =
    let r = handle_request sys_open uid buf server in respond sys_open rs r.1 ((fd, r.0) ∷ sent)

-- What a part of the turn does about the clients `cs`, where `to` is the array that it leaves.
abbrev pub Turned :
    (Bytes → ℤ → Opened)
    → (ℕ → Option Bytes)
    → List Client
    → List Client
    → Loop
    → Option Loop
    → Type 0
Turned sys_open ready cs to st r =
    (st' : Loop) × (r ≡ some st')
    × (st'.client ≡ to)
    × ((f : ℕ) → has f st'.allset ≡ (has f st.allset && not (closes ready cs f)))
    × ((st'.server, st'.sent) ≡ respond sys_open (requests ready cs) st.server st.sent)
    × (st'.limit ≡ st.limit)
    × (st'.maxfd ≡ st.maxfd)

pub and_true : (b : Bool) → b ≡ (b && not false)
and_true true = refl
and_true false = refl

pub and_not : (a b c : Bool) → ((a && not b) && not c) ≡ (a && not (b || c))
and_not true true c = refl
and_not true false c = refl
and_not false b c = refl

pub or_false : (b : Bool) → (b || false) ≡ b
or_false true = refl
or_false false = refl

has-clear_fd : (fd f : ℕ) (xs : List ℕ) → has f (clear_fd fd xs) ≡ (has f xs && not (fd == f))
has-clear_fd fd f [] = refl
has-clear_fd fd f (x ∷ xs) = ground (arith, has-clear_fd fd f xs)

pub respond-append :
    (sys_open : Bytes → ℤ → Opened) (xs ys : List (ℕ × ℕ × Bytes)) (s : Server)
    (t : List (ℕ × Answer))
    → respond sys_open (xs ++ ys) s t
      ≡ respond sys_open ys (respond sys_open xs s t).0 (respond sys_open xs s t).1
respond-append sys_open [] ys s t = refl
respond-append sys_open ((fd, uid, buf) ∷ xs) ys s t =
    let r = handle_request sys_open uid buf s in respond-append sys_open xs ys r.1 ((fd, r.0) ∷ t)

pub get_at : (xs ys : List Client) (c : Client) → get_elem? (xs ++ c ∷ ys) (length xs) ≡ some c
get_at [] ys c = refl
get_at (x ∷ xs) ys c = get_at xs ys c

pub get_past : (xs : List Client) (i : ℕ) → length xs ≤ i → get_elem? xs i ≡ none
get_past [] i h = refl
get_past (x ∷ xs) zero h = absurd (omega arith)
get_past (x ∷ xs) (suc i) h = get_past xs i (omega arith)

Absent-none :
    (f : ℕ) (xs ys : List Client) (c : Client)
    → Absent f (xs ++ c ∷ ys)
    → Absent f (xs ++ none ∷ ys)
Absent-none f [] ys none a = a
Absent-none f [] ys (some c) a = a.1
Absent-none f (none ∷ xs) ys c a = Absent-none f xs ys c a
Absent-none f (some x ∷ xs) ys c a = (a.0, Absent-none f xs ys c a.1)

pub Distinct-none :
    (xs ys : List Client) (c : Client) → Distinct (xs ++ c ∷ ys) → Distinct (xs ++ none ∷ ys)
Distinct-none [] ys none d = d
Distinct-none [] ys (some c) d = d.1
Distinct-none (none ∷ xs) ys c d = Distinct-none xs ys c d
Distinct-none (some x ∷ xs) ys c d = (Absent-none x.0 xs ys c d.0, Distinct-none xs ys c d.1)

Absent-ne : (f fd uid : ℕ) (xs ys : List Client) → Absent f (xs ++ some (fd, uid) ∷ ys) → fd ≢ f
Absent-ne f fd uid [] ys a = a.0
Absent-ne f fd uid (none ∷ xs) ys a = Absent-ne f fd uid xs ys a
Absent-ne f fd uid (some x ∷ xs) ys a = Absent-ne f fd uid xs ys a.1

client_del-at :
    (fd uid : ℕ) (xs ys : List Client)
    → Distinct (xs ++ some (fd, uid) ∷ ys)
    → client_del fd (xs ++ some (fd, uid) ∷ ys) ≡ some (xs ++ none ∷ ys)
unfolding client_del
client_del-at fd uid [] ys d = rw (client_del, ==-refl fd) refl
client_del-at fd uid (none ∷ xs) ys d = rw (client_del, client_del-at fd uid xs ys d) refl
client_del-at fd uid (some x ∷ xs) ys d =
    rw
      (
        client_del,
        ==_of_ne x.0 fd (λ e. Absent-ne x.0 fd uid xs ys d.0 (sym e)),
        client_del-at fd uid xs ys d.1,
      )
      refl

-- One entry of the array.
pub serve_entry-Turned :
    (sys_open : Bytes → ℤ → Opened) (ready : ℕ → Option Bytes) (xs ys : List Client) (c : Client)
    (st : Loop)
    → st.client ≡ xs ++ c ∷ ys
    → Distinct (xs ++ c ∷ ys)
    → Turned sys_open ready
        (c ∷ [])
        (xs ++ left ready c ∷ ys)
        st
        (serve_entry sys_open ready (some c) st)
unfolding serve_entry serve_fd
serve_entry-Turned sys_open ready xs ys none st e d =
    (st, refl, e, (λ f. and_true (has f st.allset)), refl, refl, refl)
serve_entry-Turned sys_open ready xs ys (some (fd, uid)) st e d = by_input (ready fd) refl
  where
    by_input :
        (o : Option Bytes)
        → ready fd ≡ o
        → Turned sys_open ready
            (some (fd, uid) ∷ [])
            (xs ++ left ready (some (fd, uid)) ∷ ys)
            st
            (serve_entry sys_open ready (some (some (fd, uid))) st)
    by_input none h =
        rw h (st, rw (serve_entry, h) refl, e, (λ f. and_true (has f st.allset)), refl, refl, refl)
    by_input (some []) h = rw h (
      record st { client = xs ++ none ∷ ys; allset = clear_fd fd st.allset },
      rw (serve_entry, h, serve_fd, e, client_del-at fd uid xs ys d) refl,
      refl,
      (λ f.
          has-clear_fd fd f st.allset
          ∙ ap (λ b. has f st.allset && not b) (sym (or_false (fd == f)))),
      refl,
      refl,
      refl,
    )
    by_input (some (b ∷ buf)) h =
        let r = handle_request sys_open uid (b ∷ buf) st.server in
        rw h (
          record st { server = r.1; sent = (fd, r.0) ∷ st.sent },
          rw (serve_entry, h, serve_fd) refl,
          e,
          (λ f. and_true (has f st.allset)),
          refl,
          refl,
          refl,
        )
