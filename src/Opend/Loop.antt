-- ===== src/Opend/Loop.antt =====
-- ipc2/opend/loop.select.c: the server's loop. Each turn either takes one new client or serves the
-- clients that are ready.
use learning_notes.Base.{
  ℕ, zero, suc, ◌+◌, max, Option, none, some, List, [], ◌∷◌, ◌==◌, if◌then◌else◌, get_elem?,
}
use learning_notes.CString.{Bytes}
use learning_notes.Base.Int.{ℤ}
use learning_notes.Opend.Clients.{Client, client_add, client_del}
use learning_notes.Opend.Request.{Server, Opened, Answer, handle_request}

-- The variables of the loop: `client`, the descriptors in `allset`, `maxfd`, and `maxi` with 1 added;
-- then those of the requests, and the answers so far.
pub record Loop : Type 0 where
  pub client : List Client
  pub allset : List ℕ
  pub maxfd : ℕ
  pub limit : ℕ
  pub server : Server
  pub sent : List (ℕ × Answer)

-- `FD_CLR`
abbrev pub clear_fd : ℕ → List ℕ → List ℕ
clear_fd fd [] = []
clear_fd fd (f ∷ fs) = let rest = clear_fd fd fs in if f == fd then rest else f ∷ rest

-- The turn that takes the new client `clifd`.
unfoldable pub accept_client : ℕ → ℕ → Loop → Option Loop
accept_client clifd uid st = elim (client_add 2 clifd uid st.client) [
  | none ↦ none
  | some (i, client) ↦ some (record st {
    client = client;
    allset = clifd ∷ st.allset;
    maxfd = max st.maxfd clifd;
    limit = max st.limit (i + 1);
  })
]

-- What is done about one descriptor that is ready: `[]` is the end of its input.
unfoldable pub serve_fd : (Bytes → ℤ → Opened) → ℕ → ℕ → Bytes → Loop → Option Loop
serve_fd sys_open clifd uid [] st = elim (client_del clifd st.client) [
  | none ↦ none
  | some client ↦ some (record st { client = client; allset = clear_fd clifd st.allset })
]
serve_fd sys_open clifd uid (c ∷ buf) st =
    let (a, server) = handle_request sys_open uid (c ∷ buf) st.server in
    some (record st { server = server; sent = (clifd, a) ∷ st.sent })

-- The body of the loop over client[].
unfoldable pub serve_entry :
    (Bytes → ℤ → Opened) → (ℕ → Option Bytes) → Option Client → Loop → Option Loop
serve_entry sys_open ready none st = some st
serve_entry sys_open ready (some none) st = some st
serve_entry sys_open ready (some (some (clifd, uid))) st = elim (ready clifd) [
  | none ↦ some st
  | some buf ↦ serve_fd sys_open clifd uid buf st
]

-- The loop over client[], from the index `i` for `n` rounds; `ready` is the input of a descriptor in
-- `rset`, and `none` for one that is not.
unfoldable pub serve_loop : (Bytes → ℤ → Opened) → (ℕ → Option Bytes) → ℕ → ℕ → Loop → Option Loop
serve_loop sys_open ready zero i st = some st
serve_loop sys_open ready (suc n) i st =
    elim (serve_entry sys_open ready (get_elem? st.client i) st) [
      | none ↦ none
      | some st' ↦ serve_loop sys_open ready n (i + 1) st'
    ]

-- The turn that serves the clients that are ready.
unfoldable pub serve_clients : (Bytes → ℤ → Opened) → (ℕ → Option Bytes) → Loop → Option Loop
unfolding serve_loop
serve_clients sys_open ready st = serve_loop sys_open ready st.limit 0 st
