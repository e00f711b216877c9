-- ===== src/Opend/Tests.antt =====
-- The open server on small inputs.
use learning_notes.Base.{
  ℕ, zero, suc, ◌≡◌, refl, ap, arith, Option, none, some, List, [], ◌∷◌, ◌++◌, codes, ◌==◌,
  if◌then◌else◌,
}
use learning_notes.Base.Int.{ℤ, pos}
use learning_notes.CString.{Bytes, decimal}
use learning_notes.Opend.Clients.{Client, client_add}
use learning_notes.Opend.ClientLaws.{Taken, client_add-Taken}
use learning_notes.Opend.Request.{buf_args, Server, Opened, opened, sent_fd, handle_request}
use learning_notes.Opend.RequestLaws.{words, buf_args-words, handle_request-open}
use learning_notes.Opend.Loop.{Loop, accept_client, serve_clients}
use learning_notes.Opend.LoopLaws.{Covered, accept_client-Covered}
use learning_notes.Opend.ServeLaws.{Served, serve_clients-Served}

client_add-Taken_example :
    (cs' : List Client) × (client_add 2 7 100 (some (5, 0) ∷ none ∷ []) ≡ some (1, cs'))
    × Taken 7 100 1 (some (5, 0) ∷ none ∷ []) cs'
client_add-Taken_example = client_add-Taken 7 100 (some (5, 0) ∷ none ∷ [])

buf_args-words_example :
    buf_args (words (codes "a" ∷ codes "b" ∷ [])) ≡ some (codes "a" ∷ codes "b" ∷ [])
buf_args-words_example =
    buf_args-words (codes "a") (codes "b" ∷ [])
      ((omega arith, (refl, tt)), ((omega arith, (refl, tt)), tt)) (omega arith)

abbrev server : Server
server = record { errmsg = codes "old"; pathname = []; oflag = pos 0 }

abbrev sys_open : Bytes → ℤ → Opened
sys_open path flag = opened 3

handle_request-open_example :
    handle_request sys_open 100 (words (codes "open" ∷ codes "f" ∷ decimal 0 ∷ []) ++ 0 ∷ []) server
    ≡ (sent_fd 3, record server { pathname = codes "f"; oflag = pos 0 })
handle_request-open_example =
    handle_request-open sys_open 100 (codes "f") 0 server (omega arith, (refl, tt))
      ((λ e. omega arith), tt) (omega arith)

-- The loop with one client.
abbrev one_client : Loop
one_client = record {
  client = some (5, 100) ∷ [];
  allset = 5 ∷ [];
  maxfd = 5;
  limit = 1;
  server = server;
  sent = [];
}

fd_of : Option Client → ℕ
fd_of (some (some (fd, uid))) = fd
fd_of (some none) = 0
fd_of none = 0

one_client-Covered : Covered one_client.client 1 5
unfolding fd_of
one_client-Covered zero fd uid e =
    let it : 5 ≡ fd = ap (λ (o : Option Client). fd_of o) e in (omega arith, omega arith)
one_client-Covered (suc i) fd uid e = absurd (ground arith)

accept_client-Covered_example :
    (st' : Loop) × (accept_client 6 101 one_client ≡ some st')
    × Covered st'.client st'.limit st'.maxfd
accept_client-Covered_example = accept_client-Covered 6 101 one_client one_client-Covered

-- Two clients, of which the first has gone and the second asks for a file.
abbrev two_clients : Loop
two_clients = record {
  client = some (5, 100) ∷ none ∷ some (6, 101) ∷ [];
  allset = 6 ∷ 5 ∷ [];
  maxfd = 6;
  limit = 3;
  server = server;
  sent = [];
}

two_clients-Covered : Covered two_clients.client 3 6
unfolding fd_of
two_clients-Covered zero fd uid e =
    let it : 5 ≡ fd = ap (λ (o : Option Client). fd_of o) e in (omega arith, omega arith)
two_clients-Covered (suc zero) fd uid e = absurd (ground arith)
two_clients-Covered (suc (suc zero)) fd uid e =
    let it : 6 ≡ fd = ap (λ (o : Option Client). fd_of o) e in (omega arith, omega arith)
two_clients-Covered (suc (suc (suc i))) fd uid e = absurd (ground arith)

abbrev ready : ℕ → Option Bytes
ready fd = if fd == 5 then some [] else some (codes "open f 0" ++ 0 ∷ [])

serve_clients-Served_example :
    (st' : Loop) × (serve_clients sys_open ready two_clients ≡ some st')
    × Served sys_open ready two_clients st'
serve_clients-Served_example =
    serve_clients-Served sys_open ready two_clients (((λ e. omega arith), tt), (tt, tt))
      two_clients-Covered
