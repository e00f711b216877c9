-- ===== src/Opend/Clients.antt =====
-- ipc2/opend/client.c: the array of the clients that are connected.
use learning_notes.Base.{
  ℕ, zero, suc, Option, none, some, List, [], ◌∷◌, ◌++◌, ◌==◌, if◌then◌else◌, replicate,
}

-- `Client`: descriptor and user, or `none` where the descriptor is -1, which marks an entry as
-- available; the user of such an entry is not read.
abbrev pub Client : Type 0
Client = Option (ℕ × ℕ)

-- NALLOC
abbrev pub nalloc : ℕ
nalloc = 10

-- client_alloc; the array that is null is that of size 0.
unfoldable pub client_alloc : List Client → List Client
client_alloc client = client ++ replicate nalloc none

-- The loop of client_add: the index of the first available entry, and the array with it taken.
unfoldable pub add_loop : ℕ → ℕ → List Client → Option (ℕ × List Client)
add_loop fd uid [] = none
add_loop fd uid (none ∷ cs) = some (0, some (fd, uid) ∷ cs)
add_loop fd uid (some c ∷ cs) = elim (add_loop fd uid cs) [
  | none ↦ none
  | some (i, cs') ↦ some (suc i, some c ∷ cs')
]

-- client_add, which goes back to `again` at most `fuel` times.
unfoldable pub client_add : ℕ → ℕ → ℕ → List Client → Option (ℕ × List Client)
client_add zero fd uid client = none
client_add (suc fuel) fd uid client =
    let again : Option (ℕ × List Client) = client_add fuel fd uid (client_alloc client) in
    elim (add_loop fd uid client) [ none ↦ again | some r ↦ some r ]

-- client_del; `none` is log_quit.
unfoldable pub client_del : ℕ → List Client → Option (List Client)
client_del fd [] = none
client_del fd (none ∷ cs) = elim (client_del fd cs) [ none ↦ none | some cs' ↦ some (none ∷ cs') ]
client_del fd (some (f, uid) ∷ cs) =
    let rest : Option (List Client) = elim (client_del fd cs) [
      | none ↦ none
      | some cs' ↦ some (some (f, uid) ∷ cs')
    ] in
    if f == fd then some (none ∷ cs) else rest
