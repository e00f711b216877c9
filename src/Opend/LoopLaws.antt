-- ===== src/Opend/LoopLaws.antt =====
-- ipc2/opend/loop.select.c: the bounds that the loop keeps for select and for its walk, and the turn
-- that takes a new client.
use learning_notes.Base.{
  ℕ, ◌+◌, ◌≡◌, ◌≤◌, ◌<◌, refl, sym, ap, ◌∙◌, max, Option, none, some, List, ◌∷◌, get_elem?, arith,
  inl, inr, eq-cases,
}
use learning_notes.Opend.Clients.{Client}
use learning_notes.Opend.ClientLaws.{first_free, grown_old, client_add-Taken}
use learning_notes.Opend.Loop.{Loop, accept_client}

-- Every client that is connected is below the bounds that select and the walk go by.
abbrev pub Covered : List Client → ℕ → ℕ → Type 0
Covered client limit maxfd =
    (i fd uid : ℕ) → get_elem? client i ≡ some (some (fd, uid)) → (i < limit) × (fd ≤ maxfd)

-- The descriptor of an entry that is taken.
fd_of : Option Client → ℕ
fd_of (some (some (fd, uid))) = fd
fd_of (some none) = 0
fd_of none = 0

-- Where every client that is connected is below the bounds that select and the walk go by, taking a
-- client succeeds and keeps them so.
pub accept_client-Covered :
    (clifd uid : ℕ) (st : Loop)
    → Covered st.client st.limit st.maxfd
    → (st' : Loop) × (accept_client clifd uid st ≡ some st')
      × Covered st'.client st'.limit st'.maxfd
unfolding accept_client fd_of
accept_client-Covered clifd uid st c =
    let i = first_free st.client in
    let (cs', run, t) = client_add-Taken clifd uid st.client in
    (
      record st {
        client = cs';
        allset = clifd ∷ st.allset;
        maxfd = max st.maxfd clifd;
        limit = max st.limit (i + 1);
      },
      rw (accept_client, run) refl,
      λ j fd u e. elim (eq-cases j i) [
        | inl same ↦
            let it : fd ≡ clifd =
              ap fd_of (sym e ∙ ap (λ (k : ℕ). get_elem? cs' k) same ∙ t.here) in
            (omega arith, omega arith)
        | inr other ↦
            let (l, m) = c j fd u (grown_old st.client j fd u (sym (t.others j other) ∙ e)) in
            (omega arith, omega arith)
      ],
    )
