-- ===== src/Opend/ClientLaws.antt =====
-- ipc2/opend/client.c: the array against the clients that it holds.
use mathlib.Core.Path.{subst}
use learning_notes.Base.{
  ℕ, zero, suc, ◌≡◌, ◌≢◌, ◌<◌, refl, sym, ap, ◌∙◌, true, false, Option, none, some, List, [], ◌∷◌,
  ◌++◌, length, get_elem?, All, arith, ==_of_ne, ==-refl, ◌==◌, same_test, if◌then◌else◌, replicate,
  Bool-cases, inl, inr,
}
use learning_notes.Opend.Clients.{Client, client_alloc, add_loop, client_add, client_del}

-- The descriptor is that of no client.
abbrev pub Absent : ℕ → List Client → Type 0
Absent fd [] = Unit
Absent fd (none ∷ cs) = Absent fd cs
Absent fd (some (f, uid) ∷ cs) = (f ≢ fd) × Absent fd cs

-- The entry `i` is taken for the client, was available, and is the only one that changed.
pub record Taken (fd uid i : ℕ) (cs cs' : List Client) : Type 0 where
  pub here : get_elem? cs' i ≡ some (some (fd, uid))
  pub available : get_elem? cs i ≡ some none
  pub others : (j : ℕ) → j ≢ i → get_elem? cs' j ≡ get_elem? cs j
  pub size : length cs' ≡ length cs
  pub undone : Absent fd cs → client_del fd cs' ≡ some cs

-- The outcome of the search for an available entry.
abbrev pub Searched : ℕ → ℕ → List Client → Option (ℕ × List Client) → Type 0
Searched fd uid cs none = All (λ c. c ≢ none) cs
Searched fd uid cs (some (i, cs')) = Taken fd uid i cs cs'

others_cons :
    (c : Client) (i : ℕ) (cs cs' : List Client)
    → ((j : ℕ) → j ≢ i → get_elem? cs' j ≡ get_elem? cs j)
    → (j : ℕ) → j ≢ suc i
    → get_elem? (c ∷ cs') j ≡ get_elem? (c ∷ cs) j
others_cons c i cs cs' h zero ne = refl
others_cons c i cs cs' h (suc j) ne = h j (λ e. ne (ap (λ (n : ℕ). suc n) e))

others_head :
    (c d : Client) (cs : List Client)
    → (j : ℕ) → j ≢ 0
    → get_elem? (c ∷ cs) j ≡ get_elem? (d ∷ cs) j
others_head c d cs zero ne = elim (ne refl) [ ]
others_head c d cs (suc j) ne = refl

Searched-cons :
    (fd uid : ℕ) (c : ℕ × ℕ) (cs : List Client) (r : Option (ℕ × List Client))
    → Searched fd uid cs r
    → Searched fd uid
        (some c ∷ cs)
        (elim r [ none ↦ none | some (i, cs') ↦ some (suc i, some c ∷ cs') ])
unfolding client_del
Searched-cons fd uid c cs none s = ((λ e. ground arith), s)
Searched-cons fd uid c cs (some (i, cs')) s = record {
  here = s.here;
  available = s.available;
  others = others_cons (some c) i cs cs' s.others;
  size = omega (arith, s.size);
  undone = λ (ne, a). rw (==_of_ne c.0 fd ne, s.undone a) refl;
}

pub add_loop-Searched : (fd uid : ℕ) (cs : List Client) → Searched fd uid cs (add_loop fd uid cs)
unfolding add_loop client_del
add_loop-Searched fd uid [] = tt
add_loop-Searched fd uid (none ∷ cs) = record {
  here = refl;
  available = refl;
  others = others_head (some (fd, uid)) none cs;
  size = refl;
  undone = λ a. rw (==-refl fd) refl;
}
add_loop-Searched fd uid (some c ∷ cs) =
    Searched-cons fd uid c cs (add_loop fd uid cs) (add_loop-Searched fd uid cs)

Absent-client_alloc : (fd : ℕ) (cs : List Client) → Absent fd cs → Absent fd (client_alloc cs)
unfolding client_alloc
Absent-client_alloc fd [] a = tt
Absent-client_alloc fd (none ∷ cs) a = Absent-client_alloc fd cs a
Absent-client_alloc fd (some c ∷ cs) a = (a.0, Absent-client_alloc fd cs a.1)

step_none :
    (c : ℕ × ℕ) (r : Option (ℕ × List Client))
    → (elim r as (λ _. Option (ℕ × List Client)) [
      | none ↦ none
      | some (i, cs') ↦ some (suc i, some c ∷ cs')
    ])
      ≡ none
    → r ≡ none
step_none c none e = refl
step_none c (some r) e = ground arith

client_add-hit :
    (k fd uid : ℕ) (cs : List Client) {r : ℕ × List Client}
    → add_loop fd uid cs ≡ some r
    → client_add (suc k) fd uid cs ≡ some r
unfolding client_add
client_add-hit k fd uid cs e = rw (client_add, e) refl

client_add-miss :
    (k fd uid : ℕ) (cs : List Client)
    → add_loop fd uid cs ≡ none
    → client_add (suc k) fd uid cs ≡ client_add k fd uid (client_alloc cs)
unfolding client_add
client_add-miss k fd uid cs e = rw (client_add, e) refl

alloc_available : (fd uid : ℕ) (cs : List Client) → add_loop fd uid (client_alloc cs) ≢ none
unfolding add_loop client_alloc
alloc_available fd uid [] e = ground arith
alloc_available fd uid (none ∷ cs) e = ground arith
alloc_available fd uid (some c ∷ cs) e =
    alloc_available fd uid cs (step_none c (add_loop fd uid (client_alloc cs)) e)

-- The index of the first available entry, and the size of the array if it is full.
abbrev pub first_free : List Client → ℕ
first_free [] = 0
first_free (none ∷ cs) = 0
first_free (some c ∷ cs) = suc (first_free cs)

-- The array, with NALLOC more entries if it is full.
abbrev pub grown : List Client → List Client
grown cs = if first_free cs == length cs then cs ++ replicate 10 none else cs

-- What the search finds is the first available entry.
abbrev FirstFree : List Client → Option (ℕ × List Client) → Type 0
FirstFree cs none = first_free cs ≡ length cs
FirstFree cs (some (i, cs')) = (i ≡ first_free cs) × (first_free cs < length cs)

FirstFree-cons :
    (c : ℕ × ℕ) (cs : List Client) (r : Option (ℕ × List Client))
    → FirstFree cs r
    → FirstFree (some c ∷ cs) (elim r [ none ↦ none | some (i, cs') ↦ some (suc i, some c ∷ cs') ])
FirstFree-cons c cs none f = omega (arith, f)
FirstFree-cons c cs (some (i, cs')) f = (omega (arith, f.0), omega (arith, f.1))

add_loop-FirstFree : (fd uid : ℕ) (cs : List Client) → FirstFree cs (add_loop fd uid cs)
unfolding add_loop
add_loop-FirstFree fd uid [] = refl
add_loop-FirstFree fd uid (none ∷ cs) = (refl, omega arith)
add_loop-FirstFree fd uid (some c ∷ cs) =
    FirstFree-cons c cs (add_loop fd uid cs) (add_loop-FirstFree fd uid cs)

first_free-client_alloc :
    (cs : List Client) → first_free cs ≡ length cs → first_free (client_alloc cs) ≡ length cs
unfolding client_alloc
first_free-client_alloc [] e = refl
first_free-client_alloc (none ∷ cs) e = absurd (omega (arith, e))
first_free-client_alloc (some c ∷ cs) e =
    omega (arith, first_free-client_alloc cs (omega (arith, e)))

add_last :
    (fd uid : ℕ) (cs : List Client) (r : Option (ℕ × List Client))
    → Searched fd uid cs r
    → FirstFree cs r
    → r ≢ none
    → (cs' : List Client) × (r ≡ some (first_free cs, cs')) × Taken fd uid (first_free cs) cs cs'
add_last fd uid cs none s f ne = elim (ne refl) [ ]
add_last fd uid cs (some (i, cs')) s f ne =
    (cs', rw f.0 refl, subst (λ (n : ℕ). Taken fd uid n cs cs') f.0 s)

add_first :
    (fd uid : ℕ) (cs : List Client) (r : Option (ℕ × List Client))
    → Searched fd uid cs r
    → FirstFree cs r
    → add_loop fd uid cs ≡ r
    → (cs' : List Client) × (client_add 2 fd uid cs ≡ some (first_free cs, cs'))
      × Taken fd uid (first_free cs) (grown cs) cs'
unfolding client_alloc
add_first fd uid cs (some (i, cs')) s f e =
    let not_full : (first_free cs == length cs) ≡ false =
      ==_of_ne (first_free cs) (length cs) (λ q. omega (arith, q, f.1)) in
    (
      cs',
      client_add-hit 1 fd uid cs (e ∙ ap (λ (n : ℕ). some (n, cs')) f.0),
      rw not_full (subst (λ (n : ℕ). Taken fd uid n cs cs') f.0 s),
    )
add_first fd uid cs none s f e =
    let full : (first_free cs == length cs) ≡ true = same_test (first_free cs) (length cs) f in
    let i : first_free (client_alloc cs) ≡ first_free cs = first_free-client_alloc cs f ∙ sym f in
    let (cs', run, t) =
      add_last fd uid (client_alloc cs) (add_loop fd uid (client_alloc cs))
        (add_loop-Searched fd uid (client_alloc cs)) (add_loop-FirstFree fd uid (client_alloc cs))
        (alloc_available fd uid cs) in
    (
      cs',
      client_add-miss 1 fd uid cs e
          ∙ client_add-hit 0 fd uid (client_alloc cs) run
          ∙ ap (λ (n : ℕ). some (n, cs')) i,
      rw full (subst (λ (n : ℕ). Taken fd uid n (client_alloc cs) cs') i t),
    )

-- client_add searches the array at most twice. It returns the index of the first available entry
-- and puts the client there; if there is none, the array is first made longer by NALLOC available
-- entries, and the index is that of the first of them. No other entry changes. If no client had the
-- descriptor, client_del then makes the entry available again.
pub client_add-Taken :
    (fd uid : ℕ) (cs : List Client)
    → (cs' : List Client) × (client_add 2 fd uid cs ≡ some (first_free cs, cs'))
      × Taken fd uid (first_free cs) (grown cs) cs'
client_add-Taken fd uid cs =
    add_first fd uid cs (add_loop fd uid cs) (add_loop-Searched fd uid cs)
      (add_loop-FirstFree fd uid cs) refl

pub nones : (n i : ℕ) (c : ℕ × ℕ) → get_elem? (replicate {A = Client} n none) i ≢ some (some c)
nones zero i c e = ground arith
nones (suc n) zero c e = ground arith
nones (suc n) (suc i) c e = nones n i c e

alloc_old :
    (cs : List Client) (i fd uid : ℕ)
    → get_elem? (cs ++ replicate 10 none) i ≡ some (some (fd, uid))
    → get_elem? cs i ≡ some (some (fd, uid))
alloc_old [] i fd uid e = absurd (nones 10 i (fd, uid) e)
alloc_old (c ∷ cs) zero fd uid e = e
alloc_old (c ∷ cs) (suc i) fd uid e = alloc_old cs i fd uid e

-- A client of the longer array was one of the array.
pub grown_old :
    (cs : List Client) (i fd uid : ℕ)
    → get_elem? (grown cs) i ≡ some (some (fd, uid))
    → get_elem? cs i ≡ some (some (fd, uid))
grown_old cs i fd uid = elim (Bool-cases (first_free cs == length cs)) [
  | inl full ↦ rw full (alloc_old cs i fd uid)
  | inr room ↦ rw room (λ e. e)
]
