-- ===== src/Jobs.antt =====
-- The doubly linked job lists of apue.3e/printer/printd.c and apue.3e/threads/rwlock.c: nodes at
-- addresses, and what a heap must hold to be a list.
pub mod Segments
pub mod Spool
pub mod RwQueue
pub mod Parts
pub mod Order
pub mod RwLaws
pub mod Workers
mod Tests
use learning_notes.Base.{
  ℕ, ◌≡◌, ◌≢◌, Bool, Option, none, some, List, [], ◌∷◌, ◌==◌, if◌then◌else◌, All,
}

abbrev pub Ptr : Type 0
Ptr = ℕ

abbrev pub null : Ptr
null = 0

-- `struct job`: the two links, and the rest of the structure as one item.
pub record Node (A : Type 0) : Type 0 where
  pub next : Ptr
  pub prev : Ptr
  pub item : A

abbrev pub node : {A : Type 0} → Ptr → Ptr → A → Node A
node n p v = record { next = n; prev = p; item = v }

abbrev pub Heap : Type 0 → Type 0
Heap A = Ptr → Option (Node A)

-- A list's head and tail, with the heap that its nodes lie in.
pub record Queue (A : Type 0) : Type 0 where
  pub head : Ptr
  pub tail : Ptr
  pub heap : Heap A

infixl 5 ◌>>=◌
abbrev pub ◌>>=◌ : {B C : Type 0} → Option B → (B → Option C) → Option C
none >>= f = none
some b >>= f = f b

module _ {A : Type 0} where
  unfoldable pub put : Heap A → Ptr → Option (Node A) → Heap A
  put h p c a = if a == p then c else h a

  -- `*p`; `none` is a fault: the null pointer, or no node there.
  unfoldable pub load : Heap A → Ptr → Option (Node A)
  load h p = if p == null then none else h p

  -- `p->next = q`
  unfoldable pub set_next : Heap A → Ptr → Ptr → Option (Heap A)
  unfolding load put
  set_next h p q = do n ← load h p; some (put h p (some (record n { next = q })))

  -- `p->prev = q`
  unfoldable pub set_prev : Heap A → Ptr → Ptr → Option (Heap A)
  unfolding load put
  set_prev h p q = do n ← load h p; some (put h p (some (record n { prev = q })))

  -- From `p`, whose node points back to `prev`, the nodes `xs` in order; the last of them is
  -- `last` and points forward to `stop`.
  abbrev pub Seg : Heap A → Ptr → Ptr → List (Ptr × A) → Ptr → Ptr → Type 0
  Seg h prev p [] last stop = (p ≡ stop) × (last ≡ prev)
  Seg h prev p ((a, v) ∷ xs) last stop =
      (n : Ptr) × (p ≡ a) × (a ≢ null) × (h a ≡ some (node n prev v)) × Seg h a n xs last stop

  -- No address stands twice.
  abbrev pub Distinct : List (Ptr × A) → Type 0
  Distinct [] = Unit
  Distinct ((a, v) ∷ xs) = All (λ (x : Ptr × A). x.0 ≢ a) xs × Distinct xs

  -- The queue is the list of the jobs `xs`.
  pub record IsQueue (q : Queue A) (xs : List (Ptr × A)) : Type 0 where
    pub links : Seg q.heap null q.head xs q.tail null
    pub distinct : Distinct xs
