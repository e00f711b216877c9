-- ===== src/RefTable.antt =====
-- apue.3e/threads/mutex2.c and apue.3e/threads/mutex3.c: objects that are counted by their users, in
-- a hash table. What a thread does under one lock is one step.
pub mod Chains
pub mod Release
pub mod Agree
mod Tests
use learning_notes.Base.{
  ℕ, zero, suc, ◌+◌, ◌-◌, ◌%◌, ◌^◌, Bool, true, false, Option, none, some, ◌==◌, if◌then◌else◌,
}
use learning_notes.Base.Int.{ℤ, pos, negsuc}

abbrev pub Ptr : Type 0
Ptr = ℕ

abbrev pub null : Ptr
null = 0

-- NHASH
abbrev pub nhash : ℕ
nhash = 29

-- `struct foo`
pub record Foo : Type 0 where
  pub f_count : ℤ
  pub f_id : ℤ
  pub f_next : Ptr

-- `fh`, and the objects at their addresses
pub record Table : Type 0 where
  pub fh : ℕ → Ptr
  pub heap : Ptr → Option Foo

-- HASH of an int, which becomes an unsigned long
unfoldable pub hash_id : ℤ → ℕ
hash_id (pos n) = n % nhash
hash_id (negsuc n) = (2 ^ 64 - 1 - n) % nhash

infixl 5 ◌>>=◌
abbrev pub ◌>>=◌ : {B C : Type 0} → Option B → (B → Option C) → Option C
none >>= f = none
some b >>= f = f b

unfoldable pub put : {A : Type 0} → (ℕ → A) → ℕ → A → ℕ → A
put h p c a = if a == p then c else h a

-- `*p`; `none` is a fault: the null pointer, or memory that was freed.
unfoldable pub load : (Ptr → Option Foo) → Ptr → Option Foo
load h p = if p == null then none else h p

-- foo_alloc, with the address that `malloc` returned
unfoldable pub foo_alloc : Table → Ptr → ℤ → Table
foo_alloc t fp id = record {
  heap = put t.heap fp (some (record { f_count = pos 1; f_id = id; f_next = t.fh (hash_id id) }));
  fh = put t.fh (hash_id id) fp;
}

-- `n + 1`
unfoldable pub incr : ℤ → ℤ
incr (pos n) = pos (suc n)
incr (negsuc zero) = pos 0
incr (negsuc (suc n)) = negsuc n

-- `n - 1`
unfoldable pub decr : ℤ → ℤ
decr (pos zero) = negsuc 0
decr (pos (suc n)) = pos n
decr (negsuc n) = negsuc (suc n)

abbrev pub same_int : ℤ → ℤ → Bool
same_int (pos m) (pos n) = m == n
same_int (pos m) (negsuc n) = false
same_int (negsuc m) (pos n) = false
same_int (negsuc m) (negsuc n) = m == n

-- foo_hold
unfoldable pub foo_hold : Table → Ptr → Option Table
unfolding incr
foo_hold t fp = do
  f ← load t.heap fp
  some (record t { heap = put t.heap fp (some (record f { f_count = incr f.f_count })) })

-- The loop of foo_find, on fuel.
unfoldable pub find_loop : ℕ → (Ptr → Option Foo) → Ptr → (ℤ → Bool) → Option Ptr
find_loop zero h fp is_id = none
find_loop (suc k) h fp is_id =
    if fp == null
    then some null
    else (do f ← load h fp; if is_id f.f_id then some fp else find_loop k h f.f_next is_id)

-- foo_find: the object, held once more, or null
unfoldable pub foo_find : ℕ → Table → ℤ → Option (Ptr × Table)
unfolding find_loop
foo_find fuel t id = do
  fp ← find_loop fuel t.heap (t.fh (hash_id id)) (λ i. same_int i id)
  if fp == null then some (null, t) else (do t' ← foo_hold t fp; some (fp, t'))

-- The loop that looks for the object in front of `fp`, on fuel.
unfoldable pub front_loop : ℕ → (Ptr → Option Foo) → Ptr → Ptr → Option Ptr
front_loop zero h tfp fp = none
front_loop (suc k) h tfp fp = do
  f ← load h tfp
  if f.f_next == fp then some tfp else front_loop k h f.f_next fp

-- The part of foo_rele that takes the object off its list and frees it.
unfoldable pub remove_foo : ℕ → Table → Ptr → Foo → Option Table
unfolding front_loop
remove_foo fuel t fp f =
    if t.fh (hash_id f.f_id) == fp
    then some (record { fh = put t.fh (hash_id f.f_id) f.f_next; heap = put t.heap fp none })
    else (do
      tfp ← front_loop fuel t.heap (t.fh (hash_id f.f_id)) fp
      g ← load t.heap tfp
      some (record t {
        heap = put (put t.heap tfp (some (record g { f_next = f.f_next }))) fp none;
      }))

-- `fp->f_count--`
unfoldable pub lower : Table → Ptr → Foo → Table
unfolding decr
lower t fp f = record t { heap = put t.heap fp (some (record f { f_count = decr f.f_count })) }

-- foo_rele of mutex3.c: the count is lowered, and what it then is decides.
unfoldable pub foo_rele : ℕ → Table → Ptr → Option Table
unfolding decr lower
foo_rele fuel t fp = do
  f ← load t.heap fp
  let t' = lower t fp f in
      if same_int (decr f.f_count) (pos 0)
      then remove_foo fuel t' fp (record f { f_count = decr f.f_count })
      else some t'

-- foo_rele of mutex2.c, up to where it lets go of f_lock: whether it then takes hashlock.
unfoldable pub rele_begin : Table → Ptr → Option (Bool × Table)
unfolding lower
rele_begin t fp = do
  f ← load t.heap fp
  if same_int f.f_count (pos 1) then some (true, t) else some (false, lower t fp f)

-- foo_rele of mutex2.c under both locks, behind what other threads did in the meantime.
unfoldable pub rele_end : ℕ → Table → Ptr → Option Table
unfolding lower
rele_end fuel t fp = do
  f ← load t.heap fp
  if same_int f.f_count (pos 1) then remove_foo fuel t fp f else some (lower t fp f)

-- foo_rele of mutex2.c, where no other thread comes between.
unfoldable pub foo_rele_2 : ℕ → Table → Ptr → Option Table
foo_rele_2 fuel t fp = do
  (last, t') ← rele_begin t fp
  if last then rele_end fuel t' fp else some t'
