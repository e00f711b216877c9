-- ===== src/RefTable/Release.antt =====
-- foo_rele, foo_hold and foo_find of mutex2.c and mutex3.c against the lists of the table.
use mathlib.Core.Path.{fun_ext, subst}
use learning_notes.Base.{
  ℕ, ◌≡◌, ◌≢◌, ◌≤◌, refl, sym, ap, ◌∙◌, true, Option, none, some, List, [], ◌∷◌, ◌++◌, length,
  All-parts, arith, eq-cases, inl, inr, ==_of_ne, same_test,
}
use learning_notes.Base.Int.{ℤ}
use learning_notes.RefTable.{
  Ptr, null, Foo, Table, hash_id, put, foo_hold, remove_foo, foo_rele, rele_begin, rele_end, lower,
  incr, decr,
}
use learning_notes.RefTable.Chains.{
  Item, foo, Chain, Ne, Distinct, put_self, put_other, load-eq, Chain-put, front_loop-Preceding,
}

-- What is known of the object `fp` between those in front of it and those behind it.
record Around (h : Ptr → Option Foo) (p : Ptr) (xs : List Item) (fp : Ptr) (c : ℕ) (i : ℤ)
    (ys : List Item) : Type 0 where
  next : Ptr
  ne_null : fp ≢ null
  at : h fp ≡ some (foo c i next)
  behind : Chain h next ys
  before : Ne fp xs
  after : Ne fp ys

around :
    (h : Ptr → Option Foo) (p : Ptr) (xs : List Item) (fp : Ptr) (c : ℕ) (i : ℤ) (ys : List Item)
    → Chain h p (xs ++ (fp, c, i) ∷ ys)
    → Distinct (xs ++ (fp, c, i) ∷ ys)
    → Around h p xs fp c i ys
around h p [] fp c i ys (n, e, z, at, ch) d = record {
  next = n;
  ne_null = z;
  at = at;
  behind = ch;
  before = tt;
  after = d.0;
}
around h p (x ∷ xs) fp c i ys (n, e, z, at, ch) d =
    let r = around h n xs fp c i ys ch d.1 in
    let (_, other) = All-parts (λ (v : Item). v.0 ≢ x.0) xs ((fp, c, i) ∷ ys) d.0 in
    record {
      next = r.next;
      ne_null = r.ne_null;
      at = r.at;
      behind = r.behind;
      before = ((λ q. other.0 (sym q)), r.before);
      after = r.after;
    }

Ne-append : (a : Ptr) (xs ys : List Item) → Ne a xs → Ne a ys → Ne a (xs ++ ys)
Ne-append a [] ys h k = k
Ne-append a (x ∷ xs) ys h k = (h.0, Ne-append a xs ys h.1 k)

Distinct-lower :
    (xs : List Item) (fp : Ptr) (c c' : ℕ) (i : ℤ) (ys : List Item)
    → Distinct (xs ++ (fp, c, i) ∷ ys)
    → Distinct (xs ++ (fp, c', i) ∷ ys)
Distinct-lower [] fp c c' i ys d = d
Distinct-lower (x ∷ xs) fp c c' i ys d =
    let (front, (own, back)) = All-parts (λ (v : Item). v.0 ≢ x.0) xs ((fp, c, i) ∷ ys) d.0 in
    (Ne-append x.0 xs ((fp, c', i) ∷ ys) front (own, back), Distinct-lower xs fp c c' i ys d.1)

-- The list with another count in one of its objects.
Chain-lower :
    (h : Ptr → Option Foo) (p : Ptr) (xs : List Item) (fp : Ptr) (c c' : ℕ) (i : ℤ) (ys : List Item)
    (n : Ptr)
    → h fp ≡ some (foo c i n)
    → Distinct (xs ++ (fp, c, i) ∷ ys)
    → Chain h p (xs ++ (fp, c, i) ∷ ys)
    → Chain (put h fp (some (foo c' i n))) p (xs ++ (fp, c', i) ∷ ys)
Chain-lower h p [] fp c c' i ys n at d (m, e, z, at', ch) =
    let same : m ≡ n = ap next_of (sym at' ∙ at) in
    (
      n,
      e,
      z,
      put_self h fp (some (foo c' i n)),
      subst (λ (q : Ptr). Chain (put h fp (some (foo c' i n))) q ys) same
          (Chain-put h fp (some (foo c' i n)) m ys d.0 ch),
    )
  where
    next_of : Option Foo → Ptr
    next_of none = null
    next_of (some f) = f.f_next
Chain-lower h p (x ∷ xs) fp c c' i ys n at d (m, e, z, at', ch) =
    let (_, (own, _)) = All-parts (λ (v : Item). v.0 ≢ x.0) xs ((fp, c, i) ∷ ys) d.0 in
    (
      m,
      e,
      z,
      put_other h fp (some (foo c' i n)) x.0 (λ q. own (sym q)) ∙ at',
      Chain-lower h m xs fp c c' i ys n at d.1 ch,
    )

-- The outcome of taking an object off the list of its id: the list is that without it, its memory is
-- free, and no other list begins elsewhere.
pub record Freed (t : Table) (fp : Ptr) (i : ℤ) (rest : List Item) (t' : Table) : Type 0 where
  pub chain : Chain t'.heap (t'.fh (hash_id i)) rest
  pub free : t'.heap fp ≡ none
  pub others : (j : ℕ) → j ≢ hash_id i → t'.fh j ≡ t.fh j

-- The last foo_rele of an object, wherever it stands on the list of its id, ends within as many
-- rounds as there are objects in front of it, takes it off the list and frees it, and leaves the
-- other objects of the list in order.
pub foo_rele-Freed :
    (fuel : ℕ) (t : Table) (xs : List Item) (fp : Ptr) (i : ℤ) (ys : List Item)
    → Chain t.heap (t.fh (hash_id i)) (xs ++ (fp, 1, i) ∷ ys)
    → Distinct (xs ++ (fp, 1, i) ∷ ys)
    → length xs ≤ fuel
    → (t' : Table) × (foo_rele fuel t fp ≡ some t') × Freed t fp i (xs ++ ys) t'
unfolding foo_rele remove_foo lower decr
foo_rele-Freed fuel t [] fp i ys ch d l =
    let a = around t.heap (t.fh (hash_id i)) [] fp 1 i ys ch d in
    let h = put t.heap fp (some (foo 0 i a.next)) in
    let (n, e, z, at, rest) = ch in
    (
      record { fh = put t.fh (hash_id i) a.next; heap = put h fp none },
      rw (foo_rele, load-eq t.heap fp a.ne_null a.at, remove_foo, same_test (t.fh (hash_id i)) fp e)
          refl,
      record {
        chain = rw (put_self t.fh (hash_id i) a.next) (
            Chain-put h fp none a.next ys a.after
              (Chain-put t.heap fp (some (foo 0 i a.next)) a.next ys a.after a.behind));
        free = put_self h fp none;
        others = λ j ne. put_other t.fh (hash_id i) a.next j ne;
      },
    )
foo_rele-Freed fuel t (x ∷ xs) fp i ys ch d l =
    let a = around t.heap (t.fh (hash_id i)) (x ∷ xs) fp 1 i ys ch d in
    let h = put t.heap fp (some (foo 0 i a.next)) in
    let f =
      front_loop-Preceding h (t.fh (hash_id i)) x xs fp 0 i ys a.next fuel (omega arith)
        (Distinct-lower (x ∷ xs) fp 1 0 i ys d)
        (Chain-lower t.heap (t.fh (hash_id i)) (x ∷ xs) fp 1 0 i ys a.next a.at d ch)
        (put_self t.heap fp (some (foo 0 i a.next)))
        (Chain-put t.heap fp (some (foo 0 i a.next)) a.next ys a.after a.behind) in
    let (n, e, z, at, rest) = ch in
    (
      record t { heap = put (put h f.tfp (some (foo f.count f.id a.next))) fp none },
      rw
          (
            foo_rele,
            load-eq t.heap fp a.ne_null a.at,
            remove_foo,
            ==_of_ne (t.fh (hash_id i)) fp (λ q. a.before.0 (sym e ∙ q)),
            f.run,
            load-eq h f.tfp f.ne_null f.at,
          )
          refl,
      record {
        chain =
            Chain-put (put h f.tfp (some (foo f.count f.id a.next))) fp none (t.fh (hash_id i))
              (x ∷ xs ++ ys) (Ne-append fp (x ∷ xs) ys a.before a.after) f.past;
        free = put_self (put h f.tfp (some (foo f.count f.id a.next))) fp none;
        others = λ j ne. refl;
      },
    )

pub put_twice :
    (h : Ptr → Option Foo) (p : Ptr) (c d : Option Foo) → put (put h p c) p d ≡ put h p d
unfolding put
put_twice h p c d = fun_ext λ a. ground arith

put_back : (h : Ptr → Option Foo) (p : Ptr) (c : Option Foo) → h p ≡ c → put h p c ≡ h
unfolding put
put_back h p c e = fun_ext λ a. elim (eq-cases a p) [
  | inl here ↦ rw (same_test a p here) (sym e ∙ ap h (sym here))
  | inr other ↦ rw (==_of_ne a p other) refl
]

-- If another thread holds the object between the two looks at its count, the foo_rele of mutex2.c
-- does not free it: what is left is the table with the one hold that the object had.
pub rele_end-foo_hold :
    (fuel : ℕ) (t : Table) (fp : Ptr) (i : ℤ) (n : Ptr)
    → fp ≢ null
    → t.heap fp ≡ some (foo 1 i n)
    → (t' : Table) × (rele_begin t fp ≡ some (true, t))
      × (foo_hold t fp ≡ some t')
      × (rele_end fuel t' fp ≡ some t)
unfolding rele_begin rele_end foo_hold lower incr decr
rele_end-foo_hold fuel t fp i n nz at =
    let t' = record t { heap = put t.heap fp (some (foo 2 i n)) } in
    (
      t',
      rw (rele_begin, load-eq t.heap fp nz at) refl,
      rw (foo_hold, load-eq t.heap fp nz at) refl,
      rw (rele_end, load-eq t'.heap fp nz (put_self t.heap fp (some (foo 2 i n))))
          (ap (λ (h : Ptr → Option Foo). some (record t { heap = h }))
            (put_twice t.heap fp (some (foo 2 i n)) (some (foo 1 i n))
              ∙ put_back t.heap fp (some (foo 1 i n)) at)),
    )
