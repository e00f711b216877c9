-- ===== src/RefTable/Agree.antt =====
-- foo_rele of mutex2.c and foo_rele of mutex3.c, which lowers the count first.
use mathlib.Core.Path.{fun_ext}
use learning_notes.Base.{
  ℕ, zero, suc, ◌≡◌, ◌≢◌, refl, sym, ap, ◌∙◌, Option, none, some, arith, ◌==◌, eq-cases, Bool-cases,
  inl, inr, ==_of_ne, if◌then◌else◌,
}
use learning_notes.Base.Int.{ℤ, pos, negsuc}
use learning_notes.RefTable.{
  Ptr, null, Foo, Table, hash_id, put, load, ◌>>=◌, front_loop, remove_foo, lower, decr, same_int,
  foo_rele, rele_begin, rele_end, foo_rele_2,
}
use learning_notes.RefTable.Chains.{put_self, put_other}
use learning_notes.RefTable.Release.{put_twice}

load-some : (h : Ptr → Option Foo) (p : Ptr) {f : Foo} → load h p ≡ some f → p ≢ null
unfolding load
load-some h p e z = ground arith

load-put_self :
    (h : Ptr → Option Foo) (p : Ptr) (c : Option Foo) → p ≢ null → load (put h p c) p ≡ c
unfolding load
load-put_self h p c ne = rw (==_of_ne p null ne) (put_self h p c)

load-put_other :
    (h : Ptr → Option Foo) (p : Ptr) (c : Option Foo) (a : Ptr)
    → a ≢ p
    → load (put h p c) a ≡ load h a
unfolding load
load-put_other h p c a ne =
    ap (λ (o : Option Foo). if a == null then none else o) (put_other h p c a ne)

bind-ext :
    {B C : Type 0} (o : Option B) (f g : B → Option C)
    → ((b : B) → f b ≡ g b)
    → (o >>= f) ≡ (o >>= g)
bind-ext none f g e = refl
bind-ext (some b) f g e = e b

-- What the object's count is does not matter to the loop.
front_loop-put :
    (k : ℕ) (h : Ptr → Option Foo) (tfp fp : Ptr) (f : Foo) (c : ℤ)
    → load h fp ≡ some f
    → front_loop k (put h fp (some (record f { f_count = c }))) tfp fp ≡ front_loop k h tfp fp
unfolding front_loop
front_loop-put zero h tfp fp f c e = refl
front_loop-put (suc k) h tfp fp f c e =
    let h' = put h fp (some (record f { f_count = c })) in
    let on : (Ptr → Option Foo) → Foo → Option Ptr =
      λ g x. if x.f_next == fp then some tfp else front_loop k g x.f_next fp in
    let same : (x : Foo) → on h' x ≡ on h x = λ x.
      ap (λ (r : Option Ptr). if x.f_next == fp then some tfp else r)
        (front_loop-put k h x.f_next fp f c e) in
    elim (eq-cases tfp fp) [
      | inl here ↦
          ap (λ (o : Option Foo). o >>= on h')
            (ap (load h') here
              ∙ load-put_self h fp (some (record f { f_count = c })) (load-some h fp e))
          ∙ same f
          ∙ sym (ap (λ (o : Option Foo). o >>= on h) (ap (load h) here ∙ e))
      | inr other ↦
          ap (λ (o : Option Foo). o >>= on h')
            (load-put_other h fp (some (record f { f_count = c })) tfp other)
          ∙ bind-ext (load h tfp) (on h') (on h) same
    ]

-- Two heaps that differ at `p` only are equal once `p` is freed.
put_over :
    (h g : Ptr → Option Foo) (p : Ptr) (c : Option Foo)
    → ((a : Ptr) → a ≢ p → h a ≡ g a)
    → put h p c ≡ put g p c
put_over h g p c same = fun_ext λ a. elim (eq-cases a p) [
  | inl here ↦
      ap (put h p c) here ∙ put_self h p c ∙ sym (put_self g p c) ∙ sym (ap (put g p c) here)
  | inr other ↦ put_other h p c a other ∙ same a other ∙ sym (put_other g p c a other)
]

put_swap :
    (h : Ptr → Option Foo) (p q : Ptr) (c d e : Option Foo)
    → put (put (put h p c) q d) p e ≡ put (put h q d) p e
put_swap h p q c d e = put_over (put (put h p c) q d) (put h q d) p e λ a ne. elim (eq-cases a q) [
  | inl here ↦
      ap (put (put h p c) q d) here
      ∙ put_self (put h p c) q d
      ∙ sym (put_self h q d)
      ∙ sym (ap (put h q d) here)
  | inr other ↦
      put_other (put h p c) q d a other ∙ put_other h p c a ne ∙ sym (put_other h q d a other)
]

-- The part of the removal behind the loop.
abbrev pass : Table → (Ptr → Option Foo) → Ptr → Foo → Ptr → Option Table
pass t h fp f tfp = load h tfp >>= λ g.
    some (record t { heap = put (put h tfp (some (record g { f_next = f.f_next }))) fp none })

pass-put :
    (t : Table) (h : Ptr → Option Foo) (fp : Ptr) (f : Foo) (c : ℤ) (tfp : Ptr)
    → load h fp ≡ some f
    → pass t (put h fp (some (record f { f_count = c }))) fp f tfp ≡ pass t h fp f tfp
pass-put t h fp f c tfp e =
    let f' : Foo = record f { f_count = c } in
    let with : (Ptr → Option Foo) → Option Table = λ g. some (record t { heap = g }) in
    let on : (Ptr → Option Foo) → Foo → Option Table =
      λ g x. with (put (put g tfp (some (record x { f_next = f.f_next }))) fp none) in
    elim (eq-cases tfp fp) [
      | inl here ↦
          ap (λ (o : Option Foo). o >>= on (put h fp (some f')))
            (ap (load (put h fp (some f'))) here ∙ load-put_self h fp (some f') (load-some h fp e))
          ∙ ap with (
              put_swap h fp tfp (some f') (some f') none
              ∙ put_over (put h tfp (some f')) (put h tfp (some f)) fp none λ a ne.
                let off : a ≢ tfp = λ q. ne (q ∙ here) in
                put_other h tfp (some f') a off ∙ sym (put_other h tfp (some f) a off))
          ∙ sym (ap (λ (o : Option Foo). o >>= on h) (ap (load h) here ∙ e))
      | inr other ↦
          ap (λ (o : Option Foo). o >>= on (put h fp (some f')))
            (load-put_other h fp (some f') tfp other)
          ∙ bind-ext (load h tfp) (on (put h fp (some f'))) (on h) (λ x.
            ap with (put_swap h fp tfp (some f') (some (record x { f_next = f.f_next })) none))
    ]

-- The removal is the same whether the count was lowered before it or not.
remove_foo-lower :
    (fuel : ℕ) (t : Table) (fp : Ptr) (f : Foo)
    → load t.heap fp ≡ some f
    → remove_foo fuel (lower t fp f) fp (record f { f_count = decr f.f_count })
      ≡ remove_foo fuel t fp f
unfolding remove_foo lower
remove_foo-lower fuel t fp f e = elim (Bool-cases (t.fh (hash_id f.f_id) == fp)) [
  | inl first ↦ rw first (
      ap
        (λ (g : Ptr → Option Foo).
          some (record t { fh = put t.fh (hash_id f.f_id) f.f_next; heap = g }))
        (put_twice t.heap fp (some (record f { f_count = decr f.f_count })) none))
  | inr behind ↦ rw behind (
      let h' = put t.heap fp (some (record f { f_count = decr f.f_count })) in
      ap (λ (o : Option Ptr). o >>= pass t h' fp f)
        (front_loop-put fuel t.heap (t.fh (hash_id f.f_id)) fp f (decr f.f_count) e)
      ∙ bind-ext (front_loop fuel t.heap (t.fh (hash_id f.f_id)) fp) (pass t h' fp f)
          (pass t t.heap fp f) (λ tfp. pass-put t t.heap fp f (decr f.f_count) tfp e))
]

-- The count is 1 exactly if it is 0 once it is lowered.
same_int-decr : (n : ℤ) → same_int (decr n) (pos 0) ≡ same_int n (pos 1)
unfolding decr
same_int-decr (pos zero) = refl
same_int-decr (pos (suc n)) = ground arith
same_int-decr (negsuc n) = refl

rele_loaded :
    (fuel : ℕ) (t : Table) (fp : Ptr) (l : Option Foo)
    → load t.heap fp ≡ l
    → foo_rele_2 fuel t fp ≡ foo_rele fuel t fp
unfolding foo_rele_2 rele_begin rele_end foo_rele
rele_loaded fuel t fp none e = rw (foo_rele_2, rele_begin, foo_rele, e) refl
rele_loaded fuel t fp (some f) e = elim (Bool-cases (same_int f.f_count (pos 1))) [
  | inl one ↦
      rw (foo_rele_2, rele_begin, foo_rele, e, one, rele_end, e, one, same_int-decr f.f_count, one)
        (sym (remove_foo-lower fuel t fp f e))
  | inr more ↦ rw (foo_rele_2, rele_begin, foo_rele, e, more, same_int-decr f.f_count, more) refl
]

-- The foo_rele of mutex2.c, which looks for a count of 1 under one lock and then again under both,
-- and leaves the count of the object that it frees alone, does what that of mutex3.c does, which
-- lowers the count first and looks for 0, on every table, whatever the count, faults included, if no
-- other thread comes between.
pub foo_rele_2-foo_rele :
    (fuel : ℕ) (t : Table) (fp : Ptr) → foo_rele_2 fuel t fp ≡ foo_rele fuel t fp
foo_rele_2-foo_rele fuel t fp = rele_loaded fuel t fp (load t.heap fp) refl
