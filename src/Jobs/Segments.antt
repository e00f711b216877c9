-- ===== src/Jobs/Segments.antt =====
-- Laws of list segments.
use learning_notes.Base.{
  ◌≡◌, ◌≢◌, refl, sym, ap, ◌∙◌, Option, some, List, [], ◌∷◌, ◌++◌, ==_of_ne, ==-refl, All, arith,
}
use learning_notes.Jobs.{Ptr, null, Node, node, Heap, put, load, set_next, set_prev, Seg, Distinct}

module _ {A : Type 0} where
  -- A segment survives a change elsewhere.
  pub Seg-frame :
      (h h' : Heap A) (prev p : Ptr) (xs : List (Ptr × A)) (last stop : Ptr)
      → All (λ (x : Ptr × A). h' x.0 ≡ h x.0) xs
      → Seg h prev p xs last stop
      → Seg h' prev p xs last stop
  Seg-frame h h' prev p [] last stop same s = s
  Seg-frame h h' prev p ((a, v) ∷ xs) last stop same (n, e, ne, at, s) =
      (n, e, ne, same.0 ∙ at, Seg-frame h h' a n xs last stop same.1 s)

  pub put_other : (h : Heap A) (a : Ptr) (c : Option (Node A)) (b : Ptr) → b ≢ a → put h a c b ≡ h b
  unfolding put
  put_other h a c b ne = rw (==_of_ne b a ne) refl

  pub put_self : (h : Heap A) (a : Ptr) (c : Option (Node A)) → put h a c a ≡ c
  unfolding put
  put_self h a c = rw (==-refl a) refl

  pub same_elsewhere :
      (h : Heap A) (a : Ptr) (c : Option (Node A)) (xs : List (Ptr × A))
      → All (λ (x : Ptr × A). x.0 ≢ a) xs
      → All (λ (x : Ptr × A). put h a c x.0 ≡ h x.0) xs
  same_elsewhere h a c [] ne = tt
  same_elsewhere h a c (x ∷ xs) ne = (put_other h a c x.0 ne.0, same_elsewhere h a c xs ne.1)

  pub Seg-put :
      (h : Heap A) (a : Ptr) (c : Option (Node A)) (prev p : Ptr) (xs : List (Ptr × A))
      (last stop : Ptr)
      → All (λ (x : Ptr × A). x.0 ≢ a) xs
      → Seg h prev p xs last stop
      → Seg (put h a c) prev p xs last stop
  Seg-put h a c prev p xs last stop ne s =
      Seg-frame h (put h a c) prev p xs last stop (same_elsewhere h a c xs ne) s

  -- Two segments, one behind the other.
  pub Seg-append :
      (h : Heap A) (prev p m q : Ptr) (xs ys : List (Ptr × A)) (last stop : Ptr)
      → Seg h prev p xs m q
      → Seg h m q ys last stop
      → Seg h prev p (xs ++ ys) last stop
  Seg-append h prev p m q [] ys last stop (e, f) t = rw (e, ← f) t
  Seg-append h prev p m q ((a, v) ∷ xs) ys last stop (n, e, ne, at, s) t =
      (n, e, ne, at, Seg-append h a n m q xs ys last stop s t)

  pub Seg-split :
      (h : Heap A) (prev p : Ptr) (xs ys : List (Ptr × A)) (last stop : Ptr)
      → Seg h prev p (xs ++ ys) last stop
      → (m : Ptr) × (q : Ptr) × Seg h prev p xs m q × (Seg h m q ys last stop)
  Seg-split h prev p [] ys last stop s = (prev, p, (refl, refl), s)
  Seg-split h prev p ((a, v) ∷ xs) ys last stop (n, e, ne, at, s) =
      let (m, q, front, back) = Seg-split h a n xs ys last stop s in
      (m, q, (n, e, ne, at, front), back)

  -- The last node of a segment that is not empty: its address, and what it holds.
  pub Seg-last :
      (h : Heap A) (prev p : Ptr) (a : Ptr) (v : A) (xs : List (Ptr × A)) (last stop : Ptr)
      → Seg h prev p ((a, v) ∷ xs) last stop
      → (last ≢ null) × ((n : Node A) × (h last ≡ some n) × (n.next ≡ stop))
  Seg-last h prev p a v [] last stop (n, e, ne, at, (f, g)) = rw g (ne, (node n prev v, at, f))
  Seg-last h prev p a v ((b, w) ∷ xs) last stop (n, e, ne, at, s) =
      Seg-last h a n b w xs last stop s

  pub Seg-last_ne :
      (h : Heap A) (b prev p a : Ptr) (v : A) (xs : List (Ptr × A)) (last stop : Ptr)
      → All (λ (x : Ptr × A). x.0 ≢ b) ((a, v) ∷ xs)
      → Seg h prev p ((a, v) ∷ xs) last stop
      → last ≢ b
  Seg-last_ne h b prev p a v [] last stop ne (n, e, nz, at, (f, g)) = rw g ne.0
  Seg-last_ne h b prev p a v ((c, w) ∷ xs) last stop ne (n, e, nz, at, s) =
      Seg-last_ne h b a n c w xs last stop ne.1 s

  node_unique : {o : Option (Node A)} (m n : Node A) → o ≡ some m → o ≡ some n → m ≡ n
  node_unique m n p q = ground arith

  -- With the last node's forward link set anew, the segment ends elsewhere.
  pub Seg-retarget :
      (h : Heap A) (prev p a : Ptr) (v : A) (xs : List (Ptr × A)) (last stop stop' : Ptr)
      (n : Node A)
      → Distinct ((a, v) ∷ xs)
      → Seg h prev p ((a, v) ∷ xs) last stop
      → h last ≡ some n
      → Seg (put h last (some (record n { next = stop' }))) prev p ((a, v) ∷ xs) last stop'
  Seg-retarget h prev p a v [] last stop stop' n d (m, e, ne, at, (f, g)) is = (
    stop',
    e,
    ne,
    rw g (
        put_self h a _
        ∙ ap (λ (k : Node A). some (record k { next = stop' }))
            (node_unique n (node m prev v) (rw g at is) at)),
    (refl, g),
  )
  Seg-retarget h prev p a v ((b, w) ∷ xs) last stop stop' n d (m, e, ne, at, s) is = (
    m,
    e,
    ne,
    put_other h last _ a (λ q. Seg-last_ne h a a m b w xs last stop d.0 s (sym q)) ∙ at,
    Seg-retarget h a m b w xs last stop stop' n d.1 s is,
  )

  -- With the first node's backward link set anew, the segment begins behind another node.
  pub Seg-reprev :
      (h : Heap A) (prev prev' p a : Ptr) (v : A) (xs : List (Ptr × A)) (last stop : Ptr)
      (n : Node A)
      → Distinct ((a, v) ∷ xs)
      → Seg h prev p ((a, v) ∷ xs) last stop
      → h a ≡ some n
      → Seg (put h a (some (record n { prev = prev' }))) prev' p ((a, v) ∷ xs) last stop
  Seg-reprev h prev prev' p a v xs last stop n d (m, e, ne, at, s) is = (
    m,
    e,
    ne,
    put_self h a _
        ∙ ap (λ (k : Node A). some (record k { prev = prev' }))
            (node_unique n (node m prev v) is at),
    Seg-put h a _ a m xs last stop d.0 s,
  )

  -- Loads and stores of links at a node that is there.
  pub load-eq : (h : Heap A) (p : Ptr) {n : Node A} → p ≢ null → h p ≡ some n → load h p ≡ some n
  unfolding load
  load-eq h p ne at = rw (==_of_ne p 0 ne) at

  pub set_next-eq :
      (h : Heap A) (p q : Ptr) {n : Node A}
      → p ≢ null
      → h p ≡ some n
      → set_next h p q ≡ some (put h p (some (record n { next = q })))
  unfolding set_next
  set_next-eq h p q ne at = rw (==_of_ne p 0 ne, at) refl

  pub set_prev-eq :
      (h : Heap A) (p q : Ptr) {n : Node A}
      → p ≢ null
      → h p ≡ some n
      → set_prev h p q ≡ some (put h p (some (record n { prev = q })))
  unfolding set_prev
  set_prev-eq h p q ne at = rw (==_of_ne p 0 ne, at) refl
