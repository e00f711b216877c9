-- ===== src/Jobs/Parts.antt =====
-- Lists of jobs in which no address stands twice, and their parts.
use learning_notes.Base.{◌≢◌, sym, List, [], ◌∷◌, ◌++◌, All, All-parts}
use learning_notes.Jobs.{Ptr, Distinct}

module _ {A : Type 0} where
  abbrev pub Ne : Ptr → List (Ptr × A) → Type 0
  Ne a = All (λ (x : Ptr × A). x.0 ≢ a)

  Ne-symm : (a : Ptr) (xs : List (Ptr × A)) → Ne a xs → All (λ (x : Ptr × A). a ≢ x.0) xs
  Ne-symm a [] h = tt
  Ne-symm a (x ∷ xs) h = ((λ e. h.0 (sym e)), Ne-symm a xs h.1)

  pub Ne-append : (a : Ptr) (xs ys : List (Ptr × A)) → Ne a xs → Ne a ys → Ne a (xs ++ ys)
  Ne-append a [] ys h k = k
  Ne-append a (x ∷ xs) ys h k = (h.0, Ne-append a xs ys h.1 k)

  pub Distinct-snoc :
      (xs : List (Ptr × A)) (a : Ptr) (v : A) → Distinct xs → Ne a xs → Distinct (xs ++ (a, v) ∷ [])
  Distinct-snoc [] a v d ne = (tt, tt)
  Distinct-snoc ((b, w) ∷ xs) a v d ne =
      (Ne-append b xs ((a, v) ∷ []) d.0 ((λ e. ne.0 (sym e)), tt), Distinct-snoc xs a v d.1 ne.1)

  -- What is known of the parts when no address stands twice.
  pub record Parts (xs : List (Ptr × A)) (a : Ptr) (v : A) (ys : List (Ptr × A)) : Type 0 where
    pub front : Distinct xs
    pub back : Distinct ys
    pub rest : Distinct (xs ++ ys)
    pub before : Ne a xs
    pub after : Ne a ys
    pub cross : All (λ (y : Ptr × A). Ne y.0 xs) ys

  cross_cons :
      (b : Ptr) (w : A) (xs ys : List (Ptr × A))
      → Ne b ys
      → All (λ (y : Ptr × A). Ne y.0 xs) ys
      → All (λ (y : Ptr × A). Ne y.0 ((b, w) ∷ xs)) ys
  cross_cons b w xs [] ne c = tt
  cross_cons b w xs (y ∷ ys) ne c = (((λ e. ne.0 (sym e)), c.0), cross_cons b w xs ys ne.1 c.1)

  cross_nil : (ys : List (Ptr × A)) → All (λ (y : Ptr × A). Ne y.0 []) ys
  cross_nil [] = tt
  cross_nil (y ∷ ys) = (tt, cross_nil ys)

  pub Distinct-Parts :
      (xs : List (Ptr × A)) (a : Ptr) (v : A) (ys : List (Ptr × A))
      → Distinct (xs ++ (a, v) ∷ ys)
      → Parts xs a v ys
  Distinct-Parts [] a v ys d = record {
    front = tt;
    back = d.1;
    rest = d.1;
    before = tt;
    after = d.0;
    cross = cross_nil ys;
  }
  Distinct-Parts ((b, w) ∷ xs) a v ys d =
      let p = Distinct-Parts xs a v ys d.1 in
      let (l, r) = All-parts (λ (x : Ptr × A). x.0 ≢ b) xs ((a, v) ∷ ys) d.0 in
      record {
        front = (l, p.front);
        back = p.back;
        rest = (Ne-append b xs ys l r.1, p.rest);
        before = ((λ e. r.0 (sym e)), p.before);
        after = p.after;
        cross = cross_cons b w xs ys r.1 p.cross;
      }
