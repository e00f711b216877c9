-- ===== src/Base/Places.antt =====
-- Lists with one place replaced, lists written over, and what stands at a place.
use learning_notes.Base.{
  ℕ, zero, suc, ◌+◌, ◌≤◌, ◌<◌, ◌≡◌, refl, ap, some, none, List, [], ◌∷◌, arith, length, set,
  get_elem?, take, drop, slice, write, map, All,
}

module _ {ℓ κ} {A : Type ℓ} (P : A → Type κ) where
  pub All-set : (xs : List A) (k : ℕ) (a : A) → All P xs → P a → All P (set xs k a)
  All-set [] k a h p = tt
  All-set (x ∷ xs) zero a h p = (p, h.1)
  All-set (x ∷ xs) (suc k) a h p = (h.0, All-set xs k a h.1 p)

  pub All-get : (xs : List A) (k : ℕ) {a : A} → get_elem? xs k ≡ some a → All P xs → P a
  All-get [] k e h = cc
  All-get (x ∷ xs) zero {a} e h = let q : x ≡ a = cc in rw (← q) h.0
  All-get (x ∷ xs) (suc k) e h = All-get xs k e h.1

module _ {ℓ} {A : Type ℓ} where
  pub get_elem?-lt : (xs : List A) (k : ℕ) {a : A} → get_elem? xs k ≡ some a → k < length xs
  get_elem?-lt [] k e = cc
  get_elem?-lt (x ∷ xs) zero e = omega arith
  get_elem?-lt (x ∷ xs) (suc k) e = omega (arith, get_elem?-lt xs k e)

  pub get_elem?-some : (xs : List A) (k : ℕ) → k < length xs → (a : A) × (get_elem? xs k ≡ some a)
  get_elem?-some [] k h = absurd (omega arith)
  get_elem?-some (x ∷ xs) zero h = (x, refl)
  get_elem?-some (x ∷ xs) (suc k) h = get_elem?-some xs k (omega arith)

  pub get_elem?-past : (xs : List A) (k : ℕ) → length xs ≤ k → get_elem? xs k ≡ none
  get_elem?-past [] k h = refl
  get_elem?-past (x ∷ xs) zero h = absurd (omega arith)
  get_elem?-past (x ∷ xs) (suc k) h = get_elem?-past xs k (omega arith)

  pub get_elem?-take :
      (n : ℕ) (xs : List A) (k : ℕ) → k < n → get_elem? (take n xs) k ≡ get_elem? xs k
  get_elem?-take zero xs k h = absurd (omega arith)
  get_elem?-take (suc n) [] k h = refl
  get_elem?-take (suc n) (x ∷ xs) zero h = refl
  get_elem?-take (suc n) (x ∷ xs) (suc k) h = get_elem?-take n xs k (omega arith)

  get_elem?-drop : (o : ℕ) (xs : List A) (k : ℕ) → get_elem? (drop o xs) k ≡ get_elem? xs (o + k)
  get_elem?-drop zero xs k = let e : 0 + k ≡ k = omega arith in rw e refl
  get_elem?-drop (suc o) [] k = refl
  get_elem?-drop (suc o) (x ∷ xs) k =
      let e : suc o + k ≡ suc (o + k) = omega arith in rw e (get_elem?-drop o xs k)

  pub get_elem?-slice :
      (xs : List A) (o n k : ℕ) → k < n → get_elem? (slice xs o n) k ≡ get_elem? xs (o + k)
  get_elem?-slice xs o n k h = rw (get_elem?-take n (drop o xs) k h) (get_elem?-drop o xs k)

  -- Lists are equal that have the same items at every place.
  pub get_elem?-ext : (xs ys : List A) → ((k : ℕ) → get_elem? xs k ≡ get_elem? ys k) → xs ≡ ys
  get_elem?-ext [] [] h = refl
  get_elem?-ext [] (y ∷ ys) h = absurd (cc (h 0))
  get_elem?-ext (x ∷ xs) [] h = absurd (cc (h 0))
  get_elem?-ext (x ∷ xs) (y ∷ ys) h =
      let e : x ≡ y = cc (h 0) in rw (e, get_elem?-ext xs ys (λ k. h (suc k))) refl

module _ {ℓ κ} {A : Type ℓ} {B : Type κ} (f : A → B) where
  pub length-map : (xs : List A) → length (map f xs) ≡ length xs
  length-map [] = refl
  length-map (x ∷ xs) = ap suc (length-map xs)

  pub map-take : (n : ℕ) (xs : List A) → map f (take n xs) ≡ take n (map f xs)
  map-take zero xs = refl
  map-take (suc n) [] = refl
  map-take (suc n) (x ∷ xs) = ap (λ l. f x ∷ l) (map-take n xs)

  map-drop : (n : ℕ) (xs : List A) → map f (drop n xs) ≡ drop n (map f xs)
  map-drop zero xs = refl
  map-drop (suc n) [] = refl
  map-drop (suc n) (x ∷ xs) = map-drop n xs

  pub map-slice : (xs : List A) (o n : ℕ) → map f (slice xs o n) ≡ slice (map f xs) o n
  map-slice xs o n = rw (map-take n (drop o xs), map-drop o xs) refl

-- What is written stands there, and nothing else of the file changes.
pub get_elem?-write :
    (f : List ℕ) (o : ℕ) (bs : List ℕ) (j : ℕ)
    → j < length bs
    → get_elem? (write f o bs) (o + j) ≡ get_elem? bs j
get_elem?-write [] zero bs j h = let e : 0 + j ≡ j = omega arith in rw e refl
get_elem?-write [] (suc o) bs j h =
    let e : suc o + j ≡ suc (o + j) = omega arith in rw e (get_elem?-write [] o bs j h)
get_elem?-write (x ∷ f) (suc o) bs j h =
    let e : suc o + j ≡ suc (o + j) = omega arith in rw e (get_elem?-write f o bs j h)
get_elem?-write (x ∷ f) zero [] j h = absurd (omega arith)
get_elem?-write (x ∷ f) zero (b ∷ bs) zero h = refl
get_elem?-write (x ∷ f) zero (b ∷ bs) (suc j) h =
    let e : 0 + suc j ≡ suc (0 + j) = omega arith in
    rw e (get_elem?-write f zero bs j (omega arith))

pub get_elem?-write_before :
    (f : List ℕ) (o : ℕ) (bs : List ℕ) (p : ℕ)
    → p < o
    → p < length f
    → get_elem? (write f o bs) p ≡ get_elem? f p
get_elem?-write_before f zero bs p h k = absurd (omega arith)
get_elem?-write_before [] (suc o) bs p h k = absurd (omega arith)
get_elem?-write_before (x ∷ f) (suc o) bs zero h k = refl
get_elem?-write_before (x ∷ f) (suc o) bs (suc p) h k =
    get_elem?-write_before f o bs p (omega arith) (omega arith)

pub get_elem?-write_after :
    (f : List ℕ) (o : ℕ) (bs : List ℕ) (p : ℕ)
    → o + length bs ≤ p
    → get_elem? (write f o bs) p ≡ get_elem? f p
get_elem?-write_after [] zero bs p h = get_elem?-past bs p (omega arith)
get_elem?-write_after [] (suc o) bs zero h = absurd (omega arith)
get_elem?-write_after [] (suc o) bs (suc p) h = get_elem?-write_after [] o bs p (omega arith)
get_elem?-write_after (x ∷ f) (suc o) bs zero h = absurd (omega arith)
get_elem?-write_after (x ∷ f) (suc o) bs (suc p) h = get_elem?-write_after f o bs p (omega arith)
get_elem?-write_after (x ∷ f) zero [] p h = refl
get_elem?-write_after (x ∷ f) zero (b ∷ bs) zero h = absurd (omega arith)
get_elem?-write_after (x ∷ f) zero (b ∷ bs) (suc p) h =
    get_elem?-write_after f zero bs p (omega arith)

-- A write that starts behind the end may leave a gap, and so has no simple length; a bound it has.
pub length-write_le :
    (f : List ℕ) (o : ℕ) (bs : List ℕ) (n : ℕ)
    → length f ≤ n
    → o + length bs ≤ n
    → length (write f o bs) ≤ n
length-write_le [] zero bs n h k = omega arith
length-write_le [] (suc o) bs zero h k = absurd (omega arith)
length-write_le [] (suc o) bs (suc n) h k =
    omega (arith, length-write_le [] o bs n (omega arith) (omega arith))
length-write_le (x ∷ f) o bs zero h k = absurd (omega arith)
length-write_le (x ∷ f) (suc o) bs (suc n) h k =
    omega (arith, length-write_le f o bs n (omega arith) (omega arith))
length-write_le (x ∷ f) zero [] (suc n) h k = h
length-write_le (x ∷ f) zero (b ∷ bs) (suc n) h k =
    omega (arith, length-write_le f zero bs n (omega arith) (omega arith))
