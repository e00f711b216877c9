-- ===== src/Base/Slices.antt =====
-- A run of items inside a list, and the overwriting of one: what reads and writes of a file or a
-- buffer do.
use Prim.Native.Nat.{ℕ, zero, suc, ◌+◌, ◌≤◌, max}
use mathlib.Core.Path.{◌≡◌, refl, ap, sym, ◌∙◌}
use mathlib.Core.List.{List, [], ◌∷◌, ◌++◌}
use native.Mathlib.Omega.{arith}
use learning_notes.Base.Lists.{
  length, take, drop, length-take, length-drop, take-append_length, drop-append_length,
}

-- The items from `o` on, `n` of them, or fewer at the end.
abbrev pub slice {ℓ} : {A : Type ℓ} → List A → ℕ → ℕ → List A
slice f o n = take n (drop o f)

-- Puts `bs` over the bytes from `o` on; a gap behind the end is filled with zeros.
abbrev pub write : List ℕ → ℕ → List ℕ → List ℕ
write [] zero bs = bs
write [] (suc o) bs = 0 ∷ write [] o bs
write (x ∷ f) (suc o) bs = x ∷ write f o bs
write (x ∷ f) zero [] = x ∷ f
write (x ∷ f) zero (b ∷ bs) = b ∷ write f zero bs

module _ {ℓ} {A : Type ℓ} where
  pub take_all : (xs : List A) → take (length xs) xs ≡ xs
  take_all [] = refl
  take_all (x ∷ xs) = ap (λ l. x ∷ l) (take_all xs)

  pub take_nil : (n : ℕ) → take {A = A} n [] ≡ []
  take_nil zero = refl
  take_nil (suc n) = refl

  pub drop_nil : (n : ℕ) → drop {A = A} n [] ≡ []
  drop_nil zero = refl
  drop_nil (suc n) = refl

  pub drop_past : (n : ℕ) (f : List A) → length f ≤ n → drop n f ≡ []
  drop_past zero [] h = refl
  drop_past zero (x ∷ f) h = absurd (omega arith)
  drop_past (suc n) [] h = refl
  drop_past (suc n) (x ∷ f) h = drop_past n f (omega arith)

  -- A run of `m + k` items is one of `m`, then one of `k`.
  pub slice-add : (f : List A) (o m k : ℕ) → slice f o (m + k) ≡ slice f o m ++ slice f (o + m) k
  slice-add [] o m k = rw (drop_nil o, drop_nil (o + m), take_nil (m + k), take_nil m, take_nil k)
  slice-add (x ∷ f) (suc o) m k =
      let e : suc o + m ≡ suc (o + m) = omega arith in rw e (slice-add f o m k)
  slice-add (x ∷ f) zero zero k =
      let e : 0 + k ≡ k = omega arith in let e' : 0 + 0 ≡ 0 = refl in rw e refl
  slice-add (x ∷ f) zero (suc m) k =
      let e : suc m + k ≡ suc (m + k) = omega arith in
      let e' : 0 + suc m ≡ suc m = omega arith in
      let e'' : 0 + m ≡ m = omega arith in
      rw (e, e') (ap (λ l. x ∷ l) (rw e'' at (slice-add f zero m k)))

  pub length-slice : (f : List A) (o n : ℕ) → o + n ≤ length f → length (slice f o n) ≡ n
  length-slice f o n h = omega (arith, length-take n (drop o f), length-drop o f)

pub slice-write_self : (f : List ℕ) (o : ℕ) (bs : List ℕ) → slice (write f o bs) o (length bs) ≡ bs
slice-write_self [] zero bs = take_all bs
slice-write_self [] (suc o) bs = slice-write_self [] o bs
slice-write_self (x ∷ f) (suc o) bs = slice-write_self f o bs
slice-write_self (x ∷ f) zero [] = refl
slice-write_self (x ∷ f) zero (b ∷ bs) = ap (λ l. b ∷ l) (slice-write_self f zero bs)

-- A write changes nothing in front of it.
pub slice-write_before :
    (f : List ℕ) (o : ℕ) (bs : List ℕ) (p n : ℕ)
    → p + n ≤ o
    → p + n ≤ length f
    → slice (write f o bs) p n ≡ slice f p n
slice-write_before f o bs p zero h k = refl
slice-write_before [] o bs p (suc n) h k = absurd (omega arith)
slice-write_before (x ∷ f) zero bs p (suc n) h k = absurd (omega arith)
slice-write_before (x ∷ f) (suc o) bs (suc p) (suc n) h k =
    slice-write_before f o bs p (suc n) (omega arith) (omega arith)
slice-write_before (x ∷ f) (suc o) bs zero (suc n) h k =
    ap (λ l. x ∷ l) (slice-write_before f o bs zero n (omega arith) (omega arith))

-- Nor behind it.
pub slice-write_after :
    (f : List ℕ) (o : ℕ) (bs : List ℕ) (p n : ℕ)
    → o + length bs ≤ p
    → slice (write f o bs) p n ≡ slice f p n
slice-write_after [] zero bs p n h = ap (take n) (rw (drop_past p bs (omega arith), drop_nil p))
slice-write_after [] (suc o) bs zero n h = absurd (omega arith)
slice-write_after [] (suc o) bs (suc p) n h =
    let ih = slice-write_after [] o bs p n (omega arith) in rw (drop_nil p) at ih
slice-write_after (x ∷ f) (suc o) bs zero n h = absurd (omega arith)
slice-write_after (x ∷ f) (suc o) bs (suc p) n h = slice-write_after f o bs p n (omega arith)
slice-write_after (x ∷ f) zero [] p n h = refl
slice-write_after (x ∷ f) zero (b ∷ bs) zero n h = absurd (omega arith)
slice-write_after (x ∷ f) zero (b ∷ bs) (suc p) n h = slice-write_after f zero bs p n (omega arith)

pub length-write :
    (f : List ℕ) (o : ℕ) (bs : List ℕ)
    → o ≤ length f
    → length (write f o bs) ≡ max (length f) (o + length bs)
length-write [] zero bs h = omega arith
length-write [] (suc o) bs h = absurd (omega arith)
length-write (x ∷ f) (suc o) bs h = omega (arith, length-write f o bs)
length-write (x ∷ f) zero [] h = omega arith
length-write (x ∷ f) zero (b ∷ bs) h = omega (arith, length-write f zero bs)

module _ {ℓ} {A : Type ℓ} where
  take-take_add : (m k : ℕ) (f : List A) → take m (take (m + k) f) ≡ take m f
  take-take_add zero k f = refl
  take-take_add (suc m) k [] = rw (take_nil (suc m + k)) refl
  take-take_add (suc m) k (x ∷ f) =
      let e : suc m + k ≡ suc (m + k) = omega arith in rw e (ap (λ l. x ∷ l) (take-take_add m k f))

  drop-take_add : (m k : ℕ) (f : List A) → drop m (take (m + k) f) ≡ take k (drop m f)
  drop-take_add zero k f = let e : 0 + k ≡ k = omega arith in rw e refl
  drop-take_add (suc m) k [] =
      let e : suc m + k ≡ suc (m + k) = omega arith in rw (e, take_nil k) refl
  drop-take_add (suc m) k (x ∷ f) =
      let e : suc m + k ≡ suc (m + k) = omega arith in rw e (drop-take_add m k f)

  drop-drop : (m o : ℕ) (f : List A) → drop m (drop o f) ≡ drop (o + m) f
  drop-drop m zero f = let e : 0 + m ≡ m = omega arith in rw e refl
  drop-drop m (suc o) [] = rw (drop_nil m, drop_nil (suc o + m)) refl
  drop-drop m (suc o) (x ∷ f) =
      let e : suc o + m ≡ suc (o + m) = omega arith in rw e (drop-drop m o f)

  -- The two parts of a run that is known as a whole.
  pub slice-front :
      (f : List A) (o m k : ℕ) (a b : List A)
      → length a ≡ m
      → slice f o (m + k) ≡ a ++ b
      → slice f o m ≡ a
  slice-front f o m k a b len h =
      sym (take-take_add m k (drop o f)) ∙ ap (take m) h ∙ (rw (← len) (take-append_length a b))

  pub slice-back :
      (f : List A) (o m k : ℕ) (a b : List A)
      → length a ≡ m
      → slice f o (m + k) ≡ a ++ b
      → slice f (o + m) k ≡ b
  slice-back f o m k a b len h =
      ap (take k) (sym (drop-drop m o f))
      ∙ sym (drop-take_add m k (drop o f))
      ∙ ap (drop m) h
      ∙ (rw (← len) (drop-append_length a b))
