-- ===== src/Transfer/Laws.antt =====
-- lib/readn.c and lib/writen.c, against what `read` and `write` promise.
use learning_notes.Base.{
  ◌⊎◌, ℕ, zero, suc, ◌-◌, ◌≡◌, ◌≤◌, ◌<◌, refl, sym, ap, ◌∙◌, Option, none, some, [], ◌∷◌, ◌++◌,
  length, arith, length-append, append_assoc, eq-cases, ==_of_ne, same_test, inl, inr,
}
use learning_notes.Transfer.{Bytes, joined, read_round, read_loop, readn}

module _ {S : Type 0} where
  -- A call of `read`, with `input` what is still to come: it takes a part from the front, of at most
  -- the size asked for, and an error takes nothing.
  abbrev pub ReadStep : (S → Bytes) → S → ℕ → Option Bytes × S → Type 0
  ReadStep input s n (none, s') = input s' ≡ input s
  ReadStep input s n (some bs, s') = (input s ≡ bs ++ input s') × (length bs ≤ n)

  abbrev pub Reads : (S → ℕ → Option Bytes × S) → (S → Bytes) → Type 0
  Reads read input = (s : S) (n : ℕ) → ReadStep input s n (read s n)

  -- What the loop promises with `nleft` bytes to go: an error is reported only where nothing has
  -- been read, which is where `nleft` is all.
  abbrev LoopStep : (S → Bytes) → S → ℕ → ℕ → Option Bytes × S → Type 0
  LoopStep input s n nleft (none, s') = (nleft ≡ n) × (input s' ≡ input s)
  LoopStep input s n nleft (some bs, s') = (input s ≡ bs ++ input s') × (length bs ≤ nleft)

  joined-LoopStep :
      (input : S → Bytes) (s s' : S) (b : ℕ) (bs : Bytes) (n nleft : ℕ) (r : Option Bytes × S)
      → input s ≡ b ∷ bs ++ input s'
      → length (b ∷ bs) ≤ nleft
      → nleft ≤ n
      → LoopStep input s' n (nleft - length (b ∷ bs)) r
      → LoopStep input s n nleft (joined (b ∷ bs) r)
  joined-LoopStep input s s' b bs n nleft (none, t) e l m h = absurd (omega (arith, h.0))
  joined-LoopStep input s s' b bs n nleft (some cs, t) e l m h = (
    e ∙ ap (λ (r : Bytes). b ∷ bs ++ r) h.0 ∙ sym (append_assoc (b ∷ bs) cs (input t)),
    omega (arith, h.1, length-append bs cs),
  )

  read_round-LoopStep :
      (input : S → Bytes) (rest : ℕ → S → Option Bytes × S) (n nleft : ℕ) (s : S)
      (r : Option Bytes × S)
      → nleft ≤ n
      → ReadStep input s nleft r
      → ((m : ℕ) (t : S) → m < nleft → LoopStep input t n m (rest m t))
      → LoopStep input s n nleft (read_round rest n nleft r)
  unfolding read_round
  read_round-LoopStep input rest n nleft s (none, s') m h later = elim (eq-cases nleft n) [
    | inl all ↦ rw (read_round, same_test nleft n all) (all, h)
    | inr part ↦ rw (read_round, ==_of_ne nleft n part) (sym h, omega arith)
  ]
  read_round-LoopStep input rest n nleft s (some [], s') m h later = (h.0, omega arith)
  read_round-LoopStep input rest n nleft s (some (b ∷ bs), s') m h later =
      joined-LoopStep input s s' b bs n nleft (rest (nleft - length (b ∷ bs)) s') h.0 h.1 m
        (later (nleft - length (b ∷ bs)) s' (omega (arith, h.1)))

  read_loop-LoopStep :
      (read : S → ℕ → Option Bytes × S) (input : S → Bytes) (k n nleft : ℕ) (s : S)
      → Reads read input
      → nleft ≤ k
      → nleft ≤ n
      → LoopStep input s n nleft (read_loop read k n nleft s)
  unfolding read_loop
  read_loop-LoopStep read input zero n nleft s h l m = (refl, omega arith)
  read_loop-LoopStep read input (suc k) n nleft s h l m = elim (eq-cases nleft 0) [
    | inl done ↦ rw (read_loop, same_test nleft 0 done) (refl, omega arith)
    | inr more ↦
        rw (read_loop, ==_of_ne nleft 0 more)
          (read_round-LoopStep input (read_loop read k n) n nleft s (read s nleft) m (h s nleft)
            (λ i t j. read_loop-LoopStep read input k n i t h (omega arith) (omega arith)))
  ]

  LoopStep-ReadStep :
      (input : S → Bytes) (s : S) (n : ℕ) (r : Option Bytes × S)
      → LoopStep input s n n r
      → ReadStep input s n r
  LoopStep-ReadStep input s n (none, s') h = h.1
  LoopStep-ReadStep input s n (some bs, s') h = h

  -- If each call of `read` takes its bytes from the front of what is still to come, so does readn:
  -- an error that it reports has taken nothing, and else it returns the bytes taken, at most `n`.
  pub readn-ReadStep :
      (read : S → ℕ → Option Bytes × S) (input : S → Bytes) (n : ℕ) (s : S)
      → Reads read input
      → ReadStep input s n (readn read n s)
  unfolding readn
  readn-ReadStep read input n s h =
      LoopStep-ReadStep input s n (readn read n s)
        (read_loop-LoopStep read input n n n s h (omega arith) (omega arith))

  -- A call of `read` that does not fail, and returns nothing only at the end of the input.
  pub record Flowing (read : S → ℕ → Option Bytes × S) (input : S → Bytes) : Type 0 where
    pub bytes : S → ℕ → Bytes
    pub after : S → ℕ → S
    pub call : (s : S) (n : ℕ) → read s n ≡ (some (bytes s n), after s n)
    pub front : (s : S) (n : ℕ) → input s ≡ bytes s n ++ input (after s n)
    pub bound : (s : S) (n : ℕ) → length (bytes s n) ≤ n
    pub ends : (s : S) (n : ℕ) → 0 < n → bytes s n ≡ [] → input s ≡ []

  -- All that was asked for, or all that there was.
  abbrev pub Complete : (S → Bytes) → S → ℕ → Option Bytes × S → Type 0
  Complete input s n (none, s') = ⊥
  Complete input s n (some bs, s') =
      (input s ≡ bs ++ input s') × ((length bs ≡ n) ⊎ (input s' ≡ []))

  joined-Complete :
      (input : S → Bytes) (s s' : S) (b : ℕ) (bs : Bytes) (nleft : ℕ) (r : Option Bytes × S)
      → input s ≡ b ∷ bs ++ input s'
      → length (b ∷ bs) ≤ nleft
      → Complete input s' (nleft - length (b ∷ bs)) r
      → Complete input s nleft (joined (b ∷ bs) r)
  joined-Complete input s s' b bs nleft (none, t) e l h = h
  joined-Complete input s s' b bs nleft (some cs, t) e l (f, inl all) = (
    e ∙ ap (λ (r : Bytes). b ∷ bs ++ r) f ∙ sym (append_assoc (b ∷ bs) cs (input t)),
    inl (omega (arith, length-append bs cs)),
  )
  joined-Complete input s s' b bs nleft (some cs, t) e l (f, inr out) =
      (e ∙ ap (λ (r : Bytes). b ∷ bs ++ r) f ∙ sym (append_assoc (b ∷ bs) cs (input t)), inr out)

  read_round-Complete :
      (input : S → Bytes) (rest : ℕ → S → Option Bytes × S) (n nleft : ℕ) (s s' : S) (bs : Bytes)
      → input s ≡ bs ++ input s'
      → length bs ≤ nleft
      → (bs ≡ [] → input s ≡ [])
      → ((m : ℕ) (t : S) → m < nleft → Complete input t m (rest m t))
      → Complete input s nleft (read_round rest n nleft (some bs, s'))
  unfolding read_round
  read_round-Complete input rest n nleft s s' [] e l z later = (e, inr (sym e ∙ z refl))
  read_round-Complete input rest n nleft s s' (b ∷ bs) e l z later =
      joined-Complete input s s' b bs nleft (rest (nleft - length (b ∷ bs)) s') e l
        (later (nleft - length (b ∷ bs)) s' (omega arith))

  read_loop-Complete :
      (read : S → ℕ → Option Bytes × S) (input : S → Bytes) (k n nleft : ℕ) (s : S)
      → Flowing read input
      → nleft ≤ k
      → Complete input s nleft (read_loop read k n nleft s)
  unfolding read_loop
  read_loop-Complete read input zero n nleft s h l = (refl, inl (omega arith))
  read_loop-Complete read input (suc k) n nleft s h l = elim (eq-cases nleft 0) [
    | inl done ↦ rw (read_loop, same_test nleft 0 done) (refl, inl (sym done))
    | inr more ↦
        rw (read_loop, ==_of_ne nleft 0 more, h.call s nleft)
          (read_round-Complete input (read_loop read k n) n nleft s (h.after s nleft)
            (h.bytes s nleft) (h.front s nleft) (h.bound s nleft) (h.ends s nleft (omega arith))
            (λ i t j. read_loop-Complete read input k n i t h (omega arith)))
  ]

  -- If `read` does not fail, however few bytes its calls return, readn returns the next `n` bytes of
  -- the input, or all of it if there are fewer.
  pub readn-Complete :
      (read : S → ℕ → Option Bytes × S) (input : S → Bytes) (n : ℕ) (s : S)
      → Flowing read input
      → Complete input s n (readn read n s)
  unfolding readn
  readn-Complete read input n s h = read_loop-Complete read input n n n s h (omega arith)
