-- ===== src/Db/Cells.antt =====
-- Lists of records that keep apart, in the index file and in the data file.
use learning_notes.Base.{
  ℕ, zero, suc, ◌+◌, ◌≤◌, ◌≡◌, ◌≢◌, refl, ap, true, false, inl, inr, List, [], ◌∷◌, ◌++◌, arith,
  ltb, ◌==◌, if◌then◌else◌, length, drop, length-append, length-take, length-drop, All, All-map,
  Bool-cases,
}
use learning_notes.CString.{Bytes, str_eq}
use learning_notes.Db.Image.{span, Apart}
use learning_notes.Db.Chain.{Cell, HasData}
use learning_notes.Db.{newline}
use learning_notes.Db.Unlink.{Spread}
use learning_notes.Db.DeleteFetch.{Single}

-- Two records that share no byte, and whose data share none.
abbrev pub Disjoint : Cell → Cell → Type 0
Disjoint c d =
    Apart c.at (span c.entry) d.at (span d.entry)
    × Apart c.entry.datoff c.entry.datlen d.entry.datoff d.entry.datlen

abbrev pub Sparse : List Cell → Type 0
Sparse [] = Unit
Sparse (c ∷ cs) = All (Disjoint c) cs × Sparse cs

abbrev pub Between : List Cell → List Cell → Type 0
Between cs ds = All (λ (c : Cell). All (Disjoint c) ds) cs

pub Disjoint-sym : (c d : Cell) → Disjoint c d → Disjoint d c
Disjoint-sym c d (a, b) = (omega arith, omega arith)

pub Sparse-Spread : (cs : List Cell) → Sparse cs → Spread cs
Sparse-Spread [] s = tt
Sparse-Spread (c ∷ cs) s = (
  All-map (Disjoint c) (λ (d : Cell). Apart c.at (span c.entry) d.at (span d.entry)) (λ d p. p.0) cs
      s.0,
  Sparse-Spread cs s.1,
)

module _ {ℓ} (P : Cell → Type ℓ) where
  pub All-without :
      (pre post : List Cell) (c : Cell) → All P (pre ++ c ∷ post) → P c × All P (pre ++ post)
  All-without [] post c a = a
  All-without (x ∷ pre) post c a = let (h, r) = All-without pre post c a.1 in (h, (a.0, r))

pub Sparse-without :
    (pre post : List Cell) (c : Cell)
    → Sparse (pre ++ c ∷ post)
    → All (Disjoint c) (pre ++ post) × Sparse (pre ++ post)
Sparse-without [] post c s = s
Sparse-without (x ∷ pre) post c s =
    let (a, t) = Sparse-without pre post c s.1 in
    let (h, r) = All-without (Disjoint x) pre post c s.0 in ((Disjoint-sym x c h, a), (r, t))

pub Between-sym : (cs ds : List Cell) → Between cs ds → Between ds cs
Between-sym cs [] h = tt
Between-sym cs (d ∷ ds) h = (
  All-map (λ (c : Cell). All (Disjoint c) (d ∷ ds)) (λ c. Disjoint d c)
      (λ c p. Disjoint-sym c d p.0) cs h,
  Between-sym cs ds (
      All-map (λ (c : Cell). All (Disjoint c) (d ∷ ds)) (λ (c : Cell). All (Disjoint c) ds)
        (λ c p. p.1) cs h),
)

pub Single-without :
    (key : Bytes) (pre post : List Cell) (c : Cell)
    → Single key (pre ++ c ∷ post)
    → Single key (pre ++ post)
Single-without key [] post c s = s.1
Single-without key (x ∷ pre) post c s = (
  λ hit. (All-without (λ (d : Cell). str_eq d.entry.key key ≡ false) pre post c (s.0 hit)).1,
  Single-without key pre post c s.1,
)

-- Data lie within the data file.
abbrev pub DataIn : Bytes → Cell → Type 0
DataIn g d = d.entry.datoff + d.entry.datlen ≤ length g

pub HasData-inside : (g : Bytes) (c : Cell) → HasData g c → DataIn g c
HasData-inside g c d = omega (
  arith,
  d.size,
  ap (λ (r : Bytes). length r) d.data_at,
  length-append c.text (newline ∷ []),
  length-take (length c.text + 1) (drop c.entry.datoff g),
  length-drop c.entry.datoff g,
)

-- The records that start in front of `n`: at most one at each place.
starts : ℕ → List Cell → ℕ
starts n [] = 0
starts n (c ∷ cs) = (if ltb c.at n then 1 else 0) + starts n cs

exactly : ℕ → List Cell → ℕ
exactly n [] = 0
exactly n (c ∷ cs) = (if c.at == n then 1 else 0) + exactly n cs

starts-suc : (n : ℕ) (cs : List Cell) → starts (suc n) cs ≡ starts n cs + exactly n cs
unfolding starts exactly
starts-suc n [] = refl
starts-suc n (c ∷ cs) = ground (arith, starts-suc n cs)

exactly-none :
    (n : ℕ) (c : Cell) (cs : List Cell) → c.at ≡ n → All (Disjoint c) cs → exactly n cs ≡ 0
unfolding exactly
exactly-none n c [] e a = refl
exactly-none n c (d ∷ cs) e a =
    let other : d.at ≢ n = λ q. omega (arith, a.0.0) in ground (arith, exactly-none n c cs e a.1)

exactly-le : (n : ℕ) (cs : List Cell) → Sparse cs → exactly n cs ≤ 1
unfolding exactly
exactly-le n [] s = omega arith
exactly-le n (c ∷ cs) s = elim (Bool-cases (c.at == n)) [
  | inl e ↦ rw e (omega (arith, exactly-none n c cs (ground arith) s.0))
  | inr e ↦ rw e (omega (arith, exactly-le n cs s.1))
]

starts-le : (n : ℕ) (cs : List Cell) → Sparse cs → starts n cs ≤ n
unfolding starts
starts-le zero cs s = none_below cs
  where
    none_below : (cs : List Cell) → starts 0 cs ≤ 0
    none_below [] = omega arith
    none_below (c ∷ cs) = ground (arith, none_below cs)
starts-le (suc n) cs s = omega (arith, starts-suc n cs, exactly-le n cs s, starts-le n cs s)

starts-all :
    (n : ℕ) (cs : List Cell)
    → All (λ (c : Cell). c.at + span c.entry ≤ n) cs
    → starts n cs ≡ length cs
unfolding starts
starts-all n [] a = refl
starts-all n (c ∷ cs) a =
    let inside : ltb c.at n ≡ true = ground (arith, a.0) in
    rw inside (omega (arith, starts-all n cs a.1))

-- A chain of records that keep apart has no more of them than the file has bytes.
pub length-Sparse :
    (n : ℕ) (cs : List Cell)
    → Sparse cs
    → All (λ (c : Cell). c.at + span c.entry ≤ n) cs
    → length cs ≤ n
length-Sparse n cs s a = omega (arith, starts-le n cs s, starts-all n cs a)
