-- ===== src/RefTable/Chains.antt =====
-- The lists of the hash table: the objects on one in their order.
use learning_notes.Base.{
  ℕ, zero, suc, ◌≡◌, ◌≢◌, ◌<◌, refl, sym, ap, ◌∙◌, Option, some, List, [], ◌∷◌, ◌++◌, length, All,
  All-parts, arith, ==_of_ne, ==-refl, same_test,
}
use learning_notes.Base.Int.{ℤ, pos}
use learning_notes.RefTable.{Ptr, null, Foo, put, load, front_loop}

-- An object's address, count and id.
abbrev pub Item : Type 0
Item = Ptr × ℕ × ℤ

abbrev pub foo : ℕ → ℤ → Ptr → Foo
foo c i n = record { f_count = pos c; f_id = i; f_next = n }

-- From `p` the objects `xs` are linked in order, and no more.
abbrev pub Chain : (Ptr → Option Foo) → Ptr → List Item → Type 0
Chain h p [] = p ≡ null
Chain h p ((a, c, i) ∷ xs) =
    (n : Ptr) × (p ≡ a) × (a ≢ null) × (h a ≡ some (foo c i n)) × Chain h n xs

abbrev pub Ne : Ptr → List Item → Type 0
Ne a = All (λ (x : Item). x.0 ≢ a)

abbrev pub Distinct : List Item → Type 0
Distinct [] = Unit
Distinct (x ∷ xs) = Ne x.0 xs × Distinct xs

pub put_self : {A : Type 0} (h : ℕ → A) (p : ℕ) (c : A) → put h p c p ≡ c
unfolding put
put_self h p c = rw (==-refl p) refl

pub put_other : {A : Type 0} (h : ℕ → A) (p : ℕ) (c : A) (a : ℕ) → a ≢ p → put h p c a ≡ h a
unfolding put
put_other h p c a ne = rw (==_of_ne a p ne) refl

pub load-eq :
    (h : Ptr → Option Foo) (p : Ptr) {f : Foo} → p ≢ null → h p ≡ some f → load h p ≡ some f
unfolding load
load-eq h p ne e = rw (==_of_ne p null ne) e

-- A store elsewhere changes no list.
pub Chain-put :
    (h : Ptr → Option Foo) (q : Ptr) (c : Option Foo) (p : Ptr) (xs : List Item)
    → Ne q xs
    → Chain h p xs
    → Chain (put h q c) p xs
Chain-put h q c p [] ne ch = ch
Chain-put h q c p (x ∷ xs) ne (n, e, z, at, ch) =
    (n, e, z, put_other h q c x.0 ne.0 ∙ at, Chain-put h q c n xs ne.1 ch)

-- The object in front of `fp`: what the loop of foo_rele finds, and the list once it is led past.
pub record Preceding (h : Ptr → Option Foo) (p fp : Ptr) (xs ys : List Item) (n : Ptr) (k : ℕ)
    : Type 0 where
  pub tfp : Ptr
  pub count : ℕ
  pub id : ℤ
  pub run : front_loop k h p fp ≡ some tfp
  pub ne_null : tfp ≢ null
  pub at : h tfp ≡ some (foo count id fp)
  pub member : (a : Ptr) → Ne a xs → tfp ≢ a
  pub past : Chain (put h tfp (some (foo count id n))) p (xs ++ ys)

pub front_loop-Preceding :
    (h : Ptr → Option Foo) (p : Ptr) (x : Item) (xs : List Item) (fp : Ptr) (c : ℕ) (i : ℤ)
    (ys : List Item) (n : Ptr) (k : ℕ)
    → length xs < k
    → Distinct (x ∷ xs ++ (fp, c, i) ∷ ys)
    → Chain h p (x ∷ xs ++ (fp, c, i) ∷ ys)
    → h fp ≡ some (foo c i n)
    → Chain h n ys
    → Preceding h p fp (x ∷ xs) ys n k
unfolding front_loop
front_loop-Preceding h p x xs fp c i ys n zero l d ch at rest = elim l [ ]
front_loop-Preceding h p x [] fp c i ys n (suc k) l d (m, e, z, x_at, (m', e', z', fp_at, ch)) at
      rest =
    record {
      tfp = x.0;
      count = x.1;
      id = x.2;
      run = rw (front_loop, e, load-eq h x.0 z x_at, same_test m fp e') refl;
      ne_null = z;
      at = x_at ∙ ap (λ (t : Ptr). some (foo x.1 x.2 t)) e';
      member = λ a ne. ne.0;
      past = (n, e, z, put_self h x.0 _, Chain-put h x.0 _ n ys d.0.1 rest);
    }
front_loop-Preceding h p x (y ∷ xs) fp c i ys n (suc k) l d
      (m, e, z, x_at, (m', e', y_ne, y_at, ch)) at rest =
    let f =
      front_loop-Preceding h m y xs fp c i ys n k (omega arith) d.1 (m', e', y_ne, y_at, ch) at
        rest in
    let (behind_y, behind_fp) = All-parts (λ (v : Item). v.0 ≢ y.0) xs ((fp, c, i) ∷ ys) d.1.0 in
    let (behind_x, _) = All-parts (λ (v : Item). v.0 ≢ x.0) (y ∷ xs) ((fp, c, i) ∷ ys) d.0 in
    let not_yet : m ≢ fp = λ q. behind_fp.0 (sym q ∙ e') in
    record {
      tfp = f.tfp;
      count = f.count;
      id = f.id;
      run = rw (front_loop, e, load-eq h x.0 z x_at, ==_of_ne m fp not_yet) f.run;
      ne_null = f.ne_null;
      at = f.at;
      member = λ a ne. f.member a ne.1;
      past = (m, e, z, put_other h f.tfp _ x.0 (λ q. f.member x.0 behind_x (sym q)) ∙ x_at, f.past);
    }
