-- ===== src/RefTable/Tests.antt =====
-- The counted objects, on a small table.
use learning_notes.Base.{◌≡◌, refl, arith, none, some, true, [], ◌∷◌}
use learning_notes.Base.Int.{pos}
use learning_notes.RefTable.{
  null, Table, hash_id, put, foo_hold, foo_rele, rele_begin, rele_end, foo_rele_2,
}
use learning_notes.RefTable.Chains.{foo, Chain}
use learning_notes.RefTable.Release.{Freed, foo_rele-Freed, rele_end-foo_hold}
use learning_notes.RefTable.Agree.{foo_rele_2-foo_rele}

-- The objects 34 and 5 share a list.
abbrev two : Table
two = record {
  fh = put (λ _. null) 5 1;
  heap = put (put (λ _. none) 1 (some (foo 2 (pos 34) 2))) 2 (some (foo 1 (pos 5) null));
}

two-Chain : Chain two.heap (two.fh 5) ((1, 2, pos 34) ∷ (2, 1, pos 5) ∷ [])
unfolding put
two-Chain = (2, refl, (λ e. omega arith), refl, (null, refl, (λ e. omega arith), refl, refl))

foo_rele-Freed_example :
    (t' : Table) × (foo_rele 2 two 2 ≡ some t') × Freed two 2 (pos 5) ((1, 2, pos 34) ∷ []) t'
unfolding hash_id
foo_rele-Freed_example =
    foo_rele-Freed 2 two ((1, 2, pos 34) ∷ []) 2 (pos 5) [] two-Chain
      (((λ e. omega arith), tt), (tt, tt)) (omega arith)

foo_rele_2-foo_rele_example : foo_rele_2 2 two 2 ≡ foo_rele 2 two 2
foo_rele_2-foo_rele_example = foo_rele_2-foo_rele 2 two 2

rele_end-foo_hold_example :
    (t' : Table) × (rele_begin two 2 ≡ some (true, two))
    × (foo_hold two 2 ≡ some t')
    × (rele_end 2 t' 2 ≡ some two)
unfolding put
rele_end-foo_hold_example = rele_end-foo_hold 2 two 2 (pos 5) null (λ e. omega arith) refl
