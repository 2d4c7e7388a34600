-- ===== src/Context/Order.antt =====
-- The sort of `compile` (src/quantum_entanglement/context.py) and the place of the required items.

use quantum_entanglement.Prelude.{
  Bool, true, false, ◌&&◌, ◌||◌, not, List, [], ◌∷◌, all, ◌≡◌, refl, arith,
}
use quantum_entanglement.Prelude.Table.{insert_by, sort_by}
use quantum_entanglement.Context.{ContextItem, not_after}

-- No item of the list is required.
abbrev pub none_required : List ContextItem → Bool
none_required is = all (λ i. not i.required) is

-- No required item stands behind one that is not.
abbrev pub required_first : List ContextItem → Bool
required_first [] = true
required_first (i ∷ is) = (i.required || none_required is) && required_first is

not_after-required :
    (a b : ContextItem) → not_after a b ≡ true → a.required ≡ false → b.required ≡ false
unfolding not_after
not_after-required a b h e = ground arith

not_after-flip :
    (a b : ContextItem) → not_after a b ≡ false → b.required ≡ false → a.required ≡ false
unfolding not_after
not_after-flip a b h e = ground arith

none_required-insert_by :
    (x : ContextItem) (is : List ContextItem)
    → none_required (insert_by not_after x is) ≡ (not x.required && none_required is)
none_required-insert_by x [] = refl
none_required-insert_by x (i ∷ is) = ground (arith, none_required-insert_by x is)

required_first-insert_by :
    (x : ContextItem) (is : List ContextItem)
    → required_first is ≡ true
    → required_first (insert_by not_after x is) ≡ true
required_first-insert_by x [] h = ground arith
required_first-insert_by x (i ∷ is) h = ground (
  arith,
  not_after-required x i,
  not_after-flip x i,
  none_required-insert_by x is,
  required_first-insert_by x is,
)

pub required_first-sort_by : (is : List ContextItem) → required_first (sort_by not_after is) ≡ true
required_first-sort_by [] = refl
required_first-sort_by (i ∷ is) =
    required_first-insert_by i (sort_by not_after is) (required_first-sort_by is)
