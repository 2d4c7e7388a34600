-- ===== src/Context/Laws.antt =====
-- The bundle that `ContextCompiler.compile` (src/quantum_entanglement/context.py) returns.
use mathlib.Core.List.{Perm}
use mathlib.Core.List.Perm
use quantum_entanglement.Prelude.{
  ℕ, ◌+◌, ◌≤◌, ◌<◌, String, true, List, ◌++◌, map, All, ltb, leb, ok, ◌≡◌, refl, arith,
}
use quantum_entanglement.Prelude.Table.{sort_by, sort_by-Perm}
use quantum_entanglement.Context.{
  ContextItem, ContextBundle, not_after, estimated_tokens, required_tokens, pack, bundle, compile,
}
use quantum_entanglement.Context.Order.{none_required, required_first-sort_by}
use quantum_entanglement.Context.Pack.{
  tokens, left_over, left_over-names, pack-spent, pack-full, left_over-none_required, pack-Perm,
  required_tokens-sort_by,
}

module _ (utf8_length : String → ℕ) where
  -- What a bundle is for: the items split into the selected ones and `omitted`, whose ids it names; the
  -- tokens of the selected items are counted and within the budget; all required items are selected;
  -- and no omitted item would still fit.
  pub record Compiled (items : List ContextItem) (budget : ℕ) (b : ContextBundle) : Type 0 where
    pub omitted : List ContextItem
    pub names : b.omitted_item_ids ≡ map (λ i. i.item_id) omitted
    pub split : Perm (b.items ++ omitted) items
    pub spent : b.estimated_tokens ≡ tokens utf8_length b.items
    pub within : b.estimated_tokens ≤ budget
    pub kept : none_required omitted ≡ true
    pub full :
        All
          (λ (i : ContextItem). budget < b.estimated_tokens + estimated_tokens utf8_length i)
          omitted

  -- With a positive budget that holds the required items, `compile` returns a bundle: it splits the
  -- items into selected and omitted ones and names the omitted ones, counts the tokens that it
  -- selected and stays within the budget, omits no required item, and no item that would still fit.
  pub compile-Compiled :
      (digest : List ContextItem → String) (items : List ContextItem) (budget : ℕ)
      → 1 ≤ budget
      → required_tokens utf8_length items ≤ budget
      → (b : ContextBundle) × (compile utf8_length digest items budget ≡ ok b)
        × Compiled items budget b
  unfolding compile
  compile-Compiled digest items budget positive fits =
      let ordered = sort_by not_after items in
      let some_budget : ltb 0 budget ≡ true = ground arith in
      let enough : leb (required_tokens utf8_length items) budget ≡ true = ground arith in
      let room : 0 + required_tokens utf8_length ordered ≤ budget =
        omega (arith, required_tokens-sort_by utf8_length items) in
      let spent = pack-spent utf8_length budget 0 ordered (omega arith) in
      (
        bundle utf8_length digest budget (pack utf8_length budget 0 ordered),
        rw (some_budget, enough) refl,
        record {
          omitted = left_over utf8_length budget 0 ordered;
          names = left_over-names utf8_length budget 0 ordered;
          split =
              Perm.trans (pack-Perm utf8_length budget 0 ordered) (sort_by-Perm not_after items);
          spent = omega (arith, spent.0);
          within = spent.1;
          kept =
              left_over-none_required utf8_length budget 0 ordered (required_first-sort_by items)
                room;
          full = (pack-full utf8_length budget 0 ordered).1;
        },
      )
