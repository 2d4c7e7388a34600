-- ===== src/Context.antt =====
-- src/quantum_entanglement/context.py, `ContextCompiler`: which items an agent is shown, within a budget of
-- tokens. A relevance is a number of units of 2^-1074, which hold every float from 0 to 1. The length
-- of a text in UTF-8 and the digest of the selected items are parameters.
pub mod Order
pub mod Pack
pub mod Laws
use quantum_entanglement.Prelude.{
  ℕ, ◌+◌, ◌/◌, ◌^◌, max, String, Bool, true, false, ◌&&◌, ◌||◌, not, List, [], ◌∷◌, ◌==◌,
  if◌then◌else◌, eqb, ltb, leb, Result, ok, err, guard, ◌>>=◌, ◌>>◌,
}
use quantum_entanglement.Prelude.Text.{text_le}
use quantum_entanglement.Prelude.Table.{sort_by}

pub data Error : Type 0 where
  bad_item budget_not_positive required_exceeds_budget : Error

pub record ContextItem : Type 0 where
  pub item_id : String
  pub category : String
  pub content : String
  pub required : Bool
  pub relevance : ℕ
  pub provenance : String

-- `ContextItem.__post_init__`; `blank` is Python's `not text.strip()`.
unfoldable pub check_item : (String → Bool) → ContextItem → Result Error ContextItem
check_item blank i = do
  guard (not (blank i.item_id) && not (blank i.category)) bad_item
  guard (leb i.relevance (2 ^ 1074)) bad_item
  ok i

pub record ContextBundle : Type 0 where
  pub items : List ContextItem
  pub omitted_item_ids : List String
  pub token_budget : ℕ
  pub estimated_tokens : ℕ
  pub digest : String

-- `CATEGORY_WEIGHT.get(category, 0)`
abbrev pub category_weight : String → ℕ
category_weight c =
    if c == "policy"
    then 100
    else if c == "goal"
    then 95
    else if c == "handoff"
    then 90
    else if c == "artifact"
    then 80
    else if c == "decision"
    then 75
    else if c == "memory"
    then 60
    else if c == "chat"
    then 50
    else if c == "tool"
    then 40
    else 0

-- The key of the sort: required items first, then by falling weight, falling relevance, and by id.
unfoldable pub not_after : ContextItem → ContextItem → Bool
not_after a b =
    (a.required && not b.required)
    || ((a.required && b.required || not a.required && not b.required)
        && (ltb (category_weight b.category) (category_weight a.category)
            || (eqb (category_weight a.category) (category_weight b.category)
                && (ltb b.relevance a.relevance
                    || (eqb a.relevance b.relevance && text_le a.item_id b.item_id)))))

module _ (utf8_length : String → ℕ) where
  -- `ContextItem.estimated_tokens`
  unfoldable pub estimated_tokens : ContextItem → ℕ
  estimated_tokens i = max 1 ((utf8_length i.content + 3) / 4)

  unfoldable pub required_tokens : List ContextItem → ℕ
  required_tokens [] = 0
  required_tokens (i ∷ is) =
      let rest = required_tokens is in if i.required then estimated_tokens i + rest else rest

  -- The loop of `compile`: the selected items, the ids of the omitted ones, and the tokens used.
  unfoldable pub pack : ℕ → ℕ → List ContextItem → List ContextItem × List String × ℕ
  pack budget used [] = ([], [], used)
  pack budget used (i ∷ is) =
      let with_item = pack budget (used + estimated_tokens i) is in
      let without_item = pack budget used is in
      if leb (used + estimated_tokens i) budget
      then (i ∷ with_item.0, with_item.1, with_item.2)
      else (without_item.0, i.item_id ∷ without_item.1, without_item.2)

  abbrev pub bundle :
      (List ContextItem → String) → ℕ → List ContextItem × List String × ℕ → ContextBundle
  bundle digest budget packed = record {
    items = packed.0;
    omitted_item_ids = packed.1;
    token_budget = budget;
    estimated_tokens = packed.2;
    digest = digest packed.0;
  }

  -- `ContextCompiler.compile`
  unfoldable pub compile :
      (List ContextItem → String) → List ContextItem → ℕ → Result Error ContextBundle
  compile digest items budget = do
    guard (ltb 0 budget) budget_not_positive
    guard (leb (required_tokens items) budget) required_exceeds_budget
    ok (bundle digest budget (pack budget 0 (sort_by not_after items)))
