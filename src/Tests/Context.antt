-- ===== src/Tests/Context.antt =====
-- The theorem on context bundles (src/quantum_entanglement/context.py) at a concrete choice of items.
use quantum_entanglement.Prelude.{
  ℕ, ◌≤◌, String, true, false, Bool, List, [], ◌∷◌, ◌==◌, if◌then◌else◌, ok, ◌≡◌, arith,
}
use quantum_entanglement.Context.{
  ContextItem, ContextBundle, estimated_tokens, required_tokens, compile,
}
use quantum_entanglement.Context.Laws.{Compiled, compile-Compiled}

-- The lengths of the two texts below.
abbrev size : String → ℕ
size content = if content == "ship on Friday" then 14 else 13

abbrev item : String → String → String → Bool → ContextItem
item k category content required = record {
  item_id = k;
  category = category;
  content = content;
  required = required;
  relevance = 1;
  provenance = "runtime";
}

-- Four tokens each; the budget of seven holds one of them.
abbrev items : List ContextItem
items = item "hello" "chat" "hello, there!" false ∷ item "goal" "goal" "ship on Friday" true ∷ []

first_id : List ContextItem → String
first_id [] = ""
first_id (i ∷ is) = i.item_id

room : required_tokens size items ≤ 7
unfolding required_tokens estimated_tokens
room = omega arith

compile-Compiled_example :
    (b : ContextBundle) × (compile size first_id items 7 ≡ ok b) × Compiled size items 7 b
compile-Compiled_example = compile-Compiled size first_id items 7 (omega arith) room
