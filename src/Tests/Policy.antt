-- ===== src/Tests/Policy.antt =====
-- The theorems on the policy gate and the inbox (src/quantum_entanglement/policy.py) at concrete intents
-- and requests.
use quantum_entanglement.Prelude.{
  String, Bool, true, false, List, [], ◌∷◌, inr, none, some, ok, err, if◌then◌else◌, ◌≡◌, refl,
  arith, ◌⊎◌,
}
use quantum_entanglement.Prelude.Text.{elem}
use quantum_entanglement.Protocol.{
  RiskLevel, low, medium, high, approve, reject, Authority, permits, ActionIntent,
}
use quantum_entanglement.Policy.{allow, needs_approval, deny, is_high, evaluate}
use quantum_entanglement.Policy.Laws.{allow_safe, Grants, allow_mono, evaluate_gates}
use quantum_entanglement.NeedsYou.{
  ApprovalRequest, Queue, already_decided, same_verdict, decide, Call, ask, put_back, answer,
  create, apply, run,
}
use quantum_entanglement.NeedsYou.Laws.{IsExclusive, Orderly, run-IsExclusive, decide_final}

abbrev intent : String → RiskLevel → Bool → ActionIntent
intent action risk irreversible = record {
  action = action;
  target = "repository";
  risk = risk;
  external_side_effect = true;
  irreversible = irreversible;
  data_classes = [];
}

abbrev grant : RiskLevel → Authority
grant max_risk = record {
  allowed_actions = "push" ∷ [];
  data_scopes = [];
  max_risk = max_risk;
  external_side_effects = true;
}

allows_push : (evaluate ("wipe" ∷ []) (intent "push" low false) (grant low)).outcome ≡ allow
unfolding evaluate permits
allows_push = refl

allow_safe_example :
    (elem "push" ("wipe" ∷ []) ≡ false)
    × (false ≡ false)
    × (is_high low ≡ false)
    × ((true ≡ false) ⊎ ((true ≡ true) × (permits (grant low) "push" low true ≡ true)))
allow_safe_example = allow_safe ("wipe" ∷ []) (intent "push" low false) (grant low) allows_push

abbrev widened : Authority
widened = record (grant medium) { allowed_actions = "*" ∷ [] }

grant-Grants : Grants (grant low) widened
grant-Grants = record { actions = λ x h. refl; risk = omega arith; effects = λ h. h }

allow_mono_example : (evaluate ("wipe" ∷ []) (intent "push" low false) widened).outcome ≡ allow
allow_mono_example =
    allow_mono ("wipe" ∷ []) (intent "push" low false) (grant low) widened grant-Grants allows_push

evaluate_gates_example :
    (evaluate ("wipe" ∷ []) (intent "push" low true) (grant high)).outcome
    ≡ (if elem "push" ("wipe" ∷ []) then deny else needs_approval)
evaluate_gates_example = evaluate_gates ("wipe" ∷ []) (intent "push" low true) (grant high) refl

abbrev request : String → ApprovalRequest
request k = record {
  session_id = "session";
  task_id = "ship";
  intent = intent "push" high false;
  reason = "high impact";
  request_id = k;
  created_at = "2026-01-01T00:00:00Z";
  decision = none;
  decided_by = none;
  comment = none;
}

nobody_waits : IsExclusive []
nobody_waits = record { at = λ s t. omega arith }

-- A request comes in twice, is restored, and is answered.
abbrev calls : List Call
calls =
    ask (request "r1")
    ∷ ask (request "r2")
    ∷ put_back (request "r1")
    ∷ answer "r1" approve "alice" none
    ∷ []

calls-Orderly : Orderly calls []
unfolding apply create
calls-Orderly = (inr refl, tt)

run-IsExclusive_example : IsExclusive (run calls [])
run-IsExclusive_example = run-IsExclusive calls [] calls-Orderly nobody_waits

abbrev asked : Queue
asked = ("r1", request "r1") ∷ []

abbrev approved : ApprovalRequest
approved = record (request "r1") { decision = some approve; decided_by = some "alice" }

approves : decide "r1" approve "alice" none asked ≡ ok (approved, ("r1", approved) ∷ [])
unfolding decide
approves = refl

decide_final_example :
    (same_verdict approved approve "alice" ≡ true)
    × (decide "r1" reject "bob" none (("r1", approved) ∷ []) ≡ (
        if same_verdict approved reject "bob"
        then ok (approved, ("r1", approved) ∷ [])
        else err already_decided))
decide_final_example =
    decide_final "r1" approve reject "alice" "bob" none none asked (("r1", approved) ∷ []) approved
      approves
