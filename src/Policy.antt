-- ===== src/Policy.antt =====
-- src/quantum_entanglement/policy.py, `PolicyEngine`: which intents run, wait for a human, or are refused.
pub mod Laws
use quantum_entanglement.Prelude.{
  String, Bool, true, false, ◌&&◌, ◌||◌, not, List, [], ◌∷◌, leb, if◌then◌else◌,
}
use quantum_entanglement.Prelude.Text.{elem}
use quantum_entanglement.Protocol.{
  RiskLevel, no_risk, low, medium, high, critical, rank, Authority, permits, ActionIntent,
}

pub data PolicyOutcome : Type 0 where
  allow needs_approval deny : PolicyOutcome

-- The three reasons of the source are named, not spelled out.
pub data Reason : Type 0 where
  forbidden safe_read high_impact delegated exceeds_authority : Reason

pub record PolicyDecision : Type 0 where
  pub outcome : PolicyOutcome
  pub reason : Reason

abbrev pub safe_read_actions : List String
safe_read_actions = "read" ∷ "search" ∷ "list" ∷ "summarize" ∷ "analyze" ∷ "draft" ∷ []

-- `risk in (RiskLevel.HIGH, RiskLevel.CRITICAL)`
abbrev pub is_high : RiskLevel → Bool
is_high high = true
is_high critical = true
is_high _ = false

-- The second test of `evaluate`.
abbrev pub is_safe_read : ActionIntent → Bool
is_safe_read i =
    elem i.action safe_read_actions
    && (not i.external_side_effect && (not i.irreversible && leb (rank i.risk) (rank low)))

-- `PolicyEngine(forbidden_actions).evaluate`
unfoldable pub evaluate : List String → ActionIntent → Authority → PolicyDecision
evaluate forbidden_actions i a =
    if elem i.action forbidden_actions
    then record { outcome = deny; reason = forbidden }
    else if is_safe_read i
    then record { outcome = allow; reason = safe_read }
    else if i.irreversible || is_high i.risk
    then record { outcome = needs_approval; reason = high_impact }
    else if permits a i.action i.risk i.external_side_effect
    then record { outcome = allow; reason = delegated }
    else record { outcome = needs_approval; reason = exceeds_authority }
