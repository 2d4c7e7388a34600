-- ===== src/Protocol.antt =====
-- src/quantum_entanglement/protocol.py: statuses, risk, authority and intents.
pub mod Value
pub mod Codec
pub mod Envelope
pub mod RoundTrip
pub mod Checks
use quantum_entanglement.Prelude.{ℕ, String, Bool, ◌&&◌, ◌||◌, not, List, leb}
use quantum_entanglement.Prelude.Text.{elem}

pub data TaskStatus : Type 0 where
  pending ready running waiting_input waiting_approval : TaskStatus
  completed failed blocked canceled superseded : TaskStatus

pub data RiskLevel : Type 0 where
  no_risk low medium high critical : RiskLevel

-- `RiskLevel.rank`
abbrev pub rank : RiskLevel → ℕ
rank no_risk = 0
rank low = 1
rank medium = 2
rank high = 3
rank critical = 4

pub data ApprovalDecision : Type 0 where
  approve reject revise : ApprovalDecision

pub record Authority : Type 0 where
  pub allowed_actions : List String
  pub data_scopes : List String
  pub max_risk : RiskLevel
  pub external_side_effects : Bool

-- `Authority.permits`
unfoldable pub permits : Authority → String → RiskLevel → Bool → Bool
permits a action risk external_side_effect =
    (elem "*" a.allowed_actions || elem action a.allowed_actions)
    && (leb (rank risk) (rank a.max_risk) && (not external_side_effect || a.external_side_effects))

pub record ActionIntent : Type 0 where
  pub action : String
  pub target : String
  pub risk : RiskLevel
  pub external_side_effect : Bool
  pub irreversible : Bool
  pub data_classes : List String
