-- ===== src/Protocol/Codec.antt =====
-- src/quantum_entanglement/protocol.py: the dictionary forms of `ActorRef`, `Authority` and `ActionIntent`.
use quantum_entanglement.Prelude.{
  String, false, ◌&&◌, not, List, [], ◌∷◌, map, ◌==◌, if◌then◌else◌, Result, ok, err, guard, ◌>>=◌,
}
use quantum_entanglement.Protocol.{
  RiskLevel, no_risk, low, medium, high, critical, Authority, ActionIntent,
}
use quantum_entanglement.Protocol.Value.{
  Value, null, bool, text, Error, value_error, Python, dict, array_of, getitem, get_or, str, truth,
  iterate, collect,
}

pub data ActorKind : Type 0 where
  human agent system tool : ActorKind

-- `kind.value` and `ActorKind(text)`
abbrev pub actor_kind_value : ActorKind → String
actor_kind_value human = "human"
actor_kind_value agent = "agent"
actor_kind_value system = "system"
actor_kind_value tool = "tool"

abbrev pub actor_kind : String → Result Error ActorKind
actor_kind t =
    if t == "human"
    then ok human
    else if t == "agent"
    then ok agent
    else if t == "system"
    then ok system
    else if t == "tool"
    then ok tool
    else err value_error

-- `risk.value` and `RiskLevel(text)`
abbrev pub risk_value : RiskLevel → String
risk_value no_risk = "none"
risk_value low = "low"
risk_value medium = "medium"
risk_value high = "high"
risk_value critical = "critical"

abbrev pub risk_level : String → Result Error RiskLevel
risk_level t =
    if t == "none"
    then ok no_risk
    else if t == "low"
    then ok low
    else if t == "medium"
    then ok medium
    else if t == "high"
    then ok high
    else if t == "critical"
    then ok critical
    else err value_error

-- `role` takes any value: nothing tests it.
pub record ActorRef : Type 0 where
  pub actor_id : String
  pub name : String
  pub kind : ActorKind
  pub role : Value

abbrev pub texts : List String → Value
texts ts = array_of (map (λ t. text t) ts)

module _ (py : Python) where
  -- `ActorRef.__post_init__`
  unfoldable pub check_actor : ActorRef → Result Error ActorRef
  check_actor a =
      guard (not (py.blank a.actor_id) && not (py.blank a.name)) value_error >>= λ _. ok a

  -- `tuple(str(x) for x in value)`
  unfoldable pub str_tuple : Value → Result Error (List String)
  str_tuple v = iterate py v >>= λ xs. collect (λ x. ok (str py x)) xs

  unfoldable pub actor_from_dict : Value → Result Error ActorRef
  actor_from_dict v = getitem "actorId" v >>= λ actor_id. getitem "name" v >>= λ name.
      getitem "kind" v >>= λ kind_text. actor_kind (str py kind_text) >>= λ kind.
      get_or "role" null v >>= λ role.
      check_actor
        (record { actor_id = str py actor_id; name = str py name; kind = kind; role = role })

  unfoldable pub authority_from_dict : Value → Result Error Authority
  authority_from_dict v = get_or "allowedActions" (array_of []) v >>= λ actions.
      str_tuple actions >>= λ allowed_actions. get_or "dataScopes" (array_of []) v >>= λ scopes.
      str_tuple scopes >>= λ data_scopes. get_or "maxRisk" (text "low") v >>= λ risk_text.
      risk_level (str py risk_text) >>= λ max_risk.
      get_or "externalSideEffects" (bool false) v >>= λ effects. ok (record {
        allowed_actions = allowed_actions;
        data_scopes = data_scopes;
        max_risk = max_risk;
        external_side_effects = truth py effects;
      })

  unfoldable pub intent_from_dict : Value → Result Error ActionIntent
  intent_from_dict v = getitem "action" v >>= λ action. getitem "target" v >>= λ target.
      get_or "risk" (text "low") v >>= λ risk_text. risk_level (str py risk_text) >>= λ risk.
      get_or "externalSideEffect" (bool false) v >>= λ effect.
      get_or "irreversible" (bool false) v >>= λ irreversible.
      get_or "dataClasses" (array_of []) v >>= λ classes. str_tuple classes >>= λ data_classes.
      ok (record {
        action = str py action;
        target = str py target;
        risk = risk;
        external_side_effect = truth py effect;
        irreversible = truth py irreversible;
        data_classes = data_classes;
      })

unfoldable pub actor_to_dict : ActorRef → Value
actor_to_dict a = dict (
    ("actorId", text a.actor_id)
    ∷ ("name", text a.name)
    ∷ ("kind", text (actor_kind_value a.kind))
    ∷ ("role", a.role)
    ∷ [])

unfoldable pub authority_to_dict : Authority → Value
authority_to_dict a = dict (
    ("allowedActions", texts a.allowed_actions)
    ∷ ("dataScopes", texts a.data_scopes)
    ∷ ("maxRisk", text (risk_value a.max_risk))
    ∷ ("externalSideEffects", bool a.external_side_effects)
    ∷ [])

unfoldable pub intent_to_dict : ActionIntent → Value
intent_to_dict i = dict (
    ("action", text i.action)
    ∷ ("target", text i.target)
    ∷ ("risk", text (risk_value i.risk))
    ∷ ("externalSideEffect", bool i.external_side_effect)
    ∷ ("irreversible", bool i.irreversible)
    ∷ ("dataClasses", texts i.data_classes)
    ∷ [])
