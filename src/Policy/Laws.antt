-- ===== src/Policy/Laws.antt =====
-- The outcomes of `PolicyEngine.evaluate` (src/quantum_entanglement/policy.py).
use quantum_entanglement.Prelude.{
  String, Bool, true, false, ◌||◌, not, List, if◌then◌else◌, leb, ◌≡◌, refl, arith, ◌≤◌, ◌⊎◌, inl,
  inr, both, off, neither,
}
use quantum_entanglement.Prelude.Text.{elem}
use quantum_entanglement.Protocol.{
  RiskLevel, no_risk, low, medium, high, critical, rank, Authority, permits, ActionIntent,
}
use quantum_entanglement.Policy.{
  PolicyDecision, Reason, forbidden, safe_read, high_impact, delegated, exceeds_authority, allow,
  needs_approval, deny, safe_read_actions, is_safe_read, is_high, evaluate,
}

permits_effect :
    (a : Authority) (x : String) (r : RiskLevel) (e : Bool)
    → permits a x r e ≡ true
    → (e ≡ false) ⊎ ((a.external_side_effects ≡ true) × (permits a x r true ≡ true))
unfolding permits
permits_effect a x r false h = inl refl
permits_effect a x r true h =
    let (_, rest) = both (elem "*" a.allowed_actions || elem x a.allowed_actions) _ h in
    let (_, effects) = both (leb (rank r) (rank a.max_risk)) _ rest in inr (effects, h)

-- The two ways to `allow` through the tests of `evaluate`.
allowed_by :
    (barred safe gated granted : Bool) (p q r s t : Reason)
    → (let d : PolicyDecision =
          if barred
          then record { outcome = deny; reason = p }
          else if safe
          then record { outcome = allow; reason = q }
          else if gated
          then record { outcome = needs_approval; reason = r }
          else if granted
          then record { outcome = allow; reason = s }
          else record { outcome = needs_approval; reason = t } in
        d.outcome ≡ allow)
    → (barred ≡ false) × ((safe ≡ true) ⊎ ((gated ≡ false) × (granted ≡ true)))
allowed_by true safe gated granted p q r s t h = cc
allowed_by false true gated granted p q r s t h = (refl, inl refl)
allowed_by false false true granted p q r s t h = cc
allowed_by false false false true p q r s t h = (refl, inr (refl, refl))
allowed_by false false false false p q r s t h = cc

low_risk : (r : RiskLevel) → leb (rank r) (rank low) ≡ true → is_high r ≡ false
low_risk no_risk h = refl
low_risk low h = refl
low_risk medium h = refl
low_risk high h = cc
low_risk critical h = cc

safe_read_harmless :
    (i : ActionIntent)
    → is_safe_read i ≡ true
    → (i.external_side_effect ≡ false) × (i.irreversible ≡ false) × (is_high i.risk ≡ false)
safe_read_harmless i h =
    let (_, rest) = both (elem i.action safe_read_actions) _ h in
    let (internal, rest') = both (not i.external_side_effect) _ rest in
    let (reversible, low_enough) = both (not i.irreversible) _ rest' in
    (off i.external_side_effect internal, off i.irreversible reversible, low_risk i.risk low_enough)

-- An action is allowed only if it is not forbidden and reversible, its risk is below high, and it
-- has an external effect only under an authority that permits external effects and the action.
pub allow_safe :
    (f : List String) (i : ActionIntent) (a : Authority)
    → (evaluate f i a).outcome ≡ allow
    → (elem i.action f ≡ false)
      × (i.irreversible ≡ false)
      × (is_high i.risk ≡ false)
      × ((i.external_side_effect ≡ false)
          ⊎ ((a.external_side_effects ≡ true) × (permits a i.action i.risk true ≡ true)))
unfolding evaluate
allow_safe f i a h =
    let (free, way) =
      allowed_by (elem i.action f) (is_safe_read i) (i.irreversible || is_high i.risk)
        (permits a i.action i.risk i.external_side_effect) forbidden safe_read high_impact delegated
        exceeds_authority h in
    elim way [
      | inl safe ↦
          let harmless = safe_read_harmless i safe in (free, harmless.1, harmless.2, inl harmless.0)
      | inr (calm, granted) ↦
          let quiet = neither i.irreversible (is_high i.risk) calm in
          (free, quiet.0, quiet.1, permits_effect a i.action i.risk i.external_side_effect granted)
    ]

-- The first authority grants no more than the second: every action that it lists, or that its wildcard
-- lets pass, the second lists or lets pass too, up to at least the same risk, and with external effects
-- if the first permits them.
pub record Grants (a b : Authority) : Type 0 where
  pub actions :
      (x : String)
      → (elem "*" a.allowed_actions || elem x a.allowed_actions) ≡ true
      → (elem "*" b.allowed_actions || elem x b.allowed_actions) ≡ true
  pub risk : rank a.max_risk ≤ rank b.max_risk
  pub effects : a.external_side_effects ≡ true → b.external_side_effects ≡ true

permits_mono :
    (a b : Authority) (x : String) (r : RiskLevel) (e : Bool)
    → Grants a b
    → permits a x r e ≡ true
    → permits b x r e ≡ true
unfolding permits
permits_mono a b x r e g h = ground (arith, g.actions x, g.risk, g.effects)

-- An authority that grants at least as much (each action by its name or by the wildcard, as high a risk,
-- and external effects if the first permits them) never turns an allowed action into one that is not.
pub allow_mono :
    (f : List String) (i : ActionIntent) (a b : Authority)
    → Grants a b
    → (evaluate f i a).outcome ≡ allow
    → (evaluate f i b).outcome ≡ allow
unfolding evaluate
allow_mono f i a b g h = ground (arith, permits_mono a b i.action i.risk i.external_side_effect g)

-- An irreversible or high-risk action never runs on authority alone, whatever the authority is: it is
-- denied if it is forbidden, and waits for a human otherwise.
pub evaluate_gates :
    (f : List String) (i : ActionIntent) (a : Authority)
    → (i.irreversible || is_high i.risk) ≡ true
    → (evaluate f i a).outcome ≡ (if elem i.action f then deny else needs_approval)
unfolding evaluate
evaluate_gates f i a h = ground arith
