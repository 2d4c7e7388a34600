-- ===== src/Protocol/Checks.antt =====
-- What the constructors of src/quantum_entanglement/protocol.py demand of an envelope that is read.
use quantum_entanglement.Prelude.{
  ℕ, zero, suc, true, false, List, [], ◌∷◌, Option, none, some, Gives, All, ◌<◌, ◌≤◌, ◌≡◌, ◌⊎◌, inl,
  inr, refl, arith,
}
use text.Mathlib.TextEquality.{eq_iff}
use quantum_entanglement.Prelude.Int.{ℤ, pos, negsuc}
use quantum_entanglement.Protocol.Value.{Value, Python}
use quantum_entanglement.Protocol.Codec.{ActorRef}
use quantum_entanglement.Protocol.Envelope.{
  CoordinationEnvelope, current_schema, in_range, ttl_ok, envelope_ok, envelope_from_dict,
}
use quantum_entanglement.Protocol.RoundTrip.{IsNamed, IsValid, envelope_from_dict-IsValid}

-- An actor with an id and a name that are not blank.
pub record IsKnown (py : Python) (a : ActorRef) : Type 0 where
  pub actor_id : py.blank a.actor_id ≡ false
  pub name : py.blank a.name ≡ false

-- An envelope of the one schema, with its ids, a priority from 0 to 100, a positive time to live if it has
-- one, and known actors.
pub record IsWellFormed (py : Python) (e : CoordinationEnvelope) : Type 0 where
  pub schema : e.schema_version ≡ "qe.agent-envelope/0.1"
  pub message : py.blank e.message_id ≡ false
  pub session : py.blank e.session_id ≡ false
  pub thread : py.blank e.thread_id ≡ false
  pub key : py.blank e.idempotency_key ≡ false
  pub priority : (n : ℕ) × (e.priority ≡ pos n) × (n ≤ 100)
  pub ttl : (e.ttl_seconds ≡ none) ⊎ ((n : ℕ) × (e.ttl_seconds ≡ some (pos n)) × (0 < n))
  pub sender : IsKnown py e.sender
  pub recipients : All (IsKnown py) e.recipients

in_range-pos : (z : ℤ) → in_range z ≡ true → (n : ℕ) × (z ≡ pos n) × (n ≤ 100)
in_range-pos (pos n) h = (n, refl, ground arith)
in_range-pos (negsuc n) h = cc

ttl_ok-pos :
    (t : Option ℤ) → ttl_ok t ≡ true → (t ≡ none) ⊎ ((n : ℕ) × (t ≡ some (pos n)) × (0 < n))
ttl_ok-pos none h = inl refl
ttl_ok-pos (some (pos zero)) h = cc
ttl_ok-pos (some (pos (suc n))) h = inr (suc n, refl, ground arith)
ttl_ok-pos (some (negsuc n)) h = cc

module _ (py : Python) where
  IsNamed-IsKnown : (a : ActorRef) → IsNamed py a → IsKnown py a
  IsNamed-IsKnown a named = record { actor_id = ground arith; name = ground arith }

  All-IsKnown : (as' : List ActorRef) → All (IsNamed py) as' → All (IsKnown py) as'
  All-IsKnown [] named = tt
  All-IsKnown (a ∷ as') named = (IsNamed-IsKnown a named.0, All-IsKnown as' named.1)

  IsValid-IsWellFormed : (e : CoordinationEnvelope) → IsValid py e → IsWellFormed py e
  unfolding envelope_ok
  IsValid-IsWellFormed e valid =
      let checked = valid.checked in
      record {
        schema = (eq_iff e.schema_version current_schema).0 (ground arith);
        message = ground arith;
        session = ground arith;
        thread = ground arith;
        key = ground arith;
        priority = in_range-pos e.priority (ground arith);
        ttl = ttl_ok-pos e.ttl_seconds (ground arith);
        sender = IsNamed-IsKnown e.sender valid.sender;
        recipients = All-IsKnown e.recipients valid.recipients;
      }

  -- Whatever value comes in, an envelope that is read from it has the one schema, ids and a key that are not
  -- blank, a priority from 0 to 100, a positive time to live if it has one, and actors whose ids and names
  -- are not blank.
  pub envelope_from_dict-IsWellFormed :
      (v : Value) → Gives (IsWellFormed py) (envelope_from_dict py v)
  envelope_from_dict-IsWellFormed v e read =
      IsValid-IsWellFormed e (envelope_from_dict-IsValid py v e read)
