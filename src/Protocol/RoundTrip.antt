-- ===== src/Protocol/RoundTrip.antt =====
-- The dictionary forms (src/quantum_entanglement/protocol.py) read back.
use quantum_entanglement.Prelude.{
  zero, suc, String, true, ◌&&◌, not, List, [], ◌∷◌, map, Option, none, some, ok, guard, Gives,
  Gives-bind, Gives-ok, guard-eq_ok, All, ◌≡◌, refl, ap, arith,
}
use quantum_entanglement.Prelude.Int.{ℤ, pos, negsuc}
use quantum_entanglement.Protocol.{
  RiskLevel, no_risk, low, medium, high, critical, Authority, ActionIntent,
}
use quantum_entanglement.Protocol.Value.{
  Value, null, int, text, object, elements, elements_of, value_error, Python, array_of, getitem,
  get_or, str, to_int, truth, iterate, collect, to_members, no_members,
}
use quantum_entanglement.Protocol.Codec.{
  ActorKind, human, agent, system, tool, actor_kind, actor_kind_value, risk_level, risk_value,
  ActorRef, texts, check_actor, str_tuple, actor_from_dict, actor_to_dict, authority_from_dict,
  authority_to_dict, intent_from_dict, intent_to_dict,
}
use quantum_entanglement.Protocol.Envelope.{
  EnvelopeKind, chat, task_assign, task_progress, task_result, handoff, approval_request,
  approval_decision, control, error, envelope_kind, envelope_kind_value, CoordinationEnvelope,
  seconds, ttl_ok, envelope_ok, check_envelope, optional_int, envelope_from_dict, envelope_to_dict,
}

actor_kind-value : (k : ActorKind) → actor_kind (actor_kind_value k) ≡ ok k
actor_kind-value human = refl
actor_kind-value agent = refl
actor_kind-value system = refl
actor_kind-value tool = refl

risk_level-value : (r : RiskLevel) → risk_level (risk_value r) ≡ ok r
risk_level-value no_risk = refl
risk_level-value low = refl
risk_level-value medium = refl
risk_level-value high = refl
risk_level-value critical = refl

envelope_kind-value : (k : EnvelopeKind) → envelope_kind (envelope_kind_value k) ≡ ok k
envelope_kind-value chat = refl
envelope_kind-value task_assign = refl
envelope_kind-value task_progress = refl
envelope_kind-value task_result = refl
envelope_kind-value handoff = refl
envelope_kind-value approval_request = refl
envelope_kind-value approval_decision = refl
envelope_kind-value control = refl
envelope_kind-value error = refl

elements-of : (vs : List Value) → elements (elements_of vs) ≡ vs
elements-of [] = refl
elements-of (v ∷ vs) = ap (◌∷◌ v) (elements-of vs)

module _ (py : Python) where
  collect-texts : (ts : List String) → collect (λ x. ok (str py x)) (map (λ t. text t) ts) ≡ ok ts
  unfolding collect str
  collect-texts [] = refl
  collect-texts (t ∷ ts) = rw (collect-texts ts) refl

  str_tuple-texts : (ts : List String) → str_tuple py (texts ts) ≡ ok ts
  unfolding str_tuple iterate
  str_tuple-texts ts = rw (elements-of (map (λ t. text t) ts), collect-texts ts) refl

  -- The tests of `ActorRef.__post_init__`.
  abbrev pub IsNamed : ActorRef → Type 0
  IsNamed a = (not (py.blank a.actor_id) && not (py.blank a.name)) ≡ true

  pub actor_roundtrip : (a : ActorRef) → IsNamed a → actor_from_dict py (actor_to_dict a) ≡ ok a
  unfolding actor_from_dict actor_to_dict getitem get_or str check_actor
  actor_roundtrip a named = rw (actor_kind-value a.kind, named) refl

  pub authority_roundtrip : (a : Authority) → authority_from_dict py (authority_to_dict a) ≡ ok a
  unfolding authority_from_dict authority_to_dict getitem get_or str truth
  authority_roundtrip a =
      rw
        (
          str_tuple-texts a.allowed_actions,
          str_tuple-texts a.data_scopes,
          risk_level-value a.max_risk,
        )
        refl

  -- An intent that was written as a dictionary is read back as it was.
  pub intent_roundtrip : (i : ActionIntent) → intent_from_dict py (intent_to_dict i) ≡ ok i
  unfolding intent_from_dict intent_to_dict getitem get_or str truth
  intent_roundtrip i = rw (risk_level-value i.risk, str_tuple-texts i.data_classes) refl

  collect-actors :
      (as' : List ActorRef)
      → All IsNamed as'
      → collect (actor_from_dict py) (map actor_to_dict as') ≡ ok as'
  unfolding collect
  collect-actors [] named = refl
  collect-actors (a ∷ as') named = rw (actor_roundtrip a named.0, collect-actors as' named.1) refl

  optional_int-seconds : (n : Option ℤ) → ttl_ok n ≡ true → optional_int py (seconds n) ≡ ok n
  unfolding optional_int truth to_int
  optional_int-seconds none h = refl
  optional_int-seconds (some (pos zero)) h = cc
  optional_int-seconds (some (pos (suc n))) h = refl
  optional_int-seconds (some (negsuc n)) h = cc

  -- An envelope that could be constructed, from actors that could be.
  pub record IsValid (e : CoordinationEnvelope) : Type 0 where
    pub checked : envelope_ok py e ≡ true
    pub sender : IsNamed e.sender
    pub recipients : All IsNamed e.recipients

  envelope_ok-ttl :
      (e : CoordinationEnvelope) → envelope_ok py e ≡ true → ttl_ok e.ttl_seconds ≡ true
  unfolding envelope_ok
  envelope_ok-ttl e h = ground arith

  check_actor-IsNamed : (a : ActorRef) → Gives IsNamed (check_actor py a)
  unfolding check_actor
  check_actor-IsNamed a =
      Gives-bind IsNamed (guard (not (py.blank a.actor_id) && not (py.blank a.name)) value_error) _
        λ u tested. Gives-ok IsNamed a (guard-eq_ok _ value_error u tested)

  actor_from_dict-IsNamed : (v : Value) → Gives IsNamed (actor_from_dict py v)
  unfolding actor_from_dict
  actor_from_dict-IsNamed v = Gives-bind _ (getitem "actorId" v) _ λ _ _.
      Gives-bind _ (getitem "name" v) _ λ _ _. Gives-bind _ (getitem "kind" v) _ λ kind_text _.
        Gives-bind _ (actor_kind (str py kind_text)) _
          λ _ _. Gives-bind _ (get_or "role" null v) _ λ _ _. check_actor-IsNamed _

  -- A valid envelope that was written as a dictionary is read back as it was.
  pub envelope_roundtrip :
      (e : CoordinationEnvelope) → IsValid e → envelope_from_dict py (envelope_to_dict e) ≡ ok e
  unfolding envelope_from_dict envelope_to_dict getitem get_or str check_envelope iterate to_members
      to_int
  envelope_roundtrip e valid =
      let ttl = envelope_ok-ttl e valid.checked in
      rw
        (
          actor_roundtrip e.sender valid.sender,
          elements-of (map actor_to_dict e.recipients),
          collect-actors e.recipients valid.recipients,
          envelope_kind-value e.kind,
          optional_int-seconds e.ttl_seconds ttl,
          authority_roundtrip e.authority,
          valid.checked,
        )
        refl

  collect-IsNamed :
      (vs : List Value)
      → Gives (λ (as' : List ActorRef). All IsNamed as') (collect (actor_from_dict py) vs)
  unfolding collect
  collect-IsNamed [] = Gives-ok _ [] tt
  collect-IsNamed (v ∷ vs) = Gives-bind _ (actor_from_dict py v) _ λ a read.
      Gives-bind _ (collect (actor_from_dict py) vs) _ λ rest all_read.
        Gives-ok _ (a ∷ rest) (actor_from_dict-IsNamed v a read, collect-IsNamed vs rest all_read)

  check_envelope-IsValid :
      (e : CoordinationEnvelope)
      → IsNamed e.sender
      → All IsNamed e.recipients
      → Gives IsValid (check_envelope py e)
  unfolding check_envelope
  check_envelope-IsValid e sender recipients =
      Gives-bind IsValid (guard (envelope_ok py e) value_error) _ λ u tested.
        Gives-ok IsValid e record {
          checked = guard-eq_ok _ value_error u tested;
          sender = sender;
          recipients = recipients;
        }

  pub envelope_from_dict-IsValid : (v : Value) → Gives IsValid (envelope_from_dict py v)
  unfolding envelope_from_dict
  envelope_from_dict-IsValid v = Gives-bind IsValid (getitem "schemaVersion" v) _ λ _ _.
      Gives-bind IsValid (getitem "messageId" v) _ λ _ _.
        Gives-bind IsValid (getitem "sessionId" v) _ λ _ _.
          Gives-bind IsValid (getitem "threadId" v) _ λ _ _.
            Gives-bind IsValid (getitem "sender" v) _ λ sender_dict _.
              Gives-bind IsValid (actor_from_dict py sender_dict) _ λ sender sent.
                Gives-bind IsValid (get_or "recipients" (array_of []) v) _ λ recipient_dicts _.
                  Gives-bind IsValid (iterate py recipient_dicts) _ λ dicts _.
                    Gives-bind IsValid (collect (actor_from_dict py) dicts) _ λ recipients received.
                      Gives-bind IsValid (getitem "kind" v) _ λ kind_text _.
                        Gives-bind IsValid (envelope_kind (str py kind_text)) _ λ _ _.
                          Gives-bind IsValid (get_or "payload" (object no_members) v) _
                            λ payload_dict _.
                              Gives-bind IsValid (to_members py payload_dict) _ λ _ _.
                                Gives-bind IsValid (getitem "timestamp" v) _ λ _ _.
                                  Gives-bind IsValid (getitem "correlationId" v) _ λ _ _.
                                    Gives-bind IsValid (get_or "causationId" null v) _ λ _ _.
                                      Gives-bind IsValid (getitem "idempotencyKey" v) _ λ _ _.
                                        Gives-bind IsValid (get_or "traceparent" null v) _ λ _ _.
                                          Gives-bind IsValid (get_or "replyTo" null v) _ λ _ _.
                                            Gives-bind IsValid (get_or "ttlSeconds" null v) _
                                              λ ttl _.
                                                Gives-bind IsValid (optional_int py ttl) _ λ _ _.
                                                  Gives-bind IsValid
                                                    (get_or "priority" (int (pos 50)) v) _
                                                    λ priority_value _.
                                                      Gives-bind IsValid (to_int py priority_value)
                                                        _
                                                        λ _ _.
                                                          Gives-bind IsValid
                                                            (get_or "authority" (object no_members)
                                                            v)
                                                            _
                                                            λ authority_dict _.
                                                            Gives-bind IsValid
                                                            (authority_from_dict py authority_dict)
                                                            _
                                                            λ _ _.
                                                            check_envelope-IsValid _
                                                            (actor_from_dict-IsNamed sender_dict
                                                            sender sent)
                                                            (collect-IsNamed dicts recipients
                                                            received)
