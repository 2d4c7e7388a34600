-- ===== src/Tests/Protocol.antt =====
-- The theorems on envelopes and their routing (src/quantum_entanglement/protocol.py, chat.py) at concrete values.
use quantum_entanglement.Prelude.{
  true, false, [], ◌∷◌, ◌==◌, all, none, some, ok, err, Gives, ◌≡◌, ◌⊎◌, refl,
}
use quantum_entanglement.Prelude.Int.{pos}
use quantum_entanglement.Prelude.Text.{has}
use quantum_entanglement.Protocol.{high, ActionIntent}
use quantum_entanglement.Protocol.Value.{
  null, text, no_members, member, Python, key_error, type_error,
}
use quantum_entanglement.Protocol.Codec.{human, agent, ActorRef, intent_from_dict, intent_to_dict}
use quantum_entanglement.Protocol.Envelope.{
  CoordinationEnvelope, handoff, current_schema, envelope_ok, envelope_from_dict, envelope_to_dict,
}
use quantum_entanglement.Protocol.RoundTrip.{IsValid, envelope_roundtrip, intent_roundtrip}
use quantum_entanglement.Protocol.Checks.{IsWellFormed, envelope_from_dict-IsWellFormed}
use quantum_entanglement.Chat.{
  InboundChatMessage, RoutedChatMessage, MentionRouter, message_ok, route_message,
}
use quantum_entanglement.Chat.Laws.{Routed, route_message_lem}

abbrev python : Python
python = record {
  repr = λ v. "None";
  parse_int = λ t. none;
  truncate = λ t. none;
  is_zero = λ t. false;
  characters = λ t. [];
  dict_of = λ v. err type_error;
  blank = λ t. t == "";
}

abbrev writer : ActorRef
writer = record { actor_id = "a1"; name = "Writer"; kind = agent; role = null }

abbrev lead : ActorRef
lead = record { actor_id = "h1"; name = "Lead"; kind = human; role = text "owner" }

abbrev envelope : CoordinationEnvelope
envelope = record {
  schema_version = current_schema;
  message_id = "msg_1";
  session_id = "s1";
  thread_id = "t1";
  sender = lead;
  recipients = writer ∷ [];
  kind = handoff;
  payload = member "goal" (text "draft") no_members;
  timestamp = "2026-01-01T00:00:00Z";
  correlation_id = "msg_1";
  causation_id = null;
  idempotency_key = "k1";
  traceparent = null;
  reply_to = null;
  ttl_seconds = some (pos 60);
  priority = pos 50;
  authority = record {
    allowed_actions = "read" ∷ [];
    data_scopes = [];
    max_risk = high;
    external_side_effects = false;
  };
}

envelope-IsValid : IsValid python envelope
unfolding envelope_ok
envelope-IsValid = record { checked = refl; sender = refl; recipients = (refl, tt) }

envelope_roundtrip_example : envelope_from_dict python (envelope_to_dict envelope) ≡ ok envelope
envelope_roundtrip_example = envelope_roundtrip python envelope envelope-IsValid

envelope_from_dict-IsWellFormed_example :
    Gives (IsWellFormed python) (envelope_from_dict python (envelope_to_dict envelope))
envelope_from_dict-IsWellFormed_example =
    envelope_from_dict-IsWellFormed python (envelope_to_dict envelope)

abbrev intent : ActionIntent
intent = record {
  action = "publish";
  target = "site";
  risk = high;
  external_side_effect = true;
  irreversible = false;
  data_classes = "public" ∷ [];
}

intent_roundtrip_example : intent_from_dict python (intent_to_dict intent) ≡ ok intent
intent_roundtrip_example = intent_roundtrip python intent

abbrev router : MentionRouter
router = record { roster = ("a1", writer) ∷ ("h1", lead) ∷ []; planner = writer }

abbrev inbound : InboundChatMessage
inbound = record {
  provider = "slack";
  external_message_id = "1";
  session_id = "s1";
  thread_id = "t1";
  sender = lead;
  content = "@Writer please draft";
  mentioned_actor_ids = "a1" ∷ "h1" ∷ [];
}

inbound_ok : message_ok python inbound ≡ true
unfolding message_ok
inbound_ok = refl

route_message_lem_example :
    ((all (λ k. has k router.roster) inbound.mentioned_actor_ids ≡ true)
      × (out : RoutedChatMessage) × (route_message python "msg_2" "now" router inbound ≡ ok out)
      × Routed router inbound out)
    ⊎ ((all (λ k. has k router.roster) inbound.mentioned_actor_ids ≡ false)
        × (route_message python "msg_2" "now" router inbound ≡ err key_error))
route_message_lem_example =
    route_message_lem python "msg_2" "now" refl router inbound refl inbound_ok
