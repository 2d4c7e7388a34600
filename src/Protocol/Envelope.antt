-- ===== src/Protocol/Envelope.antt =====
-- src/quantum_entanglement/protocol.py: `CoordinationEnvelope` with its checks, `create`, and its dictionary form.
use quantum_entanglement.Prelude.{
  suc, String, Bool, true, false, ◌&&◌, not, List, [], ◌∷◌, map, ◌==◌, Option, none, some,
  if◌then◌else◌, leb, Result, ok, err, guard, ◌>>=◌,
}
use quantum_entanglement.Prelude.Int.{ℤ, pos, negsuc}
use quantum_entanglement.Protocol.{low, Authority}
use quantum_entanglement.Protocol.Value.{
  Value, null, int, text, object, Members, no_members, Error, value_error, Python, dict, array_of,
  getitem, get_or, str, to_int, truth, iterate, collect, to_members,
}
use quantum_entanglement.Protocol.Codec.{
  ActorRef, actor_from_dict, actor_to_dict, authority_from_dict, authority_to_dict,
}

pub data EnvelopeKind : Type 0 where
  chat task_assign task_progress task_result handoff : EnvelopeKind
  approval_request approval_decision control error : EnvelopeKind

-- `kind.value` and `EnvelopeKind(text)`
abbrev pub envelope_kind_value : EnvelopeKind → String
envelope_kind_value chat = "chat"
envelope_kind_value task_assign = "task.assign"
envelope_kind_value task_progress = "task.progress"
envelope_kind_value task_result = "task.result"
envelope_kind_value handoff = "handoff"
envelope_kind_value approval_request = "approval.request"
envelope_kind_value approval_decision = "approval.decision"
envelope_kind_value control = "control"
envelope_kind_value error = "error"

abbrev pub envelope_kind : String → Result Error EnvelopeKind
envelope_kind t =
    if t == "chat"
    then ok chat
    else if t == "task.assign"
    then ok task_assign
    else if t == "task.progress"
    then ok task_progress
    else if t == "task.result"
    then ok task_result
    else if t == "handoff"
    then ok handoff
    else if t == "approval.request"
    then ok approval_request
    else if t == "approval.decision"
    then ok approval_decision
    else if t == "control"
    then ok control
    else if t == "error"
    then ok error
    else err value_error

-- The fields that `from_dict` takes over without a conversion can hold any value.
pub record CoordinationEnvelope : Type 0 where
  pub schema_version : String
  pub message_id : String
  pub session_id : String
  pub thread_id : String
  pub sender : ActorRef
  pub recipients : List ActorRef
  pub kind : EnvelopeKind
  pub payload : Members
  pub timestamp : String
  pub correlation_id : String
  pub causation_id : Value
  pub idempotency_key : String
  pub traceparent : Value
  pub reply_to : Value
  pub ttl_seconds : Option ℤ
  pub priority : ℤ
  pub authority : Authority

abbrev pub current_schema : String
current_schema = "qe.agent-envelope/0.1"

-- `0 <= priority <= 100`
abbrev pub in_range : ℤ → Bool
in_range (pos n) = leb n 100
in_range (negsuc n) = false

-- `ttl_seconds is None or ttl_seconds > 0`
abbrev pub ttl_ok : Option ℤ → Bool
ttl_ok none = true
ttl_ok (some (pos (suc n))) = true
ttl_ok (some _) = false

abbrev pub seconds : Option ℤ → Value
seconds none = null
seconds (some n) = int n

module _ (py : Python) where
  -- The tests of `CoordinationEnvelope.__post_init__`
  unfoldable pub envelope_ok : CoordinationEnvelope → Bool
  envelope_ok e =
      e.schema_version == current_schema
      && (not (py.blank e.message_id)
          && (not (py.blank e.session_id)
              && (not (py.blank e.thread_id)
                  && (not (py.blank e.idempotency_key)
                      && (in_range e.priority && ttl_ok e.ttl_seconds)))))

  -- `CoordinationEnvelope.__post_init__`
  unfoldable pub check_envelope : CoordinationEnvelope → Result Error CoordinationEnvelope
  check_envelope e = guard (envelope_ok e) value_error >>= λ _. ok e

  -- `int(value["ttlSeconds"]) if value.get("ttlSeconds") else None`
  unfoldable pub optional_int : Value → Result Error (Option ℤ)
  optional_int v = if truth py v then (to_int py v >>= λ n. ok (some n)) else ok none

  -- `CoordinationEnvelope.from_dict`
  unfoldable pub envelope_from_dict : Value → Result Error CoordinationEnvelope
  envelope_from_dict v = getitem "schemaVersion" v >>= λ schema_version.
      getitem "messageId" v >>= λ message_id. getitem "sessionId" v >>= λ session_id.
      getitem "threadId" v >>= λ thread_id. getitem "sender" v >>= λ sender_dict.
      actor_from_dict py sender_dict >>= λ sender.
      get_or "recipients" (array_of []) v >>= λ recipient_dicts.
      iterate py recipient_dicts >>= λ dicts. collect (actor_from_dict py) dicts >>= λ recipients.
      getitem "kind" v >>= λ kind_text. envelope_kind (str py kind_text) >>= λ kind.
      get_or "payload" (object no_members) v >>= λ payload_dict.
      to_members py payload_dict >>= λ payload. getitem "timestamp" v >>= λ timestamp.
      getitem "correlationId" v >>= λ correlation_id.
      get_or "causationId" null v >>= λ causation_id.
      getitem "idempotencyKey" v >>= λ idempotency_key.
      get_or "traceparent" null v >>= λ traceparent. get_or "replyTo" null v >>= λ reply_to.
      get_or "ttlSeconds" null v >>= λ ttl. optional_int ttl >>= λ ttl_seconds.
      get_or "priority" (int (pos 50)) v >>= λ priority_value.
      to_int py priority_value >>= λ priority.
      get_or "authority" (object no_members) v >>= λ authority_dict.
      authority_from_dict py authority_dict >>= λ authority. check_envelope (record {
        schema_version = str py schema_version;
        message_id = str py message_id;
        session_id = str py session_id;
        thread_id = str py thread_id;
        sender = sender;
        recipients = recipients;
        kind = kind;
        payload = payload;
        timestamp = str py timestamp;
        correlation_id = str py correlation_id;
        causation_id = causation_id;
        idempotency_key = str py idempotency_key;
        traceparent = traceparent;
        reply_to = reply_to;
        ttl_seconds = ttl_seconds;
        priority = priority;
        authority = authority;
      })

-- `CoordinationEnvelope.to_dict`
unfoldable pub envelope_to_dict : CoordinationEnvelope → Value
envelope_to_dict e = dict (
    ("schemaVersion", text e.schema_version)
    ∷ ("messageId", text e.message_id)
    ∷ ("sessionId", text e.session_id)
    ∷ ("threadId", text e.thread_id)
    ∷ ("sender", actor_to_dict e.sender)
    ∷ ("recipients", array_of (map actor_to_dict e.recipients))
    ∷ ("kind", text (envelope_kind_value e.kind))
    ∷ ("payload", object e.payload)
    ∷ ("timestamp", text e.timestamp)
    ∷ ("correlationId", text e.correlation_id)
    ∷ ("causationId", e.causation_id)
    ∷ ("idempotencyKey", text e.idempotency_key)
    ∷ ("traceparent", e.traceparent)
    ∷ ("replyTo", e.reply_to)
    ∷ ("ttlSeconds", seconds e.ttl_seconds)
    ∷ ("priority", int e.priority)
    ∷ ("authority", authority_to_dict e.authority)
    ∷ [])

-- `text or default`
abbrev pub text_or : Option String → String → String
text_or none default = default
text_or (some t) default = if t == "" then default else t

-- The envelope that `CoordinationEnvelope.create` builds, with the new id and the time as arguments, and
-- without further keywords.
abbrev pub new_envelope :
    String
    → String
    → String
    → String
    → ActorRef
    → List ActorRef
    → EnvelopeKind
    → Members
    → Option String
    → Value
    → Option String
    → Option Authority
    → CoordinationEnvelope
new_envelope message_id now session_id thread_id sender recipients kind payload correlation_id
      causation_id idempotency_key authority =
    record {
      schema_version = current_schema;
      message_id = message_id;
      session_id = session_id;
      thread_id = thread_id;
      sender = sender;
      recipients = recipients;
      kind = kind;
      payload = payload;
      timestamp = now;
      correlation_id = text_or correlation_id message_id;
      causation_id = causation_id;
      idempotency_key = text_or idempotency_key message_id;
      traceparent = null;
      reply_to = null;
      ttl_seconds = none;
      priority = pos 50;
      authority = elim authority [
        | none ↦ record {
          allowed_actions = [];
          data_scopes = [];
          max_risk = low;
          external_side_effects = false;
        }
        | some a ↦ a
      ];
    }

-- `CoordinationEnvelope.create`
abbrev pub create_envelope :
    Python
    → String
    → String
    → String
    → String
    → ActorRef
    → List ActorRef
    → EnvelopeKind
    → Members
    → Option String
    → Value
    → Option String
    → Option Authority
    → Result Error CoordinationEnvelope
create_envelope py message_id now session_id thread_id sender recipients kind payload correlation_id
      causation_id idempotency_key authority =
    check_envelope py (
      new_envelope message_id now session_id thread_id sender recipients kind payload correlation_id
        causation_id idempotency_key authority)
