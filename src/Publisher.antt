-- ===== src/Publisher.antt =====
-- src/quantum_entanglement/publisher.py: one attempt of `OutboxPublisher` to publish a leased message. Instants and
-- delays are whole numbers of one unit. What the clocks, the connector, and the calls of the store do in
-- an attempt is an argument: a reading, an answer, and whether a call raises or the caller cancels it.
pub mod Retry
pub mod Attempt
pub mod Stored
pub mod Outcome
pub mod Counts
pub mod Accepted
pub mod Settles
pub mod Batch
pub mod Balance
use quantum_entanglement.Prelude.{
  ℕ, ◌+◌, String, Bool, true, false, ◌&&◌, not, ◌==◌, Option, none, some, if◌then◌else◌, leb, ltb,
  Result, ok, err, List,
}
use quantum_entanglement.Prelude.Text.{elem}
use quantum_entanglement.Outbox.{OutboxRow, Outbox, or_else}

-- `PublishResult` and `PublishReceipt`
pub data PublishResult : Type 0 where
  accepted rejected : PublishResult

pub record PublishReceipt : Type 0 where
  pub result : PublishResult
  pub receipt_id : Option String
  pub reason_code : Option String

-- What the connector does before its deadline; `other_value` is a return that is no receipt.
pub data Response : Type 0 where
  no_answer cancelled_waiting other_value : Response
  failed_with : String → Response
  answered : PublishReceipt → Response

-- The error that is recorded with a message that is given back.
pub data PublishError : Type 0 where
  lease_budget_exhausted invalid_receipt connector_rejected : PublishError
  callback_error : String → PublishError

-- What `_invoke_with_hard_deadline` returns or raises.
pub data Invocation : Type 0 where
  abandoned cancelled delivered : Invocation
  failed : PublishError → Invocation

-- One call of the store: its clock, and whether it raises, or is cancelled after it ran.
pub record StoreCall : Type 0 where
  pub now : String
  pub raises : Bool
  pub cancels : Bool

-- The settings of a publisher, and the functions from outside that it uses.
pub record Publisher : Type 0 where
  pub worker_id : String
  pub batch_size : ℕ
  pub max_callback_tasks : ℕ
  pub publish_timeout : ℕ
  pub max_attempts : ℕ
  pub base_retry_delay : ℕ
  pub max_retry_delay : ℕ
  -- No value where the function raises, or where its result is negative or not finite.
  pub jitter : ℕ → Option ℕ
  pub parse_timestamp : String → Option ℕ
  pub timestamp : ℕ → Option String
  -- `_error_formatter`, with no value where it raises or returns no text.
  pub error_formatter : PublishError → Option String
  pub allowed_error_codes : List String
  pub blank : String → Bool
  pub julianday : String → Option ℕ
  pub digest : String → String

-- `_AttemptOutcome`
pub record AttemptOutcome : Type 0 where
  pub published : ℕ
  pub publish_failures : ℕ
  pub timed_out : ℕ
  pub retried : ℕ
  pub dead_lettered : ℕ
  pub lease_conflicts : ℕ
  pub store_errors : ℕ
  pub accepted_unconfirmed : ℕ
  pub ack_failed : ℕ
  pub lease_expired : ℕ
  pub abandoned_callbacks : ℕ
  pub ambiguity_persisted : ℕ
  pub reconciliation_failed : ℕ
  pub lease_budget_rejected : ℕ

-- `_AttemptOutcome()`
abbrev pub no_outcome : AttemptOutcome
no_outcome = record {
  published = 0;
  publish_failures = 0;
  timed_out = 0;
  retried = 0;
  dead_lettered = 0;
  lease_conflicts = 0;
  store_errors = 0;
  accepted_unconfirmed = 0;
  ack_failed = 0;
  lease_expired = 0;
  abandoned_callbacks = 0;
  ambiguity_persisted = 0;
  reconciliation_failed = 0;
  lease_budget_rejected = 0;
}

-- `int(test)`
abbrev pub int : Bool → ℕ
int true = 1
int false = 0

-- `text is not None and text.strip()`
abbrev pub is_given : (String → Bool) → Option String → Bool
is_given blank none = false
is_given blank (some t) = not (blank t)

abbrev pub is_absent : Option String → Bool
is_absent none = true
is_absent (some t) = false

-- `PublishReceipt.__post_init__`
unfoldable pub receipt_ok : (String → Bool) → PublishReceipt → Bool
receipt_ok blank r = elim r.result [
  | accepted ↦ is_given blank r.receipt_id && is_absent r.reason_code
  | rejected ↦ is_given blank r.reason_code && is_absent r.receipt_id
]

-- `_format_error_safely`
unfoldable pub format_error_safely : Publisher → PublishError → String
format_error_safely p e = elim (p.error_formatter e) [
  | none ↦ "connector_failure"
  | some rendered ↦ if elem rendered p.allowed_error_codes then rendered else "connector_failure"
]

-- `_invoke_with_hard_deadline`
unfoldable pub invoke_with_hard_deadline : (String → Bool) → Response → Invocation
invoke_with_hard_deadline blank no_answer = abandoned
invoke_with_hard_deadline blank cancelled_waiting = cancelled
invoke_with_hard_deadline blank other_value = failed invalid_receipt
invoke_with_hard_deadline blank (failed_with e) = failed (callback_error e)
invoke_with_hard_deadline blank (answered r) =
    if not (receipt_ok blank r)
    then failed invalid_receipt
    else elim r.result [ rejected ↦ failed connector_rejected | accepted ↦ delivered ]

-- `_lease_budget_timestamp`; `now` is no value where the clock raises or gives a time without a zone.
unfoldable pub lease_budget_timestamp : Publisher → Option ℕ → OutboxRow → Option String
lease_budget_timestamp p now row = elim row.lease_expires_at [
  | none ↦ none
  | some text ↦ if text == "" then none else elim now [
    | none ↦ none
    | some instant ↦ elim (p.parse_timestamp text) [
      | none ↦ none
      | some deadline ↦
          if ltb deadline (instant + p.publish_timeout) then none else p.timestamp instant
    ]
  ]
]

-- `_valid_ack_timestamp`
unfoldable pub valid_ack_timestamp : Publisher → Option ℕ → OutboxRow → Option String
valid_ack_timestamp p now row = elim row.lease_expires_at [
  | none ↦ none
  | some text ↦ if text == "" then none else elim now [
    | none ↦ none
    | some instant ↦ elim (p.parse_timestamp text) [
      | none ↦ none
      | some deadline ↦ if leb deadline instant then none else p.timestamp instant
    ]
  ]
]
