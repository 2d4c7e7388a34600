-- ===== src/Publisher/Attempt.antt =====
-- src/quantum_entanglement/publisher.py: `_publish_one`, `_reject_failed` and `_persist_ambiguity`, with the
-- calls of the store that they make.
use quantum_entanglement.Prelude.{
  ℕ, String, Bool, true, false, not, Option, none, some, if◌then◌else◌, leb, Result, ok, err,
}
use quantum_entanglement.Outbox
use quantum_entanglement.Outbox.{OutboxRow, Outbox, or_else}
use quantum_entanglement.Outbox.Lease.{acknowledge_outbox, reject_outbox}
use quantum_entanglement.Outbox.Resolve.{mark_outbox_ambiguous}
use quantum_entanglement.Publisher.{
  Publisher, Response, PublishError, lease_budget_exhausted, Invocation, abandoned, cancelled,
  delivered, failed, StoreCall, AttemptOutcome, no_outcome, int, format_error_safely,
  invoke_with_hard_deadline, lease_budget_timestamp, valid_ack_timestamp,
}
use quantum_entanglement.Publisher.Retry.{retry_timestamp}

-- Why `_store_call` raises: the call raised, or the caller cancelled the attempt.
pub data Stop : Type 0 where
  store_error cancellation : Stop

-- What happens around one attempt.
pub record Attempt : Type 0 where
  pub budget_clock : Option ℕ
  pub response : Response
  pub ack_clock : Option ℕ
  pub retry_clock : Option ℕ
  pub acknowledges : StoreCall
  pub rejects : StoreCall
  pub marks : StoreCall
  -- The publisher's clock for an ambiguity, or the store's if that raises.
  pub marked_at : String

-- `_store_call`: a call that raises leaves the tables as they were, and one that is cancelled has run.
abbrev pub store_call : {A : Type 0} → StoreCall → A × Outbox → Outbox → Result Stop A × Outbox
store_call c out db =
    if c.raises
    then (err (if c.cancels then cancellation else store_error), db)
    else ((if c.cancels then err cancellation else ok out.0), out.1)

-- A store call whose own answer is an error raises it.
abbrev pub raised_or : Result Stop (Result Outbox.Error Bool) → Result Stop Bool
raised_or (ok (ok b)) = ok b
raised_or (ok (err e)) = err store_error
raised_or (err stop) = err stop

-- `except Exception: return False`
abbrev pub or_false : Result Stop Bool → Result Stop Bool
or_false (ok b) = ok b
or_false (err store_error) = ok false
or_false (err cancellation) = err cancellation

-- `_persist_ambiguity`
unfoldable pub persist_ambiguity :
    Publisher → Attempt → OutboxRow → String → Outbox → Result Stop Bool × Outbox
persist_ambiguity p a row reason db =
    let out =
      store_call a.marks
        (mark_outbox_ambiguous p.digest row.message_id (or_else row.lease_token "") reason
          a.marked_at db)
        db in
    (or_false (raised_or out.0), out.1)

-- The caller that was cancelled: `_persist_ambiguity_before_cancel`, whose task is not cancelled, and the
-- cancellation again.
unfoldable pub persist_ambiguity_before_cancel :
    Publisher → Attempt → OutboxRow → Outbox → Result Stop AttemptOutcome × Outbox
persist_ambiguity_before_cancel p a row db =
    let shielded = record a { marks = record a.marks { cancels = false } } in
    (err cancellation, (persist_ambiguity p shielded row "caller_cancelled" db).1)

-- `_reject_failed` with the answer of the rejection.
abbrev pub after_reject : Bool → Result Stop Bool × Outbox → Result Stop AttemptOutcome × Outbox
after_reject dead_letter (err store_error, db) =
    (ok (record no_outcome { publish_failures = 1; store_errors = 1 }), db)
after_reject dead_letter (err cancellation, db) = (err cancellation, db)
after_reject dead_letter (ok false, db) =
    (ok (record no_outcome { publish_failures = 1; lease_conflicts = 1 }), db)
after_reject dead_letter (ok true, db) = (
  ok (record no_outcome {
    publish_failures = 1;
    retried = int (not dead_letter);
    dead_lettered = int dead_letter;
  }),
  db,
)

-- `_reject_failed`
unfoldable pub reject_failed :
    Publisher → Attempt → OutboxRow → PublishError → Outbox → Result Stop AttemptOutcome × Outbox
reject_failed p a row e db =
    let dead_letter = leb p.max_attempts row.attempt_count in
    let retry_at =
      if dead_letter then none else retry_timestamp p a.retry_clock row.attempt_count in
    after_reject dead_letter (
      store_call a.rejects
        (reject_outbox p.julianday row.message_id (or_else row.lease_token "")
          (format_error_safely p e) retry_at dead_letter a.rejects.now db)
        db)

-- An outcome that waits for the ambiguity to be recorded.
abbrev pub with_ambiguity :
    AttemptOutcome → Result Stop Bool × Outbox → Result Stop AttemptOutcome × Outbox
with_ambiguity o (ok persisted, db) = (
  ok (record o {
    accepted_unconfirmed = 1;
    ambiguity_persisted = int persisted;
    reconciliation_failed = int (not persisted);
  }),
  db,
)
with_ambiguity o (err stop, db) = (err stop, db)

-- `_publish_one` with the answer of the acknowledgement.
unfoldable pub after_acknowledge :
    Publisher
    → Attempt
    → OutboxRow
    → Result Stop Bool × Outbox
    → Result Stop AttemptOutcome × Outbox
after_acknowledge p a row (err cancellation, db) = persist_ambiguity_before_cancel p a row db
after_acknowledge p a row (err store_error, db) =
    with_ambiguity (record no_outcome { store_errors = 1; ack_failed = 1 })
      (persist_ambiguity p a row "ack_failed" db)
after_acknowledge p a row (ok true, db) = (ok (record no_outcome { published = 1 }), db)
after_acknowledge p a row (ok false, db) =
    with_ambiguity (record no_outcome { lease_conflicts = 1; ack_failed = 1 })
      (persist_ambiguity p a row "ack_failed" db)

-- `_publish_one` after the connector accepted the message.
unfoldable pub acknowledge_accepted :
    Publisher → Attempt → OutboxRow → Outbox → Result Stop AttemptOutcome × Outbox
acknowledge_accepted p a row db = elim (valid_ack_timestamp p a.ack_clock row) [
  | none ↦
      with_ambiguity (record no_outcome { lease_expired = 1 })
        (persist_ambiguity p a row "lease_expired_after_accept" db)
  | some published_at ↦ after_acknowledge p a row (
      store_call a.acknowledges
        (acknowledge_outbox p.julianday row.message_id (or_else row.lease_token "")
          (some published_at) a.acknowledges.now db)
        db)
]

abbrev pub over_budget : Result Stop AttemptOutcome × Outbox → Result Stop AttemptOutcome × Outbox
over_budget (ok o, db) = (ok (record o { lease_budget_rejected = 1 }), db)
over_budget (err stop, db) = (err stop, db)

-- `_publish_one` with what the connector's run came to.
unfoldable pub after_invocation :
    Publisher → Attempt → OutboxRow → Invocation → Outbox → Result Stop AttemptOutcome × Outbox
after_invocation p a row cancelled db = persist_ambiguity_before_cancel p a row db
after_invocation p a row abandoned db =
    with_ambiguity (record no_outcome { timed_out = 1; abandoned_callbacks = 1 })
      (persist_ambiguity p a row "callback_timeout" db)
after_invocation p a row (failed e) db = reject_failed p a row e db
after_invocation p a row delivered db = acknowledge_accepted p a row db

-- `_publish_one`
unfoldable pub publish_one :
    Publisher → Attempt → OutboxRow → Outbox → Result Stop AttemptOutcome × Outbox
publish_one p a row db = elim (lease_budget_timestamp p a.budget_clock row) [
  | none ↦ over_budget (reject_failed p a row lease_budget_exhausted db)
  | some _ ↦ after_invocation p a row (invoke_with_hard_deadline p.blank a.response) db
]
