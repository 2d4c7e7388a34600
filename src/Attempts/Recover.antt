-- ===== src/Attempts/Recover.antt =====
-- src/quantum_entanglement/attempts.py: `recover_expired`, which takes leases away that ran out.
pub mod Laws
use quantum_entanglement.Prelude.{
  ℕ, String, Bool, true, false, ◌&&◌, ◌||◌, not, List, [], ◌∷◌, ◌++◌, ◌==◌, Option, none, some, eqb,
  ltb, leb, take, if◌then◌else◌, Result, ok, err, guard, or_raise, ◌>>=◌, ◌>>◌, select, find,
  transact,
}
use quantum_entanglement.Prelude.Text.{opt_eq, text_le}
use quantum_entanglement.Prelude.Table.{update_where, count_where, sort_by}
use quantum_entanglement.Attempts.Rows.{
  queued, expired, Error, value_error, integrity, runtime, InvocationStatus, AttemptStatus,
  InvocationJob, InvocationAttempt, Store, row_to_job, is_running, is_active, if_some, is_some,
}
use quantum_entanglement.Attempts.Lease.{load_running_attempt, owner_agrees}
use quantum_entanglement.Attempts.Owner.{clear_lease}

pub record RecoverySummary : Type 0 where
  pub requeued : List String
  pub exhausted : List String

abbrev pub recovery_reason : String
recovery_reason = "lease expired before terminal acknowledgement"

-- The WHERE clause: running, past its lease, and the one job asked for, if one was.
abbrev pub is_due : ℕ → Option String → InvocationJob → Bool
is_due now invocation_id j =
    is_running j.status
    && ((if is_some j.lease_expires_at then if_some j.lease_expires_at (λ e. leb e now) else false)
        && if_some invocation_id (λ k. j.invocation_id == k))

abbrev pub expiry_or_zero : Option ℕ → ℕ
expiry_or_zero none = 0
expiry_or_zero (some e) = e

-- ORDER BY lease_expires_at, invocation_id
abbrev pub due_before : InvocationJob → InvocationJob → Bool
due_before a b =
    ltb (expiry_or_zero a.lease_expires_at) (expiry_or_zero b.lease_expires_at)
    || (eqb (expiry_or_zero a.lease_expires_at) (expiry_or_zero b.lease_expires_at)
        && text_le a.invocation_id b.invocation_id)

abbrev pub limit_rows : Option ℕ → List InvocationJob → List InvocationJob
limit_rows none rows = rows
limit_rows (some n) rows = take n rows

-- The rows of the query.
unfoldable pub due_rows : ℕ → Option String → Option ℕ → Store → List InvocationJob
due_rows now invocation_id limit db =
    limit_rows limit (sort_by due_before (select (is_due now invocation_id) db.jobs))

abbrev pub expire_attempt : ℕ → InvocationAttempt → InvocationAttempt
expire_attempt now a = record a {
  status = expired;
  finished_at = some now;
  error = some recovery_reason;
}

-- The UPDATE of the job: terminal if no attempt is left, and queued otherwise.
abbrev pub expire_job : ℕ → Bool → InvocationJob → InvocationJob
expire_job now true j = record (clear_lease j) {
  status = InvocationStatus.failed;
  updated_at = now;
  finished_at = some now;
  last_error = some recovery_reason;
}
expire_job now false j = record (clear_lease j) {
  status = queued;
  available_at = now;
  updated_at = now;
  last_error = some recovery_reason;
}

-- The rows that the two UPDATEs hit.
abbrev pub is_expiring_attempt : InvocationJob → InvocationAttempt → Bool
is_expiring_attempt job a =
    a.invocation_id == job.invocation_id
    && (eqb a.attempt_number job.attempts_started
        && (eqb a.lease_epoch job.lease_epoch && is_active a.status))

abbrev pub is_expiring_job : InvocationJob → InvocationJob → Bool
is_expiring_job job j =
    j.invocation_id == job.invocation_id
    && (is_running j.status && eqb j.lease_epoch job.lease_epoch)

-- One round of the loop, on the row that the query returned.
unfoldable pub recover_row : ℕ → InvocationJob → Store → Result Error (RecoverySummary × Store)
recover_row now row db = do
  job ← row_to_job row
  owner ← or_raise job.lease_owner integrity
  token_digest ← or_raise job.lease_token_digest integrity
  guard (is_some job.heartbeat_at && is_some job.lease_expires_at) integrity
  attempt ← load_running_attempt job.invocation_id job.attempts_started job.lease_epoch none db
  guard (owner_agrees attempt job owner token_digest) integrity
  guard (eqb (count_where (is_expiring_attempt job) db.attempts) 1) runtime
  let exhausted = leb job.max_attempts job.attempts_started
  guard (eqb (count_where (is_expiring_job job) db.jobs) 1) runtime
  ok (
    if exhausted
        then record { requeued = []; exhausted = job.invocation_id ∷ [] }
        else record { requeued = job.invocation_id ∷ []; exhausted = [] },
    record {
      jobs = update_where (is_expiring_job job) (expire_job now exhausted) db.jobs;
      attempts = update_where (is_expiring_attempt job) (expire_attempt now) db.attempts;
    },
  )

abbrev pub add_summary : RecoverySummary → RecoverySummary → RecoverySummary
add_summary a b = record {
  requeued = a.requeued ++ b.requeued;
  exhausted = a.exhausted ++ b.exhausted;
}

unfoldable pub recover_rows :
    ℕ → List InvocationJob → Store → Result Error (RecoverySummary × Store)
recover_rows now [] db = ok (record { requeued = []; exhausted = [] }, db)
recover_rows now (row ∷ rows) db = recover_row now row db >>= λ first.
    recover_rows now rows first.1 >>= λ rest. ok (add_summary first.0 rest.0, rest.1)

-- `_recover_expired_in_transaction`
unfoldable pub recover_in_transaction :
    ℕ → Option String → Option ℕ → Store → Result Error (RecoverySummary × Store)
recover_in_transaction now invocation_id limit db =
    recover_rows now (due_rows now invocation_id limit db) db

-- `recover_expired`
unfoldable pub recover_expired : ℕ → ℕ → Store → Result Error RecoverySummary × Store
recover_expired limit now db = transact db (
    guard (leb 1 limit && leb limit 1000) value_error
    >> recover_in_transaction now none (some limit) db)
