-- ===== src/Attempts/Owner.antt =====
-- src/quantum_entanglement/attempts.py: what the owner of a lease does, `heartbeat`, `complete`, `fail`.
-- `digest` is SHA-256 of the lease token. `now` is the store's clock, sampled in the transaction.
pub mod Laws
use quantum_entanglement.Prelude.{
  ℕ, ◌+◌, String, Bool, true, false, ◌&&◌, ◌||◌, not, List, [], ◌∷◌, ◌==◌, Option, none, some, eqb,
  ltb, leb, max, if◌then◌else◌, Result, ok, err, guard, or_raise, ◌>>=◌, ◌>>◌, select, find,
  transact,
}
use quantum_entanglement.Prelude.Text.{opt_eq}
use quantum_entanglement.Prelude.Table.{update_where, count_where}
use quantum_entanglement.Attempts.Rows.{
  queued, Error, value_error, integrity, clock_regression, runtime, max_sqlite_integer,
  InvocationStatus, AttemptStatus, InvocationJob, InvocationAttempt, InvocationLease, Store,
  row_to_job, row_to_attempt, is_running, is_active, if_some,
}
use quantum_entanglement.Attempts.Enqueue.{opt_moment_eq, or_moment}
use quantum_entanglement.Attempts.Lease.{
  lease_deadline, require_lease, is_owned, active_owned_row, validated, is_own_attempt, write_owned,
}

abbrev pub beat_job : ℕ → ℕ → InvocationJob → InvocationJob
beat_job now deadline j = record j {
  heartbeat_at = some now;
  lease_expires_at = some deadline;
  updated_at = now;
}

abbrev pub beat_attempt : ℕ → ℕ → InvocationAttempt → InvocationAttempt
beat_attempt now deadline a = record a { heartbeat_at = now; lease_expires_at = deadline }

abbrev pub clear_lease : InvocationJob → InvocationJob
clear_lease j = record j {
  lease_owner = none;
  lease_token_digest = none;
  lease_expires_at = none;
  heartbeat_at = none;
}

abbrev pub complete_job : Option String → ℕ → InvocationJob → InvocationJob
complete_job result_ref now j = record (clear_lease j) {
  status = InvocationStatus.succeeded;
  result_ref = result_ref;
  updated_at = now;
  finished_at = some now;
}

abbrev pub complete_attempt : Option String → ℕ → InvocationAttempt → InvocationAttempt
complete_attempt result_ref now a = record a {
  status = AttemptStatus.succeeded;
  finished_at = some now;
  result_ref = result_ref;
}

-- `_fail_in_transaction` on the job: it is terminal if no attempt is left, and waits otherwise.
abbrev pub fail_job : String → ℕ → ℕ → Bool → InvocationJob → InvocationJob
fail_job error now retry true j = record (clear_lease j) {
  status = InvocationStatus.failed;
  last_error = some error;
  updated_at = now;
  finished_at = some now;
}
fail_job error now retry false j = record (clear_lease j) {
  status = queued;
  available_at = retry;
  last_error = some error;
  updated_at = now;
}

abbrev pub fail_attempt : String → ℕ → InvocationAttempt → InvocationAttempt
fail_attempt error now a = record a {
  status = AttemptStatus.failed;
  finished_at = some now;
  error = some error;
}

module _ (digest : String → String) where
  -- `_heartbeat_in_transaction`
  unfoldable pub heartbeat_in_transaction :
      InvocationLease → ℕ → ℕ → Store → Result Error (Bool × Store)
  heartbeat_in_transaction l duration now db = lease_deadline now duration >>= λ proposed.
      active_owned_row digest l now db >>= elim [
        | none ↦ ok (false, db)
        | some job ↦ or_raise job.lease_expires_at integrity >>= λ expiry.
            validated digest l now job db >>= λ attempt.
            let deadline = max expiry proposed in
            write_owned digest l now (beat_job now deadline) (beat_attempt now deadline) db
      ]

  -- `_complete_in_transaction`
  unfoldable pub complete_in_transaction :
      InvocationLease → Option String → ℕ → Store → Result Error (Bool × Store)
  complete_in_transaction l result_ref now db = active_owned_row digest l now db >>= elim [
    | none ↦ ok (false, db)
    | some job ↦ validated digest l now job db >>= λ attempt.
        write_owned digest l now (complete_job result_ref now) (complete_attempt result_ref now) db
  ]

  -- `_fail_in_transaction`: the attempt first, then the job, and either UPDATE must hit one row.
  unfoldable pub fail_in_transaction :
      InvocationLease → String → Option ℕ → ℕ → Store → Result Error (Bool × Store)
  fail_in_transaction l error retry_at now db =
      let retry = max now (or_moment retry_at now) in
      active_owned_row digest l now db >>= elim [
        | none ↦ ok (false, db)
        | some job ↦ validated digest l now job db >>= λ attempt.
            guard (eqb (count_where (is_own_attempt l) db.attempts) 1) runtime >>= λ _.
            let out_of_attempts = leb job.max_attempts job.attempts_started in
            guard (eqb (count_where (is_owned digest l now) db.jobs) 1) runtime >>= λ _. ok (
              true,
              record {
                jobs =
                    update_where (is_owned digest l now) (fail_job error now retry out_of_attempts)
                      db.jobs;
                attempts = update_where (is_own_attempt l) (fail_attempt error now) db.attempts;
              },
            )
      ]

  -- The public calls: the checks of the lease, then the body in a transaction.
  unfoldable pub heartbeat : InvocationLease → ℕ → ℕ → Store → Result Error Bool × Store
  heartbeat l duration now db =
      transact db (require_lease l >> heartbeat_in_transaction l duration now db)

  unfoldable pub complete : InvocationLease → Option String → ℕ → Store → Result Error Bool × Store
  complete l result_ref now db =
      transact db (require_lease l >> complete_in_transaction l result_ref now db)

  unfoldable pub fail : InvocationLease → String → Option ℕ → ℕ → Store → Result Error Bool × Store
  fail l error retry_at now db =
      transact db (require_lease l >> fail_in_transaction l error retry_at now db)
