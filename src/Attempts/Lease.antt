-- ===== src/Attempts/Lease.antt =====
-- src/quantum_entanglement/attempts.py: the ownership of a lease, as `heartbeat`, `complete` and `fail` check it.
-- `digest` is SHA-256 of the lease token. `now` is the store's clock, sampled in the transaction.
use quantum_entanglement.Prelude.{
  ℕ, ◌+◌, String, Bool, true, false, ◌&&◌, not, List, [], ◌∷◌, ◌==◌, Option, none, some, eqb, ltb,
  leb, if◌then◌else◌, Result, ok, err, guard, ◌>>=◌, ◌>>◌, select, find,
}
use quantum_entanglement.Prelude.Text.{opt_eq}
use quantum_entanglement.Prelude.Table.{update_where, count_where}
use quantum_entanglement.Attempts.Rows.{
  Error, value_error, integrity, clock_regression, runtime, max_sqlite_integer, InvocationJob,
  InvocationAttempt, InvocationLease, Store, row_to_job, row_to_attempt, is_running, is_active,
  if_some, is_some,
}
use quantum_entanglement.Attempts.Enqueue.{opt_moment_eq}

-- The last instant of Python's `datetime`, in microseconds from its first.
abbrev pub max_instant : ℕ
max_instant = 315537897599999999

-- `_lease_deadline`, for a duration that was rounded to microseconds.
unfoldable pub lease_deadline : ℕ → ℕ → Result Error ℕ
lease_deadline now duration = do
  guard (ltb 0 duration) value_error
  guard (leb (now + duration) max_instant) value_error
  ok (now + duration)

-- The numeric tests of `_require_lease`.
unfoldable pub require_lease : InvocationLease → Result Error (Unit {0})
require_lease l = do
  guard (leb 1 l.attempt_number && leb l.attempt_number max_sqlite_integer) value_error
  guard (leb 1 l.max_attempts && leb l.max_attempts max_sqlite_integer) value_error
  guard (leb 1 l.lease_epoch && leb l.lease_epoch max_sqlite_integer) value_error
  guard (ltb l.claimed_at l.lease_expires_at) value_error

-- `_load_running_attempt`, on the rows of its query.
abbrev pub exactly_one : List InvocationAttempt → Result Error InvocationAttempt
exactly_one (a ∷ []) = row_to_attempt a
exactly_one _ = err integrity

-- The query of `_load_running_attempt`.
abbrev pub is_running_attempt : String → ℕ → ℕ → Option String → InvocationAttempt → Bool
is_running_attempt k number epoch attempt_id a =
    a.invocation_id == k
    && (eqb a.attempt_number number
        && (eqb a.lease_epoch epoch
            && (is_active a.status && if_some attempt_id (λ i. a.attempt_id == i))))

unfoldable pub load_running_attempt :
    String → ℕ → ℕ → Option String → Store → Result Error InvocationAttempt
load_running_attempt k number epoch attempt_id db =
    exactly_one (select (is_running_attempt k number epoch attempt_id) db.attempts)

-- `_validate_running_attempt_owner`, against the columns of the job.
abbrev pub owner_agrees : InvocationAttempt → InvocationJob → String → String → Bool
owner_agrees a j worker token_digest =
    a.invocation_id == j.invocation_id
    && (eqb a.attempt_number j.attempts_started
        && (eqb a.lease_epoch j.lease_epoch
            && (a.worker_id == worker
                && (a.lease_token_digest == token_digest
                    && (opt_moment_eq (some a.heartbeat_at) j.heartbeat_at
                        && opt_moment_eq (some a.lease_expires_at) j.lease_expires_at)))))

-- `_validate_lease_binding`
abbrev pub lease_binds : InvocationLease → InvocationJob → InvocationAttempt → Bool
lease_binds l j a =
    l.invocation_id == j.invocation_id
    && (l.session_id == j.session_id
        && (l.plan_id == j.plan_id
            && (l.task_id == j.task_id
                && (l.agent_id == j.agent_id
                    && (l.idempotency_key == j.idempotency_key
                        && (l.payload_digest == j.payload_digest
                            && (l.attempt_id == a.attempt_id
                                && (eqb l.attempt_number j.attempts_started
                                    && (eqb l.attempt_number a.attempt_number
                                        && (eqb l.max_attempts j.max_attempts
                                            && (eqb l.lease_epoch j.lease_epoch
                                                && (eqb l.lease_epoch a.lease_epoch
                                                    && (l.worker_id == a.worker_id
                                                        && eqb l.claimed_at
                                                            a.started_at)))))))))))))

-- The rows of the owner's attempt, for the second UPDATE.
abbrev pub is_own_attempt : InvocationLease → InvocationAttempt → Bool
is_own_attempt l a =
    a.attempt_id == l.attempt_id
    && (a.invocation_id == l.invocation_id
        && (eqb a.lease_epoch l.lease_epoch && is_active a.status))

module _ (digest : String → String) where
  -- The WHERE clause by which an owner finds and rewrites its job.
  abbrev pub is_owned : InvocationLease → ℕ → InvocationJob → Bool
  is_owned l now j =
      j.invocation_id == l.invocation_id
      && (is_running j.status
          && (opt_eq j.lease_owner (some l.worker_id)
              && (opt_eq j.lease_token_digest (some (digest l.lease_token))
                  && (eqb j.lease_epoch l.lease_epoch
                      && (if_some j.lease_expires_at (λ e. ltb now e))))))

  -- `_active_owned_row`
  unfoldable pub active_owned_row :
      InvocationLease → ℕ → Store → Result Error (Option InvocationJob)
  active_owned_row l now db = elim (find (is_owned l now) db.jobs) [
    | none ↦ ok none
    | some row ↦ row_to_job row >>= λ job. ok (some job)
  ]

  -- The checks that `heartbeat`, `complete` and `fail` make on the job that they found.
  unfoldable pub validated :
      InvocationLease → ℕ → InvocationJob → Store → Result Error InvocationAttempt
  validated l now job db = do
    guard (is_some job.heartbeat_at && is_some job.lease_expires_at) integrity
    attempt ←
        load_running_attempt l.invocation_id job.attempts_started l.lease_epoch (some l.attempt_id)
          db
    guard (owner_agrees attempt job l.worker_id (digest l.lease_token)) integrity
    guard (lease_binds l job attempt) integrity
    guard (leb job.updated_at now && (leb attempt.started_at now && leb attempt.heartbeat_at now))
        clock_regression
    ok attempt

  -- The UPDATE of the job, then of the attempt; a job that changed meanwhile loses the race.
  abbrev pub write_owned :
      InvocationLease
      → ℕ
      → (InvocationJob → InvocationJob)
      → (InvocationAttempt → InvocationAttempt)
      → Store
      → Result Error (Bool × Store)
  write_owned l now set_job set_attempt db =
      if not (eqb (count_where (is_owned l now) db.jobs) 1)
      then ok (false, record db { jobs = update_where (is_owned l now) set_job db.jobs })
      else guard (eqb (count_where (is_own_attempt l) db.attempts) 1) runtime >>= λ _. ok (
        true,
        record {
          jobs = update_where (is_owned l now) set_job db.jobs;
          attempts = update_where (is_own_attempt l) set_attempt db.attempts;
        },
      )
