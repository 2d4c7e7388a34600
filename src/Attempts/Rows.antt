-- ===== src/Attempts/Rows.antt =====
-- src/quantum_entanglement/attempts.py: the job and attempt rows, and the checks of `_row_to_job` and
-- `_row_to_attempt`. Timestamps are microseconds: the canonical texts of the source have one width,
-- so that their text order is the order of the instants. Columns are typed here, so the checks of
-- column types and of the shape of texts have no counterpart.
use quantum_entanglement.Prelude.{
  ℕ, ◌-◌, ◌^◌, String, Bool, true, false, ◌&&◌, ◌||◌, not, List, Option, none, some, eqb, ltb, leb,
  if◌then◌else◌, Result, ok, err, ◌≡◌, refl,
}

pub data InvocationStatus : Type 0 where
  queued running succeeded failed canceled : InvocationStatus

pub data AttemptStatus : Type 0 where
  running succeeded failed expired canceled : AttemptStatus

pub data Error : Type 0 where
  value_error integrity conflict clock_regression runtime constraint : Error

-- `_MAX_SQLITE_INTEGER`
abbrev pub max_sqlite_integer : ℕ
max_sqlite_integer = 2 ^ 63 - 1

pub record InvocationJob : Type 0 where
  pub invocation_id : String
  pub session_id : String
  pub plan_id : String
  pub task_id : String
  pub agent_id : String
  pub idempotency_key : String
  pub payload_digest : String
  pub priority : ℕ
  pub status : InvocationStatus
  pub max_attempts : ℕ
  pub attempts_started : ℕ
  pub lease_epoch : ℕ
  pub requested_available_at : Option ℕ
  pub available_at : ℕ
  pub created_at : ℕ
  pub updated_at : ℕ
  pub lease_owner : Option String
  pub lease_token_digest : Option String
  pub lease_expires_at : Option ℕ
  pub heartbeat_at : Option ℕ
  pub result_ref : Option String
  pub last_error : Option String
  pub finished_at : Option ℕ

pub record InvocationAttempt : Type 0 where
  pub attempt_id : String
  pub invocation_id : String
  pub attempt_number : ℕ
  pub lease_epoch : ℕ
  pub worker_id : String
  pub lease_token_digest : String
  pub status : AttemptStatus
  pub started_at : ℕ
  pub heartbeat_at : ℕ
  pub lease_expires_at : ℕ
  pub finished_at : Option ℕ
  pub error : Option String
  pub result_ref : Option String

-- The two tables of the store.
pub record Store : Type 0 where
  pub jobs : List InvocationJob
  pub attempts : List InvocationAttempt

-- The worker's proof of ownership.
pub record InvocationLease : Type 0 where
  pub invocation_id : String
  pub session_id : String
  pub plan_id : String
  pub task_id : String
  pub agent_id : String
  pub idempotency_key : String
  pub payload_digest : String
  pub attempt_id : String
  pub attempt_number : ℕ
  pub max_attempts : ℕ
  pub lease_epoch : ℕ
  pub worker_id : String
  pub lease_token : String
  pub claimed_at : ℕ
  pub lease_expires_at : ℕ

abbrev pub is_running : InvocationStatus → Bool
is_running InvocationStatus.running = true
is_running _ = false

abbrev pub is_queued : InvocationStatus → Bool
is_queued queued = true
is_queued _ = false

abbrev pub is_failed : InvocationStatus → Bool
is_failed InvocationStatus.failed = true
is_failed _ = false

abbrev pub is_succeeded : InvocationStatus → Bool
is_succeeded InvocationStatus.succeeded = true
is_succeeded _ = false

abbrev pub is_terminal : InvocationStatus → Bool
is_terminal queued = false
is_terminal InvocationStatus.running = false
is_terminal _ = true

abbrev pub is_active : AttemptStatus → Bool
is_active AttemptStatus.running = true
is_active _ = false

abbrev pub is_some {ℓ} : {A : Type ℓ} → Option A → Bool
is_some none = false
is_some (some a) = true

-- A test on a timestamp that holds if there is none.
abbrev pub if_some {ℓ} : {A : Type ℓ} → Option A → (A → Bool) → Bool
if_some none test = true
if_some (some a) test = test a

-- The counters of `_row_to_job`.
abbrev pub job_counts_ok : InvocationJob → Bool
job_counts_ok j =
    leb 1 j.max_attempts
    && (leb j.max_attempts max_sqlite_integer
        && (leb j.attempts_started j.max_attempts
            && (leb j.lease_epoch max_sqlite_integer
                && (leb j.attempts_started j.lease_epoch
                    && (not (eqb j.attempts_started 0 && not (eqb j.lease_epoch 0))
                        && (not (is_failed j.status && not (eqb j.attempts_started j.max_attempts))
                            && (not (
                                  is_queued j.status
                                  && (ltb 0 j.attempts_started
                                      && leb j.max_attempts j.attempts_started))
                                && leb j.priority 100)))))))

-- The lease columns of `_row_to_job`.
abbrev pub job_lease_ok : InvocationJob → Bool
job_lease_ok j =
    (if is_running j.status
      then is_some j.lease_owner
        && (is_some j.lease_token_digest && (is_some j.lease_expires_at && is_some j.heartbeat_at))
      else not (is_some j.lease_owner)
        && (not (is_some j.lease_token_digest)
            && (not (is_some j.lease_expires_at) && not (is_some j.heartbeat_at))))
    && not (is_running j.status && eqb j.attempts_started 0)

-- The terminal columns of `_row_to_job`.
abbrev pub job_finish_ok : InvocationJob → Bool
job_finish_ok j =
    (if is_terminal j.status then is_some j.finished_at else not (is_some j.finished_at))
    && (not ((is_succeeded j.status || is_failed j.status) && eqb j.attempts_started 0)
        && (not (eqb j.attempts_started 0 && is_some j.last_error)
            && (not (
                  (is_failed j.status || (is_queued j.status && ltb 0 j.attempts_started))
                  && not (is_some j.last_error))
                && not (is_some j.result_ref && not (is_succeeded j.status)))))

-- The order of the timestamps in `_row_to_job`.
abbrev pub job_times_ok : InvocationJob → Bool
job_times_ok j =
    leb j.created_at j.updated_at
    && (if_some j.finished_at (λ t. leb j.created_at t && leb t j.updated_at)
        && (if is_running j.status
            then if_some j.heartbeat_at (λ h.
              leb j.created_at h
              && (leb h j.updated_at
                  && if_some j.lease_expires_at (λ e. ltb h e && ltb j.updated_at e)))
            else true))

abbrev pub job_ok : InvocationJob → Bool
job_ok j = job_counts_ok j && (job_lease_ok j && (job_finish_ok j && job_times_ok j))

-- `_row_to_job`
abbrev pub row_to_job : InvocationJob → Result Error InvocationJob
row_to_job j = if job_ok j then ok j else err integrity

abbrev pub needs_no_error : AttemptStatus → Bool
needs_no_error AttemptStatus.running = true
needs_no_error AttemptStatus.succeeded = true
needs_no_error _ = false

abbrev pub needs_error : AttemptStatus → Bool
needs_error AttemptStatus.failed = true
needs_error expired = true
needs_error _ = false

abbrev pub ended_by_owner : AttemptStatus → Bool
ended_by_owner AttemptStatus.succeeded = true
ended_by_owner AttemptStatus.failed = true
ended_by_owner _ = false

abbrev pub is_expired : AttemptStatus → Bool
is_expired expired = true
is_expired _ = false

abbrev pub is_success : AttemptStatus → Bool
is_success AttemptStatus.succeeded = true
is_success _ = false

-- The checks of `_row_to_attempt`.
abbrev pub attempt_ok : InvocationAttempt → Bool
attempt_ok a =
    leb 1 a.attempt_number
    && (leb a.attempt_number a.lease_epoch
        && ((if is_active a.status then not (is_some a.finished_at) else is_some a.finished_at)
            && (not (needs_no_error a.status && is_some a.error)
                && (not (needs_error a.status && not (is_some a.error))
                    && (leb a.started_at a.heartbeat_at
                        && (ltb a.heartbeat_at a.lease_expires_at
                            && (if_some a.finished_at (λ t.
                                  leb a.started_at t
                                  && (leb a.heartbeat_at t
                                      && (not (ended_by_owner a.status && leb a.lease_expires_at t)
                                          && not
                                              (is_expired a.status && ltb t a.lease_expires_at))))
                                && not (is_some a.result_ref && not (is_success a.status)))))))))

-- `_row_to_attempt`
abbrev pub row_to_attempt : InvocationAttempt → Result Error InvocationAttempt
row_to_attempt a = if attempt_ok a then ok a else err integrity

checked :
    {E : Type 0} (b : Bool) (x y : InvocationJob) (e : E)
    → ◌≡◌ {A = Result E InvocationJob} (if b then ok x else err e) (ok y)
    → (b ≡ true) × (x ≡ y)
checked true x y e h = (refl, cc)
checked false x y e h = cc

-- A row that passes is returned as it is.
pub row_to_job-eq_ok : (x y : InvocationJob) → row_to_job x ≡ ok y → (job_ok x ≡ true) × (x ≡ y)
row_to_job-eq_ok x y h = checked (job_ok x) x y integrity h
