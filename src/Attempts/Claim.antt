-- ===== src/Attempts/Claim.antt =====
-- src/quantum_entanglement/attempts.py: `claim` and `claim_next`, which start the first attempt of a job.
-- The attempt's id and the lease token are drawn by the caller of these definitions, as the source
-- draws them from `uuid` and `secrets`.
pub mod Laws
use quantum_entanglement.Prelude.{
  ℕ, ◌+◌, String, Bool, true, false, ◌&&◌, ◌||◌, not, List, [], ◌∷◌, ◌++◌, ◌==◌, Option, none, some,
  eqb, ltb, leb, any, if◌then◌else◌, Result, ok, err, guard, or_raise, ◌>>=◌, ◌>>◌, select, find,
  transact,
}
use quantum_entanglement.Prelude.Text.{opt_eq, text_le}
use quantum_entanglement.Prelude.Table.{update_where, count_where, first_by}
use quantum_entanglement.Attempts.Rows.{
  queued, Error, value_error, integrity, clock_regression, runtime, constraint, max_sqlite_integer,
  InvocationStatus, AttemptStatus, InvocationJob, InvocationAttempt, InvocationLease, Store,
  row_to_job, is_queued, if_some, is_some,
}
use quantum_entanglement.Attempts.Lease.{lease_deadline}
use quantum_entanglement.Attempts.Recover.{recover_in_transaction}

-- `_InvocationClaimRequest`
pub record ClaimRequest : Type 0 where
  pub worker_id : String
  pub invocation_id : Option String

-- The candidates: queued, never started, due, and the one job asked for, if one was.
abbrev pub is_candidate : ClaimRequest → ℕ → InvocationJob → Bool
is_candidate r now j =
    is_queued j.status
    && (eqb j.attempts_started 0
        && (leb j.available_at now && if_some r.invocation_id (λ k. j.invocation_id == k)))

-- The second query of the selection asks for an untouched job besides.
abbrev pub is_claimable : ClaimRequest → ℕ → InvocationJob → Bool
is_claimable r now j =
    is_candidate r now j
    && (eqb j.lease_epoch 0 && (not (is_some j.result_ref) && not (is_some j.last_error)))

-- ORDER BY priority DESC, available_at, created_at, invocation_id
abbrev pub claim_before : InvocationJob → InvocationJob → Bool
claim_before a b =
    ltb b.priority a.priority
    || (eqb a.priority b.priority
        && (ltb a.available_at b.available_at
            || (eqb a.available_at b.available_at
                && (ltb a.created_at b.created_at
                    || (eqb a.created_at b.created_at
                        && text_le a.invocation_id b.invocation_id)))))

-- The checks on the row of the first query. Two rows of one snapshot are equal exactly if they have
-- the same primary key, which is how `job != candidate` is read.
abbrev pub check_candidate :
    ClaimRequest → ℕ → Store → InvocationJob → Result Error (Option InvocationJob)
check_candidate r now db row = do
  candidate ← row_to_job row
  guard (not (any (λ a. a.invocation_id == candidate.invocation_id) db.attempts)) integrity
  again ← or_raise (first_by claim_before (select (is_claimable r now) db.jobs)) integrity
  job ← row_to_job again
  guard (job.invocation_id == candidate.invocation_id) integrity
  guard (leb job.created_at now && leb job.updated_at now) clock_regression
  guard (leb (job.attempts_started + 1) job.max_attempts) runtime
  guard (ltb job.lease_epoch max_sqlite_integer) integrity
  ok (some job)

-- `_select_first_claim_candidate_in_transaction`
unfoldable pub select_candidate : ClaimRequest → ℕ → Store → Result Error (Option InvocationJob)
select_candidate r now db = elim (first_by claim_before (select (is_candidate r now) db.jobs)) [
  | none ↦ ok none
  | some row ↦ check_candidate r now db row
]

-- The compare-and-set of `_claim_first_invocation_in_transaction`.
abbrev pub is_untouched : String → Store → InvocationJob → Bool
is_untouched k db j =
    j.invocation_id == k
    && (is_queued j.status
        && (eqb j.attempts_started 0
            && (eqb j.lease_epoch 0
                && (not (is_some j.result_ref)
                    && (not (is_some j.last_error)
                        && not (any (λ a. a.invocation_id == j.invocation_id) db.attempts))))))

abbrev pub claim_job : String → String → ℕ → ℕ → InvocationJob → InvocationJob → InvocationJob
claim_job worker token_digest now deadline job j = record j {
  status = InvocationStatus.running;
  attempts_started = job.attempts_started + 1;
  lease_epoch = job.lease_epoch + 1;
  lease_owner = some worker;
  lease_token_digest = some token_digest;
  lease_expires_at = some deadline;
  heartbeat_at = some now;
  updated_at = now;
  finished_at = none;
}

-- The attempt that the INSERT adds.
abbrev pub claim_attempt : String → String → String → ℕ → ℕ → InvocationJob → InvocationAttempt
claim_attempt attempt_id worker token_digest now deadline job = record {
  attempt_id = attempt_id;
  invocation_id = job.invocation_id;
  attempt_number = job.attempts_started + 1;
  lease_epoch = job.lease_epoch + 1;
  worker_id = worker;
  lease_token_digest = token_digest;
  status = AttemptStatus.running;
  started_at = now;
  heartbeat_at = now;
  lease_expires_at = deadline;
  finished_at = none;
  error = none;
  result_ref = none;
}

abbrev pub claim_lease : String → String → String → ℕ → ℕ → InvocationJob → InvocationLease
claim_lease attempt_id worker token now deadline job = record {
  invocation_id = job.invocation_id;
  session_id = job.session_id;
  plan_id = job.plan_id;
  task_id = job.task_id;
  agent_id = job.agent_id;
  idempotency_key = job.idempotency_key;
  payload_digest = job.payload_digest;
  attempt_id = attempt_id;
  attempt_number = job.attempts_started + 1;
  max_attempts = job.max_attempts;
  lease_epoch = job.lease_epoch + 1;
  worker_id = worker;
  lease_token = token;
  claimed_at = now;
  lease_expires_at = deadline;
}

-- The uniqueness constraints of the two tables that the UPDATE and the INSERT meet.
abbrev pub claim_unique : InvocationAttempt → InvocationJob → Store → Bool
claim_unique a job db =
    not (
      any
        (λ b.
          b.attempt_id == a.attempt_id
          || (b.invocation_id == a.invocation_id
              && (eqb b.attempt_number a.attempt_number || eqb b.lease_epoch a.lease_epoch)))
        db.attempts)
    && not (
        any
          (λ j.
            opt_eq j.lease_token_digest (some a.lease_token_digest)
            && not (j.invocation_id == job.invocation_id))
          db.jobs)

-- The writes of the claim on the selected job.
abbrev pub write_claim :
    String
    → String
    → String
    → String
    → ℕ
    → ℕ
    → InvocationJob
    → Store
    → Result Error (Option InvocationLease × Store)
write_claim worker attempt_id token token_digest now deadline job db =
    guard (eqb (count_where (is_untouched job.invocation_id db) db.jobs) 1) integrity >>= λ _.
    let attempt = claim_attempt attempt_id worker token_digest now deadline job in
    guard (claim_unique attempt job db) constraint >>= λ _. ok (
      some (claim_lease attempt_id worker token now deadline job),
      record {
        jobs =
            update_where (is_untouched job.invocation_id db)
              (claim_job worker token_digest now deadline job) db.jobs;
        attempts = db.attempts ++ attempt ∷ [];
      },
    )

module _ (digest : String → String) where
  -- `_claim_first_invocation_in_transaction`
  unfoldable pub claim_first :
      ClaimRequest → ℕ → ℕ → String → String → Store → Result Error (Option InvocationLease × Store)
  claim_first r now deadline attempt_id token db = guard (ltb now deadline) value_error >>= λ _.
      select_candidate r now db >>= elim [
        | none ↦ ok (none, db)
        | some job ↦ write_claim r.worker_id attempt_id token (digest token) now deadline job db
      ]

  -- A lease for another job than the candidate is refused. The columns that the source compares
  -- besides the id are copied from the row with that id.
  abbrev pub require_same :
      InvocationJob → Option InvocationLease × Store → Result Error (Option InvocationLease × Store)
  require_same candidate (none, db) = err integrity
  require_same candidate (some l, db) =
      if l.invocation_id == candidate.invocation_id then ok (some l, db) else err integrity

  -- `_claim_in_transaction`: recovery first, then the claim of the selected job.
  unfoldable pub claim_in_transaction :
      ClaimRequest → ℕ → ℕ → String → String → Store → Result Error (Option InvocationLease × Store)
  claim_in_transaction r duration now attempt_id token db =
      lease_deadline now duration >>= λ deadline.
      recover_in_transaction now r.invocation_id
        (if is_some r.invocation_id then none else some 1000) db
      >>= λ recovered. select_candidate r now recovered.1 >>= elim [
        | none ↦ ok (none, recovered.1)
        | some candidate ↦
            claim_first (record r { invocation_id = some candidate.invocation_id }) now deadline
              attempt_id token recovered.1
            >>= require_same candidate
      ]

  -- `_claim`, behind `claim` (one job) and `claim_next` (any).
  unfoldable pub claim :
      ClaimRequest → ℕ → ℕ → String → String → Store → Result Error (Option InvocationLease) × Store
  claim r duration now attempt_id token db =
      transact db (claim_in_transaction r duration now attempt_id token db)
