-- ===== src/Attempts/Enqueue.antt =====
-- src/quantum_entanglement/attempts.py: `InvocationJobSpec` and `enqueue`.
pub mod Laws
use quantum_entanglement.Prelude.{
  ℕ, String, Bool, true, false, ◌&&◌, ◌||◌, not, List, [], ◌∷◌, ◌++◌, ◌==◌, Option, none, some, eqb,
  leb, if◌then◌else◌, Result, ok, err, guard, or_raise, ◌>>=◌, ◌>>◌, select, find, transact,
}
use quantum_entanglement.Attempts.Rows.{
  queued, Error, value_error, integrity, conflict, runtime, max_sqlite_integer, InvocationJob,
  Store, row_to_job,
}

pub record InvocationJobSpec : Type 0 where
  pub session_id : String
  pub plan_id : String
  pub task_id : String
  pub agent_id : String
  pub idempotency_key : String
  pub payload_digest : String
  pub invocation_id : String
  pub priority : ℕ
  pub max_attempts : ℕ
  pub available_at : Option ℕ

-- The numeric tests of `InvocationJobSpec.__post_init__`.
abbrev pub spec_ok : InvocationJobSpec → Bool
spec_ok s = leb s.priority 100 && (leb 1 s.max_attempts && leb s.max_attempts max_sqlite_integer)

-- The identities under which a job may already be stored.
abbrev pub same_identity : InvocationJobSpec → InvocationJob → Bool
same_identity s j =
    j.invocation_id == s.invocation_id
    || (j.session_id == s.session_id && j.task_id == s.task_id
        || j.session_id == s.session_id && j.idempotency_key == s.idempotency_key)

abbrev pub opt_moment_eq : Option ℕ → Option ℕ → Bool
opt_moment_eq none none = true
opt_moment_eq (some a) (some b) = eqb a b
opt_moment_eq _ _ = false

-- The comparison of `_existing_matches`, after its row check.
abbrev pub same_work : InvocationJobSpec → InvocationJob → Bool
same_work s j =
    j.session_id == s.session_id
    && (j.plan_id == s.plan_id
        && (j.task_id == s.task_id
            && (j.agent_id == s.agent_id
                && (j.idempotency_key == s.idempotency_key
                    && (j.payload_digest == s.payload_digest
                        && (eqb j.priority s.priority
                            && (eqb j.max_attempts s.max_attempts
                                && opt_moment_eq j.requested_available_at s.available_at)))))))

abbrev pub or_moment : Option ℕ → ℕ → ℕ
or_moment none t = t
or_moment (some a) t = a

-- The INSERT of `_enqueue_invocation_job_in_transaction`.
abbrev pub new_job : ℕ → InvocationJobSpec → InvocationJob
new_job now s = record {
  invocation_id = s.invocation_id;
  session_id = s.session_id;
  plan_id = s.plan_id;
  task_id = s.task_id;
  agent_id = s.agent_id;
  idempotency_key = s.idempotency_key;
  payload_digest = s.payload_digest;
  priority = s.priority;
  status = queued;
  max_attempts = s.max_attempts;
  attempts_started = 0;
  lease_epoch = 0;
  requested_available_at = s.available_at;
  available_at = or_moment s.available_at now;
  created_at = now;
  updated_at = now;
  lease_owner = none;
  lease_token_digest = none;
  lease_expires_at = none;
  heartbeat_at = none;
  result_ref = none;
  last_error = none;
  finished_at = none;
}

-- The answer for the rows that hold one of the identities.
abbrev pub reuse :
    InvocationJobSpec → List InvocationJob → Store → Result Error (InvocationJob × Store)
reuse s (j ∷ []) db = do
  existing ← row_to_job j
  guard (same_work s existing) conflict
  ok (existing, db)
reuse s _ db = err conflict

-- The insertion and its read-back.
abbrev pub insert_job : ℕ → InvocationJobSpec → Store → Result Error (InvocationJob × Store)
insert_job now s db =
    let db' = record db { jobs = db.jobs ++ new_job now s ∷ [] } in
    or_raise (find (λ j. j.invocation_id == s.invocation_id) db'.jobs) runtime >>= λ row.
    row_to_job row >>= λ job. ok (job, db')

-- `_enqueue_invocation_job_in_transaction`
unfoldable pub enqueue_in_transaction :
    ℕ → InvocationJobSpec → Store → Result Error (InvocationJob × Store)
enqueue_in_transaction now s db = elim (select (same_identity s) db.jobs) [
  | [] ↦ insert_job now s db
  | j ∷ rest ↦ reuse s (j ∷ rest) db
]

-- `enqueue`, on a specification that could be constructed.
unfoldable pub enqueue : ℕ → InvocationJobSpec → Store → Result Error InvocationJob × Store
enqueue now s db = transact db (guard (spec_ok s) value_error >> enqueue_in_transaction now s db)
