-- ===== src/Tests/Attempts.antt =====
-- The theorems on invocation jobs (src/quantum_entanglement/attempts.py) at concrete stores.
use quantum_entanglement.Prelude.{
  ℕ, String, true, false, List, [], ◌∷◌, none, some, ok, ◌≡◌, refl, arith, ◌≢◌, inl,
}
use quantum_entanglement.Attempts.Rows.{InvocationJob, InvocationLease, Store}
use quantum_entanglement.Attempts.Enqueue.{
  InvocationJobSpec, enqueue, enqueue_in_transaction, new_job,
}
use quantum_entanglement.Attempts.Lease.{lease_deadline}
use quantum_entanglement.Attempts.Recover.{recover_in_transaction, recover_rows, due_rows}
use quantum_entanglement.Attempts.Claim.{
  claim_first, claim_in_transaction, select_candidate, ClaimRequest, claim, claim_lease,
}
use quantum_entanglement.Attempts.Lease.{
  require_lease, active_owned_row, validated, load_running_attempt,
}
use quantum_entanglement.Attempts.Recover.{recover_expired}
use quantum_entanglement.Attempts.Claim.{claim_job}
use quantum_entanglement.Attempts.Owner.{
  heartbeat, complete, fail, heartbeat_in_transaction, complete_in_transaction, fail_in_transaction,
  fail_job,
}
use quantum_entanglement.Attempts.Life.{Nexts}
use quantum_entanglement.Attempts.Once.Rows.{Unique}
use quantum_entanglement.Attempts.Once.Laws.{at_most_once, run-Nexts}
use quantum_entanglement.Attempts.Once.Fence.{Refused}
use quantum_entanglement.Attempts.Once.Final.{job_of, fenced, closed_forever}
use quantum_entanglement.Attempts.Enqueue.Laws.{enqueue_retry}
use quantum_entanglement.Attempts.Once.{Call, claimed, beaten, recovered, apply, run}

abbrev spec : String → ℕ → InvocationJobSpec
spec k priority = record {
  session_id = "session";
  plan_id = "plan";
  task_id = k;
  agent_id = "coder";
  idempotency_key = k;
  payload_digest = "sha256";
  invocation_id = k;
  priority = priority;
  max_attempts = 2;
  available_at = none;
}

abbrev hash : String → String
hash token = token

abbrev empty_store : Store
empty_store = record { jobs = []; attempts = [] }

-- Two queued jobs; the second has the higher priority.
abbrev two_jobs : Store
two_jobs = record { jobs = new_job 10 (spec "a" 50) ∷ new_job 11 (spec "b" 70) ∷ []; attempts = [] }

abbrev anyone : ClaimRequest
anyone = record { worker_id = "worker"; invocation_id = none }

abbrev lease_b : InvocationLease
lease_b = claim_lease "attempt-b" "worker" "token-b" 20 120 (new_job 11 (spec "b" 70))

abbrev lease_a : InvocationLease
lease_a = claim_lease "attempt-a" "worker" "token-a" 30 130 (new_job 10 (spec "a" 50))

-- The store after the claim of the second job, and after its completion.
abbrev after_b : Store
after_b = (claim hash anyone 100 20 "attempt-b" "token-b" two_jobs).1

abbrev done_b : Store
done_b = (complete hash lease_b (some "artifact") 40 after_b).1

claims_b : claim hash anyone 100 20 "attempt-b" "token-b" two_jobs ≡ (ok (some lease_b), after_b)
unfolding claim claim_in_transaction claim_first select_candidate recover_in_transaction
    recover_rows due_rows lease_deadline
claims_b = refl

-- The owner's heartbeat moves the deadline to 125, so the job is not recovered at 121.
abbrev calls : List Call
calls = beaten lease_b 100 25 ∷ recovered 10 121 ∷ []

claims_a : claim hash anyone 100 30 "attempt-a" "token-a" (run hash calls after_b) ≡ (
  ok (some lease_a),
  (claim hash anyone 100 30 "attempt-a" "token-a" (run hash calls after_b)).1,
)
unfolding claim claim_in_transaction claim_first select_candidate recover_in_transaction
    recover_rows due_rows lease_deadline run apply heartbeat heartbeat_in_transaction require_lease
    active_owned_row validated load_running_attempt recover_expired
claims_a = refl

two_jobs-Unique : Unique two_jobs.jobs
two_jobs-Unique = (refl, (refl, tt))

at_most_once_example : lease_a.invocation_id ≢ lease_b.invocation_id
at_most_once_example =
    at_most_once hash anyone anyone 100 100 20 30 "attempt-b" "attempt-a" "token-b" "token-a"
      two_jobs after_b _ lease_b lease_a calls two_jobs-Unique claims_b claims_a

run-Nexts_example : Nexts two_jobs.jobs (run hash calls two_jobs).jobs
run-Nexts_example = run-Nexts hash calls two_jobs

completes_b : complete hash lease_b (some "artifact") 40 after_b ≡ (ok true, done_b)
unfolding complete complete_in_transaction require_lease active_owned_row validated
    load_running_attempt claim claim_in_transaction claim_first select_candidate
    recover_in_transaction recover_rows due_rows lease_deadline
completes_b = refl

after_b-Unique : Unique after_b.jobs
unfolding claim claim_in_transaction claim_first select_candidate recover_in_transaction
    recover_rows due_rows lease_deadline
after_b-Unique = (refl, (refl, tt))

fenced_example :
    let after = run hash calls done_b in
    Refused after (heartbeat hash lease_b 100 50 after)
    × Refused after (complete hash lease_b none 50 after)
    × Refused after (fail hash lease_b "late" none 50 after)
fenced_example =
    fenced hash lease_b lease_b (some "artifact") none "" "late" none none 40 50 100 after_b done_b
      calls after_b-Unique (inl completes_b) refl

-- A job that failed with an attempt left waits as `queued`.
abbrev failed_b : Store
failed_b = (fail hash lease_b "broken" (some 60) 40 after_b).1

abbrev row_b : InvocationJob
row_b =
    fail_job "broken" 40 60 false
      (claim_job "worker" "token-b" 20 120 (new_job 11 (spec "b" 70)) (new_job 11 (spec "b" 70)))

fails_b : (Unique failed_b.jobs) × (job_of "b" failed_b ≡ some row_b)
unfolding fail fail_in_transaction require_lease active_owned_row validated load_running_attempt
    claim claim_in_transaction claim_first select_candidate recover_in_transaction recover_rows
    due_rows lease_deadline
fails_b = ((refl, (refl, tt)), refl)

closed_forever_example :
    job_of "b" (run hash (claimed anyone 100 70 "attempt-c" "token-c" ∷ []) failed_b) ≡ some row_b
closed_forever_example =
    closed_forever hash (claimed anyone 100 70 "attempt-c" "token-c" ∷ []) "b" row_b failed_b
      fails_b.0 fails_b.1 (omega arith) refl

enqueues :
    enqueue 10 (spec "a" 50) empty_store
    ≡ (ok (new_job 10 (spec "a" 50)), (enqueue 10 (spec "a" 50) empty_store).1)
unfolding enqueue enqueue_in_transaction
enqueues = refl

enqueue_retry_example :
    enqueue 99 (spec "a" 50) (enqueue 10 (spec "a" 50) empty_store).1
    ≡ (ok (new_job 10 (spec "a" 50)), (enqueue 10 (spec "a" 50) empty_store).1)
enqueue_retry_example =
    enqueue_retry 10 99 (spec "a" 50) empty_store _ (new_job 10 (spec "a" 50)) enqueues
