-- ===== src/Publisher/Balance.antt =====
-- The stats of a cycle (`run_once` of src/quantum_entanglement/publisher.py) and the messages that it claimed.
use Prim.Native.Nat.{min}
use quantum_entanglement.Prelude.{
  ℕ, ◌≤◌, ◌+◌, ◌-◌, String, List, [], length, leb, map, not, if◌then◌else◌, Result, ok, err, ◌≡◌,
}
use quantum_entanglement.Outbox
use quantum_entanglement.Outbox.{OutboxRow, Outbox}
use quantum_entanglement.Outbox.Lease.{claim_outbox}
use quantum_entanglement.Publisher.{Publisher, StoreCall, int}
use quantum_entanglement.Publisher.Attempt.{Stop, Attempt, store_call}
use quantum_entanglement.Publisher.Batch.{PublishBatchStats, sum}

-- The rows that the claim of a cycle returned, if it was made and returned.
abbrev pub rows_of : Result Stop (Result Outbox.Error (List OutboxRow)) → List OutboxRow
rows_of (ok (ok rows)) = rows
rows_of (ok (err e)) = []
rows_of (err stop) = []

-- How many of the rows have their attempts used up, and how many have not.
abbrev pub spent_rows : Publisher → List OutboxRow → ℕ
spent_rows p rows = sum (map (λ row. int (leb p.max_attempts row.attempt_count)) rows)

abbrev pub other_rows : Publisher → List OutboxRow → ℕ
other_rows p rows = sum (map (λ row. int (not (leb p.max_attempts row.attempt_count))) rows)

-- The stats count each of the rows as published, given back or not confirmed, and each of the last kind by its
-- cause, and as a recorded ambiguity or a failed reconciliation. What the store answered to each rejection and
-- to each failed acknowledgement is counted, and no more dead letters and retries than there are rows for them.
pub record Balances (p : Publisher) (rows : List OutboxRow) (b : PublishBatchStats) : Type 0 where
  pub claimed : b.claimed ≡ length rows
  pub accounted : b.published + (b.publish_failures + b.accepted_unconfirmed) ≡ length rows
  pub unconfirmed : b.ambiguity_persisted + b.reconciliation_failed ≡ b.accepted_unconfirmed
  pub unconfirmed_by : b.timed_out + (b.lease_expired + b.ack_failed) ≡ b.accepted_unconfirmed
  pub given_back :
      b.publish_failures + b.ack_failed
      ≤ b.retried + (b.dead_lettered + (b.lease_conflicts + b.store_errors))
  pub dead_letters : b.dead_lettered ≤ spent_rows p rows
  pub retries : b.retried ≤ other_rows p rows

-- The rows that a cycle claims: as many as the batch and the free callbacks allow.
abbrev pub claimed_by : Publisher → ℕ → StoreCall → String → (ℕ → String) → Outbox → List OutboxRow
claimed_by p running c deadline lease_id db =
    if leb p.max_callback_tasks running
    then []
    else rows_of
        (store_call c
          (claim_outbox p.julianday p.worker_id (min p.batch_size (p.max_callback_tasks - running))
            c.now deadline lease_id db)
          db).0
