-- ===== src/Publisher/Batch.antt =====
-- src/quantum_entanglement/publisher.py: `run_once`, with the attempts of a batch one after the other, and
-- `_record_batch`. The time that a batch took is left out.
use Prim.Native.Nat.{min}
use quantum_entanglement.Prelude.{
  ℕ, ◌+◌, ◌-◌, String, ◌&&◌, List, [], ◌∷◌, map, length, leb, eqb, if◌then◌else◌, Result, ok, err,
  ◌>>=◌,
}
use quantum_entanglement.Outbox
use quantum_entanglement.Outbox.{OutboxRow, Outbox}
use quantum_entanglement.Outbox.Lease.{claim_outbox}
use quantum_entanglement.Publisher.{Publisher, StoreCall, AttemptOutcome}
use quantum_entanglement.Publisher.Attempt.{
  Stop, store_error, cancellation, Attempt, store_call, publish_one,
}

-- `PublishBatchStats`
pub record PublishBatchStats : Type 0 where
  pub claimed : ℕ
  pub published : ℕ
  pub publish_failures : ℕ
  pub timed_out : ℕ
  pub retried : ℕ
  pub dead_lettered : ℕ
  pub lease_conflicts : ℕ
  pub store_errors : ℕ
  pub accepted_unconfirmed : ℕ
  pub ack_failed : ℕ
  pub lease_expired : ℕ
  pub abandoned_callbacks : ℕ
  pub ambiguity_persisted : ℕ
  pub reconciliation_failed : ℕ
  pub lease_budget_rejected : ℕ
  pub admission_rejected : ℕ

-- `PublishBatchStats()`
abbrev pub no_batch : PublishBatchStats
no_batch = record {
  claimed = 0;
  published = 0;
  publish_failures = 0;
  timed_out = 0;
  retried = 0;
  dead_lettered = 0;
  lease_conflicts = 0;
  store_errors = 0;
  accepted_unconfirmed = 0;
  ack_failed = 0;
  lease_expired = 0;
  abandoned_callbacks = 0;
  ambiguity_persisted = 0;
  reconciliation_failed = 0;
  lease_budget_rejected = 0;
  admission_rejected = 0;
}

abbrev pub sum : List ℕ → ℕ
sum [] = 0
sum (n ∷ ns) = n + sum ns

-- The stats of a batch of claimed rows whose attempts all returned.
abbrev pub batch_of : List OutboxRow → List AttemptOutcome → PublishBatchStats
batch_of rows outcomes = record {
  claimed = length rows;
  published = sum (map (λ (o : AttemptOutcome). o.published) outcomes);
  publish_failures = sum (map (λ (o : AttemptOutcome). o.publish_failures) outcomes);
  timed_out = sum (map (λ (o : AttemptOutcome). o.timed_out) outcomes);
  retried = sum (map (λ (o : AttemptOutcome). o.retried) outcomes);
  dead_lettered = sum (map (λ (o : AttemptOutcome). o.dead_lettered) outcomes);
  lease_conflicts = sum (map (λ (o : AttemptOutcome). o.lease_conflicts) outcomes);
  store_errors = sum (map (λ (o : AttemptOutcome). o.store_errors) outcomes);
  accepted_unconfirmed = sum (map (λ (o : AttemptOutcome). o.accepted_unconfirmed) outcomes);
  ack_failed = sum (map (λ (o : AttemptOutcome). o.ack_failed) outcomes);
  lease_expired = sum (map (λ (o : AttemptOutcome). o.lease_expired) outcomes);
  abandoned_callbacks = sum (map (λ (o : AttemptOutcome). o.abandoned_callbacks) outcomes);
  ambiguity_persisted = sum (map (λ (o : AttemptOutcome). o.ambiguity_persisted) outcomes);
  reconciliation_failed = sum (map (λ (o : AttemptOutcome). o.reconciliation_failed) outcomes);
  lease_budget_rejected = sum (map (λ (o : AttemptOutcome). o.lease_budget_rejected) outcomes);
  admission_rejected = 0;
}

-- `asyncio.gather` over the attempts of a batch.
unfoldable pub publish_all :
    Publisher
    → (ℕ → Attempt)
    → ℕ
    → List OutboxRow
    → Outbox
    → Result Stop (List AttemptOutcome) × Outbox
publish_all p attempts n [] db = (ok [], db)
publish_all p attempts n (row ∷ rows) db =
    let first = publish_one p (attempts n) row db in
    let rest = publish_all p attempts (n + 1) rows first.1 in
    (first.0 >>= λ o. rest.0 >>= λ os. ok (o ∷ os), rest.1)

-- `run_once` with the answer of the claim.
unfoldable pub publish_claimed :
    Publisher
    → (ℕ → Attempt)
    → Result Stop (Result Outbox.Error (List OutboxRow)) × Outbox
    → Result Stop PublishBatchStats × Outbox
publish_claimed p attempts (err cancellation, db) = (err cancellation, db)
publish_claimed p attempts (err store_error, db) = (ok (record no_batch { store_errors = 1 }), db)
publish_claimed p attempts (ok (err e), db) = (ok (record no_batch { store_errors = 1 }), db)
publish_claimed p attempts (ok (ok rows), db) =
    let out = publish_all p attempts 0 rows db in
    (out.0 >>= λ outcomes. ok (batch_of rows outcomes), out.1)

-- `run_once`, while `running` callbacks have not ended.
unfoldable pub run_once :
    Publisher
    → ℕ
    → StoreCall
    → String
    → (ℕ → String)
    → (ℕ → Attempt)
    → Outbox
    → Result Stop PublishBatchStats × Outbox
run_once p running c deadline lease_id attempts db =
    if leb p.max_callback_tasks running
    then (ok (record no_batch { admission_rejected = 1 }), db)
    else publish_claimed p attempts (
        store_call c
          (claim_outbox p.julianday p.worker_id (min p.batch_size (p.max_callback_tasks - running))
            c.now deadline lease_id db)
          db)

-- The counters of the publisher that a batch moves.
pub record Counters : Type 0 where
  pub cycles : ℕ
  pub empty_polls : ℕ
  pub totals : PublishBatchStats

abbrev pub add_stats : PublishBatchStats → PublishBatchStats → PublishBatchStats
add_stats t b = record {
  claimed = t.claimed + b.claimed;
  published = t.published + b.published;
  publish_failures = t.publish_failures + b.publish_failures;
  timed_out = t.timed_out + b.timed_out;
  retried = t.retried + b.retried;
  dead_lettered = t.dead_lettered + b.dead_lettered;
  lease_conflicts = t.lease_conflicts + b.lease_conflicts;
  store_errors = t.store_errors + b.store_errors;
  accepted_unconfirmed = t.accepted_unconfirmed + b.accepted_unconfirmed;
  ack_failed = t.ack_failed + b.ack_failed;
  lease_expired = t.lease_expired + b.lease_expired;
  abandoned_callbacks = t.abandoned_callbacks + b.abandoned_callbacks;
  ambiguity_persisted = t.ambiguity_persisted + b.ambiguity_persisted;
  reconciliation_failed = t.reconciliation_failed + b.reconciliation_failed;
  lease_budget_rejected = t.lease_budget_rejected + b.lease_budget_rejected;
  admission_rejected = t.admission_rejected + b.admission_rejected;
}

-- `_record_batch`
unfoldable pub record_batch : PublishBatchStats → Counters → Counters
record_batch b c = record {
  cycles = c.cycles + 1;
  empty_polls =
      if eqb b.claimed 0 && eqb b.store_errors 0 then c.empty_polls + 1 else c.empty_polls;
  totals = add_stats c.totals b;
}
