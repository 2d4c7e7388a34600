-- ===== src/Publisher/Outcome.antt =====
-- What the counters of an attempt (src/quantum_entanglement/publisher.py) tell of it and of the store.
use quantum_entanglement.Prelude.{
  ℕ, ◌+◌, Bool, true, false, none, leb, Result, ok, err, Gives, Gives-ok, Gives-err, ◌≡◌, refl,
  arith, inr, ◌⊎◌,
}
use quantum_entanglement.Outbox.{pending, published, dead_letter, OutboxRow, Outbox, or_else}
use quantum_entanglement.Publisher.{
  Publisher, abandoned, AttemptOutcome, no_outcome, invoke_with_hard_deadline,
  lease_budget_timestamp, valid_ack_timestamp,
}
use quantum_entanglement.Publisher.Attempt.{
  Stop, store_error, cancellation, Attempt, after_reject, with_ambiguity, over_budget,
}
use quantum_entanglement.Publisher.Stored.{stands, is_marked, given_back_as}

-- What stands behind an attempt's counts of timeouts, expired leases, store errors and refused budgets.
pub record Causes (p : Publisher) (a : Attempt) (row : OutboxRow)
    (timed_out lease_expired store_errors over : ℕ) : Type 0 where
  pub timed : timed_out ≡ 1 → invoke_with_hard_deadline p.blank a.response ≡ abandoned
  pub expired : lease_expired ≡ 1 → valid_ack_timestamp p a.ack_clock row ≡ none
  pub raised : store_errors ≡ 1 → (a.acknowledges.raises ≡ true) ⊎ (a.rejects.raises ≡ true)
  pub short : over ≡ 1 → lease_budget_timestamp p a.budget_clock row ≡ none

-- The outcome of an attempt on `row` that left `db`. It is one of three: published, given back, or not known
-- to be confirmed.
pub record Counted (p : Publisher) (a : Attempt) (row : OutboxRow) (db : Outbox)
    (o : AttemptOutcome) : Type 0 where
  pub one_of : o.published + (o.publish_failures + o.accepted_unconfirmed) ≡ 1
  pub unconfirmed : o.ambiguity_persisted + o.reconciliation_failed ≡ o.accepted_unconfirmed
  pub unconfirmed_by : o.timed_out + (o.lease_expired + o.ack_failed) ≡ o.accepted_unconfirmed
  pub given_back :
      o.retried + (o.dead_lettered + (o.lease_conflicts + o.store_errors))
      ≡ o.publish_failures + o.ack_failed
  pub is_sent : o.published ≡ 1 → stands published row.message_id db ≡ true
  pub waits :
      o.retried ≡ 1
      → (stands pending row.message_id db ≡ true) × (leb p.max_attempts row.attempt_count ≡ false)
  pub is_dead :
      o.dead_lettered ≡ 1
      → (stands dead_letter row.message_id db ≡ true)
        × (leb p.max_attempts row.attempt_count ≡ true)
  pub is_recorded :
      o.ambiguity_persisted ≡ 1
      → is_marked row.message_id (p.digest (or_else row.lease_token "")) db ≡ true
  pub causes : Causes p a row o.timed_out o.lease_expired o.store_errors o.lease_budget_rejected

-- What an attempt returned is counted as what it left.
abbrev pub Tells : Publisher → Attempt → OutboxRow → Result Stop AttemptOutcome × Outbox → Type 0
Tells p a row out = Gives (Counted p a row out.1) out.0

-- What is counted before the ambiguity is recorded.
pub record Unsettled (o : AttemptOutcome) : Type 0 where
  pub none_yet : o.published + (o.publish_failures + (o.retried + o.dead_lettered)) ≡ 0
  pub by : o.timed_out + (o.lease_expired + o.ack_failed) ≡ 1
  pub errors : o.lease_conflicts + o.store_errors ≡ o.ack_failed

pub never : {X : Type 0} → ◌≡◌ {A = ℕ} 0 1 → X
never h = absurd (omega (arith, h))

module _ (p : Publisher) (a : Attempt) (row : OutboxRow) where
  pub quiet : Causes p a row 0 0 0 0
  quiet = record { timed = never; expired = never; raised = never; short = never }

  pub by_timeout : invoke_with_hard_deadline p.blank a.response ≡ abandoned → Causes p a row 1 0 0 0
  by_timeout h = record {
    timed = (λ _. h);
    expired = quiet.expired;
    raised = quiet.raised;
    short = quiet.short;
  }

  pub by_expiry : valid_ack_timestamp p a.ack_clock row ≡ none → Causes p a row 0 1 0 0
  by_expiry h = record {
    timed = quiet.timed;
    expired = (λ _. h);
    raised = quiet.raised;
    short = quiet.short;
  }

  pub by_store_error :
      (a.acknowledges.raises ≡ true) ⊎ (a.rejects.raises ≡ true) → Causes p a row 0 0 1 0
  by_store_error h = record {
    timed = quiet.timed;
    expired = quiet.expired;
    raised = (λ _. h);
    short = quiet.short;
  }

  pub with_ambiguity-Tells :
      (o : AttemptOutcome) (out : Result Stop Bool × Outbox)
      → Unsettled o
      → Causes p a row o.timed_out o.lease_expired o.store_errors o.lease_budget_rejected
      → (out.0 ≡ ok true
          → is_marked row.message_id (p.digest (or_else row.lease_token "")) out.1 ≡ true)
      → Tells p a row (with_ambiguity o out)
  with_ambiguity-Tells o (ok true, db) u c marks =
      Gives-ok (Counted p a row db)
        (record o { accepted_unconfirmed = 1; ambiguity_persisted = 1; reconciliation_failed = 0 })
        record {
          one_of = omega (arith, u.none_yet);
          unconfirmed = refl;
          unconfirmed_by = u.by;
          given_back = omega (arith, u.none_yet, u.errors);
          is_sent = (λ h. absurd (omega (arith, h, u.none_yet)));
          waits = (λ h. absurd (omega (arith, h, u.none_yet)));
          is_dead = (λ h. absurd (omega (arith, h, u.none_yet)));
          is_recorded = (λ _. marks refl);
          causes = c;
        }
  with_ambiguity-Tells o (ok false, db) u c marks =
      Gives-ok (Counted p a row db)
        (record o { accepted_unconfirmed = 1; ambiguity_persisted = 0; reconciliation_failed = 1 })
        record {
          one_of = omega (arith, u.none_yet);
          unconfirmed = refl;
          unconfirmed_by = u.by;
          given_back = omega (arith, u.none_yet, u.errors);
          is_sent = (λ h. absurd (omega (arith, h, u.none_yet)));
          waits = (λ h. absurd (omega (arith, h, u.none_yet)));
          is_dead = (λ h. absurd (omega (arith, h, u.none_yet)));
          is_recorded = never;
          causes = c;
        }
  with_ambiguity-Tells o (err stop, db) u c marks = Gives-err (Counted p a row db) stop

  pub after_reject-Tells :
      (dead : Bool) (out : Result Stop Bool × Outbox)
      → leb p.max_attempts row.attempt_count ≡ dead
      → (out.0 ≡ ok true → stands (given_back_as dead) row.message_id out.1 ≡ true)
      → (out.0 ≡ err store_error → a.rejects.raises ≡ true)
      → Tells p a row (after_reject dead out)
  after_reject-Tells dead (err store_error, db) enough stored raised =
      Gives-ok (Counted p a row db) (record no_outcome { publish_failures = 1; store_errors = 1 })
        record {
          one_of = refl;
          unconfirmed = refl;
          unconfirmed_by = refl;
          given_back = refl;
          is_sent = never;
          waits = never;
          is_dead = never;
          is_recorded = never;
          causes = by_store_error (inr (raised refl));
        }
  after_reject-Tells dead (ok false, db) enough stored raised =
      Gives-ok (Counted p a row db)
        (record no_outcome { publish_failures = 1; lease_conflicts = 1 })
        record {
          one_of = refl;
          unconfirmed = refl;
          unconfirmed_by = refl;
          given_back = refl;
          is_sent = never;
          waits = never;
          is_dead = never;
          is_recorded = never;
          causes = quiet;
        }
  after_reject-Tells true (ok true, db) enough stored raised =
      Gives-ok (Counted p a row db)
        (record no_outcome { publish_failures = 1; retried = 0; dead_lettered = 1 })
        record {
          one_of = refl;
          unconfirmed = refl;
          unconfirmed_by = refl;
          given_back = refl;
          is_sent = never;
          waits = never;
          is_dead = (λ _. (stored refl, enough));
          is_recorded = never;
          causes = quiet;
        }
  after_reject-Tells false (ok true, db) enough stored raised =
      Gives-ok (Counted p a row db)
        (record no_outcome { publish_failures = 1; retried = 1; dead_lettered = 0 })
        record {
          one_of = refl;
          unconfirmed = refl;
          unconfirmed_by = refl;
          given_back = refl;
          is_sent = never;
          waits = (λ _. (stored refl, enough));
          is_dead = never;
          is_recorded = never;
          causes = quiet;
        }
  after_reject-Tells dead (err cancellation, db) enough stored raised =
      Gives-err (Counted p a row db) cancellation

  pub over_budget-Tells :
      (out : Result Stop AttemptOutcome × Outbox)
      → lease_budget_timestamp p a.budget_clock row ≡ none
      → Tells p a row out
      → Tells p a row (over_budget out)
  over_budget-Tells (ok o, db) short counted =
      let c = counted o refl in
      Gives-ok (Counted p a row db) (record o { lease_budget_rejected = 1 })
        record {
          one_of = c.one_of;
          unconfirmed = c.unconfirmed;
          unconfirmed_by = c.unconfirmed_by;
          given_back = c.given_back;
          is_sent = c.is_sent;
          waits = c.waits;
          is_dead = c.is_dead;
          is_recorded = c.is_recorded;
          causes = record {
            timed = c.causes.timed;
            expired = c.causes.expired;
            raised = c.causes.raised;
            short = (λ _. short);
          };
        }
  over_budget-Tells (err stop, db) short counted = Gives-err (Counted p a row db) stop
