-- ===== src/Attempts/Once/Fence.antt =====
-- The owner's calls (src/quantum_entanglement/attempts.py) on a job whose lease ended.
use quantum_entanglement.Prelude.{
  ℕ, max, ◌≤◌, String, Bool, true, false, List, [], ◌∷◌, ◌==◌, Option, none, some, Result, ok, err,
  guard, ◌>>◌, transact, find, Bool-cases, All, eqb, leb, Gives, Gives-bind, Gives-ok, guard-eq_ok,
  ◌≡◌, refl, arith, inl, inr,
}
use quantum_entanglement.Prelude.Table.{update_where, count_where}
use quantum_entanglement.Attempts.Rows.{
  Error, runtime, InvocationJob, InvocationAttempt, InvocationLease, Store,
}
use quantum_entanglement.Attempts.Enqueue.{or_moment}
use quantum_entanglement.Attempts.Lease.{
  lease_deadline, require_lease, is_owned, active_owned_row, validated, is_own_attempt, write_owned,
}
use quantum_entanglement.Attempts.Owner.{
  complete_job, complete_attempt, fail_job, heartbeat_in_transaction, complete_in_transaction,
  fail_in_transaction, heartbeat, complete, fail,
}
use quantum_entanglement.Attempts.Once.Rows.{Unique, Stored, Closed}
use quantum_entanglement.Attempts.Once.Update.{Stored-update_where}

pub require_lease-epoch :
    (l : InvocationLease) (u : Unit {0}) → require_lease l ≡ ok u → 1 ≤ l.lease_epoch
unfolding require_lease
require_lease-epoch l u e = ground arith

fail_job-Closed :
    (error : String) (now retry : ℕ) (exhausted : Bool) (x : InvocationJob)
    → 1 ≤ x.lease_epoch
    → Closed (fail_job error now retry exhausted x)
fail_job-Closed error now retry true x h = (h, refl)
fail_job-Closed error now retry false x h = (h, refl)

fail_job-id :
    (error : String) (now retry : ℕ) (exhausted : Bool) (x : InvocationJob)
    → (fail_job error now retry exhausted x).invocation_id ≡ x.invocation_id
fail_job-id error now retry true x = refl
fail_job-id error now retry false x = refl

-- The call said no and wrote nothing.
abbrev pub Refused : Store → Result Error Bool × Store → Type 0
Refused db (ok b, db') = (b ≡ false) × (db' ≡ db)
Refused db (err e, db') = db' ≡ db

module _ (digest : String → String) where
  -- What a body did to the job of its lease, if it said that it closed it.
  abbrev pub Closes : InvocationLease → Store → Bool × Store → Type 0
  Closes l db (b, db') = b ≡ true → Unique db.jobs → Stored Closed l.invocation_id db'.jobs

  owned-Closed :
      (l : InvocationLease) (now : ℕ) (set_job : InvocationJob → InvocationJob)
      (jobs : List InvocationJob)
      → ((x : InvocationJob) → (set_job x).invocation_id ≡ x.invocation_id)
      → ((x : InvocationJob) → 1 ≤ x.lease_epoch → Closed (set_job x))
      → 1 ≤ l.lease_epoch
      → eqb (count_where (is_owned digest l now) jobs) 1 ≡ true
      → Unique jobs
      → Stored Closed l.invocation_id (update_where (is_owned digest l now) set_job jobs)
  owned-Closed l now set_job jobs same closes epoch counted unique =
      Stored-update_where l.invocation_id (is_owned digest l now) Closed set_job jobs
        (λ x h. ground arith) same (λ x h. closes x (ground arith)) unique (ground (arith, counted))

  write_owned-Closes :
      (l : InvocationLease) (now : ℕ) (set_job : InvocationJob → InvocationJob)
      (set_attempt : InvocationAttempt → InvocationAttempt) (db : Store) (b : Bool)
      → eqb (count_where (is_owned digest l now) db.jobs) 1 ≡ b
      → ((x : InvocationJob) → (set_job x).invocation_id ≡ x.invocation_id)
      → ((x : InvocationJob) → 1 ≤ x.lease_epoch → Closed (set_job x))
      → 1 ≤ l.lease_epoch
      → Gives (Closes l db) (write_owned digest l now set_job set_attempt db)
  write_owned-Closes l now set_job set_attempt db true counted same closes epoch = rw counted (
      Gives-bind (Closes l db) (guard (eqb (count_where (is_own_attempt l) db.attempts) 1) runtime)
        _
        λ _ _.
          Gives-ok (Closes l db) _
            (λ _ unique. owned-Closed l now set_job db.jobs same closes epoch counted unique))
  write_owned-Closes l now set_job set_attempt db false counted same closes epoch =
      rw counted (Gives-ok (Closes l db) _ (λ e _. cc))

  pub complete-Closes :
      (l : InvocationLease) (result_ref : Option String) (now : ℕ) (db : Store)
      → 1 ≤ l.lease_epoch
      → Gives (Closes l db) (complete_in_transaction digest l result_ref now db)
  unfolding complete_in_transaction
  complete-Closes l result_ref now db epoch =
      Gives-bind (Closes l db) (active_owned_row digest l now db) _ (elim [
        | none ↦ λ _. Gives-ok (Closes l db) (false, db) (λ e _. cc)
        | some job ↦ λ _. Gives-bind (Closes l db) (validated digest l now job db) _ λ attempt _.
            write_owned-Closes l now (complete_job result_ref now) (complete_attempt result_ref now)
              db _ refl (λ x. refl) (λ x h. (h, refl)) epoch
      ])

  pub fail-Closes :
      (l : InvocationLease) (error : String) (retry_at : Option ℕ) (now : ℕ) (db : Store)
      → 1 ≤ l.lease_epoch
      → Gives (Closes l db) (fail_in_transaction digest l error retry_at now db)
  unfolding fail_in_transaction
  fail-Closes l error retry_at now db epoch =
      Gives-bind (Closes l db) (active_owned_row digest l now db) _ (elim [
        | none ↦ λ _. Gives-ok (Closes l db) (false, db) (λ e _. cc)
        | some job ↦ λ _. Gives-bind (Closes l db) (validated digest l now job db) _ λ attempt _.
            Gives-bind (Closes l db)
              (guard (eqb (count_where (is_own_attempt l) db.attempts) 1) runtime) _
              λ _ _.
                Gives-bind (Closes l db)
                  (guard (eqb (count_where (is_owned digest l now) db.jobs) 1) runtime) _
                  λ u counted. Gives-ok (Closes l db) _ (λ _ unique.
                    owned-Closed l now
                      (fail_job error now (max now (or_moment retry_at now))
                        (leb job.max_attempts job.attempts_started))
                      db.jobs (fail_job-id error now _ _) (fail_job-Closed error now _ _) epoch
                      (guard-eq_ok _ runtime u counted) unique)
      ])

  none_owned :
      (l : InvocationLease) (now : ℕ) (jobs : List InvocationJob)
      → All (λ (j : InvocationJob). (j.invocation_id == l.invocation_id) ≡ true → Closed j) jobs
      → find (is_owned digest l now) jobs ≡ none
  none_owned l now [] h = refl
  none_owned l now (x ∷ xs) h =
      let rest = none_owned l now xs h.1 in
      elim (Bool-cases (x.invocation_id == l.invocation_id)) [
        | inl named ↦ let closed = (h.0 named).1 in ground arith
        | inr other ↦ ground arith
      ]

  nobody :
      (l : InvocationLease) (now : ℕ) (db : Store)
      → Stored Closed l.invocation_id db.jobs
      → active_owned_row digest l now db ≡ ok none
  unfolding active_owned_row
  nobody l now db s = rw (none_owned l now db.jobs s.1, active_owned_row) refl

  transact-Refused :
      (db : Store) (check : Result Error (Unit {0})) (body : Result Error (Bool × Store))
      → ((out : Bool × Store) → body ≡ ok out → (out.0 ≡ false) × (out.1 ≡ db))
      → Refused db (transact db (check >> body))
  transact-Refused db (err e) body h = refl
  transact-Refused db (ok u) (err e) h = refl
  transact-Refused db (ok u) (ok out) h = h out refl

  -- Each owner's call on a closed job says no, or raises, and writes nothing.
  pub Closed-Refused :
      (l : InvocationLease) (result_ref : Option String) (error : String) (retry_at : Option ℕ)
      (duration now : ℕ) (db : Store)
      → Stored Closed l.invocation_id db.jobs
      → Refused db (heartbeat digest l duration now db)
        × Refused db (complete digest l result_ref now db)
        × Refused db (fail digest l error retry_at now db)
  unfolding heartbeat complete fail heartbeat_in_transaction complete_in_transaction
      fail_in_transaction
  Closed-Refused l result_ref error retry_at duration now db s = (
    transact-Refused db (require_lease l) _ (
        rw (heartbeat_in_transaction, nobody l now db s)
          (Gives-bind _ (lease_deadline now duration) _
            λ _ _. Gives-ok _ (false, db) (refl, refl))),
    transact-Refused db (require_lease l) _
        (rw (complete_in_transaction, nobody l now db s) (Gives-ok _ (false, db) (refl, refl))),
    transact-Refused db (require_lease l) _
        (rw (fail_in_transaction, nobody l now db s) (Gives-ok _ (false, db) (refl, refl))),
  )
