-- ===== src/Attempts/Owner/Laws.antt =====
-- The effect of the owner's calls (src/quantum_entanglement/attempts.py) on the job rows.
use quantum_entanglement.Prelude.{
  ℕ, String, Bool, true, false, List, Option, none, some, eqb, leb, max, ok, guard, or_raise, ◌≡◌,
  refl, arith,
}
use quantum_entanglement.Prelude.Table.{update_where, count_where}
use quantum_entanglement.Attempts.Rows.{
  integrity, runtime, InvocationJob, InvocationAttempt, InvocationLease, Store, is_running,
}
use quantum_entanglement.Attempts.Enqueue.{or_moment}
use quantum_entanglement.Attempts.Lease.{
  lease_deadline, require_lease, is_owned, active_owned_row, validated, is_own_attempt, write_owned,
}
use quantum_entanglement.Attempts.Owner.{
  beat_job, beat_attempt, complete_job, complete_attempt, fail_job, heartbeat_in_transaction,
  complete_in_transaction, fail_in_transaction, heartbeat, complete, fail,
}
use quantum_entanglement.Attempts.Life.{
  Life, hold, Nexts, Nexts-update, Refines, Refines-transact, Refines-bind, Refines-same,
}

beat-Life :
    (x : InvocationJob) (now deadline : ℕ)
    → is_running x.status ≡ true
    → Life x (beat_job now deadline x)
beat-Life x now deadline r = hold (ground arith) r refl refl (λ e. ground arith)

complete-Life :
    (x : InvocationJob) (result_ref : Option String) (now : ℕ)
    → is_running x.status ≡ true
    → Life x (complete_job result_ref now x)
complete-Life x result_ref now r = hold (ground arith) r refl refl (λ e. ground arith)

fail-Life :
    (x : InvocationJob) (error : String) (now retry : ℕ) (exhausted : Bool)
    → is_running x.status ≡ true
    → Life x (fail_job error now retry exhausted x)
fail-Life x error now retry true r = hold (ground arith) r refl refl (λ e. ground arith)
fail-Life x error now retry false r = hold (ground arith) r refl refl (λ e. ground arith)

module _ (digest : String → String) where
  is_owned-running :
      (l : InvocationLease) (now : ℕ) (j : InvocationJob)
      → is_owned digest l now j ≡ true
      → is_running j.status ≡ true
  is_owned-running l now j h = ground arith

  write_owned-Refines :
      (l : InvocationLease) (now : ℕ) (set_job : InvocationJob → InvocationJob)
      (set_attempt : InvocationAttempt → InvocationAttempt) (db : Store)
      → ((x : InvocationJob) → is_running x.status ≡ true → Life x (set_job x))
      → Refines db (write_owned digest l now set_job set_attempt db)
  write_owned-Refines l now set_job set_attempt db lives a db' e =
      let written =
        Nexts-update (is_owned digest l now) set_job db.jobs
          (λ x h. lives x (is_owned-running l now x h)) in
      let jobs : update_where (is_owned digest l now) set_job db.jobs ≡ db'.jobs = ground arith in
      rw jobs at written

  heartbeat-Refines :
      (l : InvocationLease) (duration now : ℕ) (db : Store)
      → Refines db (heartbeat_in_transaction digest l duration now db)
  unfolding heartbeat_in_transaction
  heartbeat-Refines l duration now db =
      Refines-bind db (lease_deadline now duration) _ λ proposed _.
        Refines-bind db (active_owned_row digest l now db) _ (elim [
          | none ↦ λ _. Refines-same db false
          | some job ↦ λ _. Refines-bind db (or_raise job.lease_expires_at integrity) _ λ expiry _.
              Refines-bind db (validated digest l now job db) _ λ attempt _.
                write_owned-Refines l now (beat_job now (max expiry proposed))
                  (beat_attempt now (max expiry proposed)) db
                  (λ x. beat-Life x now (max expiry proposed))
        ])

  complete-Refines :
      (l : InvocationLease) (result_ref : Option String) (now : ℕ) (db : Store)
      → Refines db (complete_in_transaction digest l result_ref now db)
  unfolding complete_in_transaction
  complete-Refines l result_ref now db =
      Refines-bind db (active_owned_row digest l now db) _ (elim [
        | none ↦ λ _. Refines-same db false
        | some job ↦ λ _. Refines-bind db (validated digest l now job db) _ λ attempt _.
            write_owned-Refines l now (complete_job result_ref now)
              (complete_attempt result_ref now) db (λ x. complete-Life x result_ref now)
      ])

  write_fail :
      (l : InvocationLease) (error : String) (retry now : ℕ) (exhausted : Bool) (db : Store)
      (attempts : List InvocationAttempt)
      → Refines db (
          ok (
            true,
            record {
              jobs =
                  update_where (is_owned digest l now) (fail_job error now retry exhausted) db.jobs;
              attempts = attempts;
            },
          ))
  write_fail l error retry now exhausted db attempts a db' e =
      let written =
        Nexts-update (is_owned digest l now) (fail_job error now retry exhausted) db.jobs
          (λ x h. fail-Life x error now retry exhausted (is_owned-running l now x h)) in
      let jobs : update_where (is_owned digest l now) (fail_job error now retry exhausted) db.jobs
          ≡ db'.jobs =
        ground arith in
      rw jobs at written

  fail-Refines :
      (l : InvocationLease) (error : String) (retry_at : Option ℕ) (now : ℕ) (db : Store)
      → Refines db (fail_in_transaction digest l error retry_at now db)
  unfolding fail_in_transaction
  fail-Refines l error retry_at now db =
      Refines-bind db (active_owned_row digest l now db) _ (elim [
        | none ↦ λ _. Refines-same db false
        | some job ↦ λ _. Refines-bind db (validated digest l now job db) _ λ attempt _.
            Refines-bind db (guard (eqb (count_where (is_own_attempt l) db.attempts) 1) runtime) _
              λ _ _.
                Refines-bind db
                  (guard (eqb (count_where (is_owned digest l now) db.jobs) 1) runtime) _
                  λ _ _.
                    write_fail l error (max now (or_moment retry_at now)) now
                      (leb job.max_attempts job.attempts_started) db _
      ])

  -- Each public call of an owner moves the job rows as their life allows, also when it raises.
  pub owner-Nexts :
      (l : InvocationLease) (result_ref : Option String) (error : String) (retry_at : Option ℕ)
      (duration now : ℕ) (db : Store)
      → Nexts db.jobs (heartbeat digest l duration now db).1.jobs
        × Nexts db.jobs (complete digest l result_ref now db).1.jobs
        × Nexts db.jobs (fail digest l error retry_at now db).1.jobs
  unfolding heartbeat complete fail
  owner-Nexts l result_ref error retry_at duration now db = (
    Refines-transact db _
        (Refines-bind db (require_lease l) _ λ _ _. heartbeat-Refines l duration now db),
    Refines-transact db _
        (Refines-bind db (require_lease l) _ λ _ _. complete-Refines l result_ref now db),
    Refines-transact db _
        (Refines-bind db (require_lease l) _ λ _ _. fail-Refines l error retry_at now db),
  )
