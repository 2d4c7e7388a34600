-- ===== src/Attempts/Recover/Laws.antt =====
-- The effect of `recover_expired` (src/quantum_entanglement/attempts.py) on the job rows.
use quantum_entanglement.Prelude.{
  ℕ, String, Bool, true, false, ◌&&◌, List, [], ◌∷◌, Option, none, some, eqb, leb, ok, guard,
  or_raise, ◌≡◌, refl, arith,
}
use quantum_entanglement.Prelude.Table.{update_where, count_where}
use quantum_entanglement.Attempts.Rows.{
  value_error, integrity, runtime, InvocationJob, InvocationAttempt, Store, row_to_job, is_running,
  is_some,
}
use quantum_entanglement.Attempts.Lease.{load_running_attempt, owner_agrees}
use quantum_entanglement.Attempts.Recover.{
  RecoverySummary, is_expiring_job, is_expiring_attempt, expire_job, recover_row, recover_rows,
  due_rows, recover_in_transaction, recover_expired,
}
use quantum_entanglement.Attempts.Life.{
  Life, hold, Nexts, Nexts-update, Refines, Refines-transact, Refines-bind, Refines-then,
  Refines-same,
}

expire-Life :
    (x : InvocationJob) (now : ℕ) (exhausted : Bool)
    → is_running x.status ≡ true
    → Life x (expire_job now exhausted x)
expire-Life x now true r = hold (ground arith) r refl refl (λ e. ground arith)
expire-Life x now false r = hold (ground arith) r refl refl (λ e. ground arith)

write_expired :
    (job : InvocationJob) (now : ℕ) (exhausted : Bool) (db : Store) (s : RecoverySummary)
    (attempts : List InvocationAttempt)
    → Refines db (
        ok (
          s,
          record {
            jobs = update_where (is_expiring_job job) (expire_job now exhausted) db.jobs;
            attempts = attempts;
          },
        ))
write_expired job now exhausted db s attempts a db' e =
    let written =
      Nexts-update (is_expiring_job job) (expire_job now exhausted) db.jobs
        (λ x h. expire-Life x now exhausted (ground arith)) in
    let jobs : update_where (is_expiring_job job) (expire_job now exhausted) db.jobs ≡ db'.jobs =
      ground arith in
    rw jobs at written

recover_row-Refines :
    (now : ℕ) (row : InvocationJob) (db : Store) → Refines db (recover_row now row db)
unfolding recover_row
recover_row-Refines now row db = Refines-bind db (row_to_job row) _ λ job _.
    Refines-bind db (or_raise job.lease_owner integrity) _ λ owner _.
      Refines-bind db (or_raise job.lease_token_digest integrity) _ λ token _.
        Refines-bind db (guard (is_some job.heartbeat_at && is_some job.lease_expires_at) integrity)
          _
          λ _ _.
            Refines-bind db
              (load_running_attempt job.invocation_id job.attempts_started job.lease_epoch none db)
              _
              λ attempt _.
                Refines-bind db (guard (owner_agrees attempt job owner token) integrity) _ λ _ _.
                  Refines-bind db
                    (guard (eqb (count_where (is_expiring_attempt job) db.attempts) 1) runtime) _
                    λ _ _.
                      Refines-bind db
                        (guard (eqb (count_where (is_expiring_job job) db.jobs) 1) runtime) _
                        λ _ _.
                          write_expired job now (leb job.max_attempts job.attempts_started) db _ _

recover_rows-Refines :
    (now : ℕ) (rows : List InvocationJob) (db : Store) → Refines db (recover_rows now rows db)
unfolding recover_rows
recover_rows-Refines now [] db = Refines-same db _
recover_rows-Refines now (row ∷ rows) db =
    Refines-then db (recover_row now row db) _ (recover_row-Refines now row db) λ first db₁ _.
      Refines-then db₁ (recover_rows now rows db₁) _ (recover_rows-Refines now rows db₁)
        λ rest db₂ _. Refines-same db₂ _

pub recover-Refines :
    (now : ℕ) (k : Option String) (limit : Option ℕ) (db : Store)
    → Refines db (recover_in_transaction now k limit db)
unfolding recover_in_transaction
recover-Refines now k limit db = recover_rows-Refines now (due_rows now k limit db) db

pub recover-Nexts :
    (limit now : ℕ) (db : Store) → Nexts db.jobs (recover_expired limit now db).1.jobs
unfolding recover_expired
recover-Nexts limit now db = Refines-transact db _ (
    Refines-bind db (guard (leb 1 limit && leb limit 1000) value_error) _
      λ _ _. recover-Refines now none (some limit) db)
