-- ===== src/Attempts/Claim/Laws.antt =====
-- The effect of `claim` (src/quantum_entanglement/attempts.py) on the job rows.
use quantum_entanglement.Prelude.{
  All-rows, ℕ, ◌+◌, String, Bool, true, false, ◌&&◌, not, ◌==◌, Option, none, some, eqb, ltb, leb,
  any, if◌then◌else◌, ok, err, guard, or_raise, select, ◌≡◌, refl, arith, All, Option-cases, inl,
  inr, Gives, Gives-bind, Gives-ok, or_raise-eq_ok, ◌∙◌, ap,
}
use quantum_entanglement.Prelude.Table.{
  update_where, count_where, first_by, All-select, first_by-All,
}
use quantum_entanglement.Attempts.Rows.{
  value_error, integrity, clock_regression, runtime, constraint, max_sqlite_integer, InvocationJob,
  InvocationLease, Store, row_to_job, row_to_job-eq_ok, is_some,
}
use quantum_entanglement.Attempts.Lease.{lease_deadline}
use quantum_entanglement.Attempts.Recover.{recover_in_transaction}
use quantum_entanglement.Attempts.Recover.Laws.{recover-Refines}
use quantum_entanglement.Attempts.Claim.{
  ClaimRequest, is_candidate, is_claimable, claim_before, check_candidate, select_candidate,
  is_untouched, claim_job, claim_attempt, claim_unique, write_claim, claim_first, require_same,
  claim_in_transaction, claim,
}
use quantum_entanglement.Attempts.Life.{
  Life, start, Nexts, Nexts-update, Refines, Refines-transact, Refines-bind, Refines-then,
  Refines-same,
}

none_selected :
    (r : ClaimRequest) (now : ℕ) (db : Store) (job : InvocationJob)
    → first_by claim_before (select (is_candidate r now) db.jobs) ≡ none
    → ¬ (select_candidate r now db ≡ ok (some job))
unfolding select_candidate
none_selected r now db job empty e = ground arith

-- The selected job is the answer of the second query.
check_again :
    (r : ClaimRequest) (now : ℕ) (db : Store) (row : InvocationJob)
    → Gives
        (λ found. first_by claim_before (select (is_claimable r now) db.jobs) ≡ found)
        (check_candidate r now db row)
check_again r now db row = Gives-bind _ (row_to_job row) _ λ candidate _.
    Gives-bind _
      (guard (not (any (λ a. a.invocation_id == candidate.invocation_id) db.attempts)) integrity) _
      λ _ _.
        Gives-bind _
          (or_raise (first_by claim_before (select (is_claimable r now) db.jobs)) integrity) _
          λ again found. Gives-bind _ (row_to_job again) _ λ job read.
            Gives-bind _ (guard (job.invocation_id == candidate.invocation_id) integrity) _ λ _ _.
              Gives-bind _
                (guard (leb job.created_at now && leb job.updated_at now) clock_regression) _
                λ _ _.
                  Gives-bind _ (guard (leb (job.attempts_started + 1) job.max_attempts) runtime) _
                    λ _ _.
                      Gives-bind _ (guard (ltb job.lease_epoch max_sqlite_integer) integrity) _
                        λ _ _. Gives-ok _ (some job) (
                          or_raise-eq_ok _ integrity again found
                          ∙ ap some (row_to_job-eq_ok again job read).1)

-- The selected job is a row of the table that passes the tests of the second query.
pub select_candidate-All :
    (P : InvocationJob → Type 0) (r : ClaimRequest) (now : ℕ) (db : Store) (job : InvocationJob)
    → All P db.jobs
    → select_candidate r now db ≡ ok (some job)
    → P job × (is_claimable r now job ≡ true)
unfolding select_candidate
select_candidate-All P r now db job h e =
    elim (Option-cases (first_by claim_before (select (is_candidate r now) db.jobs))) [
      | inl empty ↦ absurd (none_selected r now db job empty e)
      | inr (row, found) ↦
          let checked : check_candidate r now db row ≡ ok (some job) =
            rw (found, select_candidate) at e in
          first_by-All (λ x. P x × (is_claimable r now x ≡ true)) claim_before
            (select (is_claimable r now) db.jobs) job (All-select P (is_claimable r now) db.jobs h)
            (check_again r now db row (some job) checked)
    ]

module _ (worker attempt_id token token_digest : String) (now deadline : ℕ) where
  claim-Life :
      (job x : InvocationJob) (db : Store)
      → job.attempts_started ≡ 0
      → job.lease_epoch ≡ 0
      → is_untouched job.invocation_id db x ≡ true
      → Life x (claim_job worker token_digest now deadline job x)
  claim-Life job x db started epoch h =
      start (ground arith) (ground arith) (ground arith) (ground arith) refl (omega arith)
        (omega arith)

  write_claim-Refines :
      (job : InvocationJob) (db : Store)
      → job.attempts_started ≡ 0
      → job.lease_epoch ≡ 0
      → Refines db (write_claim worker attempt_id token token_digest now deadline job db)
  write_claim-Refines job db started epoch =
      Refines-bind db
        (guard (eqb (count_where (is_untouched job.invocation_id db) db.jobs) 1) integrity) _
        λ _ _.
          Refines-bind db
            (guard
              (claim_unique (claim_attempt attempt_id worker token_digest now deadline job) job db)
              constraint)
            _
            λ _ _ a db' e.
              let written =
                Nexts-update (is_untouched job.invocation_id db)
                  (claim_job worker token_digest now deadline job) db.jobs
                  (λ x h. claim-Life job x db started epoch h) in
              let jobs : update_where (is_untouched job.invocation_id db)
                    (claim_job worker token_digest now deadline job) db.jobs
                  ≡ db'.jobs =
                ground arith in
              rw jobs at written

same_or_err :
    (b : Bool) (l : InvocationLease) (db : Store)
    → Refines db (if b then ok (some l, db) else err integrity)
same_or_err true l db = Refines-same db (some l)
same_or_err false l db = λ a db' e. cc

module _ (digest : String → String) where
  claim_first-Refines :
      (r : ClaimRequest) (now deadline : ℕ) (attempt_id token : String) (db : Store)
      → Refines db (claim_first digest r now deadline attempt_id token db)
  unfolding claim_first
  claim_first-Refines r now deadline attempt_id token db =
      Refines-bind db (guard (ltb now deadline) value_error) _ λ _ _.
        Refines-bind db (select_candidate r now db) _ (elim [
          | none ↦ λ _. Refines-same db none
          | some job ↦ λ selected.
              let facts =
                select_candidate-All (λ _. Unit {0}) r now db job (All-rows db.jobs) selected in
              write_claim-Refines r.worker_id attempt_id token (digest token) now deadline job db
                (ground (arith, facts.1)) (ground (arith, facts.1))
        ])

  require_same-Refines :
      (candidate : InvocationJob) (l : Option InvocationLease) (db : Store)
      → Refines db (require_same digest candidate (l, db))
  require_same-Refines candidate none db = λ a db' e. cc
  require_same-Refines candidate (some l) db =
      same_or_err (l.invocation_id == candidate.invocation_id) l db

  claim-Refines :
      (r : ClaimRequest) (duration now : ℕ) (attempt_id token : String) (db : Store)
      → Refines db (claim_in_transaction digest r duration now attempt_id token db)
  unfolding claim_in_transaction
  claim-Refines r duration now attempt_id token db =
      Refines-bind db (lease_deadline now duration) _ λ deadline _.
        Refines-then db
          (recover_in_transaction now r.invocation_id
            (if is_some r.invocation_id then none else some 1000) db)
          _
          (recover-Refines now r.invocation_id (if is_some r.invocation_id then none else some 1000)
            db)
          λ summary db₁ _. Refines-bind db₁ (select_candidate r now db₁) _ (elim [
            | none ↦ λ _. Refines-same db₁ none
            | some candidate ↦ λ _.
                Refines-then db₁
                  (claim_first digest (record r { invocation_id = some candidate.invocation_id })
                    now deadline attempt_id token db₁)
                  (require_same digest candidate)
                  (claim_first-Refines (record r { invocation_id = some candidate.invocation_id })
                    now deadline attempt_id token db₁)
                  λ l db₂ _. require_same-Refines candidate l db₂
          ])

  pub claim-Nexts :
      (r : ClaimRequest) (duration now : ℕ) (attempt_id token : String) (db : Store)
      → Nexts db.jobs (claim digest r duration now attempt_id token db).1.jobs
  unfolding claim
  claim-Nexts r duration now attempt_id token db =
      Refines-transact db _ (claim-Refines r duration now attempt_id token db)
