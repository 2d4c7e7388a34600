-- ===== src/Attempts/Once/Laws.antt =====
-- How often a job is started (src/quantum_entanglement/attempts.py), over sequences of calls.
use quantum_entanglement.Prelude.{
  ℕ, ◌≤◌, String, Bool, true, false, List, [], ◌∷◌, ◌==◌, Option, none, some, ok, err, guard, eqb,
  ltb, if◌then◌else◌, Gives, Gives-bind, Gives-ok, transact-eq_ok, All-rows, ◌≡◌, refl, arith,
  eq_refl, ◌≢◌,
}
use quantum_entanglement.Prelude.Table.{count_where}
use quantum_entanglement.Attempts.Rows.{
  value_error, integrity, constraint, InvocationJob, InvocationLease, Store, is_some,
}
use quantum_entanglement.Attempts.Lease.{lease_deadline}
use quantum_entanglement.Attempts.Enqueue.Laws.{enqueue-Nexts}
use quantum_entanglement.Attempts.Owner.Laws.{owner-Nexts}
use quantum_entanglement.Attempts.Recover.{recover_in_transaction}
use quantum_entanglement.Attempts.Recover.Laws.{recover-Nexts, recover-Refines}
use quantum_entanglement.Attempts.Claim.{
  ClaimRequest, select_candidate, is_untouched, claim_job, claim_attempt, claim_unique, write_claim,
  claim_first, require_same, claim_in_transaction, claim,
}
use quantum_entanglement.Attempts.Claim.Laws.{claim-Nexts, select_candidate-All}
use quantum_entanglement.Attempts.Life.{Nexts, done, Nexts-trans}
use quantum_entanglement.Attempts.Once.{
  Call, enqueued, claimed, beaten, completed, gave_up, recovered, apply, run,
}
use quantum_entanglement.Attempts.Once.Rows.{
  Unique, Stored, Started, Unique-Nexts, Stored-Nexts, Life-Started,
}
use quantum_entanglement.Attempts.Once.Update.{Stored-update_where}

selected_fresh :
    (r : ClaimRequest) (now : ℕ) (db : Store) (job : InvocationJob)
    → select_candidate r now db ≡ ok (some job)
    → job.attempts_started ≡ 0
selected_fresh r now db job selected =
    let facts = (select_candidate-All (λ _. Unit {0}) r now db job (All-rows db.jobs) selected).1 in
    ground arith

same_or_err :
    {A : Type 0} (P : A → Type 0) (b : Bool) (a : A)
    → P a
    → Gives P (if b then ok a else err integrity)
same_or_err P true a h = Gives-ok P a h
same_or_err P false a h = λ a e. cc

module _ (digest : String → String) where
  apply-Nexts : (c : Call) (db : Store) → Nexts db.jobs (apply digest c db).jobs
  unfolding apply
  apply-Nexts (enqueued now s) db = enqueue-Nexts now s db
  apply-Nexts (claimed r duration now attempt_id token) db =
      claim-Nexts digest r duration now attempt_id token db
  apply-Nexts (beaten l duration now) db = (owner-Nexts digest l none "" none duration now db).0
  apply-Nexts (completed l result_ref now) db = (owner-Nexts digest l result_ref "" none 0 now db).1
  apply-Nexts (gave_up l error retry_at now) db =
      (owner-Nexts digest l none error retry_at 0 now db).2
  apply-Nexts (recovered limit now) db = recover-Nexts limit now db

  -- Whatever calls arrive, in whatever order, the job rows only move as the life of a job allows.
  pub run-Nexts : (cs : List Call) (db : Store) → Nexts db.jobs (run digest cs db).jobs
  unfolding run
  run-Nexts [] db = done
  run-Nexts (c ∷ cs) db = Nexts-trans (apply-Nexts c db) (run-Nexts cs (apply digest c db))

  -- What a claim did to the jobs: it returned a lease only for a job that was not started, and left it
  -- started.
  abbrev Starts : List InvocationJob → Option InvocationLease × Store → Type 0
  Starts jobs (none, db') = Unit
  Starts jobs (some l, db') =
      (¬ Stored Started l.invocation_id jobs)
      × (Unique jobs → Stored Started l.invocation_id db'.jobs)

  write_claim-Starts :
      (worker attempt_id token token_digest : String) (now deadline : ℕ) (job : InvocationJob)
      (db : Store)
      → (Stored Started job.invocation_id db.jobs → 1 ≤ job.attempts_started)
      → job.attempts_started ≡ 0
      → Gives
          (Starts db.jobs)
          (write_claim worker attempt_id token token_digest now deadline job db)
  write_claim-Starts worker attempt_id token token_digest now deadline job db known fresh =
      Gives-bind _
        (guard (eqb (count_where (is_untouched job.invocation_id db) db.jobs) 1) integrity) _
        λ _ counted.
          Gives-bind _
            (guard
              (claim_unique (claim_attempt attempt_id worker token_digest now deadline job) job db)
              constraint)
            _
            λ u _. Gives-ok (Starts db.jobs) _ (
              (λ (s : Stored Started job.invocation_id db.jobs). absurd (omega (arith, known s))),
              (λ unique.
                  Stored-update_where job.invocation_id (is_untouched job.invocation_id db) Started
                    (claim_job worker token_digest now deadline job) db.jobs (λ x h. ground arith)
                    (λ x. refl) (λ x h. omega arith) unique (ground (arith, counted))),
            )

  claim_first-Starts :
      (r : ClaimRequest) (now deadline : ℕ) (attempt_id token : String) (db : Store)
      → Gives (Starts db.jobs) (claim_first digest r now deadline attempt_id token db)
  unfolding claim_first
  claim_first-Starts r now deadline attempt_id token db =
      Gives-bind _ (guard (ltb now deadline) value_error) _ λ _ _.
        Gives-bind _ (select_candidate r now db) _ (elim [
          | none ↦ λ _. Gives-ok (Starts db.jobs) (none, db) tt
          | some job ↦ λ selected.
              write_claim-Starts r.worker_id attempt_id token (digest token) now deadline job db
                (λ s.
                  (select_candidate-All _ r now db job s.1 selected).0 (eq_refl job.invocation_id))
                (selected_fresh r now db job selected)
        ])

  require_same-Starts :
      (jobs : List InvocationJob) (candidate : InvocationJob) (l : Option InvocationLease × Store)
      → Starts jobs l
      → Gives (Starts jobs) (require_same digest candidate l)
  require_same-Starts jobs candidate (none, db) h = λ a e. cc
  require_same-Starts jobs candidate (some l, db) h =
      same_or_err (Starts jobs) (l.invocation_id == candidate.invocation_id) (some l, db) h

  Starts-before :
      {xs ys : List InvocationJob} (l : Option InvocationLease × Store)
      → Nexts xs ys
      → Starts ys l
      → Starts xs l
  Starts-before (none, db) n h = tt
  Starts-before (some l, db) n h = (
    (λ s. h.0 (Stored-Nexts Started l.invocation_id Life-Started n s)),
    (λ u. h.1 (Unique-Nexts n u)),
  )

  claim_in_transaction-Starts :
      (r : ClaimRequest) (duration now : ℕ) (attempt_id token : String) (db : Store)
      → Gives (Starts db.jobs) (claim_in_transaction digest r duration now attempt_id token db)
  unfolding claim_in_transaction
  claim_in_transaction-Starts r duration now attempt_id token db =
      Gives-bind _ (lease_deadline now duration) _ λ deadline _.
        Gives-bind _
          (recover_in_transaction now r.invocation_id
            (if is_some r.invocation_id then none else some 1000) db)
          _
          λ recovered done_so. Gives-bind _ (select_candidate r now recovered.1) _ (elim [
            | none ↦ λ _. Gives-ok (Starts db.jobs) (none, recovered.1) tt
            | some candidate ↦ λ _.
                Gives-bind _
                  (claim_first digest (record r { invocation_id = some candidate.invocation_id })
                    now deadline attempt_id token recovered.1)
                  _
                  λ l first. require_same-Starts db.jobs candidate l (
                    Starts-before l
                      (recover-Refines now r.invocation_id
                        (if is_some r.invocation_id then none else some 1000) db recovered.0
                        recovered.1 done_so)
                      (claim_first-Starts
                        (record r { invocation_id = some candidate.invocation_id }) now deadline
                        attempt_id token recovered.1 l first))
          ])

  claim-Starts :
      (r : ClaimRequest) (duration now : ℕ) (attempt_id token : String) (db db' : Store)
      (l : InvocationLease)
      → claim digest r duration now attempt_id token db ≡ (ok (some l), db')
      → Starts db.jobs (some l, db')
  unfolding claim
  claim-Starts r duration now attempt_id token db db' l e =
      claim_in_transaction-Starts r duration now attempt_id token db (some l, db')
        (transact-eq_ok db _ (some l) db' e)

  -- At most one attempt of a job is ever started: when a claim returned a lease, then whatever calls
  -- reach the store after it, with whatever arguments and clock readings, a later claim that returns a
  -- lease again returns it for another job. The store held no two rows with one id at the start.
  pub at_most_once :
      (r r' : ClaimRequest) (duration duration' now now' : ℕ)
      (attempt_id attempt_id' token token' : String) (db db₁ db₂ : Store) (l l' : InvocationLease)
      (between : List Call)
      → Unique db.jobs
      → claim digest r duration now attempt_id token db ≡ (ok (some l), db₁)
      → claim digest r' duration' now' attempt_id' token' (run digest between db₁)
        ≡ (ok (some l'), db₂)
      → l'.invocation_id ≢ l.invocation_id
  at_most_once r r' duration duration' now now' attempt_id attempt_id' token token' db db₁ db₂ l l'
        between unique first second same =
      let started = (claim-Starts r duration now attempt_id token db db₁ l first).1 unique in
      let refused =
        (claim-Starts r' duration' now' attempt_id' token' (run digest between db₁) db₂ l'
          second).0 in
      refused (
        rw same (Stored-Nexts Started l.invocation_id Life-Started (run-Nexts between db₁) started))
