-- ===== src/Attempts/Once/Final.antt =====
-- A job whose lease ended (src/quantum_entanglement/attempts.py), through later calls.
use quantum_entanglement.Prelude.{
  ℕ, ◌≤◌, String, Bool, true, false, List, [], ◌∷◌, ◌==◌, Option, some, Result, ok, ◌>>◌, >>=-eq-ok,
  transact, find, All, transact-eq_ok, Bool-cases, ◌≡◌, refl, arith, eq_iff, ◌⊎◌, inl, inr,
}
use quantum_entanglement.Attempts.Rows.{Error, InvocationJob, InvocationLease, Store, is_running}
use quantum_entanglement.Attempts.Lease.{require_lease}
use quantum_entanglement.Attempts.Owner.{
  complete_in_transaction, fail_in_transaction, heartbeat, complete, fail,
}
use quantum_entanglement.Attempts.Life.{Life, has_job}
use quantum_entanglement.Attempts.Once.{Call, run}
use quantum_entanglement.Attempts.Once.Rows.{Unique, Stored, Closed, Stored-Nexts, Life-Closed}
use quantum_entanglement.Attempts.Once.Laws.{run-Nexts}
use quantum_entanglement.Attempts.Once.Fence.{
  Refused, Closes, require_lease-epoch, complete-Closes, fail-Closes, Closed-Refused,
}

-- The row of a job.
abbrev pub job_of : String → Store → Option InvocationJob
job_of k db = find (λ j. j.invocation_id == k) db.jobs

absent_named :
    (P : InvocationJob → Type 0) (k : String) (xs : List InvocationJob)
    → has_job k xs ≡ false
    → All (λ (x : InvocationJob). (x.invocation_id == k) ≡ true → P x) xs
absent_named P k [] h = tt
absent_named P k (x ∷ xs) h = ((λ m. absurd (ground arith)), absent_named P k xs (ground arith))

found-Stored :
    (k : String) (j : InvocationJob) (xs : List InvocationJob)
    → Unique xs
    → find (λ x. x.invocation_id == k) xs ≡ some j
    → Stored (λ x. x ≡ j) k xs
found-Stored k j [] u e = cc
found-Stored k j (x ∷ xs) u e = elim (Bool-cases (x.invocation_id == k)) [
  | inl named ↦
      let same : x ≡ j = ground arith in
      let id : x.invocation_id ≡ k = ground (arith, eq_iff x.invocation_id k) in
      (ground arith, ((λ m. same), absent_named _ k xs (rw id at u.0)))
  | inr other ↦
      let rest = found-Stored k j xs u.1 (ground arith) in
      (ground (arith, rest.0), ((λ m. absurd (ground arith)), rest.1))
]

Stored-found :
    (k : String) (j : InvocationJob) (xs : List InvocationJob)
    → Stored (λ x. x ≡ j) k xs
    → find (λ x. x.invocation_id == k) xs ≡ some j
Stored-found k j [] s = absurd (ground (arith, s.0))
Stored-found k j (x ∷ xs) s = elim (Bool-cases (x.invocation_id == k)) [
  | inl named ↦ let same = s.1.0 named in ground arith
  | inr other ↦ ground (arith, Stored-found k j xs, s.0, s.1.1)
]

keeps-Closed : (j : InvocationJob) → Closed j → (x y : InvocationJob) → Life x y → x ≡ j → y ≡ j
keeps-Closed j c x y life e = absurd (Life-Closed x y life (rw e c))

stays-Closed : (x y : InvocationJob) → Life x y → Closed x → Closed y
stays-Closed x y life c = absurd (Life-Closed x y life c)

module _ (digest : String → String) where
  -- A job that had a lease and is not running now is final: whatever calls reach the store, its row
  -- stays as it is, also if its status is `queued`. The store holds no two rows with one id.
  pub closed_forever :
      (calls : List Call) (k : String) (job : InvocationJob) (db : Store)
      → Unique db.jobs
      → job_of k db ≡ some job
      → 1 ≤ job.lease_epoch
      → is_running job.status ≡ false
      → job_of k (run digest calls db) ≡ some job
  closed_forever calls k job db unique found epoch idle =
      Stored-found k job (run digest calls db).jobs (
        Stored-Nexts (λ x. x ≡ job) k (keeps-Closed job (epoch, idle)) (run-Nexts digest calls db)
          (found-Stored k job db.jobs unique found))

  ended :
      (l : InvocationLease) (db db' : Store) (body : Result Error (Bool × Store))
      → (1 ≤ l.lease_epoch → (out : Bool × Store) → body ≡ ok out → Closes digest l db out)
      → Unique db.jobs
      → transact db (require_lease l >> body) ≡ (ok true, db')
      → Stored Closed l.invocation_id db'.jobs
  ended l db db' body closes unique e =
      let whole = transact-eq_ok db (require_lease l >> body) true db' e in
      let (u, valid, inner) = >>=-eq-ok (require_lease l) _ {y = (true, db')} whole in
      closes (require_lease-epoch l u valid) (true, db') inner refl unique

  -- Fencing: after `complete` or `fail` returned true for a lease, and whatever calls came after it,
  -- every owner's call for the same job, by the same lease or by another, says no or raises, and writes
  -- nothing. The store held no two rows with one id.
  pub fenced :
      (l stale : InvocationLease) (result_ref result_ref' : Option String) (error error' : String)
      (retry_at retry_at' : Option ℕ) (now now' duration : ℕ) (db db' : Store) (between : List Call)
      → Unique db.jobs
      → (complete digest l result_ref now db ≡ (ok true, db'))
        ⊎ (fail digest l error retry_at now db ≡ (ok true, db'))
      → stale.invocation_id ≡ l.invocation_id
      → let after = run digest between db' in
        Refused after (heartbeat digest stale duration now' after)
        × Refused after (complete digest stale result_ref' now' after)
        × Refused after (fail digest stale error' retry_at' now' after)
  unfolding complete fail
  fenced l stale result_ref result_ref' error error' retry_at retry_at' now now' duration db db'
        between unique end same =
      let closed : Stored Closed l.invocation_id db'.jobs = elim end [
        | inl e ↦
            ended l db db' (complete_in_transaction digest l result_ref now db)
              (λ epoch. complete-Closes digest l result_ref now db epoch) unique e
        | inr e ↦
            ended l db db' (fail_in_transaction digest l error retry_at now db)
              (λ epoch. fail-Closes digest l error retry_at now db epoch) unique e
      ] in
      Closed-Refused digest stale result_ref' error' retry_at' duration now'
        (run digest between db')
        (Stored-Nexts Closed stale.invocation_id stays-Closed (run-Nexts digest between db')
          (rw same closed))
