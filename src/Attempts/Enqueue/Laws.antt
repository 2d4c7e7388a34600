-- ===== src/Attempts/Enqueue/Laws.antt =====
-- `enqueue` (src/quantum_entanglement/attempts.py): its insertion, and its answer to a retry.
use quantum_entanglement.Prelude.{
  ℕ, Bool, true, false, List, [], ◌∷◌, ◌++◌, ◌==◌, Option, none, some, Result, ok, err, guard,
  or_raise, ◌>>=◌, ◌>>◌, >>=-eq-ok, select, find, ◌≡◌, ap, sym, Gives-bind, Gives-ok, guard-eq_ok,
  transact-eq_ok, refl, arith, eq_refl, eqb_refl, List-cases, inl, inr,
}
use quantum_entanglement.Attempts.Rows.{
  Error, value_error, conflict, runtime, InvocationJob, Store, row_to_job, row_to_job-eq_ok,
}
use quantum_entanglement.Attempts.Enqueue.{
  InvocationJobSpec, opt_moment_eq, spec_ok, same_identity, same_work, new_job, reuse, insert_job,
  enqueue_in_transaction, enqueue,
}
use quantum_entanglement.Attempts.Life.{
  has_job, Nexts, done, add, Refines, Refines-transact, Refines-bind, Refines-same,
}

no_identity :
    (s : InvocationJobSpec) (jobs : List InvocationJob)
    → select (same_identity s) jobs ≡ []
    → has_job s.invocation_id jobs ≡ false
no_identity s [] h = refl
no_identity s (j ∷ js) h = ground (arith, no_identity s js)

insert-Refines :
    (now : ℕ) (s : InvocationJobSpec) (db : Store)
    → select (same_identity s) db.jobs ≡ []
    → Refines db (insert_job now s db)
insert-Refines now s db free =
    Refines-bind db
      (or_raise (find (λ j. j.invocation_id == s.invocation_id) (db.jobs ++ new_job now s ∷ []))
        runtime)
      _
      λ row _. Refines-bind db (row_to_job row) _ λ job _ a db' e.
        let jobs : db.jobs ++ new_job now s ∷ [] ≡ db'.jobs = ground arith in
        add (new_job now s) (no_identity s db.jobs free) refl refl (rw (← jobs) done)

reuse-Refines :
    (s : InvocationJobSpec) (rows : List InvocationJob) (db : Store) → Refines db (reuse s rows db)
reuse-Refines s [] db = λ a db' e. cc
reuse-Refines s (j ∷ []) db = Refines-bind db (row_to_job j) _ λ existing _.
    Refines-bind db (guard (same_work s existing) conflict) _ λ _ _. Refines-same db existing
reuse-Refines s (j ∷ k ∷ rest) db = λ a db' e. cc

enqueue-Refines :
    (now : ℕ) (s : InvocationJobSpec) (db : Store) → Refines db (enqueue_in_transaction now s db)
unfolding enqueue_in_transaction
enqueue-Refines now s db = elim (List-cases (select (same_identity s) db.jobs)) [
  | inl free ↦ rw (free, enqueue_in_transaction) (insert-Refines now s db free)
  | inr (j, rest, e) ↦ rw (e, enqueue_in_transaction) (reuse-Refines s (j ∷ rest) db)
]

pub enqueue-Nexts :
    (now : ℕ) (s : InvocationJobSpec) (db : Store) → Nexts db.jobs (enqueue now s db).1.jobs
unfolding enqueue
enqueue-Nexts now s db =
    Refines-transact db _
      (Refines-bind db (guard (spec_ok s) value_error) _ λ _ _. enqueue-Refines now s db)

select_appended :
    (p : InvocationJob → Bool) (xs : List InvocationJob) (y : InvocationJob)
    → select p xs ≡ []
    → p y ≡ true
    → select p (xs ++ y ∷ []) ≡ y ∷ []
select_appended p [] y h e = rw e
select_appended p (x ∷ xs) y h e = ground (arith, select_appended p xs y)

find_appended :
    (s : InvocationJobSpec) (xs : List InvocationJob) (y : InvocationJob)
    → has_job s.invocation_id xs ≡ false
    → (y.invocation_id == s.invocation_id) ≡ true
    → find (λ j. j.invocation_id == s.invocation_id) (xs ++ y ∷ []) ≡ some y
find_appended s [] y h e = rw e
find_appended s (x ∷ xs) y h e = ground (arith, find_appended s xs y)

new_job-same_identity : (now : ℕ) (s : InvocationJobSpec) → same_identity s (new_job now s) ≡ true
new_job-same_identity now s = ground (arith, eq_refl s.invocation_id)

opt_moment_eq_refl : (o : Option ℕ) → opt_moment_eq o o ≡ true
opt_moment_eq_refl none = refl
opt_moment_eq_refl (some a) = eqb_refl a

new_job-same_work : (now : ℕ) (s : InvocationJobSpec) → same_work s (new_job now s) ≡ true
new_job-same_work now s = rw (
  eq_refl s.session_id,
  eq_refl s.plan_id,
  eq_refl s.task_id,
  eq_refl s.agent_id,
  eq_refl s.idempotency_key,
  eq_refl s.payload_digest,
  eqb_refl s.priority,
  eqb_refl s.max_attempts,
  opt_moment_eq_refl s.available_at,
)

read_back :
    (m : Result Error InvocationJob) (db₁ db' : Store) (job : InvocationJob)
    → ◌>>=◌ {B = InvocationJob × Store} m (λ j. ok (j, db₁)) ≡ ok (job, db')
    → (m ≡ ok job) × (db₁ ≡ db')
read_back (ok j) db₁ db' job e = (ground arith, ground arith)
read_back (err x) db₁ db' job e = cc

-- What an insertion that returned left: the new row at the end, which is the row it returned.
insert_job-eq_ok :
    (now : ℕ) (s : InvocationJobSpec) (db db' : Store) (job : InvocationJob)
    → select (same_identity s) db.jobs ≡ []
    → insert_job now s db ≡ ok (job, db')
    → (row_to_job (new_job now s) ≡ ok job)
      × (record db { jobs = db.jobs ++ new_job now s ∷ [] } ≡ db')
insert_job-eq_ok now s db db' job free e =
    let found =
      find_appended s db.jobs (new_job now s) (no_identity s db.jobs free)
        (eq_refl s.invocation_id) in
    read_back (row_to_job (new_job now s)) (record db { jobs = db.jobs ++ new_job now s ∷ [] }) db'
      job (rw found at e)

-- A retry after an insertion finds the row that was inserted.
retry_inserted :
    (now now' : ℕ) (s : InvocationJobSpec) (db db' : Store) (job : InvocationJob)
    → select (same_identity s) db.jobs ≡ []
    → insert_job now s db ≡ ok (job, db')
    → enqueue_in_transaction now' s db' ≡ ok (job, db')
unfolding enqueue_in_transaction
retry_inserted now now' s db db' job free e =
    let (valid, left) = insert_job-eq_ok now s db db' job free e in
    let row = (row_to_job-eq_ok (new_job now s) job valid).1 in
    let listed =
      select_appended (same_identity s) db.jobs (new_job now s) free
        (new_job-same_identity now s) in
    rw (← left, enqueue_in_transaction, listed, valid, ← row, new_job-same_work now s)
      (ap (λ d. ok (new_job now s, d)) (sym left))

reuse_keeps :
    (s : InvocationJobSpec) (rows : List InvocationJob) (db db' : Store) (job : InvocationJob)
    → reuse s rows db ≡ ok (job, db')
    → db ≡ db'
reuse_keeps s [] db db' job e = cc
reuse_keeps s (j ∷ []) db db' job e =
    Gives-bind (λ (out : InvocationJob × Store). db ≡ out.1) (row_to_job j) _
      (λ existing _.
        Gives-bind (λ (out : InvocationJob × Store). db ≡ out.1)
          (guard (same_work s existing) conflict) _
          (λ _ _. Gives-ok (λ (out : InvocationJob × Store). db ≡ out.1) (existing, db) refl))
      (job, db') e
reuse_keeps s (j ∷ k ∷ rest) db db' job e = cc

retried :
    (now now' : ℕ) (s : InvocationJobSpec) (db db' : Store) (job : InvocationJob)
    → enqueue_in_transaction now s db ≡ ok (job, db')
    → enqueue_in_transaction now' s db' ≡ ok (job, db')
unfolding enqueue_in_transaction
retried now now' s db db' job e = elim (List-cases (select (same_identity s) db.jobs)) [
  | inl free ↦ retry_inserted now now' s db db' job free (rw (free, enqueue_in_transaction) at e)
  | inr (j, rest, found) ↦
      let reused : reuse s (j ∷ rest) db ≡ ok (job, db') =
        rw (found, enqueue_in_transaction) at e in
      let same = reuse_keeps s (j ∷ rest) db db' job reused in
      let again : reuse s (j ∷ rest) db ≡ ok (job, db) = rw (← same) at reused in
      let retry : enqueue_in_transaction now' s db ≡ ok (job, db) =
        rw (found, enqueue_in_transaction) again in
      rw (← same) retry
]

-- An enqueue that returned a job is idempotent: the same specification enqueued again, at whatever
-- instant, returns the same job and leaves the store as it is.
pub enqueue_retry :
    (now now' : ℕ) (s : InvocationJobSpec) (db db' : Store) (job : InvocationJob)
    → enqueue now s db ≡ (ok job, db')
    → enqueue now' s db' ≡ (ok job, db')
unfolding enqueue
enqueue_retry now now' s db db' job e =
    let body =
      transact-eq_ok db (guard (spec_ok s) value_error >> enqueue_in_transaction now s db) job db'
        e in
    let (_, valid, inner) = >>=-eq-ok (guard (spec_ok s) value_error) _ {y = (job, db')} body in
    rw (guard-eq_ok (spec_ok s) value_error tt valid, retried now now' s db db' job inner) refl
