-- ===== src/Attempts/Life.antt =====
-- The life of a job row (src/quantum_entanglement/attempts.py), as a specification for the store's
-- operations.
use quantum_entanglement.Prelude.{
  String, Bool, true, false, List, [], ◌∷◌, ◌++◌, ◌==◌, if◌then◌else◌, Result, ok, err, ◌>>=◌, any,
  ◌≡◌, refl, arith, transact, ◌≢◌,
}
use quantum_entanglement.Prelude.Table.{update_where}
use quantum_entanglement.Attempts.Rows.{
  canceled, Error, InvocationJob, Store, is_running, is_queued,
}

-- The columns that no operation writes.
pub record SameWork (x y : InvocationJob) : Type 0 where
  pub invocation_id : y.invocation_id ≡ x.invocation_id
  pub session_id : y.session_id ≡ x.session_id
  pub plan_id : y.plan_id ≡ x.plan_id
  pub task_id : y.task_id ≡ x.task_id
  pub agent_id : y.agent_id ≡ x.agent_id
  pub idempotency_key : y.idempotency_key ≡ x.idempotency_key
  pub payload_digest : y.payload_digest ≡ x.payload_digest
  pub priority : y.priority ≡ x.priority
  pub max_attempts : y.max_attempts ≡ x.max_attempts
  pub created_at : y.created_at ≡ x.created_at

-- One move of a job row.
pub data Life (x y : InvocationJob) : Type 0 where
  -- A queued job that was never started starts its first attempt at epoch 1.
  start :
      SameWork x y
      → is_queued x.status ≡ true
      → x.attempts_started ≡ 0
      → x.lease_epoch ≡ 0
      → is_running y.status ≡ true
      → y.attempts_started ≡ 1
      → y.lease_epoch ≡ 1
      → Life x y
  -- A running job goes on running, or stops: done, failed, or queued with an attempt behind it.
  hold :
      SameWork x y
      → is_running x.status ≡ true
      → y.attempts_started ≡ x.attempts_started
      → y.lease_epoch ≡ x.lease_epoch
      → y.status ≢ canceled
      → Life x y

-- A table whose rows move or stay, in place.
pub data Evolves : List InvocationJob → List InvocationJob → Type 0 where
  end : Evolves [] []
  stay :
      {xs ys : List InvocationJob} (x : InvocationJob) → Evolves xs ys → Evolves (x ∷ xs) (x ∷ ys)
  move :
      {xs ys : List InvocationJob} {x y : InvocationJob}
      → Life x y
      → Evolves xs ys
      → Evolves (x ∷ xs) (y ∷ ys)

abbrev pub has_job : String → List InvocationJob → Bool
has_job k jobs = any (λ j. j.invocation_id == k) jobs

-- Any number of writes to the jobs: rows move, or a job with a new id is added that never started.
pub data Nexts : List InvocationJob → List InvocationJob → Type 0 where
  done : {xs : List InvocationJob} → Nexts xs xs
  evolve : {xs ys zs : List InvocationJob} → Evolves xs ys → Nexts ys zs → Nexts xs zs
  add :
      {xs zs : List InvocationJob} (j : InvocationJob)
      → has_job j.invocation_id xs ≡ false
      → j.attempts_started ≡ 0
      → is_queued j.status ≡ true
      → Nexts (xs ++ j ∷ []) zs
      → Nexts xs zs

pub Nexts-trans : {xs ys zs : List InvocationJob} → Nexts xs ys → Nexts ys zs → Nexts xs zs
Nexts-trans done n = n
Nexts-trans (evolve e r) n = evolve e (Nexts-trans r n)
Nexts-trans (add j new zero_started waits r) n = add j new zero_started waits (Nexts-trans r n)

Evolves-row :
    (p : InvocationJob → Bool) (f : InvocationJob → InvocationJob) (x : InvocationJob)
    {xs ys : List InvocationJob} (b : Bool)
    → p x ≡ b
    → (p x ≡ true → Life x (f x))
    → Evolves xs ys
    → Evolves (x ∷ xs) ((if b then f x else x) ∷ ys)
Evolves-row p f x true e life rest = move (life e) rest
Evolves-row p f x false e life rest = stay x rest

pub Evolves-update :
    (p : InvocationJob → Bool) (f : InvocationJob → InvocationJob) (xs : List InvocationJob)
    → ((x : InvocationJob) → p x ≡ true → Life x (f x))
    → Evolves xs (update_where p f xs)
Evolves-update p f [] lives = end
Evolves-update p f (x ∷ xs) lives =
    Evolves-row p f x (p x) refl (lives x) (Evolves-update p f xs lives)

-- An UPDATE whose rows move as `Life` allows.
pub Nexts-update :
    (p : InvocationJob → Bool) (f : InvocationJob → InvocationJob) (xs : List InvocationJob)
    → ((x : InvocationJob) → p x ≡ true → Life x (f x))
    → Nexts xs (update_where p f xs)
Nexts-update p f xs lives = evolve (Evolves-update p f xs lives) done

-- Every outcome that a body commits is reached by such writes.
abbrev pub Refines : {A : Type 0} → Store → Result Error (A × Store) → Type 0
Refines {A = A} db m = (a : A) (db' : Store) → m ≡ ok (a, db') → Nexts db.jobs db'.jobs

pub Refines-transact :
    {A : Type 0} (db : Store) (m : Result Error (A × Store))
    → Refines db m
    → Nexts db.jobs (transact db m).1.jobs
Refines-transact db (ok (a, db')) r = r a db' refl
Refines-transact db (err e) r = done

-- A part that reads and may raise, then a body.
pub Refines-bind :
    {A B : Type 0} (db : Store) (m : Result Error A) (f : A → Result Error (B × Store))
    → ((a : A) → m ≡ ok a → Refines db (f a))
    → Refines db (m >>= f)
Refines-bind db (ok x) f r = r x refl
Refines-bind db (err e) f r = λ a db' h. cc

-- A part that writes, then a body on what it left.
pub Refines-then :
    {A B : Type 0} (db : Store) (m : Result Error (A × Store))
    (f : A × Store → Result Error (B × Store))
    → Refines db m
    → ((a : A) (db₁ : Store) → m ≡ ok (a, db₁) → Refines db₁ (f (a, db₁)))
    → Refines db (m >>= f)
Refines-then db (ok (x, db₁)) f first rest =
    λ a db' h. Nexts-trans (first x db₁ refl) (rest x db₁ refl a db' h)
Refines-then db (err e) f first rest = λ a db' h. cc

pub Refines-same : {A : Type 0} (db : Store) (x : A) → Refines db (ok (x, db))
Refines-same db x a db' e = let jobs : db.jobs ≡ db'.jobs = ground arith in rw (← jobs) done
