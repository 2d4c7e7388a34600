-- ===== src/Attempts/Once/Rows.antt =====
-- Job tables with one row for each id, and what their evolution keeps.
use quantum_entanglement.Prelude.{
  ◌≤◌, String, true, false, ◌||◌, List, [], ◌∷◌, ◌++◌, ◌==◌, All, All-snoc, ◌≡◌, refl, arith,
  eq_iff, ◌∙◌,
}
use quantum_entanglement.Attempts.Rows.{InvocationJob, is_running}
use quantum_entanglement.Attempts.Life.{
  Life, start, hold, Evolves, end, stay, move, Nexts, done, evolve, add, has_job,
}

-- The primary key: no id stands in two rows.
abbrev pub Unique : List InvocationJob → Type 0
Unique [] = Unit
Unique (x ∷ xs) = (has_job x.invocation_id xs ≡ false) × Unique xs

-- The job is stored, and every row with its id satisfies `P`.
abbrev pub Stored : (InvocationJob → Type 0) → String → List InvocationJob → Type 0
Stored P k jobs =
    (has_job k jobs ≡ true) × All (λ (j : InvocationJob). (j.invocation_id == k) ≡ true → P j) jobs

-- Its first attempt was started.
abbrev pub Started : InvocationJob → Type 0
Started j = 1 ≤ j.attempts_started

-- It had a lease, and no attempt of it runs.
abbrev pub Closed : InvocationJob → Type 0
Closed j = (1 ≤ j.lease_epoch) × (is_running j.status ≡ false)

Life-id : (x y : InvocationJob) → Life x y → y.invocation_id ≡ x.invocation_id
Life-id x y (start w _ _ _ _ _ _) = w.invocation_id
Life-id x y (hold w _ _ _ _) = w.invocation_id

pub Life-Started : (x y : InvocationJob) → Life x y → Started x → Started y
Life-Started x y (start w _ z _ _ _ _) h = absurd (omega arith)
Life-Started x y (hold w _ e _ _) h = omega arith

-- A closed job makes no move.
pub Life-Closed : (x y : InvocationJob) → Life x y → ¬ Closed x
Life-Closed x y (start w _ _ z _ _ _) h = let some_lease = h.0 in omega arith
Life-Closed x y (hold w r _ _ _) h = let idle = h.1 in ground arith

has_job-Evolves :
    (k : String) {xs ys : List InvocationJob} → Evolves xs ys → has_job k ys ≡ has_job k xs
has_job-Evolves k end = refl
has_job-Evolves k (stay x e) = ground (arith, has_job-Evolves k e)
has_job-Evolves k (move {x = x} {y = y} life e) =
    ground (arith, has_job-Evolves k e, Life-id x y life)

Unique-Evolves : {xs ys : List InvocationJob} → Evolves xs ys → Unique xs → Unique ys
Unique-Evolves end u = tt
Unique-Evolves (stay x e) u = (has_job-Evolves x.invocation_id e ∙ u.0, Unique-Evolves e u.1)
Unique-Evolves (move {x = x} {y = y} life e) u =
    (has_job-Evolves y.invocation_id e ∙ rw (Life-id x y life) u.0, Unique-Evolves e u.1)

All-Evolves :
    (P : InvocationJob → Type 0) (k : String) {xs ys : List InvocationJob}
    → ((x y : InvocationJob) → Life x y → P x → P y)
    → Evolves xs ys
    → All (λ (j : InvocationJob). (j.invocation_id == k) ≡ true → P j) xs
    → All (λ (j : InvocationJob). (j.invocation_id == k) ≡ true → P j) ys
All-Evolves P k keep end h = tt
All-Evolves P k keep (stay x e) h = (h.0, All-Evolves P k keep e h.1)
All-Evolves P k keep (move {x = x} {y = y} life e) h =
    (λ m. keep x y life (h.0 (rw (Life-id x y life) at m)), All-Evolves P k keep e h.1)

has_job-snoc :
    (k : String) (xs : List InvocationJob) (j : InvocationJob)
    → has_job k (xs ++ j ∷ []) ≡ (has_job k xs || j.invocation_id == k)
has_job-snoc k [] j = ground arith
has_job-snoc k (x ∷ xs) j = ground (arith, has_job-snoc k xs j)

Unique-snoc :
    (xs : List InvocationJob) (j : InvocationJob)
    → has_job j.invocation_id xs ≡ false
    → Unique xs
    → Unique (xs ++ j ∷ [])
Unique-snoc [] j new u = (refl, tt)
Unique-snoc (x ∷ xs) j new u = ground (
  arith,
  Unique-snoc xs j,
  has_job-snoc x.invocation_id xs j,
  eq_iff x.invocation_id j.invocation_id,
  eq_iff j.invocation_id x.invocation_id,
)

-- No call stores a second row for an id.
pub Unique-Nexts : {xs ys : List InvocationJob} → Nexts xs ys → Unique xs → Unique ys
Unique-Nexts done u = u
Unique-Nexts (evolve e n) u = Unique-Nexts n (Unique-Evolves e u)
Unique-Nexts (add {xs = xs} j new _ _ n) u = Unique-Nexts n (Unique-snoc xs j new u)

-- What every move of a stored job keeps, every call keeps.
pub Stored-Nexts :
    (P : InvocationJob → Type 0) (k : String) {xs ys : List InvocationJob}
    → ((x y : InvocationJob) → Life x y → P x → P y)
    → Nexts xs ys
    → Stored P k xs
    → Stored P k ys
Stored-Nexts P k keep done s = s
Stored-Nexts P k keep (evolve e n) s =
    Stored-Nexts P k keep n (has_job-Evolves k e ∙ s.0, All-Evolves P k keep e s.1)
Stored-Nexts P k keep (add {xs = xs} j new zero_started _ n) s = Stored-Nexts P k keep n (
  rw (has_job-snoc k xs j, s.0),
  All-snoc _ xs j s.1 (λ m. absurd (ground (arith, eq_iff j.invocation_id k, s.0, new))),
)
