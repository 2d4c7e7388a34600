-- ===== src/Scheduler/Refresh/Plan.antt =====
-- One round of `preview_refresh` (src/quantum_entanglement/scheduler.py): nothing, or the transition to
-- the status that the dependencies call for.
use quantum_entanglement.Prelude.{
  ℕ, ◌+◌, String, Bool, true, false, not, List, [], ◌∷◌, none, some, if◌then◌else◌, Result, ok, all,
  any, ◌≡◌, refl, arith, eq_refl, Bool-cases, inl, inr, ap, ◌∙◌, ◌⊎◌, List-cases,
}
use quantum_entanglement.Prelude.Text.{opt_eq_refl, Dict, get, has, has-get}
use quantum_entanglement.Protocol.{TaskStatus, pending, ready, blocked}
use quantum_entanglement.Scheduler.Task.{
  Error, TaskSpec, TaskTransition, TaskGraph, status_eq, is_done, is_failed,
}
use quantum_entanglement.Scheduler.Moves.{preview_transition}
use quantum_entanglement.Scheduler.Moves.Laws.{status_eq→eq}
use quantum_entanglement.Scheduler.Refresh.{
  failure_reason, dep_states, failed_deps, all_done, plan_pending, plan_task, transition_eq,
}

-- Whether the task has a status that the test accepts.
abbrev pub status_at : (TaskStatus → Bool) → Dict TaskStatus → String → Bool
status_at test st d = elim (get d st) [ none ↦ false | some s ↦ test s ]

-- The status that the dependencies call for.
abbrev pub next_status : Dict TaskStatus → TaskSpec → TaskStatus → TaskStatus
next_status st t s =
    if not (status_eq s pending)
    then s
    else if any (status_at is_failed st) t.depends_on
    then blocked
    else if all (status_at is_done st) t.depends_on
    then ready
    else pending

abbrev is_nil : List String → Bool
is_nil [] = true
is_nil (x ∷ xs) = false

dep_states_lem :
    (st : Dict TaskStatus) (ds : List String)
    → all (λ d. has d st) ds ≡ true
    → (states : List (String × TaskStatus)) × (dep_states st ds ≡ ok states)
      × (all_done states ≡ all (status_at is_done st) ds)
      × (is_nil (failed_deps states) ≡ not (any (status_at is_failed st) ds))
unfolding dep_states
dep_states_lem st [] h = ([], refl, refl, refl)
dep_states_lem st (d ∷ ds) h =
    let (s, g) = has-get d st (ground arith) in
    let (states, e, done, fails) = dep_states_lem st ds (ground arith) in
    ((d, s) ∷ states, rw (g, e), ground (arith, g, done), ground (arith, g, fails))

-- What one round plans: nothing, or the one transition to the next status.
abbrev pub Plans :
    TaskGraph → String → TaskStatus → TaskStatus → Result Error (List TaskTransition) → Type 0
Plans g k s next planned =
    ((planned ≡ ok []) × (next ≡ s))
    ⊎ ((p : TaskTransition) × (planned ≡ ok (p ∷ []))
        × (preview_transition g k p.current p.reason ≡ ok p)
        × (p.task_id ≡ k)
        × (p.current ≡ next))

plan_pending_lem :
    (g : TaskGraph) (k : String) (r : ℕ) (states : List (String × TaskStatus)) (fails done : Bool)
    → get k g.statuses ≡ some pending
    → get k g.revisions ≡ some r
    → all_done states ≡ done
    → is_nil (failed_deps states) ≡ not fails
    → Plans g k pending
        (if fails then blocked else if done then ready else pending)
        (plan_pending g k states)
unfolding preview_transition
plan_pending_lem g k r states true done gs gr d f = elim (List-cases (failed_deps states)) [
  | inl empty ↦ cc
  | inr (x, xs, e) ↦ inr (
    record {
      task_id = k;
      previous = pending;
      current = blocked;
      reason = some (failure_reason (x ∷ xs));
      revision = r + 1;
    },
    ground arith,
    ground arith,
    refl,
    refl,
  )
]
plan_pending_lem g k r states false true gs gr d f = elim (List-cases (failed_deps states)) [
  | inl empty ↦ inr (
    record { task_id = k; previous = pending; current = ready; reason = none; revision = r + 1 },
    ground arith,
    ground arith,
    refl,
    refl,
  )
  | inr (x, xs, e) ↦ absurd (ground arith)
]
plan_pending_lem g k r states false false gs gr d f = elim (List-cases (failed_deps states)) [
  | inl empty ↦ inl (ground arith, refl)
  | inr (x, xs, e) ↦ absurd (ground arith)
]

pub plan_task_lem :
    (g : TaskGraph) (k : String) (t : TaskSpec) (s : TaskStatus) (r : ℕ)
    → get k g.statuses ≡ some s
    → get k g.revisions ≡ some r
    → all (λ d. has d g.statuses) t.depends_on ≡ true
    → Plans g k s (next_status g.statuses t s) (plan_task g (k, t))
unfolding plan_task
plan_task_lem g k t s r gs gr known = elim (Bool-cases (status_eq s pending)) [
  | inr other ↦ inl (ground arith, ground arith)
  | inl same ↦
      let is : s ≡ pending = status_eq→eq s pending same in
      let (states, found, done, fails) = dep_states_lem g.statuses t.depends_on known in
      let at : get k g.statuses ≡ some pending = gs ∙ ap some is in
      let planned : plan_task g (k, t) ≡ plan_pending g k states = rw (at, found) in
      let plan =
        plan_pending_lem g k r states (any (status_at is_failed g.statuses) t.depends_on)
          (all (status_at is_done g.statuses) t.depends_on) at gr done fails in
      rw (is, planned) plan
]

pub transition_eq_refl : (p : TaskTransition) → transition_eq p p ≡ true
transition_eq_refl p = ground (arith, eq_refl p.task_id, opt_eq_refl p.reason)
