-- ===== src/Scheduler/Refresh.antt =====
-- src/quantum_entanglement/scheduler.py, `preview_refresh` and `refresh`.
pub mod Plan
pub mod Laws
pub mod Reach
use quantum_entanglement.Prelude.{
  ℕ, zero, suc, ◌+◌, String, Bool, true, false, ◌&&◌, ◌||◌, not, List, [], ◌∷◌, ◌==◌, Option, none,
  some, eqb, ltb, leb, if◌then◌else◌, Result, ok, err, guard, or_raise, ◌>>=◌, ◌>>◌, length, all,
  select, take, ◌++◌,
}
use quantum_entanglement.Prelude.Text.{
  elem, opt_eq, join, text_le, Dict, get, put, has, keys, values, map_values,
}
use quantum_entanglement.Protocol.{
  TaskStatus, pending, ready, running, waiting_input, waiting_approval, completed, failed, blocked,
  canceled, superseded, ActionIntent,
}
use quantum_entanglement.Scheduler.Task.{
  Error, blank_title, priority_out_of_range, self_dependency, no_tasks, duplicate_task,
  missing_dependency, cycle, key_error, invalid_transition, changed_after_preview,
  negative_revision, out_of_fuel, TaskSpec, status_eq, is_done, is_failed, is_terminal_status,
  allowed, TaskTransition, TaskGraph,
}
use quantum_entanglement.Scheduler.Moves.{preview_transition, transition}

-- The statuses of a task's dependencies, as the comprehensions of `preview_refresh` look them up.
unfoldable pub dep_states :
    Dict TaskStatus → List String → Result Error (List (String × TaskStatus))
dep_states st [] = ok []
dep_states st (d ∷ ds) = do
  s ← or_raise (get d st) key_error
  rest ← dep_states st ds
  ok ((d, s) ∷ rest)

-- The dependencies that failed.
abbrev pub failed_deps : List (String × TaskStatus) → List String
failed_deps [] = []
failed_deps ((d, s) ∷ ds) = let rest = failed_deps ds in if is_failed s then d ∷ rest else rest

abbrev pub all_done : List (String × TaskStatus) → Bool
all_done [] = true
all_done ((d, s) ∷ ds) = is_done s && all_done ds

-- `"dependencies failed: {}".format(", ".join(failed))`
abbrev pub failure_reason : List String → String
failure_reason ds = join "dependencies failed: " ds

abbrev pub plan_list : Result Error TaskTransition → Result Error (List TaskTransition)
plan_list r = r >>= λ t. ok (t ∷ [])

-- The choice that one round of `preview_refresh` makes for a pending task.
abbrev pub plan_pending :
    TaskGraph → String → List (String × TaskStatus) → Result Error (List TaskTransition)
plan_pending g k states = elim (failed_deps states) [
  | [] ↦ if all_done states then plan_list (preview_transition g k ready none) else ok []
  | d ∷ ds ↦ plan_list (preview_transition g k blocked (some (failure_reason (d ∷ ds))))
]

-- One round of the loop of `preview_refresh`: no transition, or one.
unfoldable pub plan_task : TaskGraph → String × TaskSpec → Result Error (List TaskTransition)
plan_task g (k, t) = do
  status ← or_raise (get k g.statuses) key_error
  if not (status_eq status pending)
      then ok []
      else (dep_states g.statuses t.depends_on >>= λ states. plan_pending g k states)

-- `preview_refresh`: the rounds over the tasks, in the order of the dictionary.
unfoldable pub gather : TaskGraph → Dict TaskSpec → Result Error (List TaskTransition)
gather g [] = ok []
gather g (x ∷ xs) = do first ← plan_task g x; rest ← gather g xs; ok (first ++ rest)

unfoldable pub preview_refresh : TaskGraph → Result Error (List TaskTransition)
preview_refresh g = gather g g.tasks

-- `applied == planned` on the fields of two transitions.
abbrev pub transition_eq : TaskTransition → TaskTransition → Bool
transition_eq a b =
    a.task_id == b.task_id
    && (status_eq a.previous b.previous
        && (status_eq a.current b.current
            && (opt_eq a.reason b.reason && eqb a.revision b.revision)))

-- The loop of `refresh` over the planned transitions.
unfoldable pub apply_all : List TaskTransition → TaskGraph → Result Error TaskGraph
apply_all [] g = ok g
apply_all (p ∷ ps) g = do
  applied ← transition g p.task_id p.current p.reason
  guard (transition_eq applied.0 p) changed_after_preview
  apply_all ps applied.1

-- `refresh`
unfoldable pub refresh : TaskGraph → Result Error (List TaskTransition × TaskGraph)
refresh g = do transitions ← preview_refresh g; g' ← apply_all transitions g; ok (transitions, g')
