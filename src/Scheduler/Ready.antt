-- ===== src/Scheduler/Ready.antt =====
-- src/quantum_entanglement/scheduler.py, `ready` and `is_terminal`.
pub mod Laws
use quantum_entanglement.Prelude.{
  ℕ, zero, suc, ◌+◌, String, Bool, true, false, ◌&&◌, ◌||◌, not, List, [], ◌∷◌, ◌==◌, Option, none,
  some, eqb, ltb, leb, if◌then◌else◌, Result, ok, err, guard, or_raise, ◌>>=◌, ◌>>◌, length, all,
  select, take, ◌++◌,
}
use quantum_entanglement.Prelude.Text.{
  elem, opt_eq, join, text_le, Dict, get, put, has, keys, values, map_values,
}
use quantum_entanglement.Protocol.{
  TaskStatus, pending, ready, running, waiting_input, waiting_approval, completed, failed, blocked,
  canceled, superseded, ActionIntent,
}
use quantum_entanglement.Scheduler.Task.{
  Error, blank_title, priority_out_of_range, self_dependency, no_tasks, duplicate_task,
  missing_dependency, cycle, key_error, invalid_transition, changed_after_preview,
  negative_revision, out_of_fuel, TaskSpec, status_eq, is_done, is_failed, is_terminal_status,
  allowed, TaskTransition, TaskGraph,
}

-- The key `(-priority, task_id)`: a task of higher priority first, ties by the text order of ids.
unfoldable pub not_after : TaskSpec → TaskSpec → Bool
not_after a b =
    ltb b.priority a.priority || (eqb a.priority b.priority && text_le a.task_id b.task_id)

-- A stable sort by that key.
unfoldable pub insert : TaskSpec → List TaskSpec → List TaskSpec
insert a [] = a ∷ []
insert a (b ∷ bs) = if not_after a b then a ∷ b ∷ bs else b ∷ insert a bs

unfoldable pub sort : List TaskSpec → List TaskSpec
unfolding insert
sort [] = []
sort (a ∷ rest) = insert a (sort rest)

-- The tasks whose status is `ready`.
unfoldable pub candidates : TaskGraph → Dict TaskSpec → Result Error (List TaskSpec)
candidates g [] = ok []
candidates g ((k, t) ∷ ts) = do
  status ← or_raise (get k g.statuses) key_error
  rest ← candidates g ts
  ok (if status_eq status ready then t ∷ rest else rest)

-- `candidates[:limit] if limit is not None else candidates`, for a limit that is not negative
abbrev pub limited : Option ℕ → List TaskSpec → List TaskSpec
limited none ts = ts
limited (some n) ts = take n ts

-- `ready`
unfoldable pub ready_tasks : TaskGraph → Option ℕ → Result Error (List TaskSpec)
ready_tasks g limit = candidates g g.tasks >>= λ ts. ok (limited limit (sort ts))

-- `is_terminal`
unfoldable pub is_terminal : TaskGraph → Bool
is_terminal g = all is_terminal_status (values g.statuses)
