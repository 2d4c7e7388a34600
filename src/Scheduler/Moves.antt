-- ===== src/Scheduler/Moves.antt =====
-- src/quantum_entanglement/scheduler.py, `preview_transition`, `transition` and `restore_status`.
pub mod Laws
use quantum_entanglement.Prelude.{
  ℕ, zero, suc, ◌+◌, String, Bool, true, false, ◌&&◌, ◌||◌, not, List, [], ◌∷◌, ◌==◌, Option, none,
  some, eqb, ltb, leb, if◌then◌else◌, Result, ok, err, guard, or_raise, ◌>>=◌, ◌>>◌, length, all,
  select, take, ◌++◌,
}
use quantum_entanglement.Prelude.Text.{
  elem, opt_eq, join, text_le, Dict, get, put, has, keys, values, map_values,
}
use quantum_entanglement.Protocol.{
  TaskStatus, pending, ready, running, waiting_input, waiting_approval, completed, failed, blocked,
  canceled, superseded, ActionIntent,
}
use quantum_entanglement.Scheduler.Task.{
  Error, blank_title, priority_out_of_range, self_dependency, no_tasks, duplicate_task,
  missing_dependency, cycle, key_error, invalid_transition, changed_after_preview,
  negative_revision, out_of_fuel, TaskSpec, status_eq, is_done, is_failed, is_terminal_status,
  allowed, TaskTransition, TaskGraph,
}
use quantum_entanglement.Prelude.Int.{ℤ, pos, negsuc}

-- `preview_transition`
unfoldable pub preview_transition :
    TaskGraph → String → TaskStatus → Option String → Result Error TaskTransition
preview_transition g k target reason = do
  previous ← or_raise (get k g.statuses) key_error
  guard (status_eq target previous || allowed previous target) invalid_transition
  revision ← or_raise (get k g.revisions) key_error
  ok (record {
    task_id = k;
    previous = previous;
    current = target;
    reason = reason;
    revision = if status_eq target previous then revision else revision + 1;
  })

-- `if reason: self.reasons[task_id] = reason`
abbrev pub note_reason : String → Option String → Dict String → Dict String
note_reason k none d = d
note_reason k (some r) d = if r == "" then d else put k r d

-- The writes of `transition` after its preview.
abbrev pub commit : TaskGraph → String → TaskStatus → Option String → TaskTransition → TaskGraph
commit g k target reason planned = if status_eq target planned.previous then g else record g {
  statuses = put k target g.statuses;
  revisions = put k planned.revision g.revisions;
  reasons = note_reason k reason g.reasons;
}

-- `transition`
unfoldable pub transition :
    TaskGraph → String → TaskStatus → Option String → Result Error (TaskTransition × TaskGraph)
transition g k target reason = do
  planned ← preview_transition g k target reason
  ok (planned, commit g k target reason planned)

-- What `restore_status` does with the revision, after it has written the status. A negative
-- revision raises then, and the status stays written.
abbrev pub restore_revision :
    TaskGraph → String → Option String → Option ℤ → Result Error (Unit {0}) × TaskGraph
restore_revision g k reason none = (ok tt, record g { reasons = note_reason k reason g.reasons })
restore_revision g k reason (some (pos n)) =
    (ok tt, record g { revisions = put k n g.revisions; reasons = note_reason k reason g.reasons })
restore_revision g k reason (some (negsuc n)) = (err negative_revision, g)

-- `restore_status`, outside any transaction: the writes before a raise stay.
unfoldable pub restore_status :
    TaskGraph → String → TaskStatus → Option String → Option ℤ → Result Error (Unit {0}) × TaskGraph
restore_status g k status reason revision =
    if has k g.tasks
    then restore_revision (record g { statuses = put k status g.statuses }) k reason revision
    else (err key_error, g)
