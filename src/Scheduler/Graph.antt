-- ===== src/Scheduler/Graph.antt =====
-- src/quantum_entanglement/scheduler.py, `TaskGraph.__init__` and its two validations.
pub mod Acyclic
pub mod Cycles
pub mod Init
use quantum_entanglement.Prelude.{
  ℕ, zero, suc, ◌+◌, String, Bool, true, false, ◌&&◌, ◌||◌, not, List, [], ◌∷◌, ◌==◌, Option, none,
  some, eqb, ltb, leb, if◌then◌else◌, Result, ok, err, guard, or_raise, ◌>>=◌, ◌>>◌, length, all,
  select, take, ◌++◌,
}
use quantum_entanglement.Prelude.Text.{
  elem, opt_eq, join, text_le, Dict, get, put, has, keys, values, map_values,
}
use quantum_entanglement.Protocol.{
  TaskStatus, pending, ready, running, waiting_input, waiting_approval, completed, failed, blocked,
  canceled, superseded, ActionIntent,
}
use quantum_entanglement.Scheduler.Task.{
  Error, blank_title, priority_out_of_range, self_dependency, no_tasks, duplicate_task,
  missing_dependency, cycle, key_error, invalid_transition, changed_after_preview,
  negative_revision, out_of_fuel, TaskSpec, status_eq, is_done, is_failed, is_terminal_status,
  allowed, TaskTransition, TaskGraph,
}

-- The loop of `__init__` that keys the tasks by id.
unfoldable pub collect : List TaskSpec → Dict TaskSpec → Result Error (Dict TaskSpec)
collect [] d = ok d
collect (t ∷ ts) d =
    let rest = collect ts (put t.task_id t d) in
    if has t.task_id d then err duplicate_task else rest

-- `_validate_dependencies`
unfoldable pub deps_known : Dict TaskSpec → Bool
deps_known tasks = all (λ t. all (λ d. has d tasks) t.depends_on) (values tasks)

-- A loop that calls the visitor on each id, as `for dependency in ...: visit(dependency)`.
unfoldable pub visit_all :
    (String → List String → Result Error (List String))
    → List String
    → List String
    → Result Error (List String)
visit_all f [] visited = ok visited
visit_all f (d ∷ ds) visited = f d visited >>= λ visited'. visit_all f ds visited'

-- `visit` of `_validate_acyclic`. `visiting` is the path of open calls, which the source keeps in a
-- set that it restores on return; `visited` lists the finished ids, the last one first.
unfoldable pub visit :
    ℕ → Dict TaskSpec → List String → String → List String → Result Error (List String)
visit zero tasks visiting k visited = err out_of_fuel
visit (suc n) tasks visiting k visited =
    if elem k visiting
    then err cycle
    else if elem k visited
    then ok visited
    else or_raise (get k tasks) key_error >>= λ spec.
        visit_all (visit n tasks (k ∷ visiting)) spec.depends_on visited >>= λ visited'.
        ok (k ∷ visited')

-- `_validate_acyclic`, with the finished ids as its result.
unfoldable pub validate_acyclic : Dict TaskSpec → Result Error (List String)
validate_acyclic tasks = visit_all (visit (suc (length tasks)) tasks []) (keys tasks) []

-- The projections that `__init__` starts with.
abbrev pub start : Dict TaskSpec → TaskGraph
start tasks = record {
  tasks = tasks;
  statuses = map_values (λ _. pending) tasks;
  reasons = [];
  revisions = map_values (λ _. 0) tasks;
}

-- `__init__` after its loop: the two validations and the first projections.
unfoldable pub build : Dict TaskSpec → Result Error TaskGraph
build tasks = do
  guard (deps_known tasks) missing_dependency
  order ← validate_acyclic tasks
  ok (start tasks)

-- `TaskGraph.__init__`
unfoldable pub init : List TaskSpec → Result Error TaskGraph
init [] = err no_tasks
init (t ∷ ts) = collect (t ∷ ts) [] >>= build
