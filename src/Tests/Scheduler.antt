-- ===== src/Tests/Scheduler.antt =====
-- The theorems on task graphs (src/quantum_entanglement/scheduler.py) at a concrete graph.
use quantum_entanglement.Prelude.{
  ℕ, String, false, List, [], ◌∷◌, none, some, ok, err, ◌≡◌, refl, ◌⊎◌,
}
use mathlib.Core.List.{Perm}
use quantum_entanglement.Prelude.Text.{Dict, get}
use quantum_entanglement.Protocol.{
  pending, ready, running, completed, failed, blocked, no_risk, ActionIntent,
}
use quantum_entanglement.Scheduler.Task.{cycle, TaskSpec, TaskTransition, TaskGraph}
use quantum_entanglement.Scheduler.Graph.{
  collect, deps_known, visit_all, visit, validate_acyclic, build, start, init,
}
use quantum_entanglement.Scheduler.Graph.Acyclic.{Chain}
use quantum_entanglement.Scheduler.Graph.Cycles.{Known, validate_acyclic_decides}
use quantum_entanglement.Scheduler.Graph.Init.{Built, init-Built, deps_known-Known}
use quantum_entanglement.Scheduler.Moves.{preview_transition, commit, transition}
use quantum_entanglement.Scheduler.Moves.Laws.{
  Moved, transition_lem, still, step, final_forever, IsDoneAt, done_forever,
}
use quantum_entanglement.Scheduler.Refresh.{refresh}
use quantum_entanglement.Scheduler.Refresh.Laws.{Refreshed, refresh_lem}
use quantum_entanglement.Scheduler.Refresh.Reach.{refresh_reachable}
use quantum_entanglement.Scheduler.Ready.{not_after, insert, sort, candidates, limited, ready_tasks}
use quantum_entanglement.Scheduler.Ready.Laws.{IsOrdered, ready_of, ready_tasks_lem}

abbrev analyze : ActionIntent
analyze = record {
  action = "analyze";
  target = "";
  risk = no_risk;
  external_side_effect = false;
  irreversible = false;
  data_classes = [];
}

abbrev task : String → List String → ℕ → TaskSpec
task k depends_on priority = record {
  title = k;
  agent_id = "coder";
  task_id = k;
  depends_on = depends_on;
  input_artifacts = [];
  action = analyze;
  priority = priority;
}

-- `build` needs `design`, and `ship` needs both.
abbrev plan : List TaskSpec
plan =
    task "ship" ("build" ∷ "design" ∷ []) 10
    ∷ task "design" [] 50
    ∷ task "build" ("design" ∷ []) 60
    ∷ []

abbrev tasks : Dict TaskSpec
tasks =
    ("ship", task "ship" ("build" ∷ "design" ∷ []) 10)
    ∷ ("design", task "design" [] 50)
    ∷ ("build", task "build" ("design" ∷ []) 60)
    ∷ []

inits : init plan ≡ ok (start tasks)
unfolding init collect build deps_known validate_acyclic visit_all visit
inits = refl

init-Built_example : Built (start tasks)
init-Built_example = init-Built plan (start tasks) inits

tasks-Known : Known tasks
unfolding deps_known
tasks-Known = deps_known-Known tasks refl

accepted : validate_acyclic tasks ≡ ok ("ship" ∷ "build" ∷ "design" ∷ [])
unfolding validate_acyclic visit_all visit
accepted = refl

validate_acyclic_decides_example :
    ((order : List String) × (validate_acyclic tasks ≡ ok order)
      × ((x : String) → ¬ Chain tasks x x))
    ⊎ ((validate_acyclic tasks ≡ err cycle) × ((x : String) × Chain tasks x x))
validate_acyclic_decides_example = validate_acyclic_decides tasks tasks-Known

-- `design` runs, and fails.
abbrev designed : TaskGraph
designed = record (start tasks) {
  statuses = ("ship", pending) ∷ ("design", running) ∷ ("build", pending) ∷ [];
}

abbrev failure : TaskTransition
failure = record {
  task_id = "design";
  previous = running;
  current = failed;
  reason = some "timeout";
  revision = 1;
}

abbrev after_failure : TaskGraph
after_failure = commit designed "design" failed (some "timeout") failure

fails : transition designed "design" failed (some "timeout") ≡ ok (failure, after_failure)
unfolding transition preview_transition
fails = refl

transition_lem_example : Moved designed "design" failed (some "timeout") failure after_failure
transition_lem_example =
    transition_lem designed after_failure "design" failed (some "timeout") failure fails

abbrev blocking : TaskTransition
blocking = record {
  task_id = "build";
  previous = pending;
  current = blocked;
  reason = none;
  revision = 1;
}

abbrev after_blocking : TaskGraph
after_blocking = commit after_failure "build" blocked none blocking

blocks : transition after_failure "build" blocked none ≡ ok (blocking, after_blocking)
unfolding transition preview_transition
blocks = refl

final_forever_example : get "design" after_blocking.statuses ≡ some failed
final_forever_example =
    final_forever "design" failed (step "build" blocked none blocking blocks still) refl refl

abbrev finished : TaskGraph
finished = record (start tasks) {
  statuses = ("ship", pending) ∷ ("design", completed) ∷ ("build", pending) ∷ [];
}

abbrev starting : TaskTransition
starting = record {
  task_id = "build";
  previous = pending;
  current = ready;
  reason = none;
  revision = 1;
}

readies :
    transition finished "build" ready none
    ≡ ok (starting, commit finished "build" ready none starting)
unfolding transition preview_transition
readies = refl

done_forever_example : IsDoneAt (commit finished "build" ready none starting) "design"
done_forever_example =
    done_forever "design" (step "build" ready none starting readies still) (completed, refl, refl)

refresh_lem_example :
    (planned : List TaskTransition) × (g' : TaskGraph) × (refresh (start tasks) ≡ ok (planned, g'))
    × Refreshed (start tasks) g'
refresh_lem_example = refresh_lem (start tasks) (init-Built plan (start tasks) inits).formed

-- `design` and `build` are ready: the one of higher priority comes first.
abbrev two_ready : TaskGraph
two_ready = record (start tasks) {
  statuses = ("ship", pending) ∷ ("design", ready) ∷ ("build", ready) ∷ [];
}

finds : ready_tasks two_ready (some 1) ≡ ok (task "build" ("design" ∷ []) 60 ∷ [])
unfolding ready_tasks candidates sort insert not_after
finds = refl

ready_tasks_lem_example :
    (full : List TaskSpec) × (task "build" ("design" ∷ []) 60 ∷ [] ≡ limited (some 1) full)
    × Perm full (ready_of two_ready two_ready.tasks)
    × IsOrdered full
ready_tasks_lem_example =
    ready_tasks_lem two_ready (some 1) (task "build" ("design" ∷ []) 60 ∷ []) finds

-- `design` is readied and started.
abbrev readying : TaskTransition
readying = record {
  task_id = "design";
  previous = pending;
  current = ready;
  reason = none;
  revision = 1;
}

first_move :
    transition (start tasks) "design" ready none
    ≡ ok (readying, commit (start tasks) "design" ready none readying)
unfolding transition preview_transition
first_move = refl

refresh_reachable_example :
    let g = commit (start tasks) "design" ready none readying in
    (planned : List TaskTransition) × (after : TaskGraph) × (refresh g ≡ ok (planned, after))
    × Refreshed g after
refresh_reachable_example =
    refresh_reachable plan (start tasks) (commit (start tasks) "design" ready none readying) inits
      (step "design" ready none readying first_move still)
