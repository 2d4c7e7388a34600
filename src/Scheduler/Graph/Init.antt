-- ===== src/Scheduler/Graph/Init.antt =====
-- The graph that `TaskGraph.__init__` (src/quantum_entanglement/scheduler.py) builds.
use quantum_entanglement.Prelude.{
  String, true, false, List, [], ◌∷◌, some, ok, guard, ◌>>=◌, all, All, ◌≡◌, refl, arith, eq_iff,
  Bool-cases, inl, inr, >>=-eq-ok,
}
use quantum_entanglement.Prelude.Text.{
  elem, Dict, get, put, has, keys, values, Distinct, Distinct-put, keys-map_values, get-map_values,
  has-get,
}
use quantum_entanglement.Protocol.{pending}
use quantum_entanglement.Scheduler.Task.{missing_dependency, TaskSpec, TaskGraph}
use quantum_entanglement.Scheduler.Graph.{collect, deps_known, validate_acyclic, start, build, init}
use quantum_entanglement.Scheduler.Graph.Acyclic.{Chain, validate_acyclic_sound}
use quantum_entanglement.Scheduler.Graph.Cycles.{Known}

-- Each task is kept under its own id.
abbrev pub Keyed : Dict TaskSpec → Type 0
Keyed = All (λ (e : String × TaskSpec). e.1.task_id ≡ e.0)

Keyed-put :
    (t : TaskSpec) (d : Dict TaskSpec)
    → has t.task_id d ≡ false
    → Keyed d
    → Keyed (put t.task_id t d)
Keyed-put t [] h k = (refl, tt)
Keyed-put t ((j, w) ∷ d) h k = ground (arith, Keyed-put t d)

collect_lem :
    (ts : List TaskSpec) (d d' : Dict TaskSpec)
    → Distinct (keys d)
    → Keyed d
    → collect ts d ≡ ok d'
    → Distinct (keys d') × Keyed d'
unfolding collect
collect_lem [] d d' u k e = let e' : d ≡ d' = cc in rw (← e') (u, k)
collect_lem (t ∷ ts) d d' u k e = elim (Bool-cases (has t.task_id d)) [
  | inl old ↦ ground arith
  | inr new ↦
      collect_lem ts (put t.task_id t d) d' (Distinct-put t.task_id t d u) (Keyed-put t d new k)
        (ground arith)
]

all-has :
    (y : String) (ds : List String) (tasks : Dict TaskSpec)
    → all (λ d. has d tasks) ds ≡ true
    → elem y ds ≡ true
    → has y tasks ≡ true
all-has y [] tasks h m = cc
all-has y (d ∷ ds) tasks h m = ground (arith, all-has y ds tasks, eq_iff y d)

value_known :
    (tasks d : Dict TaskSpec) (x : String) (s : TaskSpec)
    → all (λ t. all (λ y. has y tasks) t.depends_on) (values d) ≡ true
    → get x d ≡ some s
    → all (λ y. has y tasks) s.depends_on ≡ true
value_known tasks [] x s h g = cc
value_known tasks ((j, t) ∷ d) x s h g = ground (arith, value_known tasks d x s)

-- The test of `_validate_dependencies` is what the check for cycles needs.
pub deps_known-Known : (tasks : Dict TaskSpec) → deps_known tasks ≡ true → Known tasks
unfolding deps_known
deps_known-Known tasks h x y (s, g, m) =
    all-has y s.depends_on tasks (value_known tasks tasks x s h g) m

-- The invariant of a graph: every dictionary has the keys of the tasks, in the same order.
pub record WellFormed (g : TaskGraph) : Type 0 where
  pub unique : Distinct (keys g.tasks)
  pub keyed : Keyed g.tasks
  pub statuses : keys g.statuses ≡ keys g.tasks
  pub revisions : keys g.revisions ≡ keys g.tasks
  pub known : Known g.tasks

-- A graph that could be built is well formed and has no cycle, and each of its tasks is pending at
-- revision 0.
pub record Built (g : TaskGraph) : Type 0 where
  pub formed : WellFormed g
  pub acyclic : (x : String) → ¬ Chain g.tasks x x
  pub at_start :
      (k : String)
      → has k g.tasks ≡ true
      → (get k g.statuses ≡ some pending) × (get k g.revisions ≡ some 0)

start-Built :
    (tasks : Dict TaskSpec)
    → Distinct (keys tasks)
    → Keyed tasks
    → Known tasks
    → ((x : String) → ¬ Chain tasks x x)
    → Built (start tasks)
start-Built tasks u k known acyclic = record {
  formed = record {
    unique = u;
    keyed = k;
    statuses = keys-map_values (λ _. pending) tasks;
    revisions = keys-map_values (λ _. 0) tasks;
    known = known;
  };
  acyclic = acyclic;
  at_start = λ x h.
      let (s, g) = has-get x tasks h in
      (get-map_values (λ _. pending) x s tasks g, get-map_values (λ _. 0) x s tasks g);
}

build-Built :
    (tasks : Dict TaskSpec) (g : TaskGraph)
    → Distinct (keys tasks)
    → Keyed tasks
    → build tasks ≡ ok g
    → Built g
unfolding build
build-Built tasks g u k e =
    let checked =
      >>=-eq-ok (guard (deps_known tasks) missing_dependency)
        (λ _. validate_acyclic tasks >>= λ _. ok (start tasks)) e in
    let (order, passed, made) =
      >>=-eq-ok (validate_acyclic tasks) (λ _. ok (start tasks)) checked.2 in
    let known : deps_known tasks ≡ true = ground (arith, checked.1) in
    let same : start tasks ≡ g = ground (arith, made) in
    rw (← same) (
      start-Built tasks u k (deps_known-Known tasks known)
        (λ x. validate_acyclic_sound tasks order x passed))

-- Building a graph that does not raise gives a well-formed graph without cycles, all of whose tasks
-- are pending at revision 0.
pub init-Built : (ts : List TaskSpec) (g : TaskGraph) → init ts ≡ ok g → Built g
unfolding init
init-Built [] g e = cc
init-Built (t ∷ ts) g e =
    let (tasks, collected, made) = >>=-eq-ok (collect (t ∷ ts) []) build e in
    let facts = collect_lem (t ∷ ts) [] tasks tt tt collected in
    build-Built tasks g facts.0 facts.1 made
