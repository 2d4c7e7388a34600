-- ===== src/Scheduler/Refresh/Reach.antt =====
-- The graphs that `transition` reaches (src/quantum_entanglement/scheduler.py).
use quantum_entanglement.Prelude.{
  String, true, List, Option, ok, >>=-eq-ok, ◌≡◌, ◌∙◌, arith, Bool-cases, inl, inr,
}
use quantum_entanglement.Prelude.Text.{has, keys-put, get-has}
use quantum_entanglement.Protocol.{TaskStatus}
use quantum_entanglement.Scheduler.Task.{TaskSpec, TaskTransition, TaskGraph, status_eq}
use quantum_entanglement.Scheduler.Graph.{init}
use quantum_entanglement.Scheduler.Graph.Init.{WellFormed, init-Built}
use quantum_entanglement.Scheduler.Moves.{preview_transition, commit, transition}
use quantum_entanglement.Scheduler.Moves.Laws.{transition_lem, Moves, still, step}
use quantum_entanglement.Scheduler.Refresh.{refresh}
use quantum_entanglement.Scheduler.Refresh.Laws.{Refreshed, refresh_lem}

commit-WellFormed :
    (g : TaskGraph) (k : String) (target : TaskStatus) (reason : Option String) (p : TaskTransition)
    → has k g.statuses ≡ true
    → has k g.revisions ≡ true
    → WellFormed g
    → WellFormed (commit g k target reason p)
commit-WellFormed g k target reason p stated revised w =
    elim (Bool-cases (status_eq target p.previous)) [
      | inl same ↦ rw same w
      | inr other ↦ rw other (record {
        unique = w.unique;
        keyed = w.keyed;
        statuses = keys-put k target g.statuses stated ∙ w.statuses;
        revisions = keys-put k p.revision g.revisions revised ∙ w.revisions;
        known = w.known;
      })
    ]

transition-WellFormed :
    (g g' : TaskGraph) (k : String) (target : TaskStatus) (reason : Option String)
    (p : TaskTransition)
    → transition g k target reason ≡ ok (p, g')
    → WellFormed g
    → WellFormed g'
unfolding transition
transition-WellFormed g g' k target reason p e w =
    let m = transition_lem g g' k target reason p e in
    let (q, _, done) =
      >>=-eq-ok (preview_transition g k target reason)
        (λ planned. ok (planned, commit g k target reason planned)) e in
    let left : commit g k target reason q ≡ g' = ground (arith, done) in
    rw left at (
      commit-WellFormed g k target reason q (get-has k p.previous g.statuses m.was)
        (get-has k m.counted.0 g.revisions m.counted.1) w)

Moves-WellFormed : {g g' : TaskGraph} → Moves g g' → WellFormed g → WellFormed g'
Moves-WellFormed still w = w
Moves-WellFormed (step {g = g} {h = h} k target reason p e rest) w =
    Moves-WellFormed rest (transition-WellFormed g h k target reason p e w)

-- From a graph that could be built, and after whatever transitions, `refresh` raises no error, and
-- leaves each task with the status that its dependencies called for.
pub refresh_reachable :
    (plan : List TaskSpec) (g g' : TaskGraph)
    → init plan ≡ ok g
    → Moves g g'
    → (planned : List TaskTransition) × (after : TaskGraph) × (refresh g' ≡ ok (planned, after))
      × Refreshed g' after
refresh_reachable plan g g' built moves =
    refresh_lem g' (Moves-WellFormed moves (init-Built plan g built).formed)
