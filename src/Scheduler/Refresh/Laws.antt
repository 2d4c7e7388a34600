-- ===== src/Scheduler/Refresh/Laws.antt =====
-- `refresh` (src/quantum_entanglement/scheduler.py) on a well-formed graph.
use quantum_entanglement.Prelude.{
  String, true, false, List, [], ◌∷◌, Option, some, ok, all, ◌≡◌, refl, arith, eq_iff, eq_refl, inl,
  inr, sym, ap, ◌∙◌,
}
use quantum_entanglement.Prelude.Text.{
  elem, Dict, get, has, keys, has-get, elem-keys, has_of_keys, get-has, Distinct,
}
use quantum_entanglement.Protocol.{TaskStatus}
use quantum_entanglement.Scheduler.Task.{TaskSpec, TaskTransition, TaskGraph}
use quantum_entanglement.Scheduler.Moves.{preview_transition, commit, transition}
use quantum_entanglement.Scheduler.Moves.Laws.{Moved, transition_lem}
use quantum_entanglement.Scheduler.Graph.Init.{WellFormed}
use quantum_entanglement.Scheduler.Refresh.{plan_task, gather, preview_refresh, apply_all, refresh}
use quantum_entanglement.Scheduler.Refresh.Plan.{next_status, plan_task_lem, transition_eq_refl}

-- The rounds over `xs` plan transitions that can be applied to any graph that agrees with `g` there.
record Applied (g : TaskGraph) (xs : Dict TaskSpec) (h : TaskGraph) : Type 0 where
  planned : List TaskTransition
  after : TaskGraph
  gathers : gather g xs ≡ ok planned
  runs : apply_all planned h ≡ ok after
  tasks : after.tasks ≡ h.tasks
  others :
      (j : String)
      → has j xs ≡ false
      → (get j after.statuses ≡ get j h.statuses) × (get j after.revisions ≡ get j h.revisions)
  settled :
      (j : String) (t : TaskSpec) (s : TaskStatus)
      → get j xs ≡ some t
      → get j g.statuses ≡ some s
      → get j after.statuses ≡ some (next_status g.statuses t s)

-- `h` has what `g` has at the tasks of `xs`.
abbrev Agree : TaskGraph → TaskGraph → Dict TaskSpec → Type 0
Agree g h xs =
    (j : String)
    → has j xs ≡ true
    → (get j h.statuses ≡ get j g.statuses) × (get j h.revisions ≡ get j g.revisions)

-- Every task of `xs` has a status and a revision in `g`, and its dependencies have a status.
abbrev Covered : TaskGraph → Dict TaskSpec → Type 0
Covered g xs =
    (j : String) (t : TaskSpec)
    → get j xs ≡ some t
    → (has j g.statuses ≡ true)
      × (has j g.revisions ≡ true)
      × (all (λ d. has d g.statuses) t.depends_on ≡ true)

preview_agree :
    (g h : TaskGraph) (k : String) (target : TaskStatus) (reason : Option String)
    → get k h.statuses ≡ get k g.statuses
    → get k h.revisions ≡ get k g.revisions
    → preview_transition h k target reason ≡ preview_transition g k target reason
unfolding preview_transition
preview_agree g h k target reason s r = rw (s, r)

apply_step :
    (h h₁ : TaskGraph) (p : TaskTransition) (ps : List TaskTransition)
    → transition h p.task_id p.current p.reason ≡ ok (p, h₁)
    → apply_all (p ∷ ps) h ≡ apply_all ps h₁
unfolding apply_all
apply_step h h₁ p ps e = rw (e, transition_eq_refl p)

transition_of_preview :
    (h : TaskGraph) (k : String) (p : TaskTransition)
    → preview_transition h k p.current p.reason ≡ ok p
    → transition h k p.current p.reason ≡ ok (p, commit h k p.current p.reason p)
unfolding transition
transition_of_preview h k p e = rw e

-- A round that plans nothing.
Applied-skip :
    (g : TaskGraph) (k : String) (t : TaskSpec) (s : TaskStatus) (xs : Dict TaskSpec)
    (h : TaskGraph)
    → has k xs ≡ false
    → get k g.statuses ≡ some s
    → get k h.statuses ≡ some s
    → plan_task g (k, t) ≡ ok []
    → next_status g.statuses t s ≡ s
    → Applied g xs h
    → Applied g ((k, t) ∷ xs) h
unfolding gather
Applied-skip g k t s xs h new gs hs e stays a = record {
  planned = a.planned;
  after = a.after;
  gathers = rw (e, a.gathers);
  runs = a.runs;
  tasks = a.tasks;
  others = λ j out. a.others j (ground arith);
  settled = λ j t' s' gt gs'. ground (arith, eq_iff k j, a.settled j t' s', a.others j);
}

-- A round that plans the transition `p`.
Applied-move :
    (g : TaskGraph) (k : String) (t : TaskSpec) (s : TaskStatus) (xs : Dict TaskSpec)
    (h h₁ : TaskGraph) (p : TaskTransition)
    → has k xs ≡ false
    → get k g.statuses ≡ some s
    → plan_task g (k, t) ≡ ok (p ∷ [])
    → p.current ≡ next_status g.statuses t s
    → Moved h k p.current p.reason p h₁
    → ((ps : List TaskTransition) → apply_all (p ∷ ps) h ≡ apply_all ps h₁)
    → Applied g xs h₁
    → Applied g ((k, t) ∷ xs) h
unfolding gather
Applied-move g k t s xs h h₁ p new gs e next m apply a = record {
  planned = p ∷ a.planned;
  after = a.after;
  gathers = rw (e, a.gathers);
  runs = apply a.planned ∙ a.runs;
  tasks = a.tasks ∙ m.tasks;
  others = λ j out. ground (arith, a.others j, m.statuses j, m.revisions j);
  settled =
      λ j t' s' gt gs'. ground (arith, eq_iff k j, a.settled j t' s', a.others j, m.statuses j);
}

applied :
    (g : TaskGraph) (xs : Dict TaskSpec) (h : TaskGraph)
    → Distinct (keys xs)
    → Covered g xs
    → Agree g h xs
    → Applied g xs h
unfolding gather apply_all
applied g [] h u c a = record {
  planned = [];
  after = h;
  gathers = refl;
  runs = refl;
  tasks = refl;
  others = λ j out. (refl, refl);
  settled = λ j t s gt gs. cc;
}
applied g ((k, t) ∷ xs) h (new, u) c a =
    let covered = c k t (ground (arith, eq_refl k)) in
    let (s, gs) = has-get k g.statuses covered.0 in
    let (r, gr) = has-get k g.revisions covered.1 in
    let absent : has k xs ≡ false = sym (elem-keys k xs) ∙ new in
    let here = a k (ground (arith, eq_refl k)) in
    let cover_rest : Covered g xs =
      λ j t' e. c j t' (ground (arith, eq_iff k j, get-has j t' xs)) in
    elim (plan_task_lem g k t s r gs gr covered.2) [
      | inl (none_planned, stays) ↦
          Applied-skip g k t s xs h absent gs (here.0 ∙ gs) none_planned stays
            (applied g xs h u cover_rest (λ j m. a j (ground arith)))
      | inr (p, planned, previewed, id, next) ↦
          let e : preview_transition h k p.current p.reason ≡ ok p =
            preview_agree g h k p.current p.reason here.0 here.1 ∙ previewed in
          let h₁ = commit h k p.current p.reason p in
          let moves = transition_of_preview h k p e in
          let m = transition_lem h h₁ k p.current p.reason p moves in
          Applied-move g k t s xs h h₁ p absent gs planned next m
            (λ ps.
              apply_step h h₁ p ps
                (ap (λ (i : String). transition h i p.current p.reason) id ∙ moves))
            (applied g xs h₁ u cover_rest (λ j here_too.
              let at = a j (ground arith) in
              ground (arith, at, m.statuses j, m.revisions j, eq_iff k j)))
    ]

-- What `refresh` leaves: the same tasks, and for each the status that its dependencies called for.
pub record Refreshed (g g' : TaskGraph) : Type 0 where
  pub tasks : g'.tasks ≡ g.tasks
  pub settled :
      (j : String) (t : TaskSpec) (s : TaskStatus)
      → get j g.tasks ≡ some t
      → get j g.statuses ≡ some s
      → get j g'.statuses ≡ some (next_status g.statuses t s)

all_covered :
    (g : TaskGraph)
    → WellFormed g
    → (j : String) (t : TaskSpec) → get j g.tasks ≡ some t
    → (ds : List String) → ((y : String) → elem y ds ≡ true → elem y t.depends_on ≡ true)
    → all (λ d. has d g.statuses) ds ≡ true
all_covered g w j t e [] sub = refl
all_covered g w j t e (d ∷ ds) sub =
    let known = w.known j d (t, e, sub d (ground (arith, eq_refl d))) in
    rw (has_of_keys d g.statuses g.tasks w.statuses ∙ known)
      (all_covered g w j t e ds (λ y m. sub y (ground arith)))

covered : (g : TaskGraph) → WellFormed g → Covered g g.tasks
covered g w j t e = (
  has_of_keys j g.statuses g.tasks w.statuses ∙ get-has j t g.tasks e,
  has_of_keys j g.revisions g.tasks w.revisions ∙ get-has j t g.tasks e,
  all_covered g w j t e t.depends_on (λ y m. m),
)

-- On a well-formed graph `refresh` raises no error: each planned transition is applied as it was
-- planned. A pending task is blocked if a dependency failed, was blocked or canceled before the
-- call, becomes ready if all its dependencies are done, and every other task keeps its status.
pub refresh_lem :
    (g : TaskGraph)
    → WellFormed g
    → (planned : List TaskTransition) × (g' : TaskGraph) × (refresh g ≡ ok (planned, g'))
      × Refreshed g g'
unfolding refresh preview_refresh
refresh_lem g w =
    let a = applied g g.tasks g w.unique (covered g w) (λ j m. (refl, refl)) in
    (a.planned, a.after, rw (a.gathers, a.runs), record { tasks = a.tasks; settled = a.settled })
