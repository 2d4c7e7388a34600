-- ===== src/Scheduler/Moves/Laws.antt =====
-- The transitions of the graph (src/quantum_entanglement/scheduler.py), alone and in sequence.
use quantum_entanglement.Prelude.{
  ℕ, ◌+◌, String, Bool, true, false, ◌||◌, ◌==◌, Option, none, some, if◌then◌else◌, ok, err, ◌≡◌,
  refl, arith, eq_iff, Bool-cases, Option-cases, inl, inr, >>=-eq-ok, ◌⊎◌,
}
use quantum_entanglement.Prelude.Int.{negsuc}
use quantum_entanglement.Prelude.Text.{Dict, get, has, get-put}
use quantum_entanglement.Protocol.{TaskStatus, superseded}
use quantum_entanglement.Scheduler.Task.{
  negative_revision, TaskTransition, TaskGraph, status_eq, allowed, is_done, is_failed,
}
use quantum_entanglement.Scheduler.Moves.{
  preview_transition, note_reason, commit, transition, restore_status,
}

pub status_eq→eq : (a b : TaskStatus) → status_eq a b ≡ true → a ≡ b
status_eq→eq a b h = ground arith

-- The reason that a task is left with: the one that is given with a change of status, if it is a text that
-- is not empty, and else the one that it had.
abbrev pub reason_after : Bool → Option String → Option String → Option String
reason_after unchanged none old = old
reason_after unchanged (some r) old = if unchanged || r == "" then old else some r

-- What a transition that did not raise has done.
pub record Moved (g : TaskGraph) (k : String) (target : TaskStatus) (reason : Option String)
    (p : TaskTransition) (g' : TaskGraph) : Type 0 where
  pub was : get k g.statuses ≡ some p.previous
  pub at : p.task_id ≡ k
  pub became : p.current ≡ target
  pub legal : (target ≡ p.previous) ⊎ (allowed p.previous target ≡ true)
  pub statuses :
      (j : String) → get j g'.statuses ≡ (if k == j then some target else get j g.statuses)
  pub revisions :
      (j : String) → get j g'.revisions ≡ (if k == j then some p.revision else get j g.revisions)
  pub reasons :
      (j : String)
      → get j g'.reasons ≡ (
          if k == j
          then reason_after (status_eq target p.previous) reason (get k g.reasons)
          else get j g.reasons)
  pub noted : p.reason ≡ reason
  pub counted :
      (r : ℕ) × (get k g.revisions ≡ some r)
      × (p.revision ≡ (if status_eq target p.previous then r else r + 1))
  pub tasks : g'.tasks ≡ g.tasks

preview_lem :
    (g : TaskGraph) (k : String) (target : TaskStatus) (reason : Option String) (p : TaskTransition)
    → preview_transition g k target reason ≡ ok p
    → (s : TaskStatus) × (r : ℕ) × (get k g.statuses ≡ some s)
      × (get k g.revisions ≡ some r)
      × ((status_eq target s || allowed s target) ≡ true)
      × (p ≡ record {
        task_id = k;
        previous = s;
        current = target;
        reason = reason;
        revision = if status_eq target s then r else r + 1;
      })
unfolding preview_transition
preview_lem g k target reason p e = elim (Option-cases (get k g.statuses)) [
  | inl absent ↦ ground arith
  | inr (s, gs) ↦ elim (Option-cases (get k g.revisions)) [
    | inl absent ↦ ground arith
    | inr (r, gr) ↦ elim (Bool-cases (status_eq target s || allowed s target)) [
      | inl legal ↦ (s, r, gs, gr, legal, ground arith)
      | inr illegal ↦ ground arith
    ]
  ]
]

reason_after-unchanged : (reason old : Option String) → reason_after true reason old ≡ old
reason_after-unchanged none old = refl
reason_after-unchanged (some r) old = refl

unmoved_reasons :
    (g g' : TaskGraph) (k : String) (target s : TaskStatus) (reason : Option String)
    (p : TaskTransition) (j : String)
    → status_eq target s ≡ true
    → p.previous ≡ s
    → g' ≡ g
    → get j g'.reasons ≡ (
        if k == j
        then reason_after (status_eq target p.previous) reason (get k g.reasons)
        else get j g.reasons)
unmoved_reasons g g' k target s reason p j same was stays =
    rw (was, stays, same, reason_after-unchanged reason (get k g.reasons))
      (ground (arith, eq_iff k j))

note_reason-get :
    (k j : String) (reason : Option String) (d : Dict String)
    → get j (note_reason k reason d)
      ≡ (if k == j then reason_after false reason (get k d) else get j d)
note_reason-get k j none d = ground (arith, eq_iff k j)
note_reason-get k j (some r) d = ground (arith, get-put k j r d, eq_iff k j)

moved_reasons :
    (g g' : TaskGraph) (k : String) (target s : TaskStatus) (reason : Option String)
    (p : TaskTransition) (j : String)
    → status_eq target s ≡ false
    → p.previous ≡ s
    → commit g k target reason p ≡ g'
    → get j g'.reasons ≡ (
        if k == j
        then reason_after (status_eq target p.previous) reason (get k g.reasons)
        else get j g.reasons)
moved_reasons g g' k target s reason p j differs was result =
    rw (← result, was, differs) (note_reason-get k j reason g.reasons)

moved :
    (g g' : TaskGraph) (k : String) (target s : TaskStatus) (reason : Option String)
    (p : TaskTransition) (r : ℕ)
    → get k g.statuses ≡ some s
    → get k g.revisions ≡ some r
    → (status_eq target s || allowed s target) ≡ true
    → p ≡ record {
      task_id = k;
      previous = s;
      current = target;
      reason = reason;
      revision = if status_eq target s then r else r + 1;
    }
    → commit g k target reason p ≡ g'
    → Moved g k target reason p g'
moved g g' k target s reason p r gs gr legal shape result = elim (Bool-cases (status_eq target s)) [
  | inl same ↦
      let stays : target ≡ s = status_eq→eq target s same in
      record {
        was = ground arith;
        at = ground arith;
        became = ground arith;
        legal = inl (ground arith);
        statuses = λ j. ground (arith, eq_iff k j);
        revisions = λ j. ground (arith, eq_iff k j);
        reasons =
            λ j. unmoved_reasons g g' k target s reason p j same (ground arith) (ground arith);
        noted = ground arith;
        counted = (r, gr, ground arith);
        tasks = ground arith;
      }
  | inr differs ↦ record {
    was = ground arith;
    at = ground arith;
    became = ground arith;
    legal = inr (ground arith);
    statuses = λ j. ground (arith, get-put k j target g.statuses);
    revisions = λ j. ground (arith, get-put k j p.revision g.revisions);
    reasons = λ j. moved_reasons g g' k target s reason p j differs (ground arith) result;
    noted = ground arith;
    counted = (r, gr, ground arith);
    tasks = ground arith;
  }
]

-- A transition that does not raise starts at the task's status, goes to the status asked for, by an
-- edge of the table or to the status it had, counts one revision exactly if the status changes, and
-- leaves every other task, its reason included, and the task definitions, alone. The task's reason
-- becomes the given one if the status changes and the reason is a text that is not empty, and stays otherwise.
pub transition_lem :
    (g g' : TaskGraph) (k : String) (target : TaskStatus) (reason : Option String)
    (p : TaskTransition)
    → transition g k target reason ≡ ok (p, g')
    → Moved g k target reason p g'
unfolding transition
transition_lem g g' k target reason p e =
    let (q, previewed, done) =
      >>=-eq-ok (preview_transition g k target reason)
        (λ planned. ok (planned, commit g k target reason planned)) e in
    let same : q ≡ p = ground (arith, done) in
    let result : commit g k target reason q ≡ g' = ground (arith, done) in
    let (s, r, gs, gr, legal, shape) = preview_lem g k target reason q previewed in
    moved g g' k target s reason p r gs gr legal (ground arith) (ground arith)

-- Any number of transitions, one after the other.
pub data Moves : TaskGraph → TaskGraph → Type 0 where
  still : {g : TaskGraph} → Moves g g
  step :
      {g h g' : TaskGraph} (k : String) (target : TaskStatus) (reason : Option String)
      (p : TaskTransition)
      → transition g k target reason ≡ ok (p, h)
      → Moves h g'
      → Moves g g'

-- The statuses that no edge leaves.
abbrev pub is_final : TaskStatus → Bool
is_final s = is_failed s || status_eq s superseded

final_step :
    (g g' : TaskGraph) (k j : String) (target s : TaskStatus) (reason : Option String)
    (p : TaskTransition)
    → Moved g k target reason p g'
    → get j g.statuses ≡ some s
    → is_final s ≡ true
    → get j g'.statuses ≡ some s
final_step g g' k j target s reason p m h f =
    ground (arith, m.was, m.legal, m.statuses j, eq_iff k j)

-- A task that failed, was blocked, canceled or superseded keeps that status through any transitions.
pub final_forever :
    (j : String) (s : TaskStatus) {g g' : TaskGraph}
    → Moves g g'
    → get j g.statuses ≡ some s
    → is_final s ≡ true
    → get j g'.statuses ≡ some s
final_forever j s still h f = h
final_forever j s (step {g = g} {h = g₁} k target reason p e rest) h f =
    final_forever j s rest
      (final_step g g₁ k j target s reason p (transition_lem g g₁ k target reason p e) h f) f

abbrev pub IsDoneAt : TaskGraph → String → Type 0
IsDoneAt g j = (s : TaskStatus) × (get j g.statuses ≡ some s) × (is_done s ≡ true)

done_step :
    (g g' : TaskGraph) (k j : String) (target : TaskStatus) (reason : Option String)
    (p : TaskTransition)
    → Moved g k target reason p g'
    → IsDoneAt g j
    → IsDoneAt g' j
done_step g g' k j target reason p m (s, h, d) = elim (Bool-cases (k == j)) [
  | inl same ↦ (target, ground (arith, m.statuses j), ground (arith, m.was, m.legal, eq_iff k j))
  | inr other ↦ (s, ground (arith, m.statuses j), d)
]

-- A task that is done stays done through any transitions, so a task whose dependencies are done
-- never loses that.
pub done_forever : (j : String) {g g' : TaskGraph} → Moves g g' → IsDoneAt g j → IsDoneAt g' j
done_forever j still d = d
done_forever j (step {g = g} {h = h} k target reason p e rest) d =
    done_forever j rest
      (done_step g h k j target reason p (transition_lem g h k target reason p e) d)

-- A revision that is negative is refused, but only after the new status was written.
pub restore_status_partial :
    (g : TaskGraph) (k : String) (s : TaskStatus) (reason : Option String) (n : ℕ)
    → has k g.tasks ≡ true
    → let (r, g') = restore_status g k s reason (some (negsuc n)) in
      (r ≡ err negative_revision) × (get k g'.statuses ≡ some s)
unfolding restore_status
restore_status_partial g k s reason n h = ground (arith, get-put k k s g.statuses, eq_iff k k)
