-- ===== src/Scheduler/Ready/Laws.antt =====
-- The tasks that `ready` (src/quantum_entanglement/scheduler.py) offers, and their order.
use mathlib.Core.List.{Perm}
use mathlib.Core.List.Perm
use quantum_entanglement.Prelude.{
  ℕ, true, false, List, [], ◌∷◌, Option, none, some, if◌then◌else◌, Result, ok, ◌≡◌, arith,
  Bool-cases, Option-cases, inl, inr, >>=-eq-ok,
}
use quantum_entanglement.Prelude.Text.{Dict, get, text_le_total}
use quantum_entanglement.Protocol.{ready}
use quantum_entanglement.Scheduler.Task.{Error, TaskSpec, TaskGraph, status_eq}
use quantum_entanglement.Scheduler.Ready.{not_after, insert, sort, candidates, limited, ready_tasks}

not_after_total : (a b : TaskSpec) → not_after a b ≡ false → not_after b a ≡ true
unfolding not_after
not_after_total a b h = ground (arith, text_le_total a.task_id b.task_id)

-- Each task comes before the next one by the key, or ties with it.
abbrev pub IsOrdered : List TaskSpec → Type 0
IsOrdered [] = Unit
IsOrdered (a ∷ []) = Unit
IsOrdered (a ∷ b ∷ bs) = (not_after a b ≡ true) × IsOrdered (b ∷ bs)

insert-IsOrdered : (a : TaskSpec) (bs : List TaskSpec) → IsOrdered bs → IsOrdered (insert a bs)
unfolding insert
insert-IsOrdered a [] h = tt
insert-IsOrdered a (b ∷ []) h = ground (arith, not_after_total a b)
insert-IsOrdered a (b ∷ c ∷ cs) h = ground (arith, not_after_total a b, insert-IsOrdered a (c ∷ cs))

insert-perm : (a : TaskSpec) (bs : List TaskSpec) → Perm (insert a bs) (a ∷ bs)
unfolding insert
insert-perm a [] = Perm.refl (a ∷ [])
insert-perm a (b ∷ bs) = elim (Bool-cases (not_after a b)) [
  | inl first ↦ rw first (Perm.refl (a ∷ b ∷ bs))
  | inr later ↦ rw later (Perm.trans (Perm.cons b (insert-perm a bs)) (Perm.swap a b bs))
]

sort-IsOrdered : (as' : List TaskSpec) → IsOrdered (sort as')
unfolding sort
sort-IsOrdered [] = tt
sort-IsOrdered (a ∷ rest) = insert-IsOrdered a (sort rest) (sort-IsOrdered rest)

sort-perm : (as' : List TaskSpec) → Perm (sort as') as'
unfolding sort
sort-perm [] = Perm.refl []
sort-perm (a ∷ rest) = Perm.trans (insert-perm a (sort rest)) (Perm.cons a (sort-perm rest))

-- The tasks that have the status `ready`, in the order of the dictionary.
abbrev pub ready_of : TaskGraph → Dict TaskSpec → List TaskSpec
ready_of g [] = []
ready_of g ((k, t) ∷ ts) =
    let rest = ready_of g ts in
    elim (get k g.statuses) [ none ↦ rest | some s ↦ if status_eq s ready then t ∷ rest else rest ]

candidates_lem :
    (g : TaskGraph) (ts : Dict TaskSpec) (found : List TaskSpec)
    → candidates g ts ≡ ok found
    → found ≡ ready_of g ts
unfolding candidates
candidates_lem g [] found e = cc
candidates_lem g ((k, t) ∷ ts) found e = elim (Option-cases (get k g.statuses)) [
  | inl absent ↦ ground arith
  | inr (s, at) ↦
      let keep : List TaskSpec → Result Error (List TaskSpec) =
        λ rest. ok (if status_eq s ready then t ∷ rest else rest) in
      let rest = >>=-eq-ok (candidates g ts) keep {y = found} (ground (arith, at)) in
      ground (arith, at, rest.2, candidates_lem g ts rest.0 rest.1)
]

-- Without a limit `ready` returns the tasks whose status is ready, each as often as the graph has
-- it, ordered by falling priority and then by id; with a limit, the first of these.
pub ready_tasks_lem :
    (g : TaskGraph) (limit : Option ℕ) (found : List TaskSpec)
    → ready_tasks g limit ≡ ok found
    → (full : List TaskSpec) × (found ≡ limited limit full)
      × Perm full (ready_of g g.tasks)
      × IsOrdered full
unfolding ready_tasks
ready_tasks_lem g limit found e =
    let (ts, gathered, result) =
      >>=-eq-ok (candidates g g.tasks) (λ ts. ok (limited limit (sort ts))) e in
    let same : ts ≡ ready_of g g.tasks = candidates_lem g g.tasks ts gathered in
    (sort ts, ground (arith, result), rw (← same) (sort-perm ts), sort-IsOrdered ts)
