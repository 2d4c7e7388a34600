-- ===== src/NeedsYou/Laws.antt =====
-- The inbox (src/quantum_entanglement/policy.py): its open requests, and its decisions.
use quantum_entanglement.Prelude.{
  ℕ, ◌≤◌, String, true, false, ◌⊎◌, ◌==◌, List, [], ◌∷◌, Option, none, some, if◌then◌else◌, Result,
  ok, err, find, select, ◌≡◌, refl, arith, length, eq_iff, Option-cases, inl, inr, ◌+◌, eq_refl,
}
use quantum_entanglement.Prelude.Text.{get, put, values, get-put_self, opt_eq→eq}
use quantum_entanglement.NeedsYou.{settle, decision_eq, same_verdict}
use quantum_entanglement.Protocol.{ApprovalDecision, approve}
use quantum_entanglement.NeedsYou.{
  ApprovalRequest, Error, already_decided, Queue, is_pending, waits_for, create, restore, decide,
  Call, ask, put_back, answer, kept, apply, run,
}

-- How many requests of a task wait for a decision.
abbrev pub waiting : String → String → Queue → ℕ
waiting s t q = length (select (waits_for s t) (values q))

-- The inbox without the request of an id.
abbrev pub without : String → Queue → Queue
without k [] = []
without k ((j, r) ∷ q) = let rest = without k q in if j == k then q else (j, r) ∷ rest

decision_eq_refl : (d : ApprovalDecision) → decision_eq d d ≡ true
decision_eq_refl approve = refl
decision_eq_refl _ = refl

settle_decided :
    (r : ApprovalRequest) (k : String) (d d' : ApprovalDecision) (actor actor' : String)
    (c' : Option String) (q : Queue)
    → same_verdict r d actor ≡ true
    → settle r k d' actor' c' q
      ≡ (if same_verdict r d' actor' then ok (r, q) else err already_decided)
settle_decided r k d d' actor actor' c' q h = ground arith

-- A decision is final. The request that `decide` returned carries the verdict, and every later
-- verdict on it changes nothing: the same verdict of the same actor returns the request, and any other
-- is refused.
pub decide_final :
    (k : String) (d d' : ApprovalDecision) (actor actor' : String) (c c' : Option String)
    (q q' : Queue) (r : ApprovalRequest)
    → decide k d actor c q ≡ ok (r, q')
    → (same_verdict r d actor ≡ true)
      × (decide k d' actor' c' q'
          ≡ (if same_verdict r d' actor' then ok (r, q') else err already_decided))
unfolding decide
decide_final k d d' actor actor' c c' q q' r h = elim (Option-cases (get k q)) [
  | inl e ↦ ground arith
  | inr (x, e) ↦
      let y : ApprovalRequest = record x {
        decision = some d;
        decided_by = some actor;
        comment = c;
      } in
      ground (
        arith,
        get-put_self k y q,
        eq_refl actor,
        decision_eq_refl d,
        opt_eq→eq r.decided_by actor,
        settle_decided x k d d' actor actor' c' q,
        settle_decided y k d d' actor actor' c' (put k y q),
      )
]

count_put :
    (s t k : String) (v : ApprovalRequest) (q : Queue)
    → waiting s t (put k v q) ≤ waiting s t q + (if waits_for s t v then 1 else 0)
count_put s t k v [] = ground arith
count_put s t k v ((j, w) ∷ q) = ground (arith, count_put s t k v q)

waits_none : (s t : String) (q : Queue) → find (waits_for s t) (values q) ≡ none → waiting s t q ≡ 0
waits_none s t [] h = refl
waits_none s t ((j, w) ∷ q) h = ground (arith, waits_none s t q)

-- No task has two open requests.
pub record IsExclusive (q : Queue) : Type 0 where
  pub at : (s t : String) → waiting s t q ≤ 1

create-IsExclusive : (r : ApprovalRequest) (q : Queue) → IsExclusive q → IsExclusive (create r q).1
unfolding create
create-IsExclusive r q h =
    elim (Option-cases (find (waits_for r.session_id r.task_id) (values q))) [
      | inl new ↦ record {
        at = λ s t. rw new (
            ground (
              arith,
              h.at s t,
              eq_iff r.session_id s,
              eq_iff r.task_id t,
              count_put s t r.request_id r q,
              waits_none r.session_id r.task_id q,
            ));
      }
      | inr (x, old) ↦ rw old h
    ]

decide-IsExclusive :
    (k : String) (d : ApprovalDecision) (actor : String) (c : Option String) (q q' : Queue)
    (r : ApprovalRequest)
    → decide k d actor c q ≡ ok (r, q')
    → IsExclusive q
    → IsExclusive q'
unfolding decide
decide-IsExclusive k d actor c q q' r e h = elim (Option-cases (get k q)) [
  | inl absent ↦ ground arith
  | inr (x, found) ↦
      let y : ApprovalRequest = record x {
        decision = some d;
        decided_by = some actor;
        comment = c;
      } in
      record { at = λ s t. ground (arith, h.at s t, count_put s t k y q) }
]

kept-IsExclusive :
    (q : Queue) (o : Result Error (ApprovalRequest × Queue))
    → IsExclusive q
    → ((r : ApprovalRequest) (q' : Queue) → o ≡ ok (r, q') → IsExclusive q')
    → IsExclusive (kept q o)
kept-IsExclusive q (ok (r, q')) h k = k r q' refl
kept-IsExclusive q (err e) h k = h

-- `restore` writes the request as it is, so an open one may stand beside another: in an orderly sequence,
-- each open request that is restored finds no open request of its task but one that it replaces.
abbrev pub Unrivalled : ApprovalRequest → Queue → Type 0
Unrivalled r q =
    (is_pending r ≡ false) ⊎ (waiting r.session_id r.task_id (without r.request_id q) ≡ 0)

abbrev pub Orderly : List Call → Queue → Type 0
Orderly [] q = Unit
Orderly (put_back r ∷ cs) q = Unrivalled r q × Orderly cs (apply (put_back r) q)
Orderly (c ∷ cs) q = Orderly cs (apply c q)

waiting-put :
    (s t k : String) (v : ApprovalRequest) (q : Queue)
    → waiting s t (put k v q) ≡ waiting s t (without k q) + (if waits_for s t v then 1 else 0)
waiting-put s t k v [] = ground arith
waiting-put s t k v ((j, w) ∷ q) = ground (arith, waiting-put s t k v q)

waiting-without : (s t k : String) (q : Queue) → waiting s t (without k q) ≤ waiting s t q
waiting-without s t k [] = omega arith
waiting-without s t k ((j, w) ∷ q) = ground (arith, waiting-without s t k q)

restore-IsExclusive :
    (r : ApprovalRequest) (q : Queue) → Unrivalled r q → IsExclusive q → IsExclusive (restore r q).1
unfolding restore
restore-IsExclusive r q (inl decided) h = record {
  at = λ s t. ground (
    arith,
    h.at s t,
    waiting-put s t r.request_id r q,
    waiting-without s t r.request_id q,
    decided,
  );
}
restore-IsExclusive r q (inr alone) h = record {
  at = λ s t. ground (
    arith,
    h.at s t,
    eq_iff r.session_id s,
    eq_iff r.task_id t,
    waiting-put s t r.request_id r q,
    waiting-without s t r.request_id q,
    alone,
  );
}

-- An inbox without two open requests of one task has no two of them after any sequence of requests that come
-- in, are answered or are restored, if each open request that is restored finds no other open one of its
-- task: `create` reuses the open request, whatever the id of the new one.
pub run-IsExclusive :
    (cs : List Call) (q : Queue) → Orderly cs q → IsExclusive q → IsExclusive (run cs q)
unfolding run apply
run-IsExclusive [] q o h = h
run-IsExclusive (ask r ∷ cs) q o h = run-IsExclusive cs (create r q).1 o (create-IsExclusive r q h)
run-IsExclusive (put_back r ∷ cs) q o h =
    run-IsExclusive cs (restore r q).1 o.1 (restore-IsExclusive r q o.0 h)
run-IsExclusive (answer k d actor c ∷ cs) q o h =
    run-IsExclusive cs (kept q (decide k d actor c q)) o (
      kept-IsExclusive q (decide k d actor c q) h
        (λ r q' e. decide-IsExclusive k d actor c q q' r e h))
