-- ===== src/Scheduler/Graph/Cycles.antt =====
-- The failures of `_validate_acyclic` (src/quantum_entanglement/scheduler.py).
use quantum_entanglement.Prelude.{
  ℕ, zero, suc, ◌≤◌, ◌<◌, String, true, false, List, [], ◌∷◌, ◌==◌, some, if◌then◌else◌, Result, ok,
  err, ◌>>=◌, length, ◌≡◌, refl, arith, eq_iff, eq_refl, Bool-cases, inl, inr, >>=-eq-err, ◌∙◌, ap,
  ◌⊎◌,
}
use quantum_entanglement.Prelude.Text.{elem, Dict, get, has, keys, elem-keys, has-get}
use quantum_entanglement.Scheduler.Task.{Error, cycle, TaskSpec}
use quantum_entanglement.Scheduler.Graph.{visit, visit_all, validate_acyclic}
use quantum_entanglement.Scheduler.Graph.Acyclic.{
  Depends, Chain, last_link, Chain-snoc, validate_acyclic_sound,
}

-- How many of the ids are on no open call.
room : List String → List String → ℕ
room visiting [] = 0
room visiting (x ∷ xs) = let rest = room visiting xs in if elem x visiting then rest else suc rest

room-le :
    (visiting : List String) (k : String) (xs : List String)
    → room (k ∷ visiting) xs ≤ room visiting xs
unfolding room
room-le visiting k [] = omega arith
room-le visiting k (x ∷ xs) = ground (arith, room-le visiting k xs)

-- Opening a call on a fresh id uses up room.
room-lt :
    (visiting : List String) (k : String) (xs : List String)
    → elem k xs ≡ true
    → elem k visiting ≡ false
    → room (k ∷ visiting) xs < room visiting xs
unfolding room
room-lt visiting k [] h fresh = cc
room-lt visiting k (x ∷ xs) h fresh =
    ground (arith, room-lt visiting k xs, room-le visiting k xs, eq_iff x k, eq_iff k x)

room-length : {V : Type 0} (d : Dict V) → room [] (keys d) ≡ length d
unfolding room
room-length [] = refl
room-length (x ∷ d) = ap suc (room-length d)

module _ (tasks : Dict TaskSpec) where
  -- The failure is a cycle, and there is one.
  abbrev pub IsCycle : Error → Type 0
  IsCycle e = (e ≡ cycle) × ((x : String) × Chain tasks x x)

  -- Every dependency is a task.
  abbrev pub Known : Type 0
  Known = (x y : String) → Depends tasks x y → has y tasks ≡ true

  -- `f` may raise only for a cycle, on the ids that satisfy `P`.
  abbrev RaisesCycle :
      (String → Type 0) → (String → List String → Result Error (List String)) → Type 0
  RaisesCycle P f = (k : String) (vs : List String) (e : Error) → P k → f k vs ≡ err e → IsCycle e

  visit_all_raises :
      (P : String → Type 0) (f : String → List String → Result Error (List String))
      → RaisesCycle P f
      → (ids vs : List String) (e : Error) → ((y : String) → elem y ids ≡ true → P y)
      → visit_all f ids vs ≡ err e
      → IsCycle e
  unfolding visit_all
  visit_all_raises P f raises [] vs e h r = cc
  visit_all_raises P f raises (d ∷ ds) vs e h r = elim (>>=-eq-err (f d vs) (visit_all f ds) r) [
    | inl here ↦ raises d vs e (h d (ground (arith, eq_refl d))) here
    | inr (ws, done, later) ↦ visit_all_raises P f raises ds ws e (λ y m. h y (ground arith)) later
  ]

  -- A call on `k` is made below the open calls.
  record Below (visiting : List String) (k : String) : Type 0 where
    known : has k tasks ≡ true
    path : (y : String) → elem y visiting ≡ true → Chain tasks y k

  inner_raise :
      (m : Result Error (List String)) (k : String) (e : Error)
      → (m >>= λ done. ok (k ∷ done)) ≡ err e
      → m ≡ err e
  inner_raise (ok done) k e h = cc
  inner_raise (err x) k e h = cc

  module _ (known : Known) where
    -- The dependencies of `k` are called below `k`.
    below :
        (visiting : List String) (k : String) (s : TaskSpec)
        → get k tasks ≡ some s
        → Below visiting k
        → (y : String) → elem y s.depends_on ≡ true
        → Below (k ∷ visiting) y
    below visiting k s g b y m = record {
      known = known k y (s, g, m);
      path = λ z h. elim (Bool-cases (z == k)) [
        | inl same ↦ rw ((eq_iff z k).0 same) (last_link (s, g, m))
        | inr other ↦ Chain-snoc (b.path z (ground arith)) (s, g, m)
      ];
    }

  visit_raises :
      Known
      → (n : ℕ) (visiting : List String) → room visiting (keys tasks) < n
      → RaisesCycle (Below visiting) (visit n tasks visiting)
  unfolding visit
  visit_raises known zero visiting fuel k vs e b r = absurd (omega arith)
  visit_raises known (suc n) visiting fuel k vs e b r = elim (Bool-cases (elem k visiting)) [
    | inl closes ↦ (ground arith, (k, b.path k closes))
    | inr fresh ↦ elim (Bool-cases (elem k vs)) [
      | inl done ↦ ground arith
      | inr new ↦
          let (s, g) = has-get k tasks b.known in
          let called : (visit_all (visit n tasks (k ∷ visiting)) s.depends_on vs >>= λ done.
          ok (k ∷ done))
              ≡ err e =
            ground arith in
          visit_all_raises (Below (k ∷ visiting)) (visit n tasks (k ∷ visiting))
            (visit_raises known n (k ∷ visiting)
              (omega (arith, room-lt visiting k (keys tasks) (rw elem-keys b.known) fresh)))
            s.depends_on vs e (below known visiting k s g b)
            (inner_raise (visit_all (visit n tasks (k ∷ visiting)) s.depends_on vs) k e called)
    ]
  ]

-- On a graph whose dependencies are known, `_validate_acyclic` raises only for a cycle that the
-- graph has: no lookup fails, and the fuel of one call more than there are tasks is enough.
pub validate_acyclic_raises :
    (tasks : Dict TaskSpec) (e : Error)
    → Known tasks
    → validate_acyclic tasks ≡ err e
    → IsCycle tasks e
unfolding validate_acyclic
validate_acyclic_raises tasks e known r =
    visit_all_raises tasks (Below tasks []) (visit (suc (length tasks)) tasks [])
      (visit_raises tasks known (suc (length tasks)) [] (omega (arith, room-length tasks)))
      (keys tasks) [] e (λ y m. record { known = rw elem-keys at m; path = λ z h. cc }) r

passed_or_raised :
    (check : Result Error (List String))
    → ((order : List String) × (check ≡ ok order)) ⊎ ((raised : Error) × (check ≡ err raised))
passed_or_raised (ok order) = inl (order, refl)
passed_or_raised (err raised) = inr (raised, refl)

-- The check decides acyclicity: on a graph whose dependencies are known it passes exactly when no
-- task depends on itself through a chain of dependencies, and otherwise it raises `cycle`.
pub validate_acyclic_decides :
    (tasks : Dict TaskSpec)
    → Known tasks
    → ((order : List String) × (validate_acyclic tasks ≡ ok order)
        × ((x : String) → ¬ Chain tasks x x))
      ⊎ ((validate_acyclic tasks ≡ err cycle) × ((x : String) × Chain tasks x x))
validate_acyclic_decides tasks known = elim (passed_or_raised (validate_acyclic tasks)) [
  | inl (order, e) ↦ inl (order, e, λ x. validate_acyclic_sound tasks order x e)
  | inr (e, r) ↦ let c = validate_acyclic_raises tasks e known r in inr (r ∙ ap err c.0, c.1)
]
