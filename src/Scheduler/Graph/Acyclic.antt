-- ===== src/Scheduler/Graph/Acyclic.antt =====
-- The order in which `_validate_acyclic` (src/quantum_entanglement/scheduler.py) finishes the tasks.
use quantum_entanglement.Prelude.{
  ℕ, zero, suc, ◌<◌, String, true, false, List, [], ◌∷◌, ◌==◌, some, if◌then◌else◌, Result, ok,
  ◌>>=◌, length, all, ◌≡◌, refl, arith, eq_iff, eq_refl, Bool-cases, Option-cases, inl, inr,
  >>=-eq-ok, ◌∙◌, sym,
}
use quantum_entanglement.Prelude.Text.{elem, Dict, get, keys, elem-keys, get-has}
use quantum_entanglement.Scheduler.Task.{Error, TaskSpec}
use quantum_entanglement.Scheduler.Graph.{visit, visit_all, validate_acyclic}

abbrev pub Sub : List String → List String → Type 0
Sub vs ws = (y : String) → elem y vs ≡ true → elem y ws ≡ true

abbrev pub Apart : List String → List String → Type 0
Apart visiting vs = (y : String) → elem y visiting ≡ true → elem y vs ≡ false

-- Newest first, each id once, its dependencies further down the list.
abbrev pub Topo : Dict TaskSpec → List String → Type 0
Topo tasks [] = Unit
Topo tasks (x ∷ vs) =
    (elem x vs ≡ false)
    × ((s : TaskSpec) × (get x tasks ≡ some s) × (all (λ d. elem d vs) s.depends_on ≡ true))
    × Topo tasks vs

pub all-elem_mono :
    (ds vs ws : List String)
    → Sub vs ws
    → all (λ d. elem d vs) ds ≡ true
    → all (λ d. elem d ws) ds ≡ true
all-elem_mono [] vs ws sub h = refl
all-elem_mono (d ∷ ds) vs ws sub h = ground (arith, sub d, all-elem_mono ds vs ws sub)

pub record Visited (tasks : Dict TaskSpec) (visiting ids vs ws : List String) : Type 0 where
  pub topo : Topo tasks ws
  pub sub : Sub vs ws
  pub apart : Apart visiting ws
  pub seen : all (λ d. elem d ws) ids ≡ true

module _ (tasks : Dict TaskSpec) (visiting : List String) where
  abbrev Sound : (String → List String → Result Error (List String)) → Type 0
  Sound f =
      (k : String) (vs ws : List String)
      → Topo tasks vs
      → Apart visiting vs
      → f k vs ≡ ok ws
      → Visited tasks visiting (k ∷ []) vs ws

  visit_all-Sound :
      (f : String → List String → Result Error (List String))
      → Sound f
      → (ids vs ws : List String) → Topo tasks vs
      → Apart visiting vs
      → visit_all f ids vs ≡ ok ws
      → Visited tasks visiting ids vs ws
  unfolding visit_all
  visit_all-Sound f sound [] vs ws t a e =
      let e' : vs ≡ ws = cc in
      rw (← e') (record { topo = t; sub = λ y h. h; apart = a; seen = refl })
  visit_all-Sound f sound (d ∷ ds) vs ws t a e =
      let step = >>=-eq-ok (f d vs) (visit_all f ds) e in
      let first = sound d vs step.0 t a step.1 in
      let rest = visit_all-Sound f sound ds step.0 ws first.topo first.apart step.2 in
      record {
        topo = rest.topo;
        sub = λ y h. rest.sub y (first.sub y h);
        apart = rest.apart;
        seen = ground (arith, rest.seen, rest.sub d, first.seen);
      }

-- Finishing a task whose dependencies are all finished.
finish :
    (tasks : Dict TaskSpec) (visiting : List String) (k : String) (s : TaskSpec)
    (vs ws : List String)
    → get k tasks ≡ some s
    → elem k visiting ≡ false
    → Visited tasks (k ∷ visiting) s.depends_on vs ws
    → Visited tasks visiting (k ∷ []) vs (k ∷ ws)
finish tasks visiting k s vs ws g fresh v = record {
  topo = (v.apart k (ground (arith, eq_refl k)), (s, g, v.seen), v.topo);
  sub = λ y h. ground (arith, v.sub y);
  apart = λ y h. ground (arith, v.apart y, eq_iff y k);
  seen = ground (arith, eq_refl k);
}

visit-Sound :
    (n : ℕ) (tasks : Dict TaskSpec) (visiting : List String)
    → Sound tasks visiting (visit n tasks visiting)
unfolding visit
visit-Sound zero tasks visiting k vs ws t a e = cc
visit-Sound (suc n) tasks visiting k vs ws t a e = elim (Bool-cases (elem k visiting)) [
  | inl open_call ↦ ground arith
  | inr fresh ↦ elim (Bool-cases (elem k vs)) [
    | inl done ↦
        let same : vs ≡ ws = ground arith in
        rw (← same) (record { topo = t; sub = λ y h. h; apart = a; seen = ground arith })
    | inr new ↦ elim (Option-cases (get k tasks)) [
      | inl absent ↦ ground arith
      | inr (s, g) ↦
          let called : (visit_all (visit n tasks (k ∷ visiting)) s.depends_on vs >>= λ done.
          ok (k ∷ done))
              ≡ ok ws =
            ground arith in
          let step =
            >>=-eq-ok (visit_all (visit n tasks (k ∷ visiting)) s.depends_on vs)
              (λ done. ok (k ∷ done)) called in
          let inner =
            visit_all-Sound tasks (k ∷ visiting) (visit n tasks (k ∷ visiting))
              (visit-Sound n tasks (k ∷ visiting)) s.depends_on vs step.0 t
              (λ y h. ground (arith, a y, eq_iff y k)) step.1 in
          let result : k ∷ step.0 ≡ ws = ground (arith, step.2) in
          rw (← result) (finish tasks visiting k s vs step.0 g fresh inner)
    ]
  ]
]

-- If the check passes, every task is finished, each after its dependencies.
pub validate_acyclic-Topo :
    (tasks : Dict TaskSpec) (order : List String)
    → validate_acyclic tasks ≡ ok order
    → Topo tasks order × (all (λ d. elem d order) (keys tasks) ≡ true)
unfolding validate_acyclic
validate_acyclic-Topo tasks order e =
    let v =
      visit_all-Sound tasks [] (visit (suc (length tasks)) tasks [])
        (visit-Sound (suc (length tasks)) tasks []) (keys tasks) [] order tt (λ y h. cc) e in
    (v.topo, v.seen)

-- `y` is a dependency of the task `x`.
abbrev pub Depends : Dict TaskSpec → String → String → Type 0
Depends tasks x y = (s : TaskSpec) × (get x tasks ≡ some s) × (elem y s.depends_on ≡ true)

-- A chain of one dependency or more.
pub data Chain (tasks : Dict TaskSpec) : String → String → Type 0 where
  last_link : {x y : String} → Depends tasks x y → Chain tasks x y
  link : {x y z : String} → Depends tasks x y → Chain tasks y z → Chain tasks x z

pub Chain-head :
    {tasks : Dict TaskSpec} {x y : String}
    → Chain tasks x y
    → (s : TaskSpec) × (get x tasks ≡ some s)
Chain-head (last_link d) = (d.0, d.1)
Chain-head (link d c) = (d.0, d.1)

pub Chain-snoc :
    {tasks : Dict TaskSpec} {x y z : String} → Chain tasks x y → Depends tasks y z → Chain tasks x z
Chain-snoc (last_link d) e = link d (last_link e)
Chain-snoc (link d c) e = link d (Chain-snoc c e)

-- How many ids stand behind the first place of `x`.
depth : String → List String → ℕ
depth x [] = 0
depth x (y ∷ ys) = if x == y then length ys else depth x ys

depth-lt : (x : String) (ys : List String) → elem x ys ≡ true → depth x ys < length ys
unfolding depth
depth-lt x [] h = cc
depth-lt x (y ∷ ys) h = ground (arith, depth-lt x ys)

pub all-elem :
    (y : String) (ds vs : List String)
    → all (λ d. elem d vs) ds ≡ true
    → elem y ds ≡ true
    → elem y vs ≡ true
all-elem y [] vs h e = cc
all-elem y (d ∷ ds) vs h e = ground (arith, all-elem y ds vs, eq_iff y d)

-- A dependency of a finished task is finished, and lies deeper in the order.
Depends-depth :
    (tasks : Dict TaskSpec) (x y : String) (vs : List String)
    → Topo tasks vs
    → elem x vs ≡ true
    → Depends tasks x y
    → (elem y vs ≡ true) × (depth y vs < depth x vs)
unfolding depth
Depends-depth tasks x y [] t h d = cc
Depends-depth tasks x y (z ∷ vs) (new, (s, g, deps), t) h (s', g', dep) =
    elim (Bool-cases (x == z)) [
      | inl here ↦
          let same : x ≡ z = (eq_iff x z).0 here in
          let found : some s ≡ some s' = sym g ∙ rw (← same) g' in
          ground (arith, all-elem y s.depends_on vs deps, eq_iff y z, depth-lt y vs)
      | inr later ↦
          ground (arith, Depends-depth tasks x y vs t (ground arith) (s', g', dep), eq_iff y z)
    ]

Chain-depth :
    (tasks : Dict TaskSpec) (vs : List String) {x y : String}
    → Topo tasks vs
    → elem x vs ≡ true
    → Chain tasks x y
    → depth y vs < depth x vs
Chain-depth tasks vs t h (last_link {x = x} {y = y} d) = (Depends-depth tasks x y vs t h d).1
Chain-depth tasks vs t h (link {x = x} {y = y} d c) =
    let step = Depends-depth tasks x y vs t h d in
    omega (arith, step.1, Chain-depth tasks vs t step.0 c)

-- A graph whose check passes has no cycle: no task is reached from itself by its dependencies.
pub validate_acyclic_sound :
    (tasks : Dict TaskSpec) (order : List String) (x : String)
    → validate_acyclic tasks ≡ ok order
    → ¬ Chain tasks x x
validate_acyclic_sound tasks order x e c =
    let order_facts = validate_acyclic-Topo tasks order e in
    let listed : elem x (keys tasks) ≡ true =
      rw elem-keys (get-has x (Chain-head c).0 tasks (Chain-head c).1) in
    let finished = all-elem x (keys tasks) order order_facts.1 listed in
    omega (arith, Chain-depth tasks order order_facts.0 finished c)
