-- ===== src/Prelude/Text.antt =====
-- Texts as keys: membership, optional texts, and Python's insertion-ordered `dict`.
use mathlib.Core.Path.{◌≡◌, refl, sym, ap, ◌∙◌}
use mathlib.Core.Bool.{Bool, true, false, ◌||◌}
use mathlib.Core.Option.{Option, none, some}
use mathlib.Core.List.{List, [], ◌∷◌}
use Prim.Native.Nat.{Ordering}
use Prim.Native.String.compare
use Prim.Native.String.{String, compare, ◌++◌ as ◌++ₛ◌}
use native.Mathlib.Omega.{arith}
use text.Mathlib.Text.{◌==◌}
use text.Mathlib.TextEquality.{eq_iff}
use text.Mathlib.TextPositions.{eq_refl}
use mathlib.Core.Logic.{inl, inr}
use quantum_entanglement.Prelude.Tests.{if◌then◌else◌, Bool-cases}

-- `x in xs`
abbrev pub elem : String → List String → Bool
elem x [] = false
elem x (y ∷ ys) = x == y || elem x ys

abbrev pub opt_eq : Option String → Option String → Bool
opt_eq none none = true
opt_eq (some a) (some b) = a == b
opt_eq _ _ = false

pub opt_eq→eq : (o : Option String) (a : String) → opt_eq o (some a) ≡ true → o ≡ some a
opt_eq→eq none a h = cc
opt_eq→eq (some b) a h = ground (arith, eq_iff b a)

pub opt_eq_refl : (o : Option String) → opt_eq o o ≡ true
opt_eq_refl none = refl
opt_eq_refl (some a) = eq_refl a

-- No text stands twice.
abbrev pub Distinct : List String → Type 0
Distinct [] = Unit
Distinct (x ∷ xs) = (elem x xs ≡ false) × Distinct xs

-- `a <= b` in the order of code points.
abbrev pub text_le : String → String → Bool
text_le a b = elim (compare a b) [ Ordering.gt ↦ false | _ ↦ true ]

compare_swap : (a b : String) → compare a b ≡ Ordering.gt → compare b a ≡ Ordering.lt
compare_swap String.[] String.[] h = cc (compare.nil-nil)
compare_swap String.[] (String.◌∷◌ d t) h = cc (compare.nil-cons d t)
compare_swap (String.◌∷◌ c s) String.[] h = compare.nil-cons c s
compare_swap (String.◌∷◌ c s) (String.◌∷◌ d t) h =
    ground (arith, compare.cons-cons c d s t, compare.cons-cons d c t s, compare_swap s t)

pub text_le_total : (a b : String) → text_le a b ≡ false → text_le b a ≡ true
text_le_total a b h = ground (arith, compare_swap a b)

-- `head + ", ".join(xs)`
abbrev pub join : String → List String → String
join head [] = head
join head (x ∷ []) = head ++ₛ x
join head (x ∷ y ∷ ys) = join (head ++ₛ x ++ₛ ", ") (y ∷ ys)

-- Python's `dict` with text keys, in insertion order.
abbrev pub Dict {ℓ} : Type ℓ → Type ℓ
Dict V = List (String × V)

module _ {ℓ} {V : Type ℓ} where
  -- `d.get(k)`
  abbrev pub get : String → Dict V → Option V
  get k [] = none
  get k ((j, v) ∷ d) = if j == k then some v else get k d

  -- `d[k] = v`: an old key keeps its place, a new one goes last.
  abbrev pub put : String → V → Dict V → Dict V
  put k v [] = (k, v) ∷ []
  put k v ((j, w) ∷ d) = if j == k then (j, v) ∷ d else (j, w) ∷ put k v d

  -- `k in d`
  abbrev pub has : String → Dict V → Bool
  has k [] = false
  has k ((j, v) ∷ d) = j == k || has k d

  abbrev pub keys : Dict V → List String
  keys [] = []
  keys ((k, v) ∷ d) = k ∷ keys d

  abbrev pub values : Dict V → List V
  values [] = []
  values ((k, v) ∷ d) = v ∷ values d

  -- `{k: f(v) for k, v in d.items()}`
  abbrev pub map_values {κ} : {W : Type κ} → (V → W) → Dict V → Dict W
  map_values f [] = []
  map_values f ((k, v) ∷ d) = (k, f v) ∷ map_values f d

  pub get-put :
      (k j : String) (v : V) (d : Dict V) → get j (put k v d) ≡ (if k == j then some v else get j d)
  get-put k j v [] = refl
  get-put k j v ((i, w) ∷ d) = ground (arith, eq_iff i k, eq_iff i j, eq_iff k j, get-put k j v d)

  pub get-put_self : (k : String) (v : V) (d : Dict V) → get k (put k v d) ≡ some v
  get-put_self k v d = rw (get-put k k v d, eq_refl)

  pub has-put : (k j : String) (v : V) (d : Dict V) → has j (put k v d) ≡ (k == j || has j d)
  has-put k j v [] = refl
  has-put k j v ((i, w) ∷ d) = ground (arith, eq_iff i k, eq_iff i j, eq_iff k j, has-put k j v d)

  -- Writing an old key changes no key.
  pub keys-put : (k : String) (v : V) (d : Dict V) → has k d ≡ true → keys (put k v d) ≡ keys d
  keys-put k v [] h = cc
  keys-put k v ((i, w) ∷ d) h = ground (arith, keys-put k v d)

  pub get-has : (k : String) (v : V) (d : Dict V) → get k d ≡ some v → has k d ≡ true
  get-has k v [] h = cc
  get-has k v ((i, w) ∷ d) h = ground (arith, get-has k v d)

  pub has-get : (k : String) (d : Dict V) → has k d ≡ true → (v : V) × (get k d ≡ some v)
  has-get k [] h = cc
  has-get k ((i, w) ∷ d) h = elim (Bool-cases (i == k)) [
    | inl e ↦ (w, ground arith)
    | inr e ↦ let r = has-get k d (ground arith) in (r.0, ground (arith, r.1))
  ]

  pub elem-keys : (k : String) (d : Dict V) → elem k (keys d) ≡ has k d
  elem-keys k [] = refl
  elem-keys k ((i, w) ∷ d) = ground (arith, elem-keys k d, eq_iff k i, eq_iff i k)

  pub Distinct-put :
      (k : String) (v : V) (d : Dict V) → Distinct (keys d) → Distinct (keys (put k v d))
  Distinct-put k v [] h = (refl, tt)
  Distinct-put k v ((i, w) ∷ d) h = ground (
    arith,
    Distinct-put k v d,
    eq_iff i k,
    eq_iff k i,
    elem-keys i d,
    elem-keys i (put k v d),
    has-put k i v d,
  )

  pub get-none : (k : String) (d : Dict V) → has k d ≡ false → get k d ≡ none
  get-none k [] h = refl
  get-none k ((i, w) ∷ d) h = ground (arith, get-none k d)

module _ {ℓ κ} {V : Type ℓ} {W : Type κ} where
  pub keys-map_values : (f : V → W) (d : Dict V) → keys (map_values f d) ≡ keys d
  keys-map_values f [] = refl
  keys-map_values f ((k, v) ∷ d) = ap (◌∷◌ k) (keys-map_values f d)

  pub get-map_values :
      (f : V → W) (k : String) (v : V) (d : Dict V)
      → get k d ≡ some v
      → get k (map_values f d) ≡ some (f v)
  get-map_values f k v [] h = cc
  get-map_values f k v ((i, w) ∷ d) h = ground (arith, get-map_values f k v d)

  -- Two dictionaries with the same keys answer for the same keys.
  pub has_of_keys : (k : String) (d : Dict V) (e : Dict W) → keys d ≡ keys e → has k d ≡ has k e
  has_of_keys k d e h = sym (elem-keys k d) ∙ ap (elem k) h ∙ elem-keys k e
