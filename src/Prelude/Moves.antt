-- ===== src/Prelude/Moves.antt =====
-- Tables whose rows move in place and to which rows with new keys are added: what such writes keep.
use Prim.Native.String.{String}
use mathlib.Core.Path.{◌≡◌, refl, ◌∙◌}
use mathlib.Core.Bool.{Bool, true, false, ◌||◌}
use mathlib.Core.List.{List, [], ◌∷◌, ◌++◌}
use native.Mathlib.Omega.{arith}
use text.Mathlib.Text.{◌==◌}
use text.Mathlib.TextEquality.{eq_iff}
use quantum_entanglement.Prelude.Tests.{if◌then◌else◌}
use quantum_entanglement.Prelude.Lists.{any, All, All-snoc}
use quantum_entanglement.Prelude.Table.{update_where}

-- Each row stays or makes one move, in place.
pub data Evolves {A : Type 0} (R : A → A → Type 0) : List A → List A → Type 0 where
  end : Evolves R [] []
  stay : {xs ys : List A} (x : A) → Evolves R xs ys → Evolves R (x ∷ xs) (x ∷ ys)
  move : {xs ys : List A} {x y : A} → R x y → Evolves R xs ys → Evolves R (x ∷ xs) (y ∷ ys)

abbrev pub named : {A : Type 0} → (A → String) → String → List A → Bool
named key k xs = any (λ x. key x == k) xs

-- Any number of such writes, and of rows with new keys that satisfy `Fresh`, at the end.
pub data Grows {A : Type 0} (key : A → String) (R : A → A → Type 0) (Fresh : A → Type 0)
    : List A → List A → Type 0 where
  done : {xs : List A} → Grows key R Fresh xs xs
  evolve : {xs ys zs : List A} → Evolves R xs ys → Grows key R Fresh ys zs → Grows key R Fresh xs zs
  add :
      {xs zs : List A} (x : A)
      → named key (key x) xs ≡ false
      → Fresh x
      → Grows key R Fresh (xs ++ x ∷ []) zs
      → Grows key R Fresh xs zs

-- The primary key: no key stands in two rows.
abbrev pub Unique : {A : Type 0} → (A → String) → List A → Type 0
Unique key [] = Unit
Unique key (x ∷ xs) = (named key (key x) xs ≡ false) × Unique key xs

-- The key is stored, and every row with it satisfies `P`.
abbrev pub Stored : {A : Type 0} → (A → String) → (A → Type 0) → String → List A → Type 0
Stored {A} key P k xs = (named key k xs ≡ true) × All (λ (x : A). (key x == k) ≡ true → P x) xs

module _ {A : Type 0} (R : A → A → Type 0) where
  Evolves-row :
      (p : A → Bool) (f : A → A) (x : A) {xs ys : List A} (b : Bool)
      → p x ≡ b
      → (p x ≡ true → R x (f x))
      → Evolves R xs ys
      → Evolves R (x ∷ xs) ((if b then f x else x) ∷ ys)
  Evolves-row p f x true e moves rest = move (moves e) rest
  Evolves-row p f x false e moves rest = stay x rest

  -- An UPDATE whose hits are moves, where `P` holds of every row.
  pub Evolves-update :
      (P : A → Type 0) (p : A → Bool) (f : A → A) (xs : List A)
      → ((x : A) → P x → p x ≡ true → R x (f x))
      → All P xs
      → Evolves R xs (update_where p f xs)
  Evolves-update P p f [] moves h = end
  Evolves-update P p f (x ∷ xs) moves h =
      Evolves-row p f x (p x) refl (moves x h.0) (Evolves-update P p f xs moves h.1)

module _ {A : Type 0} (key : A → String) (R : A → A → Type 0) (Fresh : A → Type 0) where
  pub Grows-trans :
      {xs ys zs : List A}
      → Grows key R Fresh xs ys
      → Grows key R Fresh ys zs
      → Grows key R Fresh xs zs
  Grows-trans done n = n
  Grows-trans (evolve e r) n = evolve e (Grows-trans r n)
  Grows-trans (add x new fresh r) n = add x new fresh (Grows-trans r n)

  module _ (same_key : (x y : A) → R x y → key y ≡ key x) where
    named-Evolves :
        (k : String) {xs ys : List A} → Evolves R xs ys → named key k ys ≡ named key k xs
    named-Evolves k end = refl
    named-Evolves k (stay x e) = ground (arith, named-Evolves k e)
    named-Evolves k (move {x = x} {y = y} r e) = ground (arith, named-Evolves k e, same_key x y r)

    Unique-Evolves : {xs ys : List A} → Evolves R xs ys → Unique key xs → Unique key ys
    Unique-Evolves end u = tt
    Unique-Evolves (stay x e) u = (named-Evolves (key x) e ∙ u.0, Unique-Evolves e u.1)
    Unique-Evolves (move {x = x} {y = y} r e) u =
        (named-Evolves (key y) e ∙ rw (same_key x y r) u.0, Unique-Evolves e u.1)

    All-Evolves :
        (P : A → Type 0) (k : String) {xs ys : List A}
        → ((x y : A) → R x y → P x → P y)
        → Evolves R xs ys
        → All (λ (x : A). (key x == k) ≡ true → P x) xs
        → All (λ (x : A). (key x == k) ≡ true → P x) ys
    All-Evolves P k keep end h = tt
    All-Evolves P k keep (stay x e) h = (h.0, All-Evolves P k keep e h.1)
    All-Evolves P k keep (move {x = x} {y = y} r e) h =
        ((λ m. keep x y r (h.0 (rw (same_key x y r) at m))), All-Evolves P k keep e h.1)

    named-snoc :
        (k : String) (xs : List A) (x : A)
        → named key k (xs ++ x ∷ []) ≡ (named key k xs || key x == k)
    named-snoc k [] x = ground arith
    named-snoc k (y ∷ ys) x = ground (arith, named-snoc k ys x)

    Unique-snoc :
        (xs : List A) (x : A)
        → named key (key x) xs ≡ false
        → Unique key xs
        → Unique key (xs ++ x ∷ [])
    Unique-snoc [] x new u = (refl, tt)
    Unique-snoc (y ∷ ys) x new u = ground (
      arith,
      Unique-snoc ys x,
      named-snoc (key y) ys x,
      eq_iff (key y) (key x),
      eq_iff (key x) (key y),
    )

    -- No write stores a second row for a key.
    pub Unique-Grows : {xs ys : List A} → Grows key R Fresh xs ys → Unique key xs → Unique key ys
    Unique-Grows done u = u
    Unique-Grows (evolve e n) u = Unique-Grows n (Unique-Evolves e u)
    Unique-Grows (add {xs = xs} x new _ n) u = Unique-Grows n (Unique-snoc xs x new u)

    -- What every move of a stored row keeps, every write keeps.
    pub Stored-Grows :
        (P : A → Type 0) (k : String) {xs ys : List A}
        → ((x y : A) → R x y → P x → P y)
        → Grows key R Fresh xs ys
        → Stored key P k xs
        → Stored key P k ys
    Stored-Grows P k keep done s = s
    Stored-Grows P k keep (evolve e n) s =
        Stored-Grows P k keep n (named-Evolves k e ∙ s.0, All-Evolves P k keep e s.1)
    Stored-Grows P k keep (add {xs = xs} x new _ n) s = Stored-Grows P k keep n (
      rw (named-snoc k xs x, s.0),
      All-snoc _ xs x s.1 (λ m. absurd (ground (arith, eq_iff (key x) k, s.0, new))),
    )
