-- ===== src/Prelude/Table.antt =====
-- SQL statements over a table, a list of rows: UPDATE ... WHERE with its row count, and ORDER BY.
use Prim.Native.Nat.{ℕ}
use mathlib.Core.Path.{◌≡◌, refl}
use mathlib.Core.Bool.{Bool, true, false}
use mathlib.Core.Option.{Option, none, some}
use mathlib.Core.List.{List, [], ◌∷◌}
use mathlib.Core.List.{Perm}
use mathlib.Core.List.Perm
use native.Mathlib.Omega.{arith}
use quantum_entanglement.Prelude.Tests.{if◌then◌else◌, Bool-cases, Option-cases}
use mathlib.Core.Logic.{inl, inr}
use quantum_entanglement.Prelude.Lists.{length, select, find, All}

module _ {ℓ} {A : Type ℓ} where
  -- UPDATE: every row that passes is rewritten.
  abbrev pub update_where : (A → Bool) → (A → A) → List A → List A
  update_where p f [] = []
  update_where p f (x ∷ xs) = (if p x then f x else x) ∷ update_where p f xs

  -- The row count of such an UPDATE.
  abbrev pub count_where : (A → Bool) → List A → ℕ
  count_where p xs = length (select p xs)

  -- ORDER BY ... LIMIT 1: the first row by the order.
  abbrev pub first_by : (A → A → Bool) → List A → Option A
  first_by before [] = none
  first_by before (x ∷ xs) = elim (first_by before xs) [
    | none ↦ some x
    | some y ↦ some (if before x y then x else y)
  ]

  abbrev pub insert_by : (A → A → Bool) → A → List A → List A
  insert_by before x [] = x ∷ []
  insert_by before x (y ∷ ys) =
      let rest = insert_by before x ys in if before x y then x ∷ y ∷ ys else y ∷ rest

  -- ORDER BY
  abbrev pub sort_by : (A → A → Bool) → List A → List A
  sort_by before [] = []
  sort_by before (x ∷ xs) = insert_by before x (sort_by before xs)

module _ {ℓ} {A : Type ℓ} where
  pub find_select : (p : A → Bool) (x : A) (xs : List A) → find p xs ≡ some x → p x ≡ true
  find_select p x [] h = cc
  find_select p x (y ∷ ys) h = ground (arith, find_select p x ys)

  -- A query that no rewritten row passes, and that only rewritten rows passed, finds nothing.
  pub find_update_none :
      (p q : A → Bool) (f : A → A) (xs : List A)
      → ((x : A) → q x ≡ true → p x ≡ true)
      → ((x : A) → q (f x) ≡ false)
      → find q (update_where p f xs) ≡ none
  find_update_none p q f [] within gone = refl
  find_update_none p q f (x ∷ xs) within gone =
      ground (arith, within x, gone x, find_update_none p q f xs within gone)

  pub All-update {κ} :
      (P : A → Type κ) (p : A → Bool) (f : A → A) (xs : List A)
      → ((x : A) → p x ≡ true → P x → P (f x))
      → All P xs
      → All P (update_where p f xs)
  All-update P p f [] keep h = tt
  All-update P p f (x ∷ xs) keep h = (go (p x) refl, All-update P p f xs keep h.1)
    where
      go : (b : Bool) → p x ≡ b → P (if b then f x else x)
      go true e = keep x e h.0
      go false e = h.0

  select_row {κ} :
      (P : A → Type κ) (p : A → Bool) (x : A) (xs : List A) (b : Bool)
      → p x ≡ b
      → P x
      → All (λ x. P x × (p x ≡ true)) xs
      → All (λ x. P x × (p x ≡ true)) (if b then x ∷ xs else xs)
  select_row P p x xs true e h rest = ((h, e), rest)
  select_row P p x xs false e h rest = rest

  pub All-select {κ} :
      (P : A → Type κ) (p : A → Bool) (xs : List A)
      → All P xs
      → All (λ x. P x × (p x ≡ true)) (select p xs)
  All-select P p [] h = tt
  All-select P p (x ∷ xs) h = select_row P p x (select p xs) (p x) refl h.0 (All-select P p xs h.1)

  -- The row that ORDER BY ... LIMIT 1 returns is one of the rows.
  pub first_by-All {κ} :
      (P : A → Type κ) (before : A → A → Bool) (xs : List A) (y : A)
      → All P xs
      → first_by before xs ≡ some y
      → P y
  first_by-All P before [] y h e = cc
  first_by-All P before (x ∷ xs) y h e = elim (Option-cases (first_by before xs)) [
    | inl empty ↦ let same : x ≡ y = ground arith in rw (← same) h.0
    | inr (z, found) ↦ elim (Bool-cases (before x z)) [
      | inl first ↦ let same : x ≡ y = ground arith in rw (← same) h.0
      | inr later ↦
          let same : z ≡ y = ground arith in rw (← same) (first_by-All P before xs z h.1 found)
    ]
  ]

module _ {ℓ} {A : Type ℓ} (before : A → A → Bool) where
  insert_by-Perm : (x : A) (ys : List A) → Perm (insert_by before x ys) (x ∷ ys)
  insert_by-Perm x [] = Perm.refl (x ∷ [])
  insert_by-Perm x (y ∷ ys) = elim (Bool-cases (before x y)) [
    | inl first ↦ rw first (Perm.refl (x ∷ y ∷ ys))
    | inr later ↦ rw later (Perm.trans (Perm.cons y (insert_by-Perm x ys)) (Perm.swap x y ys))
  ]

  -- ORDER BY loses no row and adds none.
  pub sort_by-Perm : (xs : List A) → Perm (sort_by before xs) xs
  sort_by-Perm [] = Perm.refl []
  sort_by-Perm (x ∷ xs) =
      Perm.trans (insert_by-Perm x (sort_by before xs)) (Perm.cons x (sort_by-Perm xs))
