-- ===== src/Prelude/Keys.antt =====
-- Rows under a primary key: what a search finds, and what an UPDATE hits or misses.
use Prim.Native.String.{String}
use mathlib.Core.Path.{◌≡◌, refl, sym, ◌∙◌}
use mathlib.Core.Bool.{Bool, true, false}
use mathlib.Core.List.{List, [], ◌∷◌}
use mathlib.Core.Option.{some}
use mathlib.Core.Logic.{inl, inr}
use native.Mathlib.Omega.{arith}
use text.Mathlib.Text.{◌==◌}
use text.Mathlib.TextEquality.{eq_iff}
use quantum_entanglement.Prelude.Tests.{if◌then◌else◌, leb, Bool-cases}
use quantum_entanglement.Prelude.Lists.{find, All, All-imp, All-and}
use quantum_entanglement.Prelude.Table.{update_where, count_where}
use quantum_entanglement.Prelude.Moves.{named, Unique, Stored}

module _ {A : Type 0} (key : A → String) where
  other_keys :
      (k : String) (xs : List A) → named key k xs ≡ false → All (λ (x : A). (key x == k) ≡ false) xs
  other_keys k [] h = tt
  other_keys k (x ∷ xs) h = (ground arith, other_keys k xs (ground arith))

  vacuous :
      (P : A → Type 0) (k : String) (xs : List A)
      → named key k xs ≡ false
      → All (λ (y : A). (key y == k) ≡ true → P y) xs
  vacuous P k [] h = tt
  vacuous P k (x ∷ xs) h = ((λ m. absurd (ground arith)), vacuous P k xs (ground arith))

  -- Where keys are unique, what holds of a row holds of every row with its key.
  pub All-Unique :
      (P : A → Type 0) (xs : List A)
      → Unique key xs
      → All (λ (x : A). P x → All (λ (y : A). (key y == key x) ≡ true → P y) xs) xs
  All-Unique P [] u = tt
  All-Unique P (x ∷ xs) u = (
    (λ h. ((λ m. h), vacuous P (key x) xs u.0)),
    All-imp _ _ xs
        (λ z
            (both : ((key z == key x) ≡ false)
              × (P z → All (λ (y : A). (key y == key z) ≡ true → P y) xs))
            h.
          (
            (λ m. absurd (ground (arith, both.0, eq_iff (key x) (key z), eq_iff (key z) (key x)))),
            both.1 h,
          ))
        (All-and _ _ xs (other_keys (key x) xs u.0) (All-Unique P xs u.1)),
  )

  -- A row that is found, as what holds of every row with its key.
  pub Stored-found :
      (k : String) (x : A) (xs : List A)
      → Unique key xs
      → find (λ y. key y == k) xs ≡ some x
      → Stored key (λ y. y ≡ x) k xs
  Stored-found k x [] u e = cc
  Stored-found k x (y ∷ ys) u e = elim (Bool-cases (key y == k)) [
    | inl same ↦
        let row : y ≡ x = ground arith in
        let id : key y ≡ k = ground (arith, eq_iff (key y) k) in
        (ground arith, ((λ m. row), vacuous _ k ys (rw id at u.0)))
    | inr other ↦
        let rest = Stored-found k x ys u.1 (ground arith) in
        (ground (arith, rest.0), ((λ m. absurd (ground arith)), rest.1))
  ]

  pub found-Stored :
      (k : String) (x : A) (xs : List A)
      → Stored key (λ y. y ≡ x) k xs
      → find (λ y. key y == k) xs ≡ some x
  found-Stored k x [] s = absurd (ground (arith, s.0))
  found-Stored k x (y ∷ ys) s = elim (Bool-cases (key y == k)) [
    | inl same ↦ let row = s.1.0 same in ground arith
    | inr other ↦ ground (arith, found-Stored k x ys, s.0, s.1.1)
  ]

  named-update_where :
      (p : A → Bool) (f : A → A) (k : String) (xs : List A)
      → ((x : A) → key (f x) ≡ key x)
      → named key k (update_where p f xs) ≡ named key k xs
  named-update_where p f k [] same = refl
  named-update_where p f k (x ∷ xs) same = ground (arith, same x, named-update_where p f k xs same)

  missed :
      (P : A → Type 0) (p : A → Bool) (f : A → A) (k : String) (x : A) (b : Bool)
      → p x ≡ b
      → ((x : A) → key (f x) ≡ key x)
      → ((x : A) → (key x == k) ≡ true → p x ≡ false)
      → ((key x == k) ≡ true → P x)
      → (key (if b then f x else x) == k) ≡ true
      → P (if b then f x else x)
  missed P p f k x true e same miss h m =
      let hit : (key x == k) ≡ true = rw (same x) at m in absurd (ground (arith, miss x hit))
  missed P p f k x false e same miss h m = h m

  All-missed :
      (P : A → Type 0) (p : A → Bool) (f : A → A) (k : String) (xs : List A)
      → ((x : A) → key (f x) ≡ key x)
      → ((x : A) → (key x == k) ≡ true → p x ≡ false)
      → All (λ (x : A). (key x == k) ≡ true → P x) xs
      → All (λ (x : A). (key x == k) ≡ true → P x) (update_where p f xs)
  All-missed P p f k [] same miss h = tt
  All-missed P p f k (x ∷ xs) same miss h =
      (missed P p f k x (p x) refl same miss h.0, All-missed P p f k xs same miss h.1)

  -- An UPDATE that misses the rows of a key leaves what is stored under it.
  pub Stored-update_where :
      (P : A → Type 0) (p : A → Bool) (f : A → A) (k : String) (xs : List A)
      → ((x : A) → key (f x) ≡ key x)
      → ((x : A) → (key x == k) ≡ true → p x ≡ false)
      → Stored key P k xs
      → Stored key P k (update_where p f xs)
  Stored-update_where P p f k xs same miss s =
      (named-update_where p f k xs same ∙ s.0, All-missed P p f k xs same miss s.1)

  -- An UPDATE of rows of one key that hit a row: every row of that key is as the UPDATE leaves it.
  pub Stored-hit :
      (P : A → Type 0) (p : A → Bool) (f : A → A) (k : String) (xs : List A)
      → ((x : A) → key (f x) ≡ key x)
      → ((x : A) → p x ≡ true → key x ≡ k)
      → ((x : A) → p x ≡ true → P (f x))
      → Unique key xs
      → leb 1 (count_where p xs) ≡ true
      → Stored key P k (update_where p f xs)
  Stored-hit P p f k [] same of_key holds u hit = absurd (ground arith)
  Stored-hit P p f k (x ∷ xs) same of_key holds u hit = elim (Bool-cases (p x)) [
    | inl hits ↦
        let id = of_key x hits in
        let others : named key k (update_where p f xs) ≡ false =
          named-update_where p f k xs same ∙ rw id at u.0 in
        let named_k : (key (f x) == k) ≡ true = rw (same x, id) (ground (arith, eq_iff k k)) in
        rw hits (ground (arith, named_k), ((λ _. holds x hits), vacuous P k _ others))
    | inr missed ↦
        let rest = Stored-hit P p f k xs same of_key holds u.1 (ground (arith, hit, missed)) in
        let there : named key k xs ≡ true = sym (named-update_where p f k xs same) ∙ rest.0 in
        rw missed (
          ground (arith, there, named-update_where p f k xs same),
          ((λ m. absurd (ground (arith, m, there, u.0, eq_iff (key x) k))), rest.1),
        )
  ]
