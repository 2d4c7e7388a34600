-- ===== src/Context/Pack.antt =====
-- The loop of `compile` (src/quantum_entanglement/context.py), with the items that it omits.
use mathlib.Core.List.{Perm, perm_middle}
use mathlib.Core.List.Perm
use quantum_entanglement.Prelude.{
  ℕ, ◌+◌, ◌≤◌, ◌<◌, String, true, List, [], ◌∷◌, ◌++◌, map, All, if◌then◌else◌, leb, ◌≡◌, refl,
  arith, Bool-cases, inl, inr,
}
use quantum_entanglement.Prelude.Table.{insert_by, sort_by}
use quantum_entanglement.Context.{ContextItem, not_after, estimated_tokens, required_tokens, pack}
use quantum_entanglement.Context.Order.{none_required, required_first}

module _ (utf8_length : String → ℕ) where
  abbrev pub tokens : List ContextItem → ℕ
  tokens [] = 0
  tokens (i ∷ is) = estimated_tokens utf8_length i + tokens is

  -- The items that the loop omits.
  pub left_over : ℕ → ℕ → List ContextItem → List ContextItem
  left_over budget used [] = []
  left_over budget used (i ∷ is) =
      let with_item = left_over budget (used + estimated_tokens utf8_length i) is in
      let without_item = left_over budget used is in
      if leb (used + estimated_tokens utf8_length i) budget then with_item else i ∷ without_item

  pub left_over-names :
      (budget used : ℕ) (is : List ContextItem)
      → (pack utf8_length budget used is).1 ≡ map (λ i. i.item_id) (left_over budget used is)
  unfolding left_over pack
  left_over-names budget used [] = refl
  left_over-names budget used (i ∷ is) = ground (
    arith,
    left_over-names budget used is,
    left_over-names budget (used + estimated_tokens utf8_length i) is,
  )

  pub pack-spent :
      (budget used : ℕ) (is : List ContextItem)
      → used ≤ budget
      → ((pack utf8_length budget used is).2 ≡ used + tokens (pack utf8_length budget used is).0)
        × ((pack utf8_length budget used is).2 ≤ budget)
  unfolding pack
  pack-spent budget used [] h = (omega arith, h)
  pack-spent budget used (i ∷ is) h = ground (
    arith,
    pack-spent budget used is,
    pack-spent budget (used + estimated_tokens utf8_length i) is,
  )

  -- No omitted item would still fit.
  pub pack-full :
      (budget used : ℕ) (is : List ContextItem)
      → used ≤ (pack utf8_length budget used is).2
        × All
            (λ (i : ContextItem).
              budget < (pack utf8_length budget used is).2 + estimated_tokens utf8_length i)
            (left_over budget used is)
  unfolding left_over pack
  pack-full budget used [] = (omega arith, tt)
  pack-full budget used (i ∷ is) =
      elim (Bool-cases (leb (used + estimated_tokens utf8_length i) budget)) [
        | inl fits ↦
            let rest = pack-full budget (used + estimated_tokens utf8_length i) is in
            rw fits (omega (arith, rest.0), rest.1)
        | inr over ↦
            let rest = pack-full budget used is in
            rw over (rest.0, (ground (arith, rest.0), rest.1))
      ]

  pub pack-Perm :
      (budget used : ℕ) (is : List ContextItem)
      → Perm ((pack utf8_length budget used is).0 ++ left_over budget used is) is
  unfolding left_over pack
  pack-Perm budget used [] = Perm.refl []
  pack-Perm budget used (i ∷ is) =
      elim (Bool-cases (leb (used + estimated_tokens utf8_length i) budget)) [
        | inl fits ↦
            rw fits (Perm.cons i (pack-Perm budget (used + estimated_tokens utf8_length i) is))
        | inr over ↦ rw over (
            Perm.trans (perm_middle (pack utf8_length budget used is).0 (left_over budget used is))
              (Perm.cons i (pack-Perm budget used is)))
      ]

  required_tokens-none :
      (is : List ContextItem) → none_required is ≡ true → required_tokens utf8_length is ≡ 0
  unfolding required_tokens
  required_tokens-none [] h = refl
  required_tokens-none (i ∷ is) h = ground (arith, required_tokens-none is)

  none_left :
      (budget used : ℕ) (is : List ContextItem)
      → none_required is ≡ true
      → none_required (left_over budget used is) ≡ true
  unfolding left_over
  none_left budget used [] h = refl
  none_left budget used (i ∷ is) h =
      ground (
        arith,
        none_left budget used is,
        none_left budget (used + estimated_tokens utf8_length i) is,
      )

  pub left_over-none_required :
      (budget used : ℕ) (is : List ContextItem)
      → required_first is ≡ true
      → used + required_tokens utf8_length is ≤ budget
      → none_required (left_over budget used is) ≡ true
  unfolding left_over required_tokens
  left_over-none_required budget used [] first fits = refl
  left_over-none_required budget used (i ∷ is) first fits = elim (Bool-cases i.required) [
    | inl must ↦
        ground (arith, left_over-none_required budget (used + estimated_tokens utf8_length i) is)
    | inr may ↦ ground (
      arith,
      none_left budget used is,
      none_left budget (used + estimated_tokens utf8_length i) is,
    )
  ]

  required_tokens-insert_by :
      (x : ContextItem) (is : List ContextItem)
      → required_tokens utf8_length (insert_by not_after x is)
        ≡ required_tokens utf8_length (x ∷ is)
  unfolding required_tokens
  required_tokens-insert_by x [] = refl
  required_tokens-insert_by x (i ∷ is) = ground (arith, required_tokens-insert_by x is)

  pub required_tokens-sort_by :
      (is : List ContextItem)
      → required_tokens utf8_length (sort_by not_after is) ≡ required_tokens utf8_length is
  unfolding required_tokens
  required_tokens-sort_by [] = refl
  required_tokens-sort_by (i ∷ is) =
      let rest = required_tokens-sort_by is in
      ground (arith, required_tokens-insert_by i (sort_by not_after is))
