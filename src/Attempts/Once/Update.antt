-- ===== src/Attempts/Once/Update.antt =====
-- A counted UPDATE on one id of a job table (src/quantum_entanglement/attempts.py).
use quantum_entanglement.Prelude.{
  ◌≤◌, String, Bool, true, false, List, [], ◌∷◌, ◌==◌, All, ◌≡◌, refl, arith, eq_iff, ◌∙◌,
  if◌then◌else◌,
}
use quantum_entanglement.Prelude.Table.{update_where, count_where}
use quantum_entanglement.Attempts.Rows.{InvocationJob}
use quantum_entanglement.Attempts.Life.{has_job}
use quantum_entanglement.Attempts.Once.Rows.{Unique, Stored}

module _ (k : String) (p : InvocationJob → Bool) where
  counted-has_job :
      (xs : List InvocationJob)
      → ((x : InvocationJob) → p x ≡ true → (x.invocation_id == k) ≡ true)
      → 1 ≤ count_where p xs
      → has_job k xs ≡ true
  counted-has_job [] within h = absurd (omega arith)
  counted-has_job (x ∷ xs) within h = ground (arith, within x, counted-has_job xs within)

  module _ (P : InvocationJob → Type 0) (f : InvocationJob → InvocationJob) where
    has_job-update_where :
        (xs : List InvocationJob)
        → ((x : InvocationJob) → (f x).invocation_id ≡ x.invocation_id)
        → has_job k (update_where p f xs) ≡ has_job k xs
    has_job-update_where [] same = refl
    has_job-update_where (x ∷ xs) same = ground (arith, same x, has_job-update_where xs same)

    none_named :
        (xs : List InvocationJob)
        → has_job k xs ≡ false
        → All (λ (j : InvocationJob). (j.invocation_id == k) ≡ true → P j) xs
    none_named [] h = tt
    none_named (x ∷ xs) h = ((λ m. absurd (ground arith)), none_named xs (ground arith))

    Stored-row :
        (x : InvocationJob) (xs : List InvocationJob) (b : Bool)
        → p x ≡ b
        → ((x : InvocationJob) → p x ≡ true → (x.invocation_id == k) ≡ true)
        → ((x : InvocationJob) → (f x).invocation_id ≡ x.invocation_id)
        → ((x : InvocationJob) → p x ≡ true → P (f x))
        → has_job x.invocation_id xs ≡ false
        → (1 ≤ count_where p xs → Stored P k (update_where p f xs))
        → 1 ≤ count_where p (x ∷ xs)
        → Stored P k ((if b then f x else x) ∷ update_where p f xs)
    Stored-row x xs true e within same once new rest h =
        let named : x.invocation_id ≡ k = ground (arith, within x, eq_iff x.invocation_id k) in
        (
          ground (arith, same x, within x),
          (
            (λ _. once x e),
            none_named (update_where p f xs) (has_job-update_where xs same ∙ rw named at new),
          ),
        )
    Stored-row x xs false e within same once new rest h =
        let counted : 1 ≤ count_where p xs = ground arith in
        let listed = counted-has_job xs within counted in
        (
          ground (arith, (rest counted).0),
          ((λ m. absurd (ground (arith, eq_iff x.invocation_id k))), (rest counted).1),
        )

    -- Where ids are unique, an UPDATE of one id that hit a row leaves that job started.
    pub Stored-update_where :
        (xs : List InvocationJob)
        → ((x : InvocationJob) → p x ≡ true → (x.invocation_id == k) ≡ true)
        → ((x : InvocationJob) → (f x).invocation_id ≡ x.invocation_id)
        → ((x : InvocationJob) → p x ≡ true → P (f x))
        → Unique xs
        → 1 ≤ count_where p xs
        → Stored P k (update_where p f xs)
    Stored-update_where [] within same once u h = absurd (omega arith)
    Stored-update_where (x ∷ xs) within same once u h =
        Stored-row x xs (p x) refl within same once u.0
          (Stored-update_where xs within same once u.1) h
