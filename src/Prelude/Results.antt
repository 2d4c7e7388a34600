-- ===== src/Prelude/Results.antt =====
-- A call that returns or raises, and the transaction that undoes the writes of a call that raises.
use mathlib.Core.Path.{◌≡◌, refl}
use mathlib.Core.Bool.{Bool, true, false}
use mathlib.Core.Option.{Option, none, some}
use mathlib.Core.Logic.{◌⊎◌, inl, inr}
use native.Mathlib.Omega.{arith}
use quantum_entanglement.Prelude.Tests.{if◌then◌else◌}

pub data Result {ℓ κ} (E : Type ℓ) (A : Type κ) : Type (ℓ ⊔ κ) where
  ok : A → Result E A
  err : E → Result E A

infixl 5 ◌>>=◌ ◌>>◌
abbrev pub ◌>>=◌ {ℓ κ μ} :
    {E : Type ℓ} {A : Type κ} {B : Type μ} → Result E A → (A → Result E B) → Result E B
ok a >>= f = f a
err e >>= f = err e

abbrev pub ◌>>◌ {ℓ κ} : {E : Type ℓ} {B : Type κ} → Result E (Unit {0}) → Result E B → Result E B
m >> k = m >>= λ _. k

-- `if not test: raise e`
abbrev pub guard {ℓ} : {E : Type ℓ} → Bool → E → Result E (Unit {0})
guard true e = ok tt
guard false e = err e

abbrev pub or_raise {ℓ κ} : {E : Type ℓ} {A : Type κ} → Option A → E → Result E A
or_raise none e = err e
or_raise (some a) e = ok a

-- A body run in a transaction on `s`: a raise rolls every write back, a return commits.
abbrev pub transact {ℓ κ μ} :
    {E : Type ℓ} {A : Type κ} {S : Type μ} → S → Result E (A × S) → Result E A × S
transact s (ok (a, s')) = (ok a, s')
transact s (err e) = (err e, s)

-- Inversion of a bind that returned.
pub >>=-eq-ok {ℓ κ μ} :
    {E : Type ℓ} {A : Type κ} {B : Type μ} (first : Result E A) (next : A → Result E B) {y : B}
    → (first >>= next) ≡ ok y
    → (x : A) × (first ≡ ok x) × (next x ≡ ok y)
>>=-eq-ok (ok x) next returned = (x, refl, returned)
>>=-eq-ok (err raised) next returned = cc

-- Inversion of a bind that raised.
pub >>=-eq-err {ℓ κ μ} :
    {E : Type ℓ} {A : Type κ} {B : Type μ} (first : Result E A) (next : A → Result E B) {raised : E}
    → (first >>= next) ≡ err raised
    → (first ≡ err raised) ⊎ ((x : A) × (first ≡ ok x) × (next x ≡ err raised))
>>=-eq-err (ok x) next h = inr (x, refl, h)
>>=-eq-err (err raised) next h = inl (cc)

-- Whatever the call returns satisfies `P`.
abbrev pub Gives {ℓ κ μ} : {E : Type ℓ} {A : Type κ} → (A → Type μ) → Result E A → Type (ℓ ⊔ κ ⊔ μ)
Gives {A} P m = (a : A) → m ≡ ok a → P a

module _ {ℓ κ μ ν} {E : Type ℓ} {A : Type κ} {B : Type μ} where
  pub Gives-bind :
      (P : B → Type ν) (m : Result E A) (f : A → Result E B)
      → ((a : A) → m ≡ ok a → Gives P (f a))
      → Gives P (m >>= f)
  Gives-bind P (ok a) f h = h a refl
  Gives-bind P (err e) f h = λ b r. cc

pub Gives-ok {ℓ κ μ} :
    {E : Type ℓ} {A : Type κ} (P : A → Type μ) (a : A) → P a → Gives {E = E} P (ok a)
Gives-ok P a p b e = let same : a ≡ b = cc in rw same at p

pub or_raise-eq_ok {ℓ κ} :
    {E : Type ℓ} {A : Type κ} (o : Option A) (e : E) (a : A) → or_raise o e ≡ ok a → o ≡ some a
or_raise-eq_ok none e a h = cc
or_raise-eq_ok (some b) e a h = cc

-- A test that did not raise held.
pub guard-eq_ok {ℓ} : {E : Type ℓ} (b : Bool) (e : E) (u : Unit {0}) → guard b e ≡ ok u → b ≡ true
guard-eq_ok true e u h = refl
guard-eq_ok false e u h = cc

-- A transaction that returned committed its body's writes.
pub transact-eq_ok {ℓ κ μ} :
    {E : Type ℓ} {A : Type κ} {S : Type μ} (s : S) (m : Result E (A × S)) (a : A) (s' : S)
    → transact s m ≡ (ok a, s')
    → m ≡ ok (a, s')
transact-eq_ok s (ok (a₁, s₁)) a s' h = ground arith
transact-eq_ok s (err e) a s' h = absurd (ground arith)

-- What held before a transaction and holds of what its body commits, holds after it.
pub transact-keeps {ℓ κ μ ν} :
    {E : Type ℓ} {A : Type κ} {S : Type μ} (P : S → Type ν) (s : S) (m : Result E (A × S))
    → P s
    → Gives (λ (out : A × S). P out.1) m
    → P (transact s m).1
transact-keeps P s (ok (a, s')) before body = body (a, s') refl
transact-keeps P s (err e) before body = before

pub Gives-if {ℓ κ μ} :
    {E : Type ℓ} {A : Type κ} (P : A → Type μ) (b : Bool) (m n : Result E A)
    → (b ≡ true → Gives P m)
    → (b ≡ false → Gives P n)
    → Gives P (if b then m else n)
Gives-if P true m n yes_case no_case = yes_case refl
Gives-if P false m n yes_case no_case = no_case refl

pub Gives-err {ℓ κ μ} : {E : Type ℓ} {A : Type κ} (P : A → Type μ) (e : E) → Gives {A = A} P (err e)
Gives-err P e a r = cc

-- What a transaction returns is what its body returns.
pub transact-Gives {ℓ κ μ ν} :
    {E : Type ℓ} {A : Type κ} {S : Type μ} (P : A → Type ν) (s : S) (m : Result E (A × S))
    → Gives (λ (out : A × S). P out.0) m
    → Gives P (transact s m).0
transact-Gives P s (ok (a, s')) body b e = let same : a ≡ b = cc in rw same at (body (a, s') refl)
transact-Gives P s (err raised) body b e = cc
