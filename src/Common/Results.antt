-- ===== src/Common/Results.antt =====
-- What a C++ call does: it returns, or it throws. The payload of a throw is the caller's choice.
use mathlib.Core.Path.{◌≡◌, refl}
use mathlib.Core.Logic.{◌⊎◌, inl, inr}
use mathlib.Core.Bool.{Bool, true, false}

pub data Outcome {ℓ κ} (E : Type κ) (A : Type ℓ) : Type (ℓ ⊔ κ) where
  returned : A → Outcome E A
  thrown : E → Outcome E A

infixl 5 ◌>>=◌ ◌>>◌
abbrev pub ◌>>=◌ {ℓ κ μ} :
    {E : Type μ} {A : Type ℓ} {B : Type κ} → Outcome E A → (A → Outcome E B) → Outcome E B
returned a >>= f = f a
thrown e >>= f = thrown e

abbrev pub ◌>>◌ {ℓ μ} : {E : Type μ} {B : Type ℓ} → Outcome E (Unit {0}) → Outcome E B → Outcome E B
m >> k = m >>= λ _. k

-- `if (bad) throw e;`
abbrev pub throw_if {μ} : {E : Type μ} → Bool → E → Outcome E (Unit {0})
throw_if true e = thrown e
throw_if false e = returned tt

-- Inversion of a bind that returned.
pub >>=-eq-returned {ℓ κ μ} :
    {E : Type μ} {A : Type ℓ} {B : Type κ} (m : Outcome E A) (f : A → Outcome E B) {b : B}
    → (m >>= f) ≡ returned b
    → (a : A) × (m ≡ returned a) × (f a ≡ returned b)
>>=-eq-returned (returned a) f h = (a, refl, h)
>>=-eq-returned (thrown e) f h = cc

pub returned-inj {ℓ κ} :
    {E : Type κ} {A : Type ℓ} {a b : A} → ◌≡◌ {A = Outcome E A} (returned a) (returned b) → a ≡ b
returned-inj h = cc

pub Outcome-cases {ℓ κ} :
    {E : Type κ} {A : Type ℓ} (o : Outcome E A)
    → ((a : A) × (o ≡ returned a)) ⊎ ((e : E) × (o ≡ thrown e))
Outcome-cases (returned a) = inl (a, refl)
Outcome-cases (thrown e) = inr (e, refl)
