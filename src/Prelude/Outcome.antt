-- ===== src/Prelude/Outcome.antt =====
-- Code that may throw: a result, or the error that was thrown. `err` leaves the error's type open.
use mathlib.Core.Path.{◌≡◌, refl}
use mathlib.Core.Logic.{◌⊎◌, inl, inr}
use mathlib.Core.Option.{Option, none, some}

pub data Outcome {ℓ κ} (E : Type ℓ) (A : Type κ) : Type (ℓ ⊔ κ) where
  ok : A → Outcome E A
  throw : E → Outcome E A

-- A `Promise<void>` that may be rejected.
abbrev pub Attempt : Type 0 → Type 0
Attempt E = Outcome {0, 0} E Unit

infixl 5 ◌>>=◌ ◌>>◌
abbrev pub ◌>>=◌ {ℓ κ μ} :
    {E : Type ℓ} {A : Type κ} {B : Type μ} → Outcome E A → (A → Outcome E B) → Outcome E B
ok a >>= f = f a
throw e >>= f = throw e

abbrev pub ◌>>◌ {ℓ κ μ} :
    {E : Type ℓ} {A : Type κ} {B : Type μ} → Outcome E A → Outcome E B → Outcome E B
m >> k = m >>= λ _. k

pub >>-eq-ok {ℓ κ μ} :
    {E : Type ℓ} {A : Type κ} {B : Type μ} (m : Outcome E A) (k : Outcome E B) {b : B}
    → (m >> k) ≡ ok b
    → k ≡ ok b
>>-eq-ok (ok a) k h = h
>>-eq-ok (throw e) k h = cc

-- The value of an outcome, or nothing.
abbrev pub to_option {ℓ κ} : {E : Type ℓ} {A : Type κ} → Outcome E A → Option A
to_option (ok a) = some a
to_option (throw e) = none

pub Outcome-cases {ℓ κ} :
    {E : Type ℓ} {A : Type κ} (o : Outcome E A) → ((e : E) × (o ≡ throw e)) ⊎ ((a : A) × (o ≡ ok a))
Outcome-cases (throw e) = inl (e, refl)
Outcome-cases (ok a) = inr (a, refl)
