-- ===== src/Prelude/Action.antt =====
-- Methods that read and write a state, and may throw: they keep what they had changed when they threw.
use mathlib.Core.Path.{◌≡◌, ap}
use actjs.Prelude.Outcome.{Outcome, ok, throw}

abbrev pub Action : Type 0 → Type 0 → Type 0 → Type 0
Action S E A = S → Outcome E A × S

module _ {S E A B : Type 0} where
  abbrev pub continue : Outcome E A → (A → S → Outcome E B × S) → S → Outcome E B × S
  continue (ok a) f s = f a s
  continue (throw e) f s = (throw e, s)

  infixl 5 ◌>>=◌ ◌>>◌
  abbrev pub ◌>>=◌ : (S → Outcome E A × S) → (A → S → Outcome E B × S) → S → Outcome E B × S
  ◌>>=◌ m f s = let (r, s') = m s in continue r f s'

  abbrev pub ◌>>◌ : (S → Outcome E A × S) → (S → Outcome E B × S) → S → Outcome E B × S
  m >> k = m >>= λ _. k

  -- A method whose first part is known
  pub >>-at :
      (m : S → Outcome E A × S) (k : S → Outcome E B × S) (s : S) {p : Outcome E A × S}
      → m s ≡ p
      → (m >> k) s ≡ continue p.0 (λ _. k) p.1
  >>-at m k s h = ap (λ p. continue p.0 (λ _. k) p.1) h
