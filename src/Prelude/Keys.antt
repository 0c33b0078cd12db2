-- ===== src/Prelude/Keys.antt =====
-- JavaScript's `===` and the key comparison of `Map`, as an interface.
use Prim.Native.Nat.{ℕ}
use Prim.Native.String.{String}
use mathlib.Core.Path.{◌≡◌}
use mathlib.Core.Logic.{◌↔◌}
use mathlib.Core.Bool.{Bool, true}
use text.Mathlib.Text.{◌==◌ as str_eq}
use text.Mathlib.TextEquality.{eq_iff}
use actjs.Prelude.Tests.{nat_beq, nat_beq_iff}

-- `same_key` decides equality.
pub record Keyed {ℓ} (K : Type ℓ) : Type ℓ where
  pub same_key : K → K → Bool
  pub same_key_iff : (j k : K) → (same_key j k ≡ true) ↔ (j ≡ k)

module _ {ℓ} {K : Type ℓ} ⦃keyed : Keyed K⦄ where
  infix 50 ◌==◌
  abbrev pub ◌==◌ : K → K → Bool
  ◌==◌ j k = keyed.same_key j k

instance abbrev pub nat_keyed : Keyed ℕ
nat_keyed = record { same_key = nat_beq; same_key_iff = nat_beq_iff }

instance abbrev pub string_keyed : Keyed String
string_keyed = record { same_key = str_eq; same_key_iff = eq_iff }
