-- ===== src/Prelude/Map.antt =====
-- JavaScript's `Map`: entries in insertion order, at most one for each key. Writing a key that is
-- there replaces its value in place; writing a new one appends. A `Set` is the list of its elements.
pub mod Laws
use mathlib.Core.Bool.{Bool, true, false}
use mathlib.Core.Option.{Option, none, some}
use mathlib.Core.List.{List, [], ◌∷◌, ◌++◌}
use actjs.Prelude.Keys.{Keyed, ◌==◌}
use actjs.Prelude.Tests.{if◌then◌else◌}

abbrev pub Map {ℓ κ} : Type ℓ → Type κ → Type (ℓ ⊔ κ)
Map K V = List (K × V)

module _ {ℓ κ} {K : Type ℓ} {V : Type κ} ⦃e : Keyed K⦄ where
  -- m.get(k)
  unfoldable pub get : Map K V → K → Option V
  get [] k = none
  get ((j, v) ∷ m) k = if j == k then some v else get m k

  -- m.has(k)
  unfoldable pub has : Map K V → K → Bool
  has [] k = false
  has ((j, v) ∷ m) k = if j == k then true else has m k

  -- m.set(k, v)
  unfoldable pub set : Map K V → K → V → Map K V
  set [] k v = (k, v) ∷ []
  set ((j, w) ∷ m) k v = if j == k then (j, v) ∷ m else (j, w) ∷ set m k v

  -- m.delete(k); there is at most one entry to drop
  unfoldable pub delete : Map K V → K → Map K V
  delete [] k = []
  delete ((j, w) ∷ m) k = let rest = delete m k in if j == k then rest else (j, w) ∷ rest

module _ {ℓ} {K : Type ℓ} ⦃e : Keyed K⦄ where
  -- s.has(k), for a `Set` as the list of its elements
  unfoldable pub contains : List K → K → Bool
  contains [] k = false
  contains (j ∷ s) k = if j == k then true else contains s k

  -- s.add(k)
  unfoldable pub add : List K → K → List K
  unfolding contains
  add s k = if contains s k then s else s ++ k ∷ []

  -- s.delete(k)
  unfoldable pub remove : List K → K → List K
  remove [] k = []
  remove (j ∷ s) k = let rest = remove s k in if j == k then rest else j ∷ rest
