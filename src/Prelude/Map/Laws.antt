-- ===== src/Prelude/Map/Laws.antt =====
-- The laws of `Map`, in the form of conditionals.
use mathlib.Core.Path.{◌≡◌, refl}
use mathlib.Core.Bool.{true, false}
use mathlib.Core.Logic.{inl, inr}
use mathlib.Core.Option.{none, some}
use mathlib.Core.List.{List, [], ◌∷◌, ◌++◌}
use native.Mathlib.Omega.{arith}
use actjs.Prelude.Keys.{Keyed, ◌==◌}
use actjs.Prelude.Tests.{if◌then◌else◌, Bool-cases}
use actjs.Prelude.Map.{Map, get, has, set, delete, contains, add, remove}

pub ==-refl {ℓ} : {K : Type ℓ} ⦃e : Keyed K⦄ (k : K) → (k == k) ≡ true
==-refl ⦃e⦄ k = (e.same_key_iff k k).1 refl

module _ {ℓ κ} {K : Type ℓ} {V : Type κ} ⦃e : Keyed K⦄ where
  pub get-set :
      (m : Map K V) (k j : K) (v : V) → get (set m k v) j ≡ (if k == j then some v else get m j)
  unfolding get set
  get-set [] k j v = refl
  get-set ((i, w) ∷ m) k j v =
      ground (arith, e.same_key_iff k j, e.same_key_iff i k, e.same_key_iff i j, get-set m k j v)

  pub get-set_self : (m : Map K V) (k : K) (v : V) → get (set m k v) k ≡ some v
  get-set_self m k v = rw (get-set, ==-refl k) refl

  pub get-delete : (m : Map K V) (k j : K) → get (delete m k) j ≡ (if k == j then none else get m j)
  unfolding get delete
  get-delete [] k j = ground arith
  get-delete ((i, w) ∷ m) k j =
      ground (arith, e.same_key_iff k j, e.same_key_iff i k, e.same_key_iff i j, get-delete m k j)

  -- A lookup hits exactly the keys that `has` finds.
  pub has-get : (m : Map K V) (k : K) → has m k ≡ (elim (get m k) [ none ↦ false | some v ↦ true ])
  unfolding get has
  has-get [] k = refl
  has-get ((i, w) ∷ m) k = ground (arith, has-get m k)

module _ {ℓ} {K : Type ℓ} ⦃e : Keyed K⦄ where
  contains-append :
      (s : List K) (k j : K) → contains (s ++ k ∷ []) j ≡ (if k == j then true else contains s j)
  unfolding contains
  contains-append [] k j = refl
  contains-append (i ∷ s) k j = ground (arith, contains-append s k j)

  pub contains-add :
      (s : List K) (k j : K) → contains (add s k) j ≡ (if k == j then true else contains s j)
  unfolding add
  contains-add s k j = elim (Bool-cases (contains s k)) [
    | inl old ↦ rw old (ground (arith, e.same_key_iff k j))
    | inr new ↦ rw new (contains-append s k j)
  ]

  pub contains-remove :
      (s : List K) (k j : K) → contains (remove s k) j ≡ (if k == j then false else contains s j)
  unfolding contains remove
  contains-remove [] k j = ground arith
  contains-remove (i ∷ s) k j =
      ground
        (arith, e.same_key_iff k j, e.same_key_iff i k, e.same_key_iff i j, contains-remove s k j)

module _ {ℓ κ} {K : Type ℓ} {V : Type κ} ⦃e : Keyed K⦄ where
  -- No key has two entries.
  abbrev pub IsMap : Map K V → Type κ
  IsMap [] = Unit
  IsMap ((k, v) ∷ m) = (get m k ≡ none) × IsMap m

  pub IsMap-set : (m : Map K V) (k : K) (v : V) → IsMap m → IsMap (set m k v)
  unfolding get set
  IsMap-set [] k v h = (refl, tt)
  IsMap-set ((j, w) ∷ m) k v h = elim (Bool-cases (j == k)) [
    | inl same ↦ rw same h
    | inr other ↦ rw other (
      ground (arith, get-set m k j v, e.same_key_iff j k, e.same_key_iff k j, h.0),
      IsMap-set m k v h.1,
    )
  ]

  pub IsMap-delete : (m : Map K V) (k : K) → IsMap m → IsMap (delete m k)
  unfolding get delete
  IsMap-delete [] k h = tt
  IsMap-delete ((j, w) ∷ m) k h = elim (Bool-cases (j == k)) [
    | inl same ↦ rw same (IsMap-delete m k h.1)
    | inr other ↦ rw other (ground (arith, get-delete m k j, h.0), IsMap-delete m k h.1)
  ]
