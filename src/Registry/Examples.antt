-- ===== src/Registry/Examples.antt =====
-- A run of src/registry/resolver.ts at a concrete catalog.
use actjs.Prelude.{
  inr, arith, subst, inl, ◌≤◌, Bool-cases, length, All, ◌≡◌, ◌≢◌, String, refl, Bool, true, false,
  none, List, [], ◌∷◌, if◌then◌else◌,
}
use actjs.Registry.Resolver.Closure.{resolve-IsInstalled, IsInstalled, IsMet}
use actjs.Registry.Resolver.Termination.{resolve_terminates, DepsAtMost}
use actjs.Registry.Resolver.{
  out_of_fuel, ResolverError, ResolveRoot, Walk, walk, visit, pick_highest, candidates,
  satisfies_all, resolve,
}
use actjs.Prelude.Keys.{string_keyed, nat_keyed, ◌==◌}
use actjs.Prelude.Outcome.{Outcome, ok, throw}
use actjs.Prelude.Map.{get, set}
use actjs.Prelude.Sort.{sort}
use actjs.Storage.Types.{ClassVersionRecord}
use actjs.Registry.Resolver.Pinned.{IsPinned, resolve-IsPinned}

abbrev published_as : String → String → List (String × String) → ClassVersionRecord
published_as name version deps = record {
  name = name;
  version = version;
  source_sha256 = version;
  deps = deps;
  engines = [];
  published_at = 0;
  deprecated_at = none;
  grace_until = none;
  signed_by = none;
  floating = false;
  event_sourced = false;
}

-- A range is the version it wants, or "*".
abbrev wants : String → String → Bool
wants version range = if range == "*" then true else version == range

abbrev as_listed : String → String → Bool
as_listed a b = true

-- `Cart` depends on `Note`.
abbrev shop : String → Outcome ResolverError (List ClassVersionRecord)
shop name =
    if name == "Cart"
    then ok (published_as "Cart" "2" (("Note", "1") ∷ []) ∷ published_as "Cart" "1" [] ∷ [])
    else if name == "Note"
    then ok (published_as "Note" "2" [] ∷ published_as "Note" "1" [] ∷ [])
    else throw (ResolverError.class_not_found name)

abbrev cart_root : List ResolveRoot
cart_root = record { name = "Cart"; range = "*" } ∷ []

abbrev pinned_shop : Walk
pinned_shop = record {
  constraints =
      ("Cart", record { range = "*"; path = "Cart@*" ∷ [] } ∷ [])
      ∷ ("Note", record { range = "1"; path = "Cart@*" ∷ "Cart@2" ∷ "Note@1" ∷ [] } ∷ [])
      ∷ [];
  picked = ("Cart", "2") ∷ ("Note", "1") ∷ [];
  nodes = 2;
}

resolve-IsPinned_example : IsPinned wants as_listed shop pinned_shop "Note" "1"
unfolding resolve walk visit pick_highest candidates satisfies_all sort get set
resolve-IsPinned_example =
    resolve-IsPinned wants as_listed shop 10 cart_root none none pinned_shop "Note" "1" refl refl

resolve-IsInstalled_example :
    All (λ r. IsMet wants as_listed shop pinned_shop r.name r.range) cart_root
    × IsInstalled wants as_listed shop pinned_shop "Cart" "2"
unfolding resolve walk visit pick_highest candidates satisfies_all sort get set
resolve-IsInstalled_example =
    resolve-IsInstalled wants as_listed shop 10 cart_root none none pinned_shop "Cart" "2" refl refl

listed_once :
    (a b vs : List ClassVersionRecord)
    → ◌≡◌ {A = Outcome ResolverError (List ClassVersionRecord)} (ok a) (ok vs)
    → All (λ v. length v.deps ≤ 1) a
    → All (λ v. length v.deps ≤ 1) vs
listed_once a b vs e h = let same : a ≡ vs = cc in subst (All (λ v. length v.deps ≤ 1)) same h

-- Each version of the shop has at most one dependency.
shop-DepsAtMost : DepsAtMost wants as_listed shop 1
shop-DepsAtMost name vs listed = elim (Bool-cases (name == "Cart")) [
  | inl cart ↦
      listed_once (published_as "Cart" "2" (("Note", "1") ∷ []) ∷ published_as "Cart" "1" [] ∷ [])
        [] vs (rw cart at listed) (omega arith, (omega arith, tt))
  | inr other ↦ elim (Bool-cases (name == "Note")) [
    | inl note ↦
        listed_once (published_as "Note" "2" [] ∷ published_as "Note" "1" [] ∷ []) [] vs
          (rw (other, note) at listed) (omega arith, (omega arith, tt))
    | inr unknown ↦
        (let no : ◌≡◌ {A = Outcome ResolverError (List ClassVersionRecord)}
              (throw (ResolverError.class_not_found name)) (ok vs) =
            rw (other, unknown) at listed in
          cc)
  ]
]

resolve_terminates_example : resolve wants as_listed shop 257 cart_root none none ≢ out_of_fuel
resolve_terminates_example =
    resolve_terminates wants as_listed shop 1 257 cart_root none none shop-DepsAtMost (omega arith)
