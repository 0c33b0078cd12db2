-- ===== src/Registry/Resolver.antt =====
-- src/registry/resolver.ts. `satisfies` and `rcompare_le` (`rcompare(a, b) <= 0`: the first version is
-- the higher or equal) are those of the semver package, and `catalog` gives the published versions of a
-- class, or the error that the lookup threw; its answers are cached for one run, so that it is a
-- function. The loop over the queue runs on fuel.
pub mod Candidates
pub mod Visit
pub mod Pinned
pub mod Grown
pub mod Closure
pub mod Termination
use actjs.Prelude.{
  ℕ, zero, suc, String, ◌&&◌, Bool, true, false, Option, none, some, List, [], ◌∷◌, ◌++◌, map,
  length, leb, ltb, get_or, if◌then◌else◌,
}
use actjs.Prelude.Keys.{string_keyed, nat_keyed, ◌==◌}
use Prim.Native.String.{◌++◌ as append}
use actjs.Prelude.{◌*◌}
use actjs.Prelude.Map.{Map, get, set}
use actjs.Prelude.Sort.{sort}
use actjs.Prelude.Outcome.{Outcome, ok, throw}
use actjs.Storage.Types.{ClassVersionRecord, DepsMap}

pub record AccumulatedRange : Type 0 where
  pub range : String
  pub path : List String

pub record ResolveRoot : Type 0 where
  pub name : String
  pub range : String

pub record QueueEntry : Type 0 where
  pub name : String
  pub range : String
  pub path : List String

pub data ResolverError : Type 0 where
  dep_conflict : String → List AccumulatedRange → ResolverError
  class_not_found : String → ResolverError
  depth_exceeded nodes_exceeded : ℕ → ResolverError

-- `out_of_fuel` is no result of the code.
pub data Resolution {ℓ} (A : Type ℓ) : Type ℓ where
  resolved : A → Resolution A
  failed : ResolverError → Resolution A
  out_of_fuel : Resolution A

pub record Walk : Type 0 where
  pub constraints : Map String (List AccumulatedRange)
  pub picked : Map String String
  pub nodes : ℕ

abbrev pub at_range : String → String → String
at_range name range = append name (append "@" range)

abbrev pub entry_of : ResolveRoot → QueueEntry
entry_of r = record { name = r.name; range = r.range; path = at_range r.name r.range ∷ [] }

-- `catalogFromDriver`, of the versions that the driver lists
unfoldable pub catalog_from_driver :
    String → List ClassVersionRecord → Outcome ResolverError (List ClassVersionRecord)
catalog_from_driver name [] = throw (class_not_found name)
catalog_from_driver name (v ∷ vs) = ok (v ∷ vs)

abbrev pub is_current : Option ℕ → Bool
is_current none = true
is_current (some t) = false

abbrev pub first : List ClassVersionRecord → Option ClassVersionRecord
first [] = none
first (v ∷ vs) = some v

module _ (satisfies : String → String → Bool) (rcompare_le : String → String → Bool)
    (catalog : String → Outcome ResolverError (List ClassVersionRecord)) where
  unfoldable pub satisfies_all : String → List AccumulatedRange → Bool
  satisfies_all version [] = true
  satisfies_all version (c ∷ cs) = satisfies version c.range && satisfies_all version cs

  -- The filter of `pickHighest`
  unfoldable pub candidates :
      List ClassVersionRecord → List AccumulatedRange → List ClassVersionRecord
  unfolding satisfies_all
  candidates [] cs = []
  candidates (v ∷ vs) cs =
      let rest = candidates vs cs in
      if is_current v.deprecated_at && satisfies_all v.version cs then v ∷ rest else rest

  unfoldable pub pick_highest :
      List ClassVersionRecord → List AccumulatedRange → Option ClassVersionRecord
  unfolding candidates sort
  pick_highest vs cs = first (sort (λ a b. rcompare_le a.version b.version) (candidates vs cs))

  abbrev pub deps_of : QueueEntry → ClassVersionRecord → DepsMap → List QueueEntry
  deps_of node v deps =
      map
        (λ (d : String × String). record {
          name = d.0;
          range = d.1;
          path = node.path ++ at_range node.name v.version ∷ at_range d.0 d.1 ∷ [];
        })
        deps

  abbrev pub with_constraint : QueueEntry → Walk → List AccumulatedRange
  with_constraint node w =
      get_or (get w.constraints node.name) []
      ++ record { range = node.range; path = node.path } ∷ []

  abbrev pub is_picked : String → Option String → Bool
  is_picked version none = false
  is_picked version (some prior) = prior == version

  -- What follows the pick: the walk, and the dependencies to enqueue
  abbrev pub picked_step :
      ℕ
      → QueueEntry
      → List AccumulatedRange
      → Walk
      → Option ClassVersionRecord
      → Outcome ResolverError (Walk × List QueueEntry)
  picked_step max_nodes node cs w none = throw (dep_conflict node.name cs)
  picked_step max_nodes node cs w (some v) =
      let w' = record w { constraints = set w.constraints node.name cs } in
      if is_picked v.version (get w.picked node.name)
      then ok (w', [])
      else if leb (suc w.nodes) max_nodes
      then ok (
        record w' { picked = set w.picked node.name v.version; nodes = suc w.nodes },
        deps_of node v v.deps,
      )
      else throw (nodes_exceeded max_nodes)

  abbrev pub fetched :
      ℕ
      → QueueEntry
      → List AccumulatedRange
      → Walk
      → Outcome ResolverError (List ClassVersionRecord)
      → Outcome ResolverError (Walk × List QueueEntry)
  fetched max_nodes node cs w (throw e) = throw e
  fetched max_nodes node cs w (ok versions) =
      picked_step max_nodes node cs w (pick_highest versions cs)

  -- One turn of the loop
  unfoldable pub visit : ℕ → ℕ → QueueEntry → Walk → Outcome ResolverError (Walk × List QueueEntry)
  unfolding pick_highest
  visit max_depth max_nodes node w =
      if ltb (max_depth * 2) (length node.path)
      then throw (depth_exceeded max_depth)
      else fetched max_nodes node (with_constraint node w) w (catalog node.name)

  unfoldable pub walk : ℕ → ℕ → ℕ → List QueueEntry → Walk → Resolution Walk
  unfolding visit
  walk fuel max_depth max_nodes [] w = resolved w
  walk zero max_depth max_nodes (node ∷ queue) w = out_of_fuel
  walk (suc fuel) max_depth max_nodes (node ∷ queue) w = elim (visit max_depth max_nodes node w) [
    | throw e ↦ failed e
    | ok r ↦ walk fuel max_depth max_nodes (queue ++ r.1) r.0
  ]

  unfoldable pub resolve : ℕ → List ResolveRoot → Option ℕ → Option ℕ → Resolution Walk
  unfolding walk
  resolve fuel roots max_depth max_nodes =
      walk fuel (get_or max_depth 16) (get_or max_nodes 256) (map entry_of roots)
        (record { constraints = []; picked = []; nodes = 0 })
