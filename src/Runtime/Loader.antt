-- ===== src/Runtime/Loader.antt =====
-- The cache of src/runtime/loader.ts. `Ctor` is a compiled constructor, and `compile`, the TypeScript
-- compiler and the evaluation of its output, is a parameter. The clock is an argument.
pub mod Cache
use actjs.Prelude.{
  ℕ, suc, ◌-◌, String, Bool, true, Option, none, some, List, [], ◌∷◌, length, leb, ltb,
  if◌then◌else◌,
}
use actjs.Prelude.Keys.{string_keyed, nat_keyed, ◌==◌}
use actjs.Prelude.Map.{Map, get, set, delete}
use actjs.Prelude.Outcome.{Outcome, ok, throw}
use actjs.Storage.Types.{ClassVersionRecord}
use actjs.Storage.Driver.{Driver}
use actjs.Storage.Classes.{list_class_versions, get_class_source}

pub record CacheEntry (Ctor : Type 0) : Type 0 where
  pub sha : String
  pub ctor : Ctor
  pub last_used_at : ℕ
  pub ref_count : ℕ

pub record ClassLoader (Ctor : Type 0) : Type 0 where
  pub by_sha : Map String (CacheEntry Ctor)
  pub max_entries : ℕ
  pub compilations : ℕ

pub data LoaderError : Type 0 where
  class_source_not_found : String → String → LoaderError
  class_version_expired : String → String → ℕ → LoaderError
  compile_error : String → String → List String → LoaderError

-- `versions.find((v) => v.version === version)`
unfoldable pub find_version : List ClassVersionRecord → String → Option ClassVersionRecord
find_version [] version = none
find_version (v ∷ vs) version = if v.version == version then some v else find_version vs version

abbrev pub is_past : ℕ → Option ℕ → Option ℕ
is_past now none = none
is_past now (some t) = if leb t now then some t else none

module _ {Ctor : Type 0} where
  -- Whether the loop of `maybeEvict` passes over an entry
  abbrev pub is_kept : String → CacheEntry Ctor → Bool
  is_kept just_added e = if ltb 0 e.ref_count then true else e.sha == just_added

  abbrev pub older : Option (CacheEntry Ctor) → CacheEntry Ctor → Option (CacheEntry Ctor)
  older none e = some e
  older (some o) e = if ltb e.last_used_at o.last_used_at then some e else some o

  -- The loop of `maybeEvict`
  unfoldable pub oldest_of :
      String → Option (CacheEntry Ctor) → Map String (CacheEntry Ctor) → Option (CacheEntry Ctor)
  oldest_of just_added best [] = best
  oldest_of just_added best ((k, e) ∷ m) =
      oldest_of just_added (if is_kept just_added e then best else older best e) m

  abbrev pub drop_entry : ClassLoader Ctor → Option (CacheEntry Ctor) → ClassLoader Ctor
  drop_entry l none = l
  drop_entry l (some e) = record l { by_sha = delete l.by_sha e.sha }

  unfoldable pub maybe_evict : ClassLoader Ctor → String → ClassLoader Ctor
  unfolding oldest_of
  maybe_evict l just_added =
      if leb (length l.by_sha) l.max_entries
      then l
      else drop_entry l (oldest_of just_added none l.by_sha)

  unfoldable pub cache_put : ClassLoader Ctor → ℕ → String → Ctor → ClassLoader Ctor
  unfolding maybe_evict
  cache_put l now sha ctor =
      maybe_evict
        (record l {
          by_sha =
              set l.by_sha sha
                (record { sha = sha; ctor = ctor; last_used_at = now; ref_count = 0 });
        })
        sha

  unfoldable pub acquire : ClassLoader Ctor → String → ClassLoader Ctor
  acquire l sha = elim (get l.by_sha sha) [
    | none ↦ l
    | some e ↦ record l { by_sha = set l.by_sha sha (record e { ref_count = suc e.ref_count }) }
  ]

  unfoldable pub release : ClassLoader Ctor → String → ClassLoader Ctor
  release l sha = elim (get l.by_sha sha) [
    | none ↦ l
    | some e ↦
        if ltb 0 e.ref_count
        then record l { by_sha = set l.by_sha sha (record e { ref_count = e.ref_count - 1 }) }
        else l
  ]

  module _ (compile : List ℕ → Outcome (List String) Ctor) where
    abbrev pub compiled :
        ClassLoader Ctor
        → ℕ
        → String
        → String
        → String
        → Outcome (List String) Ctor
        → Outcome LoaderError Ctor × ClassLoader Ctor
    compiled l now name version sha (ok ctor) = (ok ctor, cache_put l now sha ctor)
    compiled l now name version sha (throw messages) =
        (throw (compile_error name version messages), l)

    abbrev pub load_source :
        ClassLoader Ctor
        → ℕ
        → String
        → String
        → String
        → Option (List ℕ)
        → Outcome LoaderError Ctor × ClassLoader Ctor
    load_source l now name version sha none = (throw (class_source_not_found name version), l)
    load_source l now name version sha (some source) =
        compiled (record l { compilations = suc l.compilations }) now name version sha
          (compile source)

    module _ {V : Type 0} where
      abbrev pub load_cached :
          Driver V
          → ClassLoader Ctor
          → ℕ
          → String
          → String
          → String
          → Option (CacheEntry Ctor)
          → Outcome LoaderError Ctor × ClassLoader Ctor
      load_cached d l now name version sha (some e) =
          (ok e.ctor, record l { by_sha = set l.by_sha sha (record e { last_used_at = now }) })
      load_cached d l now name version sha none =
          load_source l now name version sha (get_class_source d name version)

      abbrev pub load_record :
          Driver V
          → ClassLoader Ctor
          → ℕ
          → String
          → String
          → Option ClassVersionRecord
          → Outcome LoaderError Ctor × ClassLoader Ctor
      load_record d l now name version none = (throw (class_source_not_found name version), l)
      load_record d l now name version (some r) = elim (is_past now r.grace_until) [
        | some t ↦ (throw (class_version_expired name version t), l)
        | none ↦ load_cached d l now name version r.source_sha256 (get l.by_sha r.source_sha256)
      ]

      unfoldable pub load :
          Driver V
          → ClassLoader Ctor
          → ℕ
          → String
          → String
          → Outcome LoaderError Ctor × ClassLoader Ctor
      unfolding find_version cache_put
      load d l now name version =
          load_record d l now name version (find_version (list_class_versions d name) version)
