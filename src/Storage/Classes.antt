-- ===== src/Storage/Classes.antt =====
-- publishClass, getClassSource, listClassVersions, deprecateClassVersion, loadManifest and
-- saveManifest of src/storage/memory.ts, with `hashBuf`.
pub mod Laws
use Prim.Native.String.{◌++◌ as append}
use text.Mathlib.Text.{starts_with}
use actjs.Prelude.{
  ℕ, zero, suc, ◌+◌, ◌*◌, ◌/◌, ◌%◌, ◌^◌, String, false, Option, none, some, List, [], ◌∷◌, get_or,
  get_elem?, if◌then◌else◌,
}
use actjs.Prelude.Keys.{string_keyed}
use actjs.Prelude.Outcome.{Outcome, ok, throw}
use actjs.Prelude.Map.{Map, get, set, has}
use actjs.Storage.Types.{
  ClassVersionRecord, PublishClassInput, StorageError, version_already_published,
  unknown_class_version,
}
use actjs.Storage.Driver.{Driver}

abbrev hex_digit : ℕ → String
hex_digit n =
    get_or
      (get_elem?
        ("0" ∷ "1" ∷ "2" ∷ "3" ∷ "4" ∷ "5" ∷ "6" ∷ "7" ∷ "8" ∷ "9" ∷ "a" ∷ "b" ∷ "c" ∷ "d" ∷ "e"
          ∷ "f" ∷ [])
        n)
      ""

-- `h.toString(16).padStart(16, '0')` of a number below 2 ^ 64: its `n` lowest hexadecimal digits
hex : ℕ → ℕ → String
hex zero h = ""
hex (suc n) h = append (hex n (h / 16)) (hex_digit (h % 16))

-- the loop of `hashBuf`
hash_from : ℕ → List ℕ → ℕ
hash_from h [] = h
hash_from h (b ∷ bs) = hash_from ((h * 32 + h + b) % 2 ^ 64) bs

unfoldable pub hash_buf : List ℕ → String
unfolding hash_from hex
hash_buf buf = hex 16 (hash_from 5381 buf)

-- `${name}@${version}`
abbrev pub class_key : String → String → String
class_key name version = append name (append "@" version)

abbrev pub record_for : ℕ → PublishClassInput → ClassVersionRecord
record_for now input = record {
  name = input.name;
  version = input.version;
  source_sha256 = hash_buf input.source;
  deps = input.deps;
  engines = input.engines;
  published_at = now;
  deprecated_at = none;
  grace_until = none;
  signed_by = input.signed_by;
  floating = get_or input.floating false;
  event_sourced = get_or input.event_sourced false;
}

-- the loop of `listClassVersions`
unfoldable pub with_prefix : String → Map String ClassVersionRecord → List ClassVersionRecord
with_prefix prefix [] = []
with_prefix prefix ((k, v) ∷ m) =
    let rest = with_prefix prefix m in if starts_with k prefix then v ∷ rest else rest

-- `...(graceUntil !== undefined ? { graceUntil } : {})`
abbrev pub or_keep : Option ℕ → Option ℕ → Option ℕ
or_keep none old = old
or_keep (some t) old = some t

module _ {V : Type 0} where
  unfoldable pub publish_class : Driver V → ℕ → PublishClassInput → Outcome StorageError (Driver V)
  publish_class d now input =
      let key = class_key input.name input.version in
      if has d.class_versions key
      then throw (version_already_published input.name input.version)
      else ok (record d {
        class_source = set d.class_source (hash_buf input.source) input.source;
        class_versions = set d.class_versions key (record_for now input);
      })

  unfoldable pub get_class_source : Driver V → String → String → Option (List ℕ)
  get_class_source d name version = elim (get d.class_versions (class_key name version)) [
    | none ↦ none
    | some r ↦ get d.class_source r.source_sha256
  ]

  unfoldable pub list_class_versions : Driver V → String → List ClassVersionRecord
  unfolding with_prefix
  list_class_versions d name = with_prefix (append name "@") d.class_versions

  unfoldable pub deprecate_class_version :
      Driver V → ℕ → String → String → Option ℕ → Outcome StorageError (Driver V)
  deprecate_class_version d now name version grace_until =
      elim (get d.class_versions (class_key name version)) [
        | none ↦ throw (unknown_class_version (class_key name version))
        | some r ↦ ok (record d {
          class_versions = set d.class_versions (class_key name version) (record r {
            deprecated_at = some now;
            grace_until = or_keep grace_until r.grace_until;
          });
        })
      ]

  unfoldable pub load_manifest : Driver V → String → Option (Map String String)
  load_manifest d sha = get d.manifests sha

  unfoldable pub save_manifest : Driver V → String → Map String String → Driver V
  save_manifest d sha resolved = record d { manifests = set d.manifests sha resolved }
