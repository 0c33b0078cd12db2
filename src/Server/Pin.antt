-- ===== src/Server/Pin.antt =====
-- src/server/hooks/pin.ts over the memory driver and the usage tracker. `sampled` says whether this
-- request drew zero of `randomInt(sampleEvery)`; the times of the driver and the tracker are
-- arguments. Of the request the model has the header and the query parameter, as texts.
pub mod Status
pub mod Served
use actjs.Prelude.{
  ℕ, zero, suc, ◌+◌, ◌-◌, ◌≤◌, ◌<◌, String, ◌≡◌, ◌≢◌, ◌&&◌, not, refl, ap, sym, ◌∙◌, Bool, true,
  false, Option, none, some, List, [], ◌∷◌, ◌++◌, map, length, leb, ltb, nat_beq, get_or, arith,
  if◌then◌else◌, Bool-cases, inl, inr,
}
use actjs.Prelude.Keys.{string_keyed, nat_keyed, ◌==◌}
use actjs.Prelude.Map.{Map, get, set}
use actjs.Storage.Types.{ClassVersionRecord}
use actjs.Storage.Driver.{Driver}
use actjs.Storage.Classes.{load_manifest, save_manifest, list_class_versions}
use actjs.Server.ManifestTracker.{Tracker, record_sha}

pub record PinRequest : Type 0 where
  pub header : Option String
  pub query : Option String

abbrev pub Ref : Type 0
Ref = String × String

pub record PinContext : Type 0 where
  pub sha : String
  pub resolved : Map String String
  pub deprecated_refs : List Ref

-- What the hook does to the request: nothing, a thrown status 400, a reply 410 with the expired classes,
-- or a pin. A pin comes with a warning header when its `deprecated_refs` are not empty.
pub data PinResult : Type 0 where
  no_pin : PinResult
  no_manifest : String → PinResult
  gone : List Ref → PinResult
  pinned : PinContext → PinResult

pub data DeprecationStatus : Type 0 where
  healthy deprecated expired : DeprecationStatus

abbrev pub non_empty : Option String → Option String
non_empty none = none
non_empty (some s) = if s == "" then none else some s

unfoldable pub pin_sha_for : PinRequest → Option String
pin_sha_for req = elim (non_empty req.header) [ some sha ↦ some sha | none ↦ non_empty req.query ]

abbrev pub grace_over : Option ℕ → ℕ → Bool
grace_over none now = false
grace_over (some t) now = leb t now

unfoldable pub deprecation_status : ClassVersionRecord → ℕ → DeprecationStatus
deprecation_status r now = elim r.deprecated_at [
  | none ↦ healthy
  | some t ↦ if grace_over r.grace_until now then expired else deprecated
]

unfoldable pub find_version : List ClassVersionRecord → String → Option ClassVersionRecord
find_version [] version = none
find_version (r ∷ rs) version =
    let rest = find_version rs version in if r.version == version then some r else rest

-- The status of a pinned version, when the driver has it
unfoldable pub status_of : {V : Type 0} → Driver V → ℕ → Ref → Option DeprecationStatus
status_of d now ref = elim (find_version (list_class_versions d ref.0) ref.1) [
  | none ↦ none
  | some r ↦ some (deprecation_status r now)
]

abbrev pub add_ref : Ref → Option DeprecationStatus → List Ref × List Ref → List Ref × List Ref
add_ref ref none rest = rest
add_ref ref (some healthy) rest = rest
add_ref ref (some deprecated) rest = (ref ∷ rest.0, rest.1)
add_ref ref (some expired) rest = (rest.0, ref ∷ rest.1)

-- The deprecated and the expired classes of the manifest, in its order
unfoldable pub classify_pin : {V : Type 0} → Driver V → ℕ → Map String String → List Ref × List Ref
classify_pin d now [] = ([], [])
classify_pin d now (ref ∷ refs) = add_ref ref (status_of d now ref) (classify_pin d now refs)

abbrev pub classified : String → Map String String → List Ref × List Ref → PinResult
classified sha resolved (deprecated_refs, []) =
    pinned (record { sha = sha; resolved = resolved; deprecated_refs = deprecated_refs })
classified sha resolved (deprecated_refs, ref ∷ refs) = gone (ref ∷ refs)

module _ {V : Type 0} where
  abbrev pub resaved : ℕ → Bool → Driver V → String → Map String String → Driver V
  resaved sample_every sampled d sha resolved =
      if ltb 0 sample_every && sampled then save_manifest d sha resolved else d

  unfoldable pub pin_hook :
      ℕ → Bool → ℕ → ℕ → PinRequest → Driver V × Tracker → PinResult × (Driver V × Tracker)
  unfolding pin_sha_for classify_pin
  pin_hook sample_every sampled seen now req w = elim (pin_sha_for req) [
    | none ↦ (no_pin, w)
    | some sha ↦ elim (load_manifest w.0 sha) [
      | none ↦ (no_manifest sha, w)
      | some resolved ↦
          (let d = resaved sample_every sampled w.0 sha resolved in
            (
              classified sha resolved (classify_pin d now resolved),
              (d, record_sha w.1 seen sha (some resolved)),
            ))
    ]
  ]
