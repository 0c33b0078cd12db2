-- ===== src/Server/Pin/Served.antt =====
-- Which pins src/server/hooks/pin.ts lets through.
use actjs.Prelude.{
  Option-cases, ℕ, String, ◌≡◌, ◌≢◌, ◌&&◌, refl, ap, sym, ◌∙◌, Bool, Option, none, some, List, [],
  ◌∷◌, ltb, Bool-cases, inl, inr, All,
}
use actjs.Server.Pin.{ClassVersionRecord}
use actjs.Prelude.Keys.{string_keyed, nat_keyed, ◌==◌}
use actjs.Prelude.Map.{Map, get}
use actjs.Prelude.Map.Laws.{get-set}
use actjs.Storage.Driver.{Driver}
use actjs.Storage.Classes.{load_manifest, save_manifest, list_class_versions}
use actjs.Server.ManifestTracker.{Tracker}
use actjs.Server.Pin
use actjs.Server.Pin.Status.{
  Names, NamesNone, IsExpired, IsDeprecated, MayServe, Means, pin_sha_for-some, pin_sha_for-none,
  status_of-Means,
}

module _ {V : Type 0} where
  -- What the two lists of `classifyPin` hold
  record IsClassified (d : Driver V) (now : ℕ) (refs : List Pin.Ref)
      (lists : List Pin.Ref × List Pin.Ref) : Type 0 where
    warned : All (IsDeprecated d now) lists.0
    refused : All (IsExpired d now) lists.1
    rest : lists.1 ≡ [] → All (MayServe d now) refs

  add_ref-IsClassified :
      (d : Driver V) (now : ℕ) (ref : Pin.Ref) (refs : List Pin.Ref)
      (lists : List Pin.Ref × List Pin.Ref) (o : Option Pin.DeprecationStatus)
      → Means d now ref o
      → IsClassified d now refs lists
      → IsClassified d now (ref ∷ refs) (Pin.add_ref ref o lists)
  add_ref-IsClassified d now ref refs lists none is h = record {
    warned = h.warned;
    refused = h.refused;
    rest = λ e. (inl is, h.rest e);
  }
  add_ref-IsClassified d now ref refs lists (some Pin.healthy) is h = record {
    warned = h.warned;
    refused = h.refused;
    rest = λ e. (inr (inl is), h.rest e);
  }
  add_ref-IsClassified d now ref refs lists (some Pin.deprecated) is h = record {
    warned = (is, h.warned);
    refused = h.refused;
    rest = λ e. (inr (inr is), h.rest e);
  }
  add_ref-IsClassified d now ref refs lists (some Pin.expired) is h = record {
    warned = h.warned;
    refused = (is, h.refused);
    rest = λ e. cc;
  }

  classify_pin-IsClassified :
      (d : Driver V) (now : ℕ) (refs : Map String String)
      → IsClassified d now refs (Pin.classify_pin d now refs)
  unfolding Pin.classify_pin
  classify_pin-IsClassified d now [] = record { warned = tt; refused = tt; rest = λ e. tt }
  classify_pin-IsClassified d now (ref ∷ refs) =
      add_ref-IsClassified d now ref refs (Pin.classify_pin d now refs) (Pin.status_of d now ref)
        (status_of-Means d now ref) (classify_pin-IsClassified d now refs)

  -- What the outcome of the hook says of the manifest that the driver has under the sha
  abbrev pub Promised : Driver V → ℕ → Pin.PinRequest → Pin.PinResult → Type 0
  Promised d now req Pin.no_pin = NamesNone req
  Promised d now req (Pin.no_manifest sha) = Names req sha × (load_manifest d sha ≡ none)
  Promised d now req (Pin.gone refs) =
      ((sha : String) × ((resolved : Map String String) × (Names req sha
            × (load_manifest d sha ≡ some resolved))))
      × ((refs ≢ []) × All (IsExpired d now) refs)
  Promised d now req (Pin.pinned pin) =
      Names req pin.sha
      × ((load_manifest d pin.sha ≡ some pin.resolved)
          × (All (MayServe d now) pin.resolved × All (IsDeprecated d now) pin.deprecated_refs))

  classified-Promised :
      (d : Driver V) (now : ℕ) (req : Pin.PinRequest) (sha : String) (resolved : Map String String)
      (lists : List Pin.Ref × List Pin.Ref)
      → Names req sha
      → load_manifest d sha ≡ some resolved
      → IsClassified d now resolved lists
      → Promised d now req (Pin.classified sha resolved lists)
  classified-Promised d now req sha resolved (warned, []) asked there h =
      (asked, (there, (h.rest refl, h.warned)))
  classified-Promised d now req sha resolved (warned, ref ∷ refs) asked there h =
      ((sha, (resolved, (asked, there))), (λ e. cc, h.refused))

  status_of-resaved :
      (sample_every : ℕ) (sampled : Bool) (d : Driver V) (sha : String)
      (resolved : Map String String) (now : ℕ) (ref : Pin.Ref)
      → Pin.status_of (Pin.resaved sample_every sampled d sha resolved) now ref
        ≡ Pin.status_of d now ref
  unfolding Pin.status_of save_manifest list_class_versions
  status_of-resaved sample_every sampled d sha resolved now ref =
      elim (Bool-cases (ltb 0 sample_every && sampled)) [
        | inl again ↦ rw again refl
        | inr once ↦ rw once refl
      ]

  classify_pin-resaved :
      (sample_every : ℕ) (sampled : Bool) (d : Driver V) (sha : String)
      (resolved : Map String String) (now : ℕ) (refs : Map String String)
      → Pin.classify_pin (Pin.resaved sample_every sampled d sha resolved) now refs
        ≡ Pin.classify_pin d now refs
  unfolding Pin.classify_pin
  classify_pin-resaved sample_every sampled d sha resolved now [] = refl
  classify_pin-resaved sample_every sampled d sha resolved now (ref ∷ refs) =
      ap (Pin.add_ref ref _) (classify_pin-resaved sample_every sampled d sha resolved now refs)
      ∙ ap (λ o. Pin.add_ref ref o (Pin.classify_pin d now refs))
          (status_of-resaved sample_every sampled d sha resolved now ref)

  -- Saving a manifest that was loaded changes nothing that is loaded.
  load_manifest-resaved :
      (sample_every : ℕ) (sampled : Bool) (d : Driver V) (sha other : String)
      (resolved : Map String String)
      → load_manifest d sha ≡ some resolved
      → load_manifest (Pin.resaved sample_every sampled d sha resolved) other
        ≡ load_manifest d other
  unfolding load_manifest save_manifest
  load_manifest-resaved sample_every sampled d sha other resolved there =
      elim (Bool-cases (ltb 0 sample_every && sampled)) [
        | inl again ↦ rw again (elim (Bool-cases (sha == other)) [
          | inl same ↦
              let eq : sha ≡ other = (string_keyed.same_key_iff sha other).0 same in
              rw (get-set d.manifests sha other resolved, same)
                (sym there ∙ ap (get d.manifests) eq)
          | inr differs ↦ rw (get-set d.manifests sha other resolved, differs) refl
        ])
        | inr once ↦ rw once refl
      ]

  -- The hook pins a request to the stored manifest of the sha that it names, by its header or else its query, only
  -- when each version in it has no record, or one that is not deprecated or whose grace window has not
  -- ended, and warns only of deprecated ones in their grace window. It answers 410 only with versions that
  -- are deprecated and whose grace window has ended, and at least one, 400 only for a named sha that is not
  -- stored, and lets a request pass without a pin only when it names no sha. It changes no manifest.
  pub pin_hook-Promised :
      (sample_every : ℕ) (sampled : Bool) (seen now : ℕ) (req : Pin.PinRequest)
      (w : Driver V × Tracker) (other : String)
      → Promised w.0 now req (Pin.pin_hook sample_every sampled seen now req w).0
        × (load_manifest (Pin.pin_hook sample_every sampled seen now req w).1.0 other
            ≡ load_manifest w.0 other)
  unfolding Pin.pin_hook
  pin_hook-Promised sample_every sampled seen now req w other =
      elim (Option-cases (Pin.pin_sha_for req)) [
        | inl unpinned ↦ rw (Pin.pin_hook, unpinned) (pin_sha_for-none req unpinned, refl)
        | inr (sha, asked) ↦ elim (Option-cases (load_manifest w.0 sha)) [
          | inl missing ↦
              rw (Pin.pin_hook, asked, missing) ((pin_sha_for-some req sha asked, missing), refl)
          | inr (resolved, there) ↦
              rw
                (
                  Pin.pin_hook,
                  asked,
                  there,
                  classify_pin-resaved sample_every sampled w.0 sha resolved now resolved,
                )
                (
                  classified-Promised w.0 now req sha resolved (Pin.classify_pin w.0 now resolved)
                      (pin_sha_for-some req sha asked) there
                      (classify_pin-IsClassified w.0 now resolved),
                  load_manifest-resaved sample_every sampled w.0 sha other resolved there,
                )
        ]
      ]
