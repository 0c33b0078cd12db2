-- ===== src/Server/Pin/Status.antt =====
-- What the answers of src/server/hooks/pin.ts about a sha and a version say of the request and of the driver's
-- records.
use actjs.Prelude.{
  subst, arith, leb→le, leb, false, get_elem?, suc, true, ◌⊎◌, Option-cases, ℕ, String, ◌≡◌, ◌≢◌,
  ◌≤◌, ◌<◌, refl, ap, sym, ◌∙◌, Option, none, some, List, [], ◌∷◌, Bool-cases, inl, inr, All,
}
use actjs.Server.Pin.{ClassVersionRecord}
use actjs.Prelude.Keys.{string_keyed, nat_keyed, ◌==◌}
use actjs.Storage.Driver.{Driver}
use actjs.Storage.Classes.{list_class_versions}
use actjs.Server.Pin

-- A header or a query parameter that is not given, or empty
abbrev pub IsBlank : Option String → Type 0
IsBlank o = (o ≡ none) ⊎ (o ≡ some "")

abbrev pub IsGiven : Option String → String → Type 0
IsGiven o sha = (o ≡ some sha) × (sha ≢ "")

-- The sha that a request names: its header's, or without one that of its query
abbrev pub Names : Pin.PinRequest → String → Type 0
Names req sha = IsGiven req.header sha ⊎ (IsBlank req.header × IsGiven req.query sha)

abbrev pub NamesNone : Pin.PinRequest → Type 0
NamesNone req = IsBlank req.header × IsBlank req.query

non_empty-some : (o : Option String) (sha : String) → Pin.non_empty o ≡ some sha → IsGiven o sha
non_empty-some none sha e = cc
non_empty-some (some s) sha e = elim (Bool-cases (s == "")) [
  | inl empty ↦ (let no : ◌≡◌ {A = Option String} none (some sha) = rw empty at e in cc)
  | inr full ↦
      (let same : ◌≡◌ {A = Option String} (some s) (some sha) = rw full at e in
        let is : s ≡ sha = cc in
        (
          same,
          λ blank.
              (let no : true ≡ false =
                  sym ((string_keyed.same_key_iff s "").1 (is ∙ blank)) ∙ full in
                cc),
        ))
]

non_empty-none : (o : Option String) → Pin.non_empty o ≡ none → IsBlank o
non_empty-none none e = inl refl
non_empty-none (some s) e = elim (Bool-cases (s == "")) [
  | inl empty ↦ inr (ap some ((string_keyed.same_key_iff s "").0 empty))
  | inr full ↦ (let no : ◌≡◌ {A = Option String} (some s) none = rw full at e in cc)
]

pub pin_sha_for-some :
    (req : Pin.PinRequest) (sha : String) → Pin.pin_sha_for req ≡ some sha → Names req sha
unfolding Pin.pin_sha_for
pin_sha_for-some req sha e = elim (Option-cases (Pin.non_empty req.header)) [
  | inl blank ↦ inr (
    non_empty-none req.header blank,
    non_empty-some req.query sha (rw (Pin.pin_sha_for, blank) at e),
  )
  | inr (s, given) ↦
      (let is : ◌≡◌ {A = Option String} (some s) (some sha) = rw (Pin.pin_sha_for, given) at e in
        inl (non_empty-some req.header sha (given ∙ is)))
]

pub pin_sha_for-none : (req : Pin.PinRequest) → Pin.pin_sha_for req ≡ none → NamesNone req
unfolding Pin.pin_sha_for
pin_sha_for-none req e = elim (Option-cases (Pin.non_empty req.header)) [
  | inl blank ↦
      (non_empty-none req.header blank, non_empty-none req.query (rw (Pin.pin_sha_for, blank) at e))
  | inr (s, given) ↦
      (let no : ◌≡◌ {A = Option String} (some s) none = rw (Pin.pin_sha_for, given) at e in cc)
]

-- A record of the list, for this version
abbrev pub IsRecordOf : List ClassVersionRecord → String → ClassVersionRecord → Type 0
IsRecordOf rs version r = ((i : ℕ) × (get_elem? rs i ≡ some r)) × (r.version ≡ version)

find_version-some :
    (rs : List ClassVersionRecord) (version : String) (r : ClassVersionRecord)
    → Pin.find_version rs version ≡ some r
    → IsRecordOf rs version r
unfolding Pin.find_version
find_version-some [] version r e = cc
find_version-some (q ∷ rs) version r e = elim (Bool-cases (q.version == version)) [
  | inl here ↦
      (let is : ◌≡◌ {A = Option ClassVersionRecord} (some q) (some r) = rw here at e in
        let same : q ≡ r = cc in
        (
          (0, is),
          ap (λ (x : ClassVersionRecord). x.version) (sym same)
              ∙ (string_keyed.same_key_iff q.version version).0 here,
        ))
  | inr further ↦
      (let ((i, at), is) = find_version-some rs version r (rw further at e) in ((suc i, at), is))
]

find_version-none :
    (rs : List ClassVersionRecord) (version : String)
    → Pin.find_version rs version ≡ none
    → All (λ r. r.version ≢ version) rs
unfolding Pin.find_version
find_version-none [] version e = tt
find_version-none (q ∷ rs) version e = elim (Bool-cases (q.version == version)) [
  | inl here ↦ (let no : ◌≡◌ {A = Option ClassVersionRecord} (some q) none = rw here at e in cc)
  | inr other ↦ (
    λ is.
        (let no : true ≡ false = sym ((string_keyed.same_key_iff q.version version).1 is) ∙ other in
          cc),
    find_version-none rs version (rw other at e),
  )
]

abbrev pub IsMarked : ClassVersionRecord → Type 0
IsMarked r = (t : ℕ) × (r.deprecated_at ≡ some t)

-- The grace window of a deprecated version has ended, or has not.
abbrev pub IsOver : ClassVersionRecord → ℕ → Type 0
IsOver r now = (g : ℕ) × ((r.grace_until ≡ some g) × (g ≤ now))

abbrev pub IsOpen : ClassVersionRecord → ℕ → Type 0
IsOpen r now = (r.grace_until ≡ none) ⊎ ((g : ℕ) × ((r.grace_until ≡ some g) × (now < g)))

grace_over-cases :
    (r : ClassVersionRecord) (now : ℕ)
    → ((Pin.grace_over r.grace_until now ≡ true) × IsOver r now)
      ⊎ ((Pin.grace_over r.grace_until now ≡ false) × IsOpen r now)
grace_over-cases r now = elim (Option-cases r.grace_until) [
  | inl endless ↦ inr (rw endless refl, inl endless)
  | inr (g, ends) ↦ elim (Bool-cases (leb g now)) [
    | inl over ↦ inl (rw (ends, over) refl, (g, (ends, leb→le g now over)))
    | inr ahead ↦ inr (rw (ends, ahead) refl, inr (g, (ends, ground (arith, ahead))))
  ]
]

module _ {V : Type 0} where
  abbrev pub listed : Driver V → Pin.Ref → List ClassVersionRecord
  listed d ref = list_class_versions d ref.0

  -- The version of this class is deprecated and past its grace window.
  abbrev pub IsExpired : Driver V → ℕ → Pin.Ref → Type 0
  IsExpired d now ref =
      (r : ClassVersionRecord) × (IsRecordOf (listed d ref) ref.1 r × (IsMarked r × IsOver r now))

  abbrev pub IsDeprecated : Driver V → ℕ → Pin.Ref → Type 0
  IsDeprecated d now ref =
      (r : ClassVersionRecord) × (IsRecordOf (listed d ref) ref.1 r × (IsMarked r × IsOpen r now))

  abbrev pub IsHealthy : Driver V → Pin.Ref → Type 0
  IsHealthy d ref =
      (r : ClassVersionRecord) × (IsRecordOf (listed d ref) ref.1 r × (r.deprecated_at ≡ none))

  abbrev pub IsUnlisted : Driver V → Pin.Ref → Type 0
  IsUnlisted d ref = All (λ (r : ClassVersionRecord). r.version ≢ ref.1) (listed d ref)

  abbrev pub MayServe : Driver V → ℕ → Pin.Ref → Type 0
  MayServe d now ref = IsUnlisted d ref ⊎ (IsHealthy d ref ⊎ IsDeprecated d now ref)

  -- What a status says of the driver's records
  abbrev pub Means : Driver V → ℕ → Pin.Ref → Option Pin.DeprecationStatus → Type 0
  Means d now ref none = IsUnlisted d ref
  Means d now ref (some Pin.healthy) = IsHealthy d ref
  Means d now ref (some Pin.deprecated) = IsDeprecated d now ref
  Means d now ref (some Pin.expired) = IsExpired d now ref

  deprecation_status-Means :
      (d : Driver V) (now : ℕ) (ref : Pin.Ref) (r : ClassVersionRecord)
      → IsRecordOf (listed d ref) ref.1 r
      → Means d now ref (some (Pin.deprecation_status r now))
  unfolding Pin.deprecation_status
  deprecation_status-Means d now ref r of_ref = elim (Option-cases r.deprecated_at) [
    | inl fine ↦
        let is : Pin.deprecation_status r now ≡ Pin.healthy =
          rw (Pin.deprecation_status, fine) refl in
        subst (λ x. Means d now ref (some x)) (sym is) (r, (of_ref, fine))
    | inr (t, marked) ↦ elim (grace_over-cases r now) [
      | inl (over, ended) ↦
          let is : Pin.deprecation_status r now ≡ Pin.expired =
            rw (Pin.deprecation_status, marked, over) refl in
          subst (λ x. Means d now ref (some x)) (sym is) (r, (of_ref, ((t, marked), ended)))
      | inr (ahead, runs) ↦
          let is : Pin.deprecation_status r now ≡ Pin.deprecated =
            rw (Pin.deprecation_status, marked, ahead) refl in
          subst (λ x. Means d now ref (some x)) (sym is) (r, (of_ref, ((t, marked), runs)))
    ]
  ]

  pub status_of-Means :
      (d : Driver V) (now : ℕ) (ref : Pin.Ref) → Means d now ref (Pin.status_of d now ref)
  unfolding Pin.status_of Pin.deprecation_status
  status_of-Means d now ref = elim (Option-cases (Pin.find_version (listed d ref) ref.1)) [
    | inl missing ↦
        let is : Pin.status_of d now ref ≡ none = rw (Pin.status_of, missing) refl in
        subst (Means d now ref) (sym is) (find_version-none (listed d ref) ref.1 missing)
    | inr (r, found) ↦
        let of_ref = find_version-some (listed d ref) ref.1 r found in
        let status : Pin.status_of d now ref ≡ some (Pin.deprecation_status r now) =
          rw (Pin.status_of, found) refl in
        subst (Means d now ref) (sym status) (deprecation_status-Means d now ref r of_ref)
  ]
