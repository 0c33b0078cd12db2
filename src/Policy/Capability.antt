-- ===== src/Policy/Capability.antt =====
-- src/policy/capability.ts: minting and checking capability tokens. A token is its segments, those of
-- `token.split('.')`. The base64url and JSON codecs and the Ed25519 signature of node are parameters.
pub mod Verified
use actjs.Prelude.{
  ℕ, ◌+◌, String, not, Bool, false, Option, none, some, List, [], ◌∷◌, length, leb, ltb, get_or,
  if◌then◌else◌,
}
use actjs.Prelude.Keys.{string_keyed, nat_keyed, ◌==◌}
use Prim.Native.String.{◌++◌ as append}
use actjs.Prelude.{◌/◌, ◌*◌, ◌||◌}
use actjs.Prelude.Map.{contains}
use actjs.Prelude.Outcome.{Outcome, ok, throw}

pub record CapabilityClaims : Type 0 where
  pub iss : String
  pub sub : String
  pub aud : Option String
  pub mth : List String
  pub exp : ℕ
  pub nbf : Option ℕ
  pub jti : String

pub record Header : Type 0 where
  pub alg : Option String
  pub typ : Option String

pub record CapabilityMintInput : Type 0 where
  pub actor_class : String
  pub actor_id : String
  pub methods : List String
  pub ttl_ms : ℕ
  pub audience : Option String
  pub now_ms : Option ℕ

pub data CapabilityError : Type 0 where
  ttl_not_positive no_methods malformed_token malformed_json : CapabilityError
  ttl_exceeds : ℕ → ℕ → CapabilityError
  unsupported_alg : Option String → CapabilityError
  bad_signature expired not_yet_valid revoked : CapabilityError

-- The libraries: `b64uJson`, `JSON.parse` of a decoded segment (`none` if it throws), and `sign` and
-- `verify` of node:crypto, on the signing input and the segment of the signature.
pub record Codec (Key : Type 0) : Type 0 where
  pub encode_header : Header → String
  pub encode_claims : CapabilityClaims → String
  pub decode_header : String → Option Header
  pub decode_claims : String → Option CapabilityClaims
  pub sign : Key → String → String
  pub verify : Key → String → String → Bool

pub record CapabilityIssuer (Key : Type 0) : Type 0 where
  pub issuer : String
  pub private_key : Key
  pub max_ttl_ms : ℕ

-- `...(audience ? { aud: audience } : {})`
abbrev pub audience_of : Option String → Option String
audience_of none = none
audience_of (some a) = if a == "" then none else some a

-- The claims that `mint` signs, with `now` for `input.nowMs ?? this.now()`
unfoldable pub claims_of : String → ℕ → CapabilityMintInput → String → CapabilityClaims
claims_of issuer now input jti = record {
  iss = issuer;
  sub = append input.actor_class (append ":" input.actor_id);
  aud = audience_of input.audience;
  mth = input.methods;
  exp = (now + input.ttl_ms) / 1000;
  nbf = none;
  jti = jti;
}

abbrev pub jwt_header : Header
jwt_header = record { alg = some "EdDSA"; typ = some "JWT" }

-- `${encodedHeader}.${encodedPayload}`
abbrev pub signing_input : String → String → String
signing_input header payload = append header (append "." payload)

unfoldable pub method_allowed : CapabilityClaims → String → Bool
method_allowed claims method =
    contains claims.mth method || contains claims.mth (append "call:" method)

unfoldable pub subject_matches : CapabilityClaims → String → String → Bool
subject_matches claims class_name actor_id = claims.sub == append class_name (append ":" actor_id)

abbrev pub is_before : ℕ → Option ℕ → Bool
is_before now none = false
is_before now (some nbf) = ltb now (nbf * 1000)

-- The checks on the time and on the blocklist
unfoldable pub in_force :
    ℕ → (String → Bool) → CapabilityClaims → Outcome CapabilityError CapabilityClaims
in_force now is_revoked payload =
    if leb (payload.exp * 1000) now
    then throw expired
    else if is_before now payload.nbf
    then throw not_yet_valid
    else if is_revoked payload.jti
    then throw revoked
    else ok payload

abbrev pub is_eddsa : Option String → Bool
is_eddsa none = false
is_eddsa (some alg) = alg == "EdDSA"

module _ {Key : Type 0} (codec : Codec Key) where
  abbrev pub signed : CapabilityIssuer Key → CapabilityClaims → List String
  signed i claims =
      let header = codec.encode_header jwt_header in
      let payload = codec.encode_claims claims in
      header ∷ payload ∷ codec.sign i.private_key (signing_input header payload) ∷ []

  unfoldable pub mint :
      CapabilityIssuer Key
      → ℕ
      → CapabilityMintInput
      → String
      → Outcome CapabilityError (List String)
  unfolding claims_of
  mint i clock input jti =
      if leb input.ttl_ms 0
      then throw ttl_not_positive
      else if ltb i.max_ttl_ms input.ttl_ms
      then throw (ttl_exceeds input.ttl_ms i.max_ttl_ms)
      else if leb (length input.methods) 0
      then throw no_methods
      else ok (signed i (claims_of i.issuer (get_or input.now_ms clock) input jti))

  abbrev pub checked :
      Key
      → ℕ
      → (String → Bool)
      → String
      → String
      → String
      → Option Header
      → Option CapabilityClaims
      → Outcome CapabilityError CapabilityClaims
  checked key now is_revoked header payload sig (some h) (some claims) =
      if not (is_eddsa h.alg)
      then throw (unsupported_alg h.alg)
      else if not (codec.verify key (signing_input header payload) sig)
      then throw bad_signature
      else in_force now is_revoked claims
  checked key now is_revoked header payload sig (some h) none = throw malformed_json
  checked key now is_revoked header payload sig none claims = throw malformed_json

  -- The claims of a token that holds at the time `now`; `is_revoked` is false everywhere if the option
  -- is not given.
  unfoldable pub verify_capability :
      List String → Key → ℕ → (String → Bool) → Outcome CapabilityError CapabilityClaims
  unfolding in_force
  verify_capability (header ∷ payload ∷ sig ∷ []) key now is_revoked =
      checked key now is_revoked header payload sig (codec.decode_header header)
        (codec.decode_claims payload)
  verify_capability [] key now is_revoked = throw malformed_token
  verify_capability (a ∷ []) key now is_revoked = throw malformed_token
  verify_capability (a ∷ b ∷ []) key now is_revoked = throw malformed_token
  verify_capability (a ∷ b ∷ c ∷ d ∷ rest) key now is_revoked = throw malformed_token
