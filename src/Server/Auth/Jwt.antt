-- ===== src/Server/Auth/Jwt.antt =====
-- `verifyJWT` and `verifyJwtSignature` of src/server/auth.ts. Of node and JavaScript, `Crypto` has the
-- codecs and the checks of signatures; an exception of one is `none`, and so is
-- a header or a payload that is JSON but no object, of which the code reads the properties, mostly
-- undefined, instead. The claims are JavaScript
-- values, and the numbers among them whole seconds.
pub mod Claims
pub mod Keys
pub mod Accepted
use actjs.Prelude.{
  ℕ, zero, suc, ◌+◌, ◌-◌, ◌≤◌, ◌<◌, String, ◌≡◌, ◌≢◌, ◌&&◌, not, refl, ap, sym, ◌∙◌, Bool, true,
  false, Option, none, some, List, [], ◌∷◌, ◌++◌, map, length, leb, ltb, nat_beq, get_or, arith,
  if◌then◌else◌, Bool-cases, inl, inr,
}
use actjs.Prelude.Keys.{string_keyed, nat_keyed, ◌==◌}
use actjs.Prelude.{◌*◌, ◌||◌}
use actjs.Prelude.Outcome.{Outcome, ok, throw}
use Prim.Native.String.{◌++◌ as concat}
use actjs.Policy.Principal.{Principal}
use actjs.Runtime.Value.{Value, Fields, get_field, str, obj, num, as_array}
use actjs.Server.Auth.{Headers, bearer_token, Thrown, Verdict, same_bytes}
use actjs.Server.Auth.Der.{jose_ecdsa_to_der}

pub record JwksKey : Type 0 where
  pub kid : Option String
  pub alg : Option String
  pub k : Option String
  -- what else the key has
  pub material : String

pub record Crypto : Type 0 where
  pub split_dots : String → List String
  pub b64u_decode : String → List ℕ
  pub parse_object : List ℕ → Option Fields
  pub utf8 : String → List ℕ
  pub hmac_sha256 : List ℕ → List ℕ → List ℕ
  pub verify_rsa : JwksKey → List ℕ → List ℕ → Option Bool
  pub verify_ecdsa : JwksKey → List ℕ → List ℕ → Option Bool

pub record VerifyJwtOptions : Type 0 where
  pub jwks_url : String
  pub issuer : Option String
  pub audience : Option String

pub record Verified : Type 0 where
  pub header : Fields
  pub payload : Fields

-- `cachedJwks` with `cachedAt`
pub record JwksCache : Type 0 where
  pub jwks : Option (List JwksKey)
  pub cached_at : ℕ

unfoldable pub find_kid : List JwksKey → String → Option JwksKey
find_kid [] kid = none
find_kid (j ∷ js) kid =
    let rest = find_kid js kid in
    elim j.kid [ none ↦ rest | some own ↦ if own == kid then some j else rest ]

unfoldable pub find_alg : List JwksKey → String → Option JwksKey
find_alg [] alg = none
find_alg (j ∷ js) alg =
    let rest = find_alg js alg in
    elim j.alg [ none ↦ rest | some own ↦ if own == alg then some j else rest ]

abbrev pub first_key : List JwksKey → Option JwksKey
first_key [] = none
first_key (j ∷ js) = some j

abbrev pub or_else : Option JwksKey → Option JwksKey → Option JwksKey
or_else (some j) other = some j
or_else none other = other

unfoldable pub pick_jwk : List JwksKey → Option String → String → Option JwksKey
unfolding find_kid find_alg
pick_jwk jwks kid alg =
    or_else (elim kid [ none ↦ none | some k ↦ if k == "" then none else find_kid jwks k ])
      (or_else (find_alg jwks alg) (first_key jwks))

abbrev pub text_of : Option Value → Option String
text_of (some (str s)) = some s
text_of (some v) = none
text_of none = none

abbrev pub checked : Option Bool → Bool
checked none = false
checked (some b) = b

module _ (crypto : Crypto) where
  abbrev pub verify_hs256 : Option String → List ℕ → List ℕ → Bool
  verify_hs256 none message signature = false
  verify_hs256 (some k) message signature =
      if k == ""
      then false
      else same_bytes (crypto.hmac_sha256 (crypto.b64u_decode k) message) signature

  unfoldable pub verify_with_jwk : String → JwksKey → List ℕ → List ℕ → Bool
  unfolding same_bytes jose_ecdsa_to_der
  verify_with_jwk alg jwk message signature =
      if alg == "HS256"
      then verify_hs256 jwk.k message signature
      else if alg == "RS256"
      then checked (crypto.verify_rsa jwk message signature)
      else if alg == "ES256"
      then checked (crypto.verify_ecdsa jwk message (jose_ecdsa_to_der signature))
      else false

  abbrev pub verified_parts :
      List JwksKey → String → String → String → Option Fields → Option Fields → Option Verified
  verified_parts jwks h p s none payload = none
  verified_parts jwks h p s (some header) none = none
  verified_parts jwks h p s (some header) (some payload) = elim (text_of (get_field header "alg")) [
    | none ↦ none
    | some alg ↦
        if alg == "none"
        then none
        else elim (pick_jwk jwks (text_of (get_field header "kid")) alg) [
          | none ↦ none
          | some key ↦
              if verify_with_jwk alg key (crypto.utf8 (concat h (concat "." p)))
                (crypto.b64u_decode s)
              then some (record { header = header; payload = payload })
              else none
        ]
  ]

  abbrev pub parsed_parts : List JwksKey → List String → Option Verified
  parsed_parts jwks (h ∷ p ∷ s ∷ []) =
      verified_parts jwks h p s (crypto.parse_object (crypto.b64u_decode h))
        (crypto.parse_object (crypto.b64u_decode p))
  parsed_parts jwks [] = none
  parsed_parts jwks (h ∷ []) = none
  parsed_parts jwks (h ∷ p ∷ []) = none
  parsed_parts jwks (h ∷ p ∷ s ∷ x ∷ xs) = none

  unfoldable pub verify_jwt_signature : String → List JwksKey → Option Verified
  unfolding get_field pick_jwk verify_with_jwk
  verify_jwt_signature token jwks = parsed_parts jwks (crypto.split_dots token)

abbrev pub is_text : Option Value → String → Bool
is_text (some (str s)) t = s == t
is_text (some v) t = false
is_text none t = false

unfoldable pub any_text : List Value → String → Bool
any_text [] t = false
any_text (v ∷ vs) t = is_text (some v) t || any_text vs t

abbrev pub in_array : Option Value → String → Bool
in_array none t = false
in_array (some v) t = elim (as_array v) [ none ↦ false | some vs ↦ any_text vs t ]

abbrev pub issuer_ok : Option String → Option Value → Bool
issuer_ok none iss = true
issuer_ok (some issuer) iss = if issuer == "" then true else is_text iss issuer

abbrev pub audience_ok : Option String → Option Value → Bool
audience_ok none aud = true
audience_ok (some audience) aud =
    if audience == "" then true else is_text aud audience || in_array aud audience

-- `exp * 1000 < now` is refused, and no `exp` is not.
abbrev pub not_expired : Option Value → ℕ → Bool
not_expired (some (num exp)) now = leb now (exp * 1000)
not_expired (some v) now = true
not_expired none now = true

abbrev pub has_begun : Option Value → ℕ → Bool
has_begun (some (num nbf)) now = leb (nbf * 1000) now
has_begun (some v) now = true
has_begun none now = true

-- The claims are accepted at this time.
unfoldable pub claims_ok : VerifyJwtOptions → ℕ → Fields → Bool
unfolding get_field as_array any_text
claims_ok options now claims =
    issuer_ok options.issuer (get_field claims "iss")
    && audience_ok options.audience (get_field claims "aud")
    && not_expired (get_field claims "exp") now
    && has_begun (get_field claims "nbf") now

module _ (crypto : Crypto) (match_bearer : String → Option String)
    (fetch_jwks : String → Outcome Thrown (List JwksKey))
    (principal_from_claims : Fields → Option Principal) (options : VerifyJwtOptions) where
  -- `!cachedJwks || now() - cachedAt > CACHE_TTL_MS`
  abbrev pub is_stale : JwksCache → ℕ → Bool
  is_stale cache now = elim cache.jwks [
    | none ↦ true
    | some jwks ↦ ltb 300000 (now - cache.cached_at)
  ]

  abbrev pub refreshed :
      ℕ → JwksCache → Outcome Thrown (List JwksKey) → Outcome Thrown (List JwksKey) × JwksCache
  refreshed now cache (ok jwks) = (ok jwks, record { jwks = some jwks; cached_at = now })
  refreshed now cache (throw e) = (throw e, cache)

  -- The keys, from the cache or fetched
  unfoldable pub current_jwks : ℕ → JwksCache → Outcome Thrown (List JwksKey) × JwksCache
  current_jwks now cache = elim cache.jwks [
    | none ↦ refreshed now cache (fetch_jwks options.jwks_url)
    | some jwks ↦
        if is_stale cache now
        then refreshed now cache (fetch_jwks options.jwks_url)
        else (ok jwks, cache)
  ]

  abbrev pub with_claims : ℕ → Option Verified → Option Principal
  with_claims now none = none
  with_claims now (some v) =
      if claims_ok options now v.payload then principal_from_claims v.payload else none

  abbrev pub with_jwks :
      ℕ → String → Outcome Thrown (List JwksKey) × JwksCache → Verdict × JwksCache
  with_jwks now token (throw e, cache) = (throw e, cache)
  with_jwks now token (ok jwks, cache) =
      (ok (with_claims now (verify_jwt_signature crypto token jwks)), cache)

  -- The verifier, with the time of the request
  unfoldable pub verify_jwt : ℕ → Headers → JwksCache → Verdict × JwksCache
  unfolding bearer_token current_jwks verify_jwt_signature claims_ok
  verify_jwt now headers cache = elim (bearer_token match_bearer headers) [
    | none ↦ (ok none, cache)
    | some token ↦
        if token == "" then (ok none, cache) else with_jwks now token (current_jwks now cache)
  ]
