-- ===== src/Server/AuthExamples.antt =====
-- Runs of src/server/auth.ts at concrete inputs.
use actjs.Prelude.{
  ℕ, zero, suc, String, ◌≡◌, refl, true, false, none, some, List, [], ◌∷◌, length, nat_beq, arith,
  if◌then◌else◌,
}
use actjs.Prelude.Keys.{string_keyed, nat_keyed, ◌==◌}
use actjs.Prelude.{take, drop}
use actjs.Prelude.Outcome.{ok}
use actjs.Policy.Principal.{Principal}
use actjs.Policy.Capability.{Codec}
use actjs.Runtime.Value.{Fields, no_field, with_field, str, num, get_field, as_array}
use actjs.Server.Auth.{Headers, one, header_string, bearer_token, Verdict}
use actjs.Server.Auth.Der.{jose_ecdsa_to_der}
use actjs.Server.Auth.Der.Decoding.{number_from, read_signature, read_signature-jose_ecdsa_to_der}
use actjs.Server.Auth.Jwt.{
  JwksKey, Crypto, VerifyJwtOptions, JwksCache, verify_jwt, verify_jwt_signature, pick_jwk,
  find_kid, find_alg, verify_with_jwk, claims_ok, current_jwks, any_text,
}
use actjs.Server.Auth.Jwt.Accepted.{IsAccepted, verify_jwt-IsAccepted}
use actjs.Server.Auth.Hook.{AuthOptions, Authenticated, auth_hook}
use actjs.Server.Auth.Hook.Required.{IsProven, auth_hook-IsProven}

-- Two numbers of 32 bytes, the first with a high bit and the second with leading zeros
abbrev zeros : ℕ → List ℕ → List ℕ
zeros zero bs = bs
zeros (suc n) bs = 0 ∷ zeros n bs

abbrev small_signature : List ℕ
small_signature = 200 ∷ zeros 31 (zeros 31 (9 ∷ []))

read_signature-jose_ecdsa_to_der_example :
    read_signature (jose_ecdsa_to_der small_signature)
    ≡ some (number_from 0 (take 32 small_signature), number_from 0 (drop 32 small_signature))
read_signature-jose_ecdsa_to_der_example =
    read_signature-jose_ecdsa_to_der small_signature (omega arith) refl

abbrev ada : Principal
ada = record { sub = "ada"; roles = none; tenant = none; capabilities = none; claims = none }

abbrev with_bearer : Headers
with_bearer name = if name == "authorization" then some (one "Bearer t") else none

abbrev claims : Fields
claims = with_field "exp" (num 100) (with_field "iss" (str "home") no_field)

-- The token's parts are "h", "p" and "s"; every text is decoded to one byte for each part.
abbrev toy_crypto : Crypto
toy_crypto = record {
  split_dots = λ t. "h" ∷ "p" ∷ "s" ∷ [];
  b64u_decode = λ t. if t == "h" then 1 ∷ [] else 2 ∷ [];
  parse_object =
      λ b. if nat_beq (length b) 1 then some (with_field "alg" (str "RS256") claims) else none;
  utf8 = λ t. 3 ∷ [];
  hmac_sha256 = λ k m. 4 ∷ [];
  verify_rsa = λ k m s. some true;
  verify_ecdsa = λ k m s. none;
}

abbrev rsa_key : JwksKey
rsa_key = record { kid = none; alg = some "RS256"; k = none; material = "n" }

abbrev home_only : VerifyJwtOptions
home_only = record { jwks_url = "https://home/jwks"; issuer = some "home"; audience = none }

abbrev no_cache : JwksCache
no_cache = record { jwks = none; cached_at = 0 }

verify_jwt-IsAccepted_example :
    IsAccepted toy_crypto
      (λ h. some "t")
      (λ url. ok (rsa_key ∷ []))
      (λ c. some ada)
      home_only
      50
      with_bearer
      no_cache
      ada
unfolding verify_jwt bearer_token header_string current_jwks verify_jwt_signature pick_jwk find_kid
    find_alg verify_with_jwk claims_ok get_field as_array any_text
verify_jwt-IsAccepted_example =
    verify_jwt-IsAccepted toy_crypto (λ h. some "t") (λ url. ok (rsa_key ∷ [])) (λ c. some ada)
      home_only 50 with_bearer no_cache ada refl

abbrev no_tokens : Codec String
no_tokens = record {
  encode_header = λ h. "";
  encode_claims = λ c. "";
  decode_header = λ s. none;
  decode_claims = λ s. none;
  sign = λ k s. "";
  verify = λ k i s. false;
}

abbrev always_ada : Headers → Verdict
always_ada headers = ok (some ada)

abbrev required : AuthOptions String
required = record { auth = some always_ada; require_auth = true; capability = none }

abbrev as_ada : Authenticated
as_ada = record { principal = ada; capability = none }

auth_hook-IsProven_example : IsProven no_tokens (λ h. none) required 50 with_bearer as_ada
unfolding auth_hook
auth_hook-IsProven_example =
    auth_hook-IsProven no_tokens (λ h. none) required 50 with_bearer as_ada refl refl
