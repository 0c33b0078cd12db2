-- ===== src/Server/Auth/Jwt/Accepted.antt =====
-- What src/server/auth.ts has checked of a token that it accepts.
use actjs.Server.Auth.Jwt.Claims.{IsInForce, claims_ok-IsInForce}
use actjs.Server.Auth.Jwt.Keys.{
  IsChosen, pick_jwk-IsChosen, IsKeyOf, IsSignedBy, pick_jwk-IsKeyOf, verify_with_jwk-IsSignedBy,
}
use actjs.Server.Auth.Jwt.{refreshed, is_stale}
use actjs.Runtime.Value.{Fields, get_field}
use actjs.Prelude.{
  ◌≤◌, ◌⊎◌, ◌∙◌, ltb, ◌-◌, arith, ◌⊎◌, subst, Option-cases, ℕ, String, ◌≡◌, refl, ap, false, Option,
  none, some, List, [], ◌∷◌, Bool-cases, inl, inr,
}
use actjs.Server.Auth.Jwt.{
  concat, JwksKey, Crypto, VerifyJwtOptions, Verified, JwksCache, pick_jwk, text_of,
  verify_with_jwk, verified_parts, parsed_parts, verify_jwt_signature, claims_ok, current_jwks,
  with_claims, with_jwks, verify_jwt,
}
use Prim.Native.String.{◌++◌ as concat}
use actjs.Prelude.Keys.{string_keyed, nat_keyed, ◌==◌}
use actjs.Prelude.Outcome.{Outcome, ok, throw}
use actjs.Policy.Principal.{Principal}
use actjs.Server.Auth.{Headers, bearer_token, Thrown}

module _ (crypto : Crypto) where
  -- The token has three parts, and its signature is that of a key of the set on the first two, by the algorithm that
  -- its header names.
  pub record IsVerified (jwks : List JwksKey) (token : String) (v : Verified) : Type 0 where
    pub header : String
    pub payload : String
    pub signature : String
    pub parts : crypto.split_dots token ≡ header ∷ payload ∷ signature ∷ []
    pub parsed : crypto.parse_object (crypto.b64u_decode payload) ≡ some v.payload
    pub alg : String
    pub named : text_of (get_field v.header "alg") ≡ some alg
    pub key : JwksKey
    pub member : IsKeyOf jwks key
    pub chosen : IsChosen jwks (text_of (get_field v.header "kid")) key
    pub signed :
        IsSignedBy crypto alg key
          (crypto.utf8 (concat header (concat "." payload)))
          (crypto.b64u_decode signature)

  verified_parts-IsVerified :
      (jwks : List JwksKey) (token h p s : String) (oh op : Option Fields) (v : Verified)
      → crypto.split_dots token ≡ h ∷ p ∷ s ∷ []
      → crypto.parse_object (crypto.b64u_decode p) ≡ op
      → verified_parts crypto jwks h p s oh op ≡ some v
      → IsVerified jwks token v
  verified_parts-IsVerified jwks token h p s none op v parts parsed e = cc
  verified_parts-IsVerified jwks token h p s (some header) none v parts parsed e = cc
  verified_parts-IsVerified jwks token h p s (some header) (some payload) v parts parsed e =
      elim (Option-cases (text_of (get_field header "alg"))) [
        | inl missing ↦
            (let no : ◌≡◌ {A = Option Verified} none (some v) = rw (verified_parts, missing) at e in
              cc)
        | inr (alg, named) ↦ elim (Bool-cases (alg == "none")) [
          | inl unsigned ↦
              (let no : ◌≡◌ {A = Option Verified} none (some v) =
                  rw (verified_parts, named, unsigned) at e in
                cc)
          | inr signed ↦
              elim (Option-cases (pick_jwk jwks (text_of (get_field header "kid")) alg)) [
                | inl keyless ↦
                    (let no : ◌≡◌ {A = Option Verified} none (some v) =
                        rw (verified_parts, named, signed, keyless) at e in
                      cc)
                | inr (key, picked) ↦
                    elim (Bool-cases (
                      verify_with_jwk crypto alg key (crypto.utf8 (concat h (concat "." p)))
                        (crypto.b64u_decode s))) [
                          | inl good ↦
                              let is : ◌≡◌ {A = Option Verified}
                                  (some (record { header = header; payload = payload })) (some v) =
                                rw (verified_parts, named, signed, picked, good) at e in
                              let same : ◌≡◌ {A = Verified}
                                  (record { header = header; payload = payload }) v =
                                cc in
                              subst (IsVerified jwks token) same (record {
                                header = h;
                                payload = p;
                                signature = s;
                                parts = parts;
                                parsed = parsed;
                                alg = alg;
                                named = named;
                                key = key;
                                member =
                                    pick_jwk-IsKeyOf jwks (text_of (get_field header "kid")) alg key
                                      picked;
                                chosen =
                                    pick_jwk-IsChosen jwks (text_of (get_field header "kid")) alg
                                      key picked;
                                signed =
                                    verify_with_jwk-IsSignedBy crypto alg key
                                      (crypto.utf8 (concat h (concat "." p))) (crypto.b64u_decode s)
                                      good;
                              })
                          | inr bad ↦
                              (let no : ◌≡◌ {A = Option Verified} none (some v) =
                                  rw (verified_parts, named, signed, picked, bad) at e in
                                cc)
                        ]
              ]
        ]
      ]

  parsed_parts-IsVerified :
      (jwks : List JwksKey) (token : String) (parts : List String) (v : Verified)
      → crypto.split_dots token ≡ parts
      → parsed_parts crypto jwks parts ≡ some v
      → IsVerified jwks token v
  parsed_parts-IsVerified jwks token [] v is e = cc
  parsed_parts-IsVerified jwks token (h ∷ []) v is e = cc
  parsed_parts-IsVerified jwks token (h ∷ p ∷ []) v is e = cc
  parsed_parts-IsVerified jwks token (h ∷ p ∷ s ∷ []) v is e =
      verified_parts-IsVerified jwks token h p s (crypto.parse_object (crypto.b64u_decode h))
        (crypto.parse_object (crypto.b64u_decode p)) v is refl e
  parsed_parts-IsVerified jwks token (h ∷ p ∷ s ∷ x ∷ xs) v is e = cc

  verify_jwt_signature-IsVerified :
      (jwks : List JwksKey) (token : String) (v : Verified)
      → verify_jwt_signature crypto token jwks ≡ some v
      → IsVerified jwks token v
  unfolding verify_jwt_signature
  verify_jwt_signature-IsVerified jwks token v e =
      parsed_parts-IsVerified jwks token (crypto.split_dots token) v refl e

module _ (crypto : Crypto) (match_bearer : String → Option String)
    (fetch_jwks : String → Outcome Thrown (List JwksKey))
    (principal_from_claims : Fields → Option Principal) (options : VerifyJwtOptions) where
  -- The keys were fetched just now, or at most five minutes ago.
  abbrev pub IsCurrent : ℕ → JwksCache → List JwksKey → Type 0
  IsCurrent now cache jwks =
      (fetch_jwks options.jwks_url ≡ ok jwks)
      ⊎ ((cache.jwks ≡ some jwks) × (now - cache.cached_at ≤ 300000))

  refreshed-ok :
      (now : ℕ) (cache : JwksCache) (o : Outcome Thrown (List JwksKey)) (jwks : List JwksKey)
      → (refreshed crypto match_bearer fetch_jwks principal_from_claims options now cache o).0
        ≡ ok jwks
      → o ≡ ok jwks
  refreshed-ok now cache (ok keys) jwks h = h
  refreshed-ok now cache (throw e) jwks h = cc

  current_jwks-IsCurrent :
      (now : ℕ) (cache : JwksCache) (jwks : List JwksKey)
      → (current_jwks crypto match_bearer fetch_jwks principal_from_claims options now cache).0
        ≡ ok jwks
      → IsCurrent now cache jwks
  unfolding current_jwks
  current_jwks-IsCurrent now cache jwks h = elim (Option-cases cache.jwks) [
    | inl empty ↦
        inl (
          refreshed-ok now cache (fetch_jwks options.jwks_url) jwks (rw (current_jwks, empty) at h))
    | inr (keys, held) ↦
        elim (Bool-cases
          (is_stale crypto match_bearer fetch_jwks principal_from_claims options cache now)) [
            | inl old ↦ inl (
                refreshed-ok now cache (fetch_jwks options.jwks_url) jwks
                  (rw (current_jwks, held, old) at h))
            | inr young ↦
                (let is : ◌≡◌ {A = Outcome Thrown (List JwksKey)} (ok keys) (ok jwks) =
                    rw (current_jwks, held, young) at h in
                  let same : keys ≡ jwks = cc in
                  let fresh : ltb 300000 (now - cache.cached_at) ≡ false =
                    rw (is_stale, held) at young in
                  inr (held ∙ ap some same, ground (arith, fresh)))
          ]
  ]

  -- A principal that the verifier gave, and what stands behind it
  pub record IsAccepted (now : ℕ) (headers : Headers) (cache : JwksCache) (p : Principal)
      : Type 0 where
    pub token : String
    pub bearer : bearer_token match_bearer headers ≡ some token
    pub jwks : List JwksKey
    pub current : IsCurrent now cache jwks
    pub claims : Verified
    pub signature : IsVerified crypto jwks token claims
    pub in_force : IsInForce options now claims.payload
    pub mapped : principal_from_claims claims.payload ≡ some p

  with_claims-IsAccepted :
      (now : ℕ) (headers : Headers) (cache : JwksCache) (p : Principal) (token : String)
      (jwks : List JwksKey) (o : Option Verified)
      → bearer_token match_bearer headers ≡ some token
      → (current_jwks crypto match_bearer fetch_jwks principal_from_claims options now cache).0
        ≡ ok jwks
      → verify_jwt_signature crypto token jwks ≡ o
      → with_claims crypto match_bearer fetch_jwks principal_from_claims options now o ≡ some p
      → IsAccepted now headers cache p
  with_claims-IsAccepted now headers cache p token jwks none bearer current signed e = cc
  with_claims-IsAccepted now headers cache p token jwks (some v) bearer current signed e =
      elim (Bool-cases (claims_ok options now v.payload)) [
        | inl good ↦ record {
          token = token;
          bearer = bearer;
          jwks = jwks;
          current = current_jwks-IsCurrent now cache jwks current;
          claims = v;
          signature = verify_jwt_signature-IsVerified crypto jwks token v signed;
          in_force = claims_ok-IsInForce options now v.payload good;
          mapped = rw good at e;
        }
        | inr bad ↦ (let no : ◌≡◌ {A = Option Principal} none (some p) = rw bad at e in cc)
      ]

  with_jwks-IsAccepted :
      (now : ℕ) (headers : Headers) (cache : JwksCache) (p : Principal) (token : String)
      (o : Outcome Thrown (List JwksKey) × JwksCache)
      → bearer_token match_bearer headers ≡ some token
      → current_jwks crypto match_bearer fetch_jwks principal_from_claims options now cache ≡ o
      → (with_jwks crypto match_bearer fetch_jwks principal_from_claims options now token o).0
        ≡ ok (some p)
      → IsAccepted now headers cache p
  with_jwks-IsAccepted now headers cache p token (throw x, c) bearer is e = cc
  with_jwks-IsAccepted now headers cache p token (ok jwks, c) bearer is e =
      with_claims-IsAccepted now headers cache p token jwks (verify_jwt_signature crypto token jwks)
        bearer (ap (λ x. x.0) is) refl cc

  pub verify_jwt-IsAccepted :
      (now : ℕ) (headers : Headers) (cache : JwksCache) (p : Principal)
      → (verify_jwt crypto match_bearer fetch_jwks principal_from_claims options now headers
          cache).0
        ≡ ok (some p)
      → IsAccepted now headers cache p
  unfolding verify_jwt
  verify_jwt-IsAccepted now headers cache p e =
      elim (Option-cases (bearer_token match_bearer headers)) [
        | inl missing ↦
            (let no : ◌≡◌ {A = Outcome Thrown (Option Principal)} (ok none) (ok (some p)) =
                rw (verify_jwt, missing) at e in
              cc)
        | inr (token, bearer) ↦ elim (Bool-cases (token == "")) [
          | inl empty ↦
              (let no : ◌≡◌ {A = Outcome Thrown (Option Principal)} (ok none) (ok (some p)) =
                  rw (verify_jwt, bearer, empty) at e in
                cc)
          | inr full ↦
              with_jwks-IsAccepted now headers cache p token
                (current_jwks crypto match_bearer fetch_jwks principal_from_claims options now
                  cache)
                bearer refl (rw (verify_jwt, bearer, full) at e)
        ]
      ]
