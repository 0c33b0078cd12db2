-- ===== src/Server/Auth/Hook.antt =====
-- `makeAuthHook` and `capabilityPrincipal` of src/server/auth.ts. `parse_capability` is
-- `parseCapabilityHeader` with its regular expression, up to the segments of the token.
pub mod Required
use actjs.Prelude.{
  ℕ, zero, suc, ◌+◌, ◌-◌, ◌≤◌, ◌<◌, String, ◌≡◌, ◌≢◌, ◌&&◌, not, refl, ap, sym, ◌∙◌, Bool, true,
  false, Option, none, some, List, [], ◌∷◌, ◌++◌, map, length, leb, ltb, nat_beq, get_or, arith,
  if◌then◌else◌, Bool-cases, inl, inr,
}
use actjs.Prelude.Keys.{string_keyed, nat_keyed, ◌==◌}
use actjs.Prelude.Outcome.{Outcome, ok, throw}
use Prim.Native.String.{◌++◌ as concat}
use text.Mathlib.Text.{starts_with}
use actjs.Policy.Principal.{Principal, anonymous_principal}
use actjs.Runtime.Value.{Fields, no_field, with_field, str, num}
use actjs.Policy.Capability.{
  audience_of, CapabilityClaims, CapabilityError, Codec, verify_capability,
}
use actjs.Server.Auth.{one, many, Headers, Thrown, status_error, other_error, Verdict}

abbrev pub call_method : String → String
call_method m = if starts_with m "call:" then m else concat "call:" m

-- `...(claims.aud ? { aud: claims.aud } : {})`
abbrev pub aud_field : Option String → Fields
aud_field none = no_field
aud_field (some aud) = with_field "aud" (str aud) no_field

unfoldable pub capability_principal : CapabilityClaims → Principal
capability_principal claims = record {
  sub = concat "cap:" claims.sub;
  roles = some [];
  tenant = none;
  capabilities = some (map call_method claims.mth);
  claims = some (
      with_field "iss" (str claims.iss) (
        with_field "jti" (str claims.jti)
          (with_field "exp" (num claims.exp) (aud_field (audience_of claims.aud)))));
}

pub data AuthFailure : Type 0 where
  unauthorized : String → AuthFailure
  rethrown : Thrown → AuthFailure
  bad_capability : CapabilityError → AuthFailure

pub record CapabilityAuth (Key : Type 0) : Type 0 where
  pub public_key : Key
  pub is_revoked : String → Bool

pub record AuthOptions (Key : Type 0) : Type 0 where
  pub auth : Option (Headers → Verdict)
  pub require_auth : Bool
  pub capability : Option (CapabilityAuth Key)

-- `req.headers['authorization']`, which is a text or nothing
abbrev pub raw_header : Headers → Option String
raw_header headers = elim (headers "authorization") [
  | none ↦ none
  | some v ↦ elim v [ one s ↦ some s | many vs ↦ none ]
]

-- What the hook sets on the request
pub record Authenticated : Type 0 where
  pub principal : Principal
  pub capability : Option CapabilityClaims

module _ {Key : Type 0} (codec : Codec Key)
    (parse_capability : Option String → Option (List String)) where
  abbrev pub with_capability :
      Outcome CapabilityError CapabilityClaims → Outcome AuthFailure Authenticated
  with_capability (throw e) = throw (bad_capability e)
  with_capability (ok claims) =
      ok (record { principal = capability_principal claims; capability = some claims })

  abbrev pub with_verdict : Bool → Verdict → Outcome AuthFailure Authenticated
  with_verdict require_auth (throw (status_error status message)) =
      throw (rethrown (status_error status message))
  with_verdict require_auth (throw (other_error message)) =
      throw (unauthorized (concat "auth hook threw: " message))
  with_verdict require_auth (ok none) =
      if require_auth
      then throw (unauthorized "authentication required")
      else ok (record { principal = anonymous_principal; capability = none })
  with_verdict require_auth (ok (some p)) = ok (record { principal = p; capability = none })

  abbrev pub without_capability : AuthOptions Key → Headers → Outcome AuthFailure Authenticated
  without_capability options headers = elim options.auth [
    | none ↦ ok (record { principal = anonymous_principal; capability = none })
    | some auth ↦ with_verdict options.require_auth (auth headers)
  ]

  -- The segments of a capability token, when the hook looks for one and the header has one
  abbrev pub presented : AuthOptions Key → Headers → Option (CapabilityAuth Key × List String)
  presented options headers = elim options.capability [
    | none ↦ none
    | some c ↦ elim (parse_capability (raw_header headers)) [
      | none ↦ none
      | some token ↦ some (c, token)
    ]
  ]

  unfoldable pub auth_hook : AuthOptions Key → ℕ → Headers → Outcome AuthFailure Authenticated
  unfolding capability_principal verify_capability anonymous_principal
  auth_hook options now headers = elim (presented options headers) [
    | some (c, token) ↦
        with_capability (verify_capability codec token c.public_key now c.is_revoked)
    | none ↦ without_capability options headers
  ]
