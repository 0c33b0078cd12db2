-- ===== src/Server/Auth.antt =====
-- The requests and the helpers of src/server/auth.ts. Headers are what node gives: a text, a list of
-- texts, or nothing.
pub mod Der
pub mod Jwt
pub mod Hook
use actjs.Prelude.{
  ℕ, zero, suc, ◌+◌, ◌-◌, ◌≤◌, ◌<◌, String, ◌≡◌, ◌≢◌, ◌&&◌, not, refl, ap, sym, ◌∙◌, Bool, true,
  false, Option, none, some, List, [], ◌∷◌, ◌++◌, map, length, leb, ltb, nat_beq, get_or, arith,
  if◌then◌else◌, Bool-cases, inl, inr,
}
use actjs.Prelude.Keys.{string_keyed, nat_keyed, ◌==◌}
use actjs.Policy.Principal.{Principal}
use actjs.Prelude.Outcome.{Outcome}
use actjs.Runtime.Value.{Value, Fields, get_field, str, obj, as_array}

pub data HeaderValue : Type 0 where
  one : String → HeaderValue
  many : List String → HeaderValue

abbrev pub Headers : Type 0
Headers = String → Option HeaderValue

abbrev pub header_text : Option HeaderValue → Option String
header_text none = none
header_text (some (one v)) = some v
header_text (some (many [])) = none
header_text (some (many (v ∷ vs))) = some v

unfoldable pub header_string : Headers → String → Option String
header_string headers name = header_text (headers name)

-- A text that is falsy counts as none.
abbrev pub truthy_text : Option String → Option String
truthy_text none = none
truthy_text (some s) = if s == "" then none else some s

-- `match_bearer` gives the first group of /^Bearer\s+(.+)$/i.
unfoldable pub bearer_token : (String → Option String) → Headers → Option String
unfolding header_string
bearer_token match_bearer headers = elim (truthy_text (header_string headers "authorization")) [
  | none ↦ none
  | some auth ↦ match_bearer auth
]

-- `StatusError` with its status, or another value that was thrown, as its message
pub data Thrown : Type 0 where
  status_error : ℕ → String → Thrown
  other_error : String → Thrown

-- A verifier: a principal, none, or what it threw
abbrev pub Verdict : Type 0
Verdict = Outcome Thrown (Option Principal)

-- Two buffers of one length with the same bytes (`timingSafeEqual`)
unfoldable pub same_bytes : List ℕ → List ℕ → Bool
same_bytes [] [] = true
same_bytes [] (b ∷ bs) = false
same_bytes (a ∷ more) [] = false
same_bytes (a ∷ more) (b ∷ bs) = nat_beq a b && same_bytes more bs

-- `verifyHmac`: `hmac` is the digest of the payload as a hexadecimal text in bytes, and `materialize`
-- parses the decoded payload into a principal, or is none where that throws.
unfoldable pub verify_hmac :
    (String → List ℕ)
    → (String → List ℕ)
    → (String → Option Principal)
    → Option String
    → Option String
    → Headers
    → Option Principal
unfolding header_string same_bytes
verify_hmac hmac bytes materialize header payload_header headers =
    let sig = truthy_text (header_string headers (get_or header "x-actjs-signature")) in
    let payload = truthy_text (header_string headers (get_or payload_header "x-actjs-principal")) in
    elim sig [
      | none ↦ none
      | some s ↦ elim payload [
        | none ↦ none
        | some p ↦ if same_bytes (bytes s) (hmac p) then materialize p else none
      ]
    ]
