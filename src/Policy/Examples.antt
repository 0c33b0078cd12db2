-- ===== src/Policy/Examples.antt =====
-- Runs of src/policy at concrete inputs.
use actjs.Policy.Capability.{
  Header, is_before, signing_input, CapabilityIssuer, CapabilityMintInput, claims_of, in_force,
  jwt_header, Codec, CapabilityClaims, verify_capability, mint,
}
use Prim.Native.String.{◌++◌ as append}
use actjs.Prelude.Map.Laws.{==-refl}
use actjs.Policy.Blocklist.{CachedBlocklist}
use actjs.Prelude.{
  ◌<◌, String, ◌≡◌, refl, Bool, true, false, none, some, List, [], ◌∷◌, if◌then◌else◌, ◌*◌,
}
use actjs.Prelude.Keys.{string_keyed, nat_keyed, ◌==◌}
use actjs.Prelude.Outcome.{Outcome, ok}
use actjs.Policy.Principal.{Principal}
use actjs.Policy.Evaluate.{decided, PolicyDecision}
use actjs.Policy.Capability.Verified.{IsCodec, verify_capability-mint, verify_capability-ok}

abbrev guest : Principal
guest = record {
  sub = "anonymous";
  roles = some [];
  tenant = none;
  capabilities = none;
  claims = none;
}

-- A policy that lets guests read and nothing else
abbrev read_only : Principal → Bool → Outcome String PolicyDecision
read_only p reads = ok (decided reads (some "read only"))

abbrev cached_list : CachedBlocklist
cached_list = record {
  source = record { entries = [] };
  ttl_ms = 10000;
  cache = ("t", record { revoked = false; checked_at = 5 }) ∷ [];
}

abbrev share : CapabilityMintInput
share = record {
  actor_class = "Note";
  actor_id = "n";
  methods = "read" ∷ [];
  ttl_ms = 2500;
  audience = none;
  now_ms = none;
}

abbrev share_claims : CapabilityClaims
share_claims = record {
  iss = "server";
  sub = "Note:n";
  aud = none;
  mth = "read" ∷ [];
  exp = 3;
  nbf = none;
  jti = "t";
}

-- A codec that knows one token; a signature is the text with the key in front.
abbrev one_token : Codec String
one_token = record {
  encode_header = λ h. "h";
  encode_claims = λ c. "c";
  decode_header = λ s. if s == "h" then some jwt_header else none;
  decode_claims = λ s. if s == "c" then some share_claims else none;
  sign = λ key text. append key text;
  verify = λ key text sig. sig == append key text;
}

abbrev server : CapabilityIssuer String
server = record { issuer = "server"; private_key = "k"; max_ttl_ms = 86400000 }

abbrev share_token : List String
share_token = "h" ∷ "c" ∷ "kh.c" ∷ []

one_token-IsCodec : IsCodec one_token "k" "k" (claims_of "server" 1000 share "t")
unfolding claims_of
one_token-IsCodec = record {
  header = refl;
  claims = refl;
  signature = λ text. ==-refl (append "k" text);
}

verify_capability-mint_example :
    verify_capability one_token share_token "k" 2999 (λ j. false) ≡ ok share_claims
unfolding claims_of mint
verify_capability-mint_example =
    verify_capability-mint one_token server "k" 1000 2999 share "t" (λ j. false) share_token
      one_token-IsCodec refl refl

verify_capability-ok_example :
    (header : String) × (payload : String) × (sig : String) × (share_token
      ≡ header ∷ payload ∷ sig ∷ [])
    × ((h : Header) × ((one_token.decode_header header ≡ some h) × (h.alg ≡ some "EdDSA")))
    × (one_token.verify "k" (signing_input header payload) sig ≡ true)
    × (one_token.decode_claims payload ≡ some share_claims)
    × (2999 < share_claims.exp * 1000)
    × (is_before 2999 share_claims.nbf ≡ false)
    × (false ≡ false)
unfolding verify_capability in_force
verify_capability-ok_example =
    verify_capability-ok one_token share_token "k" 2999 (λ j. false) share_claims refl
