-- ===== src/Policy/Capability/Verified.antt =====
-- What a capability token of src/policy/capability.ts is worth.
use actjs.Policy.Capability.{
  bad_signature, revoked, unsupported_alg, is_eddsa, not_yet_valid, no_methods, ttl_exceeds,
  ttl_not_positive, CapabilityError, checked, jwt_header, signed, expired, claims_of,
  CapabilityMintInput, CapabilityIssuer, is_before, Header, in_force, signing_input, Codec,
  CapabilityClaims, mint, verify_capability,
}
use actjs.Prelude.{
  ℕ, ◌+◌, ◌<◌, String, ◌≡◌, refl, ap, Bool, true, false, Option, none, some, List, [], ◌∷◌, length,
  leb, ltb, get_or, arith, if◌then◌else◌, Bool-cases, inl, inr, ◌/◌, ◌*◌,
}
use actjs.Prelude.Keys.{string_keyed, nat_keyed}
use actjs.Prelude.Outcome.{Outcome, ok, throw}

-- What the code relies on of the codecs, for the header and the claims of one token, and of the
-- signature, for a pair of keys.
pub record IsCodec {Key : Type 0} (codec : Codec Key) (private_key public_key : Key)
    (c : CapabilityClaims) : Type 0 where
  pub header : codec.decode_header (codec.encode_header jwt_header) ≡ some jwt_header
  pub claims : codec.decode_claims (codec.encode_claims c) ≡ some c
  pub signature :
      (text : String) → codec.verify public_key text (codec.sign private_key text) ≡ true

in_force-ok :
    (now : ℕ) (is_revoked : String → Bool) (claims payload : CapabilityClaims)
    → in_force now is_revoked payload ≡ ok claims
    → (payload ≡ claims)
      × (now < claims.exp * 1000)
      × (is_before now claims.nbf ≡ false)
      × (is_revoked claims.jti ≡ false)
unfolding in_force
in_force-ok now is_revoked claims payload accepted =
    elim (Bool-cases (leb (payload.exp * 1000) now)) [
      | inl a ↦
          (let no : ◌≡◌ {A = Outcome CapabilityError CapabilityClaims} (throw expired) (ok claims) =
              rw a at accepted in
            cc)
      | inr a ↦ elim (Bool-cases (is_before now payload.nbf)) [
        | inl b ↦
            (let no : ◌≡◌ {A = Outcome CapabilityError CapabilityClaims} (throw not_yet_valid)
                  (ok claims) =
                rw (a, b) at accepted in
              cc)
        | inr b ↦ elim (Bool-cases (is_revoked payload.jti)) [
          | inl c ↦
              (let no : ◌≡◌ {A = Outcome CapabilityError CapabilityClaims} (throw revoked)
                    (ok claims) =
                  rw (a, b, c) at accepted in
                cc)
          | inr c ↦
              let yes : ◌≡◌ {A = Outcome CapabilityError CapabilityClaims} (ok payload)
                  (ok claims) =
                rw (a, b, c) at accepted in
              let same : payload ≡ claims = cc in
              (same, rw (← same) (ground (arith, a)), rw (← same) b, rw (← same) c)
        ]
      ]
    ]

is_eddsa-some : (alg : Option String) → is_eddsa alg ≡ true → alg ≡ some "EdDSA"
is_eddsa-some none h = cc
is_eddsa-some (some alg) h = ap some ((string_keyed.same_key_iff alg "EdDSA").0 h)

module _ {Key : Type 0} (codec : Codec Key) where
  mint-signed :
      (i : CapabilityIssuer Key) (clock : ℕ) (input : CapabilityMintInput) (jti : String)
      (token : List String)
      → mint codec i clock input jti ≡ ok token
      → token ≡ signed codec i (claims_of i.issuer (get_or input.now_ms clock) input jti)
  unfolding mint
  mint-signed i clock input jti token minted = elim (Bool-cases (leb input.ttl_ms 0)) [
    | inl a ↦
        (let no : ◌≡◌ {A = Outcome CapabilityError (List String)} (throw ttl_not_positive)
              (ok token) =
            rw a at minted in
          cc)
    | inr a ↦ elim (Bool-cases (ltb i.max_ttl_ms input.ttl_ms)) [
      | inl b ↦
          (let no : ◌≡◌ {A = Outcome CapabilityError (List String)}
                (throw (ttl_exceeds input.ttl_ms i.max_ttl_ms)) (ok token) =
              rw (a, b) at minted in
            cc)
      | inr b ↦ elim (Bool-cases (leb (length input.methods) 0)) [
        | inl c ↦
            (let no : ◌≡◌ {A = Outcome CapabilityError (List String)} (throw no_methods)
                  (ok token) =
                rw (a, b, c) at minted in
              cc)
        | inr c ↦
            (let yes : ◌≡◌ {A = Outcome CapabilityError (List String)}
                  (ok (signed codec i (claims_of i.issuer (get_or input.now_ms clock) input jti)))
                  (ok token) =
                rw (a, b, c) at minted in
              cc)
      ]
    ]
  ]

  -- A token that was minted and is checked with the matching key and its id not revoked holds with the
  -- claims it was minted for exactly as long as the second in which its time to live ends has not
  -- begun.
  pub verify_capability-mint :
      (i : CapabilityIssuer Key) (key : Key) (clock t : ℕ) (input : CapabilityMintInput)
      (jti : String) (is_revoked : String → Bool) (token : List String)
      → IsCodec codec i.private_key key (claims_of i.issuer (get_or input.now_ms clock) input jti)
      → mint codec i clock input jti ≡ ok token
      → is_revoked jti ≡ false
      → let claims = claims_of i.issuer (get_or input.now_ms clock) input jti in
        verify_capability codec token key t is_revoked ≡ (
          if leb ((get_or input.now_ms clock + input.ttl_ms) / 1000 * 1000) t
          then throw expired
          else ok claims)
  unfolding verify_capability in_force claims_of
  verify_capability-mint i key clock t input jti is_revoked token lawful minted live =
      let claims = claims_of i.issuer (get_or input.now_ms clock) input jti in
      let h = codec.encode_header jwt_header in
      let p = codec.encode_claims claims in
      rw
        (
          mint-signed i clock input jti token minted,
          lawful.header,
          lawful.claims,
          lawful.signature (signing_input h p),
        )
        (rw live refl)

  checked-ok :
      (key : Key) (now : ℕ) (is_revoked : String → Bool) (header payload sig : String)
      (claims : CapabilityClaims) (h : Option Header) (c : Option CapabilityClaims)
      → checked codec key now is_revoked header payload sig h c ≡ ok claims
      → ((read : Header) × ((h ≡ some read) × (read.alg ≡ some "EdDSA")))
        × (codec.verify key (signing_input header payload) sig ≡ true)
        × (c ≡ some claims)
        × (now < claims.exp * 1000)
        × (is_before now claims.nbf ≡ false)
        × (is_revoked claims.jti ≡ false)
  checked-ok key now is_revoked header payload sig claims none c accepted = cc
  checked-ok key now is_revoked header payload sig claims (some h) none accepted = cc
  checked-ok key now is_revoked header payload sig claims (some h) (some c) accepted =
      elim (Bool-cases (is_eddsa h.alg)) [
        | inr a ↦
            (let no : ◌≡◌ {A = Outcome CapabilityError CapabilityClaims}
                  (throw (unsupported_alg h.alg)) (ok claims) =
                rw a at accepted in
              cc)
        | inl a ↦ elim (Bool-cases (codec.verify key (signing_input header payload) sig)) [
          | inr b ↦
              (let no : ◌≡◌ {A = Outcome CapabilityError CapabilityClaims} (throw bad_signature)
                    (ok claims) =
                  rw (a, b) at accepted in
                cc)
          | inl b ↦
              let rest : in_force now is_revoked c ≡ ok claims = rw (a, b) at accepted in
              let (same, ahead, begun, live) = in_force-ok now is_revoked claims c rest in
              ((h, (refl, is_eddsa-some h.alg a)), b, ap some same, ahead, begun, live)
        ]
      ]

  -- A token that is accepted has three segments, the first of which decodes to a header whose algorithm is EdDSA, and
  -- a signature of the key on the first two; its claims are what the second decodes to, and are in force: not expired, not before
  -- their time, not revoked.
  pub verify_capability-ok :
      (token : List String) (key : Key) (now : ℕ) (is_revoked : String → Bool)
      (claims : CapabilityClaims)
      → verify_capability codec token key now is_revoked ≡ ok claims
      → (header : String) × (payload : String) × (sig : String) × (token
          ≡ header ∷ payload ∷ sig ∷ [])
        × ((h : Header) × ((codec.decode_header header ≡ some h) × (h.alg ≡ some "EdDSA")))
        × (codec.verify key (signing_input header payload) sig ≡ true)
        × (codec.decode_claims payload ≡ some claims)
        × (now < claims.exp * 1000)
        × (is_before now claims.nbf ≡ false)
        × (is_revoked claims.jti ≡ false)
  unfolding verify_capability
  verify_capability-ok [] key now is_revoked claims accepted = cc
  verify_capability-ok (a ∷ []) key now is_revoked claims accepted = cc
  verify_capability-ok (a ∷ b ∷ []) key now is_revoked claims accepted = cc
  verify_capability-ok (a ∷ b ∷ c ∷ []) key now is_revoked claims accepted =
      let (named, signature, decodes, ahead, begun, live) =
        checked-ok key now is_revoked a b c claims (codec.decode_header a) (codec.decode_claims b)
          accepted in
      (a, b, c, refl, named, signature, decodes, ahead, begun, live)
  verify_capability-ok (a ∷ b ∷ c ∷ d ∷ rest) key now is_revoked claims accepted = cc
