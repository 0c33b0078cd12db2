-- ===== src/Server/Auth/Hook/Required.antt =====
-- Whom src/server/auth.ts lets in where authentication is required.
use actjs.Prelude.{
  sym, Option-cases, ◌⊎◌, ℕ, String, ◌≡◌, ap, true, Option, none, some, List, inl, inr,
}
use actjs.Server.Auth.Hook.{
  anonymous_principal, AuthOptions, CapabilityAuth, Authenticated, AuthFailure, auth_hook,
  capability_principal, presented, with_verdict, without_capability,
}
use actjs.Prelude.Keys.{string_keyed, nat_keyed}
use actjs.Prelude.Outcome.{Outcome, ok, throw, Outcome-cases}
use actjs.Policy.Capability.{CapabilityClaims, Codec, verify_capability}
use actjs.Server.Auth.{Headers, status_error, other_error, Verdict}

module _ {Key : Type 0} (codec : Codec Key)
    (parse_capability : Option String → Option (List String)) where
  -- What stands behind a principal: a capability token that holds, or the verifier when no token is presented
  abbrev pub IsProven : AuthOptions Key → ℕ → Headers → Authenticated → Type 0
  IsProven options now headers a =
      ((c : CapabilityAuth Key) × ((token : List String) × ((claims : CapabilityClaims)
            × ((presented codec parse_capability options headers ≡ some (c, token))
                × ((verify_capability codec token c.public_key now c.is_revoked ≡ ok claims)
                    × (a ≡ record {
                      principal = capability_principal claims;
                      capability = some claims;
                    }))))))
      ⊎ ((presented codec parse_capability options headers ≡ none)
          × (((auth : Headers → Verdict) × ((options.auth ≡ some auth)
                  × ((auth headers ≡ ok (some a.principal)) × (a.capability ≡ none))))
              ⊎ ((options.auth ≡ none)
                  × (a ≡ record { principal = anonymous_principal; capability = none }))))

  with_verdict-some :
      (o : Verdict) (a : Authenticated)
      → with_verdict codec parse_capability true o ≡ ok a
      → (o ≡ ok (some a.principal)) × (a.capability ≡ none)
  with_verdict-some (throw (status_error n m)) a h = cc
  with_verdict-some (throw (other_error m)) a h = cc
  with_verdict-some (ok none) a h = cc
  with_verdict-some (ok (some p)) a h =
      let same : ◌≡◌ {A = Authenticated} (record { principal = p; capability = none }) a = cc in
      (
        ap (λ (x : Authenticated). ok (some x.principal)) same,
        sym (ap (λ (x : Authenticated). x.capability) same),
      )

  pub auth_hook-IsProven :
      (options : AuthOptions Key) (now : ℕ) (headers : Headers) (a : Authenticated)
      → options.require_auth ≡ true
      → auth_hook codec parse_capability options now headers ≡ ok a
      → IsProven options now headers a
  unfolding auth_hook
  auth_hook-IsProven options now headers a required h =
      elim (Option-cases (presented codec parse_capability options headers)) [
        | inl bare ↦ elim (Option-cases options.auth) [
          | inl missing ↦
              (let is : ◌≡◌ {A = Outcome AuthFailure Authenticated}
                    (ok (record { principal = anonymous_principal; capability = none })) (ok a) =
                  rw (auth_hook, bare, without_capability, missing) at h in
                inr (bare, inr (missing, cc)))
          | inr (auth, given) ↦ inr (
            bare,
            inl (
              auth,
              (
                given,
                with_verdict-some (auth headers) a
                    (rw (auth_hook, bare, without_capability, given, required) at h),
              ),
            ),
          )
        ]
        | inr ((c, token), shown) ↦
            elim (Outcome-cases (verify_capability codec token c.public_key now c.is_revoked)) [
              | inl (e, bad) ↦
                  (let no : ◌≡◌ {A = Outcome AuthFailure Authenticated}
                        (throw (AuthFailure.bad_capability e)) (ok a) =
                      rw (auth_hook, shown, bad) at h in
                    cc)
              | inr (claims, good) ↦
                  let is : ◌≡◌ {A = Outcome AuthFailure Authenticated}
                      (ok (record {
                        principal = capability_principal claims;
                        capability = some claims;
                      }))
                      (ok a) =
                    rw (auth_hook, shown, good) at h in
                  inl (c, (token, (claims, (shown, (good, cc)))))
            ]
      ]
