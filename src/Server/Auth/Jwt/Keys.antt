-- ===== src/Server/Auth/Jwt/Keys.antt =====
-- The keys and signatures that src/server/auth.ts accepts.
use actjs.Prelude.{All, sym, ◌∙◌}
use actjs.Server.Auth.Jwt.Claims.{both}
use actjs.Server.Auth.Der.{jose_ecdsa_to_der}
use actjs.Server.Auth.{same_bytes}
use actjs.Prelude.{nat_beq_iff, ◌≢◌}
use actjs.Server.Auth.Jwt.{find_kid, find_alg, first_key, or_else, checked, verify_hs256}
use actjs.Prelude.{
  suc, get_elem?, ◌⊎◌, sym, ◌∙◌, nat_beq, if◌then◌else◌, suc, get_elem?, ◌⊎◌, Bool, Option-cases, ℕ,
  String, ◌≡◌, refl, ap, true, false, Option, none, some, List, [], ◌∷◌, Bool-cases, inl, inr,
}
use actjs.Server.Auth.Jwt.{JwksKey, Crypto, pick_jwk, verify_with_jwk}
use actjs.Prelude.Keys.{string_keyed, nat_keyed, ◌==◌}

-- The key is one of the set.
abbrev pub IsKeyOf : List JwksKey → JwksKey → Type 0
IsKeyOf jwks key = (i : ℕ) × (get_elem? jwks i ≡ some key)

next_IsKeyOf :
    (j : JwksKey) (js : List JwksKey) (key : JwksKey) → IsKeyOf js key → IsKeyOf (j ∷ js) key
next_IsKeyOf j js key (i, at) = (suc i, at)

find_kid-IsKeyOf :
    (jwks : List JwksKey) (kid : String) (key : JwksKey)
    → find_kid jwks kid ≡ some key
    → IsKeyOf jwks key
unfolding find_kid
find_kid-IsKeyOf [] kid key h = cc
find_kid-IsKeyOf (j ∷ js) kid key h = elim (Option-cases j.kid) [
  | inl nameless ↦
      next_IsKeyOf j js key (find_kid-IsKeyOf js kid key (rw (find_kid, nameless) at h))
  | inr (own, named) ↦ elim (Bool-cases (own == kid)) [
    | inl same ↦ (0, rw (find_kid, named, same) at h)
    | inr other ↦
        next_IsKeyOf j js key (find_kid-IsKeyOf js kid key (rw (find_kid, named, other) at h))
  ]
]

find_alg-IsKeyOf :
    (jwks : List JwksKey) (alg : String) (key : JwksKey)
    → find_alg jwks alg ≡ some key
    → IsKeyOf jwks key
unfolding find_alg
find_alg-IsKeyOf [] alg key h = cc
find_alg-IsKeyOf (j ∷ js) alg key h = elim (Option-cases j.alg) [
  | inl nameless ↦
      next_IsKeyOf j js key (find_alg-IsKeyOf js alg key (rw (find_alg, nameless) at h))
  | inr (own, named) ↦ elim (Bool-cases (own == alg)) [
    | inl same ↦ (0, rw (find_alg, named, same) at h)
    | inr other ↦
        next_IsKeyOf j js key (find_alg-IsKeyOf js alg key (rw (find_alg, named, other) at h))
  ]
]

first_key-IsKeyOf :
    (jwks : List JwksKey) (key : JwksKey) → first_key jwks ≡ some key → IsKeyOf jwks key
first_key-IsKeyOf [] key h = cc
first_key-IsKeyOf (j ∷ js) key h = (0, h)

or_else-IsKeyOf :
    (jwks : List JwksKey) (o p : Option JwksKey) (key : JwksKey)
    → (o ≡ some key → IsKeyOf jwks key)
    → (p ≡ some key → IsKeyOf jwks key)
    → or_else o p ≡ some key
    → IsKeyOf jwks key
or_else-IsKeyOf jwks (some j) p key first second h = first h
or_else-IsKeyOf jwks none p key first second h = second h

-- The key of the header's id, if it has one
abbrev by_kid : List JwksKey → Option String → Option JwksKey
by_kid jwks kid = elim kid [ none ↦ none | some k ↦ if k == "" then none else find_kid jwks k ]

by_kid-IsKeyOf :
    (jwks : List JwksKey) (kid : Option String) (key : JwksKey)
    → by_kid jwks kid ≡ some key
    → IsKeyOf jwks key
by_kid-IsKeyOf jwks none key h = cc
by_kid-IsKeyOf jwks (some k) key h = elim (Bool-cases (k == "")) [
  | inl blank ↦ (let no_key : ◌≡◌ {A = Option JwksKey} none (some key) = rw blank at h in cc)
  | inr given ↦ find_kid-IsKeyOf jwks k key (rw given at h)
]

pub pick_jwk-IsKeyOf :
    (jwks : List JwksKey) (kid : Option String) (alg : String) (key : JwksKey)
    → pick_jwk jwks kid alg ≡ some key
    → IsKeyOf jwks key
unfolding pick_jwk
pick_jwk-IsKeyOf jwks kid alg key h =
    or_else-IsKeyOf jwks (by_kid jwks kid) (or_else (find_alg jwks alg) (first_key jwks)) key
      (by_kid-IsKeyOf jwks kid key)
      (or_else-IsKeyOf jwks (find_alg jwks alg) (first_key jwks) key (find_alg-IsKeyOf jwks alg key)
        (first_key-IsKeyOf jwks key))
      h

find_kid-named :
    (jwks : List JwksKey) (kid : String) (key : JwksKey)
    → find_kid jwks kid ≡ some key
    → key.kid ≡ some kid
unfolding find_kid
find_kid-named [] kid key h = cc
find_kid-named (j ∷ js) kid key h = elim (Option-cases j.kid) [
  | inl nameless ↦ find_kid-named js kid key (rw (find_kid, nameless) at h)
  | inr (own, named) ↦ elim (Bool-cases (own == kid)) [
    | inl same ↦
        (let is : ◌≡◌ {A = Option JwksKey} (some j) (some key) = rw (find_kid, named, same) at h in
          let key_is : j ≡ key = cc in
          ap (λ (x : JwksKey). x.kid) (sym key_is)
          ∙ named
          ∙ ap some ((string_keyed.same_key_iff own kid).0 same))
    | inr other ↦ find_kid-named js kid key (rw (find_kid, named, other) at h)
  ]
]

find_kid-none :
    (jwks : List JwksKey) (kid : String)
    → find_kid jwks kid ≡ none
    → All (λ j. j.kid ≢ some kid) jwks
unfolding find_kid
find_kid-none [] kid h = tt
find_kid-none (j ∷ js) kid h = elim (Option-cases j.kid) [
  | inl nameless ↦ (
    λ is. (let clash : none ≡ some kid = sym nameless ∙ is in cc),
    find_kid-none js kid (rw (find_kid, nameless) at h),
  )
  | inr (own, named) ↦ elim (Bool-cases (own == kid)) [
    | inl same ↦
        (let clash : ◌≡◌ {A = Option JwksKey} (some j) none = rw (find_kid, named, same) at h in cc)
    | inr other ↦ (
      λ is.
          (let both_some : some own ≡ some kid = sym named ∙ is in
            let eq : own ≡ kid = cc in
            let clash : true ≡ false = sym ((string_keyed.same_key_iff own kid).1 eq) ∙ other in
            cc),
      find_kid-none js kid (rw (find_kid, named, other) at h),
    )
  ]
]

-- The header has no key id, or none of the set has it.
abbrev pub HasNoKid : List JwksKey → Option String → Type 0
HasNoKid jwks none = Unit
HasNoKid jwks (some kid) = (kid ≡ "") ⊎ All (λ (j : JwksKey). j.kid ≢ some kid) jwks

-- The key has the header's id, if a key of the set has it.
abbrev pub IsChosen : List JwksKey → Option String → JwksKey → Type 0
IsChosen jwks kid key = ((k : String) × ((kid ≡ some k) × (key.kid ≡ some k))) ⊎ HasNoKid jwks kid

by_kid-cases :
    (jwks : List JwksKey) (kid : Option String)
    → ((j : JwksKey) × ((by_kid jwks kid ≡ some j)
          × ((k : String) × ((kid ≡ some k) × (j.kid ≡ some k)))))
      ⊎ HasNoKid jwks kid
by_kid-cases jwks none = inr tt
by_kid-cases jwks (some k) = elim (Bool-cases (k == "")) [
  | inl blank ↦ inr (inl ((string_keyed.same_key_iff k "").0 blank))
  | inr given ↦ elim (Option-cases (find_kid jwks k)) [
    | inl missing ↦ inr (inr (find_kid-none jwks k missing))
    | inr (j, found) ↦ inl (j, (rw given found, (k, (refl, find_kid-named jwks k j found))))
  ]
]

pub pick_jwk-IsChosen :
    (jwks : List JwksKey) (kid : Option String) (alg : String) (key : JwksKey)
    → pick_jwk jwks kid alg ≡ some key
    → IsChosen jwks kid key
unfolding pick_jwk
pick_jwk-IsChosen jwks kid alg key h = elim (by_kid-cases jwks kid) [
  | inr free ↦ inr free
  | inl (j, (found, (k, (given, named)))) ↦
      (let is : ◌≡◌ {A = Option JwksKey} (some j) (some key) =
          sym (ap (λ o. or_else o (or_else (find_alg jwks alg) (first_key jwks))) found) ∙ h in
        let same : j ≡ key = cc in inl (k, (given, ap (λ (x : JwksKey). x.kid) (sym same) ∙ named)))
]

same_bytes-eq : (xs ys : List ℕ) → same_bytes xs ys ≡ true → xs ≡ ys
unfolding same_bytes
same_bytes-eq [] [] h = refl
same_bytes-eq [] (y ∷ ys) h = cc
same_bytes-eq (x ∷ xs) [] h = cc
same_bytes-eq (x ∷ xs) (y ∷ ys) h =
    let (first, rest) = both (nat_beq x y) (same_bytes xs ys) h in
    let eq : x ≡ y = (nat_beq_iff x y).0 first in
    let more : xs ≡ ys = same_bytes-eq xs ys rest in cc

checked-true : (o : Option Bool) → checked o ≡ true → o ≡ some true
checked-true none h = cc
checked-true (some b) h = ap some h

module _ (crypto : Crypto) where
  -- The algorithm is one of three, and its check of the signature holds with the key.
  abbrev pub IsSignedBy : String → JwksKey → List ℕ → List ℕ → Type 0
  IsSignedBy alg key message signature =
      ((alg ≡ "HS256")
        × ((k : String) × ((key.k ≡ some k)
              × ((k ≢ "") × (crypto.hmac_sha256 (crypto.b64u_decode k) message ≡ signature)))))
      ⊎ (((alg ≡ "RS256") × (crypto.verify_rsa key message signature ≡ some true))
          ⊎ ((alg ≡ "ES256")
              × (crypto.verify_ecdsa key message (jose_ecdsa_to_der signature) ≡ some true)))

  verify_hs256-eq :
      (o : Option String) (message signature : List ℕ)
      → verify_hs256 crypto o message signature ≡ true
      → (k : String) × ((o ≡ some k)
          × ((k ≢ "") × (crypto.hmac_sha256 (crypto.b64u_decode k) message ≡ signature)))
  verify_hs256-eq none message signature h = cc
  verify_hs256-eq (some k) message signature h = elim (Bool-cases (k == "")) [
    | inl blank ↦ (let no_key : false ≡ true = rw blank at h in cc)
    | inr given ↦ (
      k,
      (
        refl,
        (
          λ is.
              (let clash : true ≡ false = sym ((string_keyed.same_key_iff k "").1 is) ∙ given in
                cc),
          same_bytes-eq _ _ (rw given at h),
        ),
      ),
    )
  ]

  pub verify_with_jwk-IsSignedBy :
      (alg : String) (key : JwksKey) (message signature : List ℕ)
      → verify_with_jwk crypto alg key message signature ≡ true
      → IsSignedBy alg key message signature
  unfolding verify_with_jwk
  verify_with_jwk-IsSignedBy alg key message signature h = elim (Bool-cases (alg == "HS256")) [
    | inl hs ↦ inl (
      (string_keyed.same_key_iff alg "HS256").0 hs,
      verify_hs256-eq key.k message signature (rw (verify_with_jwk, hs) at h),
    )
    | inr not_hs ↦ elim (Bool-cases (alg == "RS256")) [
      | inl rs ↦ inr (
          inl (
            (string_keyed.same_key_iff alg "RS256").0 rs,
            checked-true _ (rw (verify_with_jwk, not_hs, rs) at h),
          ))
      | inr not_rs ↦ elim (Bool-cases (alg == "ES256")) [
        | inl es ↦ inr (
            inr (
              (string_keyed.same_key_iff alg "ES256").0 es,
              checked-true _ (rw (verify_with_jwk, not_hs, not_rs, es) at h),
            ))
        | inr not_es ↦
            (let clash : false ≡ true = rw (verify_with_jwk, not_hs, not_rs, not_es) at h in cc)
      ]
    ]
  ]
