-- ===== src/Server/Auth/Jwt/Claims.antt =====
-- The claims that src/server/auth.ts accepts: who issued them, for whom, and when they hold.
use actjs.Runtime.Value.{
  Value, undefined, null, bool, num, str, arr, obj, as_array, obj, arr, bool, as_array, num, str,
  Value, Fields, get_field,
}
use actjs.Prelude.{
  ◌≤◌, ◌*◌, ◌&&◌, suc, leb→le, get_elem?, ◌⊎◌, leb→le, suc, get_elem?, ◌⊎◌, Bool, Option-cases, ℕ,
  String, ◌≡◌, refl, ap, true, false, Option, none, some, List, [], ◌∷◌, Bool-cases, inl, inr,
}
use actjs.Server.Auth.Jwt.{
  audience_ok, has_begun, in_array, is_text, issuer_ok, not_expired, any_text, VerifyJwtOptions,
  claims_ok,
}
use actjs.Prelude.Keys.{string_keyed, nat_keyed, ◌==◌}

-- A claim that is a number bounds the time, and any other or none does not.
abbrev pub ExpiresFrom : Option Value → ℕ → Type 0
ExpiresFrom none now = Unit
ExpiresFrom (some (num exp)) now = now ≤ exp * 1000
ExpiresFrom (some v) now = Unit

abbrev pub BeginsBy : Option Value → ℕ → Type 0
BeginsBy none now = Unit
BeginsBy (some (num nbf)) now = nbf * 1000 ≤ now
BeginsBy (some v) now = Unit

-- The claim is this text.
abbrev pub IsText : Option Value → String → Type 0
IsText o t = o ≡ some (str t)

-- The claim is a list, and this text stands in it.
abbrev pub Includes : Option Value → String → Type 0
Includes o t =
    (v : Value) × ((vs : List Value) × ((o ≡ some v)
        × ((as_array v ≡ some vs) × ((i : ℕ) × (get_elem? vs i ≡ some (str t))))))

abbrev pub IssuedBy : Option String → Option Value → Type 0
IssuedBy none iss = Unit
IssuedBy (some issuer) iss = (issuer ≡ "") ⊎ IsText iss issuer

abbrev pub IsMeantFor : Option String → Option Value → Type 0
IsMeantFor none aud = Unit
IsMeantFor (some audience) aud = (audience ≡ "") ⊎ (IsText aud audience ⊎ Includes aud audience)

pub record IsInForce (options : VerifyJwtOptions) (now : ℕ) (claims : Fields) : Type 0 where
  pub issuer : IssuedBy options.issuer (get_field claims "iss")
  pub audience : IsMeantFor options.audience (get_field claims "aud")
  pub expires : ExpiresFrom (get_field claims "exp") now
  pub begins : BeginsBy (get_field claims "nbf") now

pub both : (a b : Bool) → (a && b) ≡ true → (a ≡ true) × (b ≡ true)
both true b h = (refl, h)
both false b h = cc

is_text-IsText : (o : Option Value) (t : String) → is_text o t ≡ true → IsText o t
is_text-IsText none t h = cc
is_text-IsText (some undefined) t h = cc
is_text-IsText (some null) t h = cc
is_text-IsText (some (bool b)) t h = cc
is_text-IsText (some (num n)) t h = cc
is_text-IsText (some (str s)) t h = ap (λ x. some (str x)) ((string_keyed.same_key_iff s t).0 h)
is_text-IsText (some (arr vs)) t h = cc
is_text-IsText (some (obj fs)) t h = cc

any_text-Includes :
    (vs : List Value) (t : String)
    → any_text vs t ≡ true
    → (i : ℕ) × (get_elem? vs i ≡ some (str t))
unfolding any_text
any_text-Includes [] t h = cc
any_text-Includes (v ∷ vs) t h = elim (Bool-cases (is_text (some v) t)) [
  | inl here ↦ (0, is_text-IsText (some v) t here)
  | inr further ↦ let (i, at) = any_text-Includes vs t (rw (any_text, further) at h) in (suc i, at)
]

in_array-Includes : (o : Option Value) (t : String) → in_array o t ≡ true → Includes o t
in_array-Includes none t h = cc
in_array-Includes (some v) t h = elim (Option-cases (as_array v)) [
  | inl other ↦ (let no_array : false ≡ true = rw (in_array, other) at h in cc)
  | inr (vs, is) ↦ (v, (vs, (refl, (is, any_text-Includes vs t (rw (in_array, is) at h)))))
]

issuer_ok-IssuedBy :
    (issuer : Option String) (iss : Option Value)
    → issuer_ok issuer iss ≡ true
    → IssuedBy issuer iss
issuer_ok-IssuedBy none iss h = tt
issuer_ok-IssuedBy (some issuer) iss h = elim (Bool-cases (issuer == "")) [
  | inl blank ↦ inl ((string_keyed.same_key_iff issuer "").0 blank)
  | inr given ↦ inr (is_text-IsText iss issuer (rw given at h))
]

audience_ok-IsMeantFor :
    (audience : Option String) (aud : Option Value)
    → audience_ok audience aud ≡ true
    → IsMeantFor audience aud
audience_ok-IsMeantFor none aud h = tt
audience_ok-IsMeantFor (some audience) aud h = elim (Bool-cases (audience == "")) [
  | inl blank ↦ inl ((string_keyed.same_key_iff audience "").0 blank)
  | inr given ↦ inr (elim (Bool-cases (is_text aud audience)) [
    | inl is ↦ inl (is_text-IsText aud audience is)
    | inr other ↦ inr (in_array-Includes aud audience (rw (given, other) at h))
  ])
]

not_expired-ExpiresFrom :
    (o : Option Value) (now : ℕ) → not_expired o now ≡ true → ExpiresFrom o now
not_expired-ExpiresFrom none now h = tt
not_expired-ExpiresFrom (some undefined) now h = tt
not_expired-ExpiresFrom (some null) now h = tt
not_expired-ExpiresFrom (some (bool b)) now h = tt
not_expired-ExpiresFrom (some (num n)) now h = leb→le now (n * 1000) h
not_expired-ExpiresFrom (some (str s)) now h = tt
not_expired-ExpiresFrom (some (arr vs)) now h = tt
not_expired-ExpiresFrom (some (obj fs)) now h = tt

has_begun-BeginsBy : (o : Option Value) (now : ℕ) → has_begun o now ≡ true → BeginsBy o now
has_begun-BeginsBy none now h = tt
has_begun-BeginsBy (some undefined) now h = tt
has_begun-BeginsBy (some null) now h = tt
has_begun-BeginsBy (some (bool b)) now h = tt
has_begun-BeginsBy (some (num n)) now h = leb→le (n * 1000) now h
has_begun-BeginsBy (some (str s)) now h = tt
has_begun-BeginsBy (some (arr vs)) now h = tt
has_begun-BeginsBy (some (obj fs)) now h = tt

pub claims_ok-IsInForce :
    (options : VerifyJwtOptions) (now : ℕ) (claims : Fields)
    → claims_ok options now claims ≡ true
    → IsInForce options now claims
unfolding claims_ok
claims_ok-IsInForce options now claims h =
    let (others, nbf) = both _ _ h in
    let (texts, exp) = both _ _ others in
    let (iss, aud) = both _ _ texts in
    record {
      issuer = issuer_ok-IssuedBy options.issuer (get_field claims "iss") iss;
      audience = audience_ok-IsMeantFor options.audience (get_field claims "aud") aud;
      expires = not_expired-ExpiresFrom (get_field claims "exp") now exp;
      begins = has_begun-BeginsBy (get_field claims "nbf") now nbf;
    }
