-- ===== src/Server/Auth/Der.antt =====
-- `joseEcdsaToDer` of src/server/auth.ts: the signature of an ES256 token, from the pair of 32-byte numbers
-- of JOSE to the DER text that OpenSSL reads. A buffer is the list of its bytes.
pub mod Decoding
use actjs.Prelude.{
  ℕ, zero, suc, ◌+◌, ◌-◌, ◌≤◌, ◌<◌, String, ◌≡◌, ◌≢◌, ◌&&◌, not, refl, ap, sym, ◌∙◌, Bool, true,
  false, Option, none, some, List, [], ◌∷◌, ◌++◌, map, length, leb, ltb, nat_beq, get_or, arith,
  if◌then◌else◌, Bool-cases, inl, inr,
}
use actjs.Prelude.Keys.{string_keyed, nat_keyed, ◌==◌}
use actjs.Prelude.{◌*◌, ◌/◌, ◌%◌, take, drop}

-- `while (i < buf.length - 1 && buf[i] === 0) i++`
unfoldable pub trim_leading_zeros : List ℕ → List ℕ
trim_leading_zeros [] = []
trim_leading_zeros (b ∷ []) = b ∷ []
trim_leading_zeros (b ∷ c ∷ bs) =
    let rest = trim_leading_zeros (c ∷ bs) in if nat_beq b 0 then rest else b ∷ c ∷ bs

-- `(buf[0] ?? 0) & 0x80`, as a truth value
abbrev pub needs_pad : List ℕ → Bool
needs_pad [] = false
needs_pad (b ∷ bs) = nat_beq (b / 128 % 2) 1

unfoldable pub encode_asn1_integer : List ℕ → List ℕ
encode_asn1_integer buf =
    let body = if needs_pad buf then 0 ∷ buf else buf in 2 ∷ length body % 256 ∷ body

unfoldable pub jose_ecdsa_to_der : List ℕ → List ℕ
unfolding trim_leading_zeros encode_asn1_integer take drop
jose_ecdsa_to_der sig =
    if nat_beq (length sig) 64
    then (let seq_body =
          encode_asn1_integer (trim_leading_zeros (take 32 sig))
          ++ encode_asn1_integer (trim_leading_zeros (drop 32 sig)) in
        48 ∷ length seq_body % 256 ∷ seq_body)
    else sig
