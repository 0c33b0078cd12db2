-- ===== src/Server/Auth/Der/Decoding.antt =====
-- What a DER reader makes of the signature that src/server/auth.ts converts.
use actjs.Prelude.{
  append-nil, lt→ltb, ℕ, zero, suc, ◌+◌, ◌-◌, ◌≤◌, ◌<◌, ◌≡◌, ◌&&◌, refl, ap, sym, ◌∙◌, Bool, true,
  false, Option, none, some, List, [], ◌∷◌, ◌++◌, length, leb, ltb, nat_beq, arith, if◌then◌else◌,
  Bool-cases, inl, inr, ◌*◌, ◌/◌, ◌%◌, take, drop, length-append, drop-length-append, All,
}
use actjs.Prelude.Keys.{string_keyed, nat_keyed}
use actjs.Server.Auth.Der.{trim_leading_zeros, needs_pad, encode_asn1_integer, jose_ecdsa_to_der}

-- The number that bytes stand for, the first one being the highest
unfoldable pub number_from : ℕ → List ℕ → ℕ
number_from n [] = n
number_from n (b ∷ bs) = number_from (n * 256 + b) bs

abbrev pub is_positive : List ℕ → Bool
is_positive [] = false
is_positive (b ∷ bs) = ltb b 128

-- DER wants the shortest bytes of a number: a zero byte is first only when the number is zero or the next byte
-- has its high bit set.
abbrev pub is_minimal : List ℕ → Bool
is_minimal [] = false
is_minimal (b ∷ []) = true
is_minimal (b ∷ c ∷ bs) = if nat_beq b 0 then leb 128 c else true

-- Reads a DER INTEGER that is not negative: its number, and the bytes behind it. Lengths are of one byte,
-- below 128.
unfoldable pub read_integer : List ℕ → Option (ℕ × List ℕ)
unfolding number_from take drop
read_integer [] = none
read_integer (tag ∷ []) = none
read_integer (tag ∷ size ∷ bs) =
    if nat_beq tag 2
      && ltb size 128
      && leb size (length bs)
      && is_positive (take size bs)
      && is_minimal (take size bs)
    then some (number_from 0 (take size bs), drop size bs)
    else none

abbrev pub read_end : ℕ → Option (ℕ × List ℕ) → Option (ℕ × ℕ)
read_end r none = none
read_end r (some (s, [])) = some (r, s)
read_end r (some (s, b ∷ bs)) = none

abbrev pub read_second : Option (ℕ × List ℕ) → Option (ℕ × ℕ)
read_second none = none
read_second (some (r, bs)) = read_end r (read_integer bs)

-- Reads a SEQUENCE of two such integers that fills the text.
unfoldable pub read_signature : List ℕ → Option (ℕ × ℕ)
unfolding read_integer
read_signature [] = none
read_signature (tag ∷ []) = none
read_signature (tag ∷ size ∷ bs) =
    if nat_beq tag 48 && ltb size 128 && nat_beq size (length bs)
    then read_second (read_integer bs)
    else none

abbrev pub AreBytes : List ℕ → Type 0
AreBytes bs = All (λ b. b < 256) bs

number_from-trim : (bs : List ℕ) → number_from 0 (trim_leading_zeros bs) ≡ number_from 0 bs
unfolding number_from trim_leading_zeros
number_from-trim [] = refl
number_from-trim (b ∷ []) = refl
number_from-trim (b ∷ c ∷ bs) = elim (Bool-cases (nat_beq b 0)) [
  | inl zero_byte ↦
      let is : b ≡ 0 = ground (arith, zero_byte) in
      let step : 0 * 256 + 0 ≡ 0 * 256 + b = omega (arith, is) in
      rw zero_byte (number_from-trim (c ∷ bs) ∙ ap (λ n. number_from n (c ∷ bs)) step)
  | inr other ↦ rw other refl
]

-- A text of bytes that is not empty and starts with no zero, unless it is one zero: what trimming leaves
record IsTrimmed (n : ℕ) (bs : List ℕ) : Type 0 where
  bytes : AreBytes bs
  some_byte : 1 ≤ length bs
  short : length bs ≤ n
  no_zero : is_minimal bs ≡ true

trim-IsTrimmed :
    (n : ℕ) (bs : List ℕ)
    → AreBytes bs
    → 1 ≤ length bs
    → length bs ≤ n
    → IsTrimmed n (trim_leading_zeros bs)
unfolding trim_leading_zeros
trim-IsTrimmed n [] h one most = absurd (omega (arith, one))
trim-IsTrimmed n (b ∷ []) h one most = record {
  bytes = h;
  some_byte = one;
  short = most;
  no_zero = refl;
}
trim-IsTrimmed n (b ∷ c ∷ bs) h one most = elim (Bool-cases (nat_beq b 0)) [
  | inl zero_byte ↦ rw zero_byte (trim-IsTrimmed n (c ∷ bs) h.1 (omega arith) (omega (arith, most)))
  | inr other ↦
      rw other (record { bytes = h; some_byte = one; short = most; no_zero = rw other refl })
]

take-length-append : (xs ys : List ℕ) → take (length xs) (xs ++ ys) ≡ xs
unfolding take
take-length-append [] ys = refl
take-length-append (x ∷ xs) ys = ap (λ l. x ∷ l) (take-length-append xs ys)

read_body :
    (body rest : List ℕ)
    → is_positive body ≡ true
    → is_minimal body ≡ true
    → length body < 128
    → read_integer (2 ∷ length body % 256 ∷ body ++ rest) ≡ some (number_from 0 body, rest)
unfolding read_integer
read_body body rest positive shortest short =
    let size : length body % 256 ≡ length body = omega (arith, short) in
    let small : ltb (length body) 128 ≡ true = ground (arith, short) in
    let fits : leb (length body) (length (body ++ rest)) ≡ true =
      rw (length-append body rest) (ground arith) in
    rw
      (
        read_integer,
        size,
        small,
        fits,
        take-length-append body rest,
        positive,
        shortest,
        drop-length-append body rest,
      )
      refl

length-take : (n : ℕ) (xs : List ℕ) → n ≤ length xs → length (take n xs) ≡ n
unfolding take
length-take zero xs h = refl
length-take (suc n) [] h = omega (arith, h)
length-take (suc n) (x ∷ xs) h = ap suc (length-take n xs (omega (arith, h)))

length-drop : (n : ℕ) (xs : List ℕ) → length (drop n xs) ≡ length xs - n
unfolding drop
length-drop zero xs = omega arith
length-drop (suc n) [] = omega arith
length-drop (suc n) (x ∷ xs) = length-drop n xs ∙ omega arith

take-AreBytes : (n : ℕ) (xs : List ℕ) → AreBytes xs → AreBytes (take n xs)
unfolding take
take-AreBytes zero xs h = tt
take-AreBytes (suc n) [] h = tt
take-AreBytes (suc n) (x ∷ xs) h = (h.0, take-AreBytes n xs h.1)

drop-AreBytes : (n : ℕ) (xs : List ℕ) → AreBytes xs → AreBytes (drop n xs)
unfolding drop
drop-AreBytes zero xs h = h
drop-AreBytes (suc n) [] h = tt
drop-AreBytes (suc n) (x ∷ xs) h = drop-AreBytes n xs h.1

no_pad-positive :
    (bs : List ℕ) → AreBytes bs → 1 ≤ length bs → needs_pad bs ≡ false → is_positive bs ≡ true
no_pad-positive [] h one clear = ground (arith, one)
no_pad-positive (b ∷ bs) h one clear =
    let bit : nat_beq (b / 128 % 2) 1 ≡ false = clear in
    let low : b < 128 = ground (arith, h.0, bit) in lt→ltb b 128 low

padded-minimal : (bs : List ℕ) → needs_pad bs ≡ true → AreBytes bs → is_minimal (0 ∷ bs) ≡ true
padded-minimal [] padded h = cc
padded-minimal (b ∷ bs) padded h =
    let bit : nat_beq (b / 128 % 2) 1 ≡ true = padded in ground (arith, h.0, bit)

-- The encoding of a short text of bytes, with more behind it, is read as its number.
read_integer-encode :
    (bs rest : List ℕ)
    → IsTrimmed 32 bs
    → read_integer (encode_asn1_integer bs ++ rest) ≡ some (number_from 0 bs, rest)
unfolding encode_asn1_integer number_from
read_integer-encode bs rest h = elim (Bool-cases (needs_pad bs)) [
  | inl padded ↦
      rw padded
        (read_body (0 ∷ bs) rest refl (padded-minimal bs padded h.bytes) (omega (arith, h.short)))
  | inr clear ↦ rw clear (
      read_body bs rest (no_pad-positive bs h.bytes h.some_byte clear) h.no_zero
        (omega (arith, h.short)))
]

length-encode : (bs : List ℕ) → IsTrimmed 32 bs → length (encode_asn1_integer bs) ≤ 35
unfolding encode_asn1_integer
length-encode bs h = elim (Bool-cases (needs_pad bs)) [
  | inl padded ↦ rw padded (omega (arith, h.short))
  | inr clear ↦ rw clear (omega (arith, h.short))
]

read_signature-pair :
    (r s : List ℕ)
    → IsTrimmed 32 r
    → IsTrimmed 32 s
    → (let body = encode_asn1_integer r ++ encode_asn1_integer s in
        read_signature (48 ∷ length body % 256 ∷ body) ≡ some (number_from 0 r, number_from 0 s))
unfolding read_signature
read_signature-pair r s hr hs =
    let body = encode_asn1_integer r ++ encode_asn1_integer s in
    let most : length body ≤ 70 =
      rw (length-append (encode_asn1_integer r) (encode_asn1_integer s))
        (omega (arith, length-encode r hr, length-encode s hs)) in
    let size : length body % 256 ≡ length body = omega (arith, most) in
    let small : ltb (length body) 128 ≡ true = ground (arith, most) in
    let all : nat_beq (length body) (length body) ≡ true = ground arith in
    let second : read_integer (encode_asn1_integer s) ≡ some (number_from 0 s, []) =
      ap read_integer (sym (append-nil (encode_asn1_integer s))) ∙ read_integer-encode s [] hs in
    rw (read_signature, size, small, all, read_integer-encode r (encode_asn1_integer s) hr, second)
      refl

-- A reader of DER that takes only a SEQUENCE of two INTEGERs that are not negative and have the fewest bytes, with
-- nothing behind them, gets from the converted 64 bytes of a JOSE signature its two numbers, whatever
-- their leading zeros and their high bits.
pub read_signature-jose_ecdsa_to_der :
    (sig : List ℕ)
    → AreBytes sig
    → length sig ≡ 64
    → read_signature (jose_ecdsa_to_der sig)
      ≡ some (number_from 0 (take 32 sig), number_from 0 (drop 32 sig))
unfolding jose_ecdsa_to_der
read_signature-jose_ecdsa_to_der sig h size =
    let r = take 32 sig in
    let s = drop 32 sig in
    let r_size : length r ≡ 32 = length-take 32 sig (omega (arith, size)) in
    let s_size : length s ≡ 32 = length-drop 32 sig ∙ omega (arith, size) in
    let hr =
      trim-IsTrimmed 32 r (take-AreBytes 32 sig h) (omega (arith, r_size))
        (omega (arith, r_size)) in
    let hs =
      trim-IsTrimmed 32 s (drop-AreBytes 32 sig h) (omega (arith, s_size))
        (omega (arith, s_size)) in
    let full : nat_beq (length sig) 64 ≡ true = ground (arith, size) in
    let read = read_signature-pair (trim_leading_zeros r) (trim_leading_zeros s) hr hs in
    rw (jose_ecdsa_to_der, full) (rw (number_from-trim r, number_from-trim s) at read)
