-- ===== src/Rnid/Base32/RoundTrip.antt =====
-- The text that is encoded is decoded to the same bytes.
use reticulum_router.Prelude.{
  ℕ, zero, suc, ◌+◌, ◌-◌, ◌*◌, ◌/◌, ◌%◌, ◌^◌, ◌≤◌, ◌<◌, ◌≡◌, refl, ap, ◌∙◌, true, false, some, [],
  ◌∷◌, ◌++◌, length, length-append, All, all, all-append, ltb, leb, ◌==◌, arith, Bool-cases, inl,
  inr,
}
use reticulum_router.Text.{Text, Bytes}
use reticulum_router.Rnid.Base32.{
  letter, drain, encode_from, padding, base32_encode, trim_end_matches, decode_from, base32_decode,
}
use reticulum_router.Rnid.Base32.Steps.{small, AreBytes, Decodes-always}

-- What holds of every letter holds of every character that is written for the bytes.
module _ (P : ℕ → Type 0) (letters : (v : ℕ) → v < 32 → P (letter v)) where
  drain-All : (rounds buffer bits : ℕ) → All P (drain rounds buffer bits).0
  unfolding drain
  drain-All zero buffer bits = tt
  drain-All (suc rounds) buffer bits =
      let n = buffer / 2 ^ (bits - 5) in
      elim (Bool-cases (leb 5 bits)) [
        | inl e ↦ rw (e, drain) (letters (n % 32) (small n), drain-All rounds buffer (bits - 5))
        | inr e ↦ rw (e, drain) tt
      ]

  All-append : (s t : Text) → All P s → All P t → All P (s ++ t)
  All-append [] t h k = k
  All-append (c ∷ s) t (e, h) k = (e, All-append s t h k)

  pub encode_from-All : (bytes : Bytes) (buffer bits : ℕ) → All P (encode_from bytes buffer bits)
  unfolding encode_from
  encode_from-All [] buffer bits =
      let n = buffer * 2 ^ (5 - bits) % 2 ^ 16 in
      elim (Bool-cases (ltb 0 bits)) [
        | inl e ↦ rw (e, encode_from) (letters (n % 32) (small n), tt)
        | inr e ↦ rw (e, encode_from) tt
      ]
  encode_from-All (byte ∷ bytes) buffer bits =
      let b = buffer * 256 % 2 ^ 16 + byte in
      let d = drain (bits + 8) b (bits + 8) in
      All-append d.0 (encode_from bytes b d.1) (drain-All (bits + 8) b (bits + 8))
        (encode_from-All bytes b d.1)

-- No letter is the padding, and trimming takes the padding only.
abbrev Unpadded : ℕ → Type 0
Unpadded c = (c == b'=') ≡ false

letter-Unpadded : (v : ℕ) → v < 32 → Unpadded (letter v)
unfolding letter
letter-Unpadded v h = elim (Bool-cases (ltb v 26)) [
  | inl e ↦ ground (arith, e)
  | inr e ↦ ground (arith, e)
]

abbrev Ascii : ℕ → Type 0
Ascii c = ltb c 128 ≡ true

letter-Ascii : (v : ℕ) → v < 32 → Ascii (letter v)
unfolding letter
letter-Ascii v h = elim (Bool-cases (ltb v 26)) [
  | inl e ↦ ground (arith, e)
  | inr e ↦ ground (arith, e)
]

all_of_All : (s : Text) → All Ascii s → all (λ c. ltb c 128) s ≡ true
unfolding all
all_of_All [] h = refl
all_of_All (c ∷ s) (e, h) = ground (arith, e, all_of_All s h)

padding_ascii : (rounds n : ℕ) → all (λ c. ltb c 128) (padding rounds n) ≡ true
unfolding all padding
padding_ascii zero n = refl
padding_ascii (suc rounds) n = ground (arith, padding_ascii rounds (n + 1))

pub base32_encode_ascii : (bytes : Bytes) → all (λ c. ltb c 128) (base32_encode bytes) ≡ true
unfolding base32_encode
base32_encode_ascii bytes =
    let out = encode_from bytes 0 0 in
    all-append (λ c. ltb c 128) out (padding 8 (length out))
    ∙ rw (all_of_All out (encode_from-All Ascii letter-Ascii bytes 0 0))
        (padding_ascii 8 (length out))

trim-padding : (rounds n : ℕ) → trim_end_matches b'=' (padding rounds n) ≡ []
unfolding trim_end_matches padding
trim-padding zero n = refl
trim-padding (suc rounds) n = elim (Bool-cases (n % 8 == 0)) [
  | inl e ↦ rw (e, padding) refl
  | inr e ↦ rw (e, padding, trim_end_matches, trim-padding rounds (n + 1)) refl
]

trim-Unpadded :
    (s t : Text)
    → All Unpadded s
    → trim_end_matches b'=' t ≡ []
    → trim_end_matches b'=' (s ++ t) ≡ s
unfolding trim_end_matches
trim-Unpadded [] t h e = e
trim-Unpadded (c ∷ s) t (k, h) e = rw (trim-Unpadded s t h e, k, trim_end_matches) (ground arith)

-- The bytes that are encoded are decoded from the text, through the words of 16 and 32 bits and
-- whatever the padding.
pub base32_decode-base32_encode :
    (bytes : Bytes) → AreBytes bytes → base32_decode (base32_encode bytes) ≡ some bytes
unfolding base32_decode base32_encode
base32_decode-base32_encode bytes a =
    let out = encode_from bytes 0 0 in
    ap (λ t. decode_from t 0 0)
      (trim-Unpadded out (padding 8 (length out))
        (encode_from-All Unpadded letter-Unpadded bytes 0 0) (trim-padding 8 (length out)))
    ∙ Decodes-always 0 bytes (omega arith) a 0 0

length-padding : (rounds n : ℕ) → (8 - n % 8) % 8 ≤ rounds → (n + length (padding rounds n)) % 8 ≡ 0
unfolding padding
length-padding zero n h = omega arith
length-padding (suc rounds) n h = elim (Bool-cases (n % 8 == 0)) [
  | inl e ↦ rw (e, padding) (ground (arith, e))
  | inr e ↦
      let p = length-padding rounds (n + 1) (ground (arith, e)) in
      rw (e, padding) (omega (arith, p))
]

-- The padding fills the text to a multiple of eight characters, so its loop ends.
pub length-base32_encode : (bytes : Bytes) → length (base32_encode bytes) % 8 ≡ 0
unfolding base32_encode
length-base32_encode bytes =
    let out = encode_from bytes 0 0 in
    omega (
      arith,
      length-padding 8 (length out) (omega arith),
      length-append out (padding 8 (length out)),
    )
