-- ===== src/Rnid/Import/RoundTrip.antt =====
-- A key that is exported can be imported.
use reticulum_router.Prelude.{
  ℕ, zero, suc, ◌+◌, ◌-◌, ◌*◌, ◌/◌, ◌%◌, ◌^◌, ◌≤◌, ◌<◌, ◌≡◌, refl, ◌∙◌, inl, inr, true, false, not,
  ◌&&◌, Option, none, some, [], ◌∷◌, all, length, length-append, ltb, leb, ◌==◌, arith, Bool-cases,
  Option-cases,
}
use reticulum_router.Text.{Text, Bytes, len}
use reticulum_router.Text.Laws.{len_of_ascii}
use reticulum_router.Rnguard.Hex.{hex_digit, hex_encode}
use reticulum_router.Rnguard.Hex.RoundTrip.{decode_hex-hex_encode, length-hex_encode}
use reticulum_router.Rnid.Base32.{
  drain, encode_from, padding, base32_encode, base32_decode, trim_end_matches, letter_value,
  decode_from, push_byte,
}
use reticulum_router.Rnid.Base32.Steps.{AreBytes}
use reticulum_router.Rnid.Base32.RoundTrip.{base32_decode-base32_encode, base32_encode_ascii}
use reticulum_router.Rnid.Base256.{base256_decode}
use reticulum_router.Rnid.Import.{
  Args, Base64, Files, Import, imported, invalid_identity, encode_key, expand_home, or_next,
  from_text, decode_identity_input,
}

-- The length of what is encoded.
drain-sizes :
    (rounds buffer bits : ℕ)
    → bits ≤ rounds
    → (length (drain rounds buffer bits).0 ≡ bits / 5) × ((drain rounds buffer bits).1 ≡ bits % 5)
unfolding drain
drain-sizes zero buffer bits h = (omega arith, omega arith)
drain-sizes (suc rounds) buffer bits h = elim (Bool-cases (leb 5 bits)) [
  | inl e ↦
      let (p, q) = drain-sizes rounds buffer (bits - 5) (omega arith) in
      let five : 5 ≤ bits = ground (arith, e) in rw (e, drain) (omega (arith, p), q ∙ omega arith)
  | inr e ↦ let few : bits < 5 = ground (arith, e) in rw (e, drain) (omega arith, omega arith)
]

length-encode_from :
    (bytes : Bytes) (buffer bits : ℕ)
    → bits < 5
    → length (encode_from bytes buffer bits) ≡ (8 * length bytes + bits + 4) / 5
unfolding encode_from
length-encode_from [] buffer bits h = elim (Bool-cases (ltb 0 bits)) [
  | inl e ↦ rw (e, encode_from) (ground (arith, e))
  | inr e ↦ rw (e, encode_from) (ground (arith, e))
]
length-encode_from (byte ∷ bytes) buffer bits h =
    let b = buffer * 256 % 2 ^ 16 + byte in
    let d = drain (bits + 8) b (bits + 8) in
    let (p, q) = drain-sizes (bits + 8) b (bits + 8) (omega arith) in
    omega (
      arith,
      p,
      q,
      length-append d.0 (encode_from bytes b d.1),
      length-encode_from bytes b d.1 (omega arith),
    )

-- What is decoded, if anything is, has so many bits at most.
abbrev Fits : ℕ → Option Bytes → Type 0
Fits n none = Unit {0}
Fits n (some out) = 8 * length out ≤ n

Fits-push : (n m b : ℕ) (o : Option Bytes) → n + 8 ≤ m → Fits n o → Fits m (push_byte b o)
Fits-push n m b none h f = tt
Fits-push n m b (some out) h f = omega (arith, h, f)

Fits-more : (n m : ℕ) (o : Option Bytes) → n ≤ m → Fits n o → Fits m o
Fits-more n m none h f = tt
Fits-more n m (some out) h f = omega (arith, h, f)

decode_from-Fits :
    (t : Text) (buffer bits : ℕ) → Fits (5 * length t + bits) (decode_from t buffer bits)
unfolding decode_from
decode_from-Fits [] buffer bits = omega arith
decode_from-Fits (c ∷ t) buffer bits = elim (Option-cases (letter_value c)) [
  | inl e ↦ rw (e, decode_from) tt
  | inr (v, e) ↦
      let b = buffer * 32 % 2 ^ 32 + v in
      elim (Bool-cases (leb 8 (bits + 5))) [
        | inl k ↦
            let enough : 8 ≤ bits + 5 = ground (arith, k) in
            rw (e, k, decode_from)
              (Fits-push (5 * length t + (bits + 5 - 8)) (5 * length (c ∷ t) + bits)
                (b / 2 ^ (bits + 5 - 8) % 256) (decode_from t b (bits + 5 - 8))
                (omega (arith, enough)) (decode_from-Fits t b (bits + 5 - 8)))
        | inr k ↦
            rw (e, k, decode_from)
              (Fits-more (5 * length t + (bits + 5)) (5 * length (c ∷ t) + bits)
                (decode_from t b (bits + 5)) (omega arith) (decode_from-Fits t b (bits + 5)))
      ]
]

length-trim : (d : ℕ) (s : Text) → length (trim_end_matches d s) ≤ length s
unfolding trim_end_matches
length-trim d [] = omega arith
length-trim d (c ∷ s) = ground (arith, length-trim d s)

base32_decode-Fits : (t : Text) → Fits (5 * length t) (base32_decode t)
unfolding base32_decode
base32_decode-Fits t =
    let s = trim_end_matches b'=' t in
    Fits-more (5 * length s + 0) (5 * length t) (decode_from s 0 0)
      (omega (arith, length-trim b'=' t)) (decode_from-Fits s 0 0)

length-key : (bytes : Bytes) → length bytes ≡ 64 → length (base32_encode bytes) ≡ 104
unfolding base32_encode padding
length-key bytes h =
    let l : length (encode_from bytes 0 0) ≡ 103 =
      length-encode_from bytes 0 0 (omega arith) ∙ (rw h refl) in
    length-append (encode_from bytes 0 0) (padding 8 (length (encode_from bytes 0 0))) ∙ (rw l refl)

hex_digit_ascii : (n : ℕ) → n < 16 → ltb (hex_digit n) 128 ≡ true
unfolding hex_digit
hex_digit_ascii n h = elim (Bool-cases (ltb n 10)) [
  | inl e ↦ ground (arith, e)
  | inr e ↦ ground (arith, e)
]

hex_encode_ascii : (bytes : Bytes) → all (λ c. ltb c 128) (hex_encode bytes) ≡ true
unfolding hex_encode all
hex_encode_ascii [] = refl
hex_encode_ascii (b ∷ bytes) = ground (
  arith,
  hex_digit_ascii (b / 16 % 16) (omega arith),
  hex_digit_ascii (b % 16) (omega arith),
  hex_encode_ascii bytes,
)

module _ (b64 : Base64) (files : Files) where
  -- The text names no file.
  abbrev pub IsNoFile : Text → Type 0
  IsNoFile input = files.is_file (expand_home b64 files input) ≡ false

  from_hex :
      (bytes : Bytes)
      → AreBytes bytes
      → length bytes ≡ 64
      → from_text b64 files (hex_encode bytes) 64 ≡ imported bytes
  unfolding from_text
  from_hex bytes a h =
      let l : len (hex_encode bytes) ≡ 128 =
        len_of_ascii (hex_encode bytes) (hex_encode_ascii bytes)
        ∙ length-hex_encode bytes
        ∙ (rw h refl) in
      rw (from_text, l, decode_hex-hex_encode bytes a, h) refl

  from_base32 :
      (bytes : Bytes)
      → AreBytes bytes
      → length bytes ≡ 64
      → from_text b64 files (base32_encode bytes) 64 ≡ imported bytes
  unfolding from_text
  from_base32 bytes a h =
      let l : len (base32_encode bytes) ≡ 104 =
        len_of_ascii (base32_encode bytes) (base32_encode_ascii bytes) ∙ length-key bytes h in
      rw (from_text, l, base32_decode-base32_encode bytes a, h) refl

  -- Sixty characters and more hold less than a key in base32.
  not_base32 : (o : Option Bytes) (next : Import) → Fits 440 o → or_next b64 files 64 o next ≡ next
  not_base32 none next f = refl
  not_base32 (some out) next f =
      let short : (length out == 64) ≡ false = ground (arith, f) in rw short refl

  from_base64 :
      (bytes : Bytes)
      → AreBytes bytes
      → length bytes ≡ 64
      → from_text b64 files (b64.encode bytes) 64 ≡ imported bytes
  unfolding from_text
  from_base64 bytes a h =
      let l : length (b64.encode bytes) ≡ 88 = b64.length-encode bytes ∙ (rw h refl) in
      let u : len (b64.encode bytes) ≡ 88 =
        len_of_ascii (b64.encode bytes) (b64.encode_ascii bytes a) ∙ l in
      let f : Fits 440 (base32_decode (b64.encode bytes)) =
        Fits-more (5 * length (b64.encode bytes)) 440 (base32_decode (b64.encode bytes))
          (omega (arith, l)) (base32_decode-Fits (b64.encode bytes)) in
      rw (from_text, u)
        (not_base32 (base32_decode (b64.encode bytes))
            (or_next b64 files 64 (b64.decode (b64.encode bytes))
              (or_next b64 files 64 (base256_decode (b64.encode bytes)) invalid_identity))
            f
          ∙ (rw (b64.decode-encode bytes a, h) refl))

  -- A key of 64 bytes that is exported in hexadecimal, base32 or base64 is imported as the same bytes,
  -- where no file has the text's name, whichever attempts come first.
  pub decode_identity_input-encode_key :
      (args : Args) (bytes : Bytes)
      → AreBytes bytes
      → length bytes ≡ 64
      → (not args.base64 && (not args.base32 && args.base256)) ≡ false
      → IsNoFile (encode_key b64 args bytes)
      → decode_identity_input b64 files (encode_key b64 args bytes) 64 ≡ imported bytes
  unfolding decode_identity_input encode_key
  decode_identity_input-encode_key args bytes a h c f =
      rw (decode_identity_input, f)
        (elim (Bool-cases args.base64) [
          | inl x ↦ rw (x, encode_key) (from_base64 bytes a h)
          | inr x ↦ elim (Bool-cases args.base32) [
            | inl y ↦ rw (x, y, encode_key) (from_base32 bytes a h)
            | inr y ↦
                let z : args.base256 ≡ false = ground (arith, c, x, y) in
                rw (x, y, z, encode_key) (from_hex bytes a h)
          ]
        ])
