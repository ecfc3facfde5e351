-- ===== src/Rnguard/Hex/RoundTrip.antt =====
-- Decoding what was encoded, and what else is decoded.
use reticulum_router.Prelude.{
  length, all, ℕ, ◌+◌, ◌/◌, ◌%◌, ◌<◌, ◌≡◌, refl, ap, true, false, not, Option, none, some, [], ◌∷◌,
  arith, ltb, ◌==◌,
}
use reticulum_router.Text.{Text, Bytes, into_bytes, utf8, is_whitespace}
use reticulum_router.Text.Trim.{no_space, trim_of_no_space}
use reticulum_router.Hex.{HexCodec, IsBytes, is_lower_hexdigit}
use reticulum_router.Rnguard.Hex.{
  hex_digit, hex_encode, digit_value, from_str_radix, Decoded, ok, invalid, panicked,
  is_char_boundary, decode_pairs, decode_hex,
}

hex_digit_lower : (n : ℕ) → n < 16 → is_lower_hexdigit (hex_digit n) ≡ true
unfolding hex_digit
hex_digit_lower n h = ground arith

digit_value-hex_digit : (n : ℕ) → n < 16 → digit_value (hex_digit n) ≡ some n
unfolding hex_digit digit_value
digit_value-hex_digit n h = ground arith

pub hex_encode_digits : (bs : Bytes) → all is_lower_hexdigit (hex_encode bs) ≡ true
unfolding hex_encode all
hex_encode_digits [] = refl
hex_encode_digits (b ∷ bs) = ground (
  arith,
  hex_digit_lower (b / 16 % 16) (omega arith),
  hex_digit_lower (b % 16) (omega arith),
  hex_encode_digits bs,
)

pub length-hex_encode : (bs : Bytes) → length (hex_encode bs) ≡ length bs + length bs
unfolding hex_encode
length-hex_encode [] = refl
length-hex_encode (b ∷ bs) = omega (arith, length-hex_encode bs)

digit_plain :
    (c : ℕ) → is_lower_hexdigit c ≡ true → (not (is_whitespace c) ≡ true) × (ltb c 128 ≡ true)
unfolding is_whitespace
digit_plain c h = (ground arith, ground arith)

digits_no_space : (s : Text) → all is_lower_hexdigit s ≡ true → no_space s ≡ true
unfolding all
digits_no_space [] h = refl
digits_no_space (c ∷ s) h = ground (arith, digit_plain c, digits_no_space s)

into_bytes_of_digits : (s : Text) → all is_lower_hexdigit s ≡ true → into_bytes s ≡ s
unfolding all into_bytes utf8
into_bytes_of_digits [] h = refl
into_bytes_of_digits (c ∷ s) h =
    let is_digit : is_lower_hexdigit c ≡ true = ground arith in
    rw ((digit_plain c is_digit).1, into_bytes_of_digits s (ground arith)) refl

boundary_of_digits : (s : Text) → all is_lower_hexdigit s ≡ true → is_char_boundary s ≡ true
unfolding all is_char_boundary
boundary_of_digits [] h = refl
boundary_of_digits (c ∷ s) h = ground arith

byte_of_digits :
    (b : ℕ) → b < 256 → from_str_radix (hex_digit (b / 16 % 16)) (hex_digit (b % 16)) ≡ some b
unfolding from_str_radix
byte_of_digits b h =
    let no_plus : (hex_digit (b / 16 % 16) == b'+') ≡ false = unfold hex_digit in ground arith in
    rw
      (
        no_plus,
        digit_value-hex_digit (b / 16 % 16) (omega arith),
        digit_value-hex_digit (b % 16) (omega arith),
      )
      (ap some (omega arith))

decode_pairs-hex_encode : (bs : Bytes) → IsBytes bs → decode_pairs (hex_encode bs) ≡ ok bs
unfolding decode_pairs hex_encode
decode_pairs-hex_encode [] h = refl
decode_pairs-hex_encode (b ∷ bs) (small, h) =
    rw
      (
        boundary_of_digits (hex_encode bs) (hex_encode_digits bs),
        byte_of_digits b small,
        decode_pairs-hex_encode bs h,
      )
      refl

-- Bytes written in hexadecimal are read back unchanged.
pub decode_hex-hex_encode : (bs : Bytes) → IsBytes bs → decode_hex (hex_encode bs) ≡ ok bs
unfolding decode_hex
decode_hex-hex_encode bs h =
    let digits = hex_encode_digits bs in
    let even : (length (hex_encode bs) % 2 == 0) ≡ true = ground (arith, length-hex_encode bs) in
    rw
      (
        trim_of_no_space (hex_encode bs) (digits_no_space (hex_encode bs) digits),
        into_bytes_of_digits (hex_encode bs) digits,
        even,
      )
      (decode_pairs-hex_encode bs h)

valued_plain :
    (c v : ℕ) → digit_value c ≡ some v → (not (is_whitespace c) ≡ true) × (ltb c 128 ≡ true)
unfolding digit_value is_whitespace
valued_plain c v h = (ground arith, ground arith)

-- A plus sign and a hexadecimal digit are taken for a byte, though the plus sign is no digit.
pub decode_hex_plus : (c v : ℕ) → digit_value c ≡ some v → decode_hex (b'+' ∷ c ∷ []) ≡ ok (v ∷ [])
unfolding decode_hex
decode_hex_plus c v h =
    let (visible, ascii) = valued_plain c v h in
    let spaceless : no_space (b'+' ∷ c ∷ []) ≡ true =
      unfold all is_whitespace in unfold is_whitespace in ground arith in
    let same : into_bytes (b'+' ∷ c ∷ []) ≡ b'+' ∷ c ∷ [] =
      unfold into_bytes utf8 in rw ascii refl in
    rw (trim_of_no_space (b'+' ∷ c ∷ []) spaceless, same)
      (unfold decode_pairs is_char_boundary from_str_radix in rw h refl)

abbrev pub to_option : Decoded → Option Bytes
to_option (ok bs) = some bs
to_option invalid = none
to_option panicked = none

-- The functions of this file as an implementation of the interface of hexadecimal codecs.
unfoldable pub own_codec : HexCodec
own_codec = record {
  encode = hex_encode;
  decode = λ s. to_option (decode_hex s);
  decode-encode = λ b h. ap to_option (decode_hex-hex_encode b h);
  length-encode = length-hex_encode;
  encode_digits = hex_encode_digits;
}
