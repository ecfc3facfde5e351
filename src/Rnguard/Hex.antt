-- ===== src/Rnguard/Hex.antt =====
-- src/bin/rnguard.rs: the hexadecimal form of bytes (`hex_encode`, `decode_hex`), of which rnid,
-- rnpath and rnmcp have copies.
pub mod RoundTrip
use reticulum_router.Prelude.{
  length, take, drop, is_empty, All, length-append, take-append_self, drop-append_self, length-drop,
  length-take, any-append, all-append, all-reverse, length-map, any, all, ℕ, zero, suc, ◌+◌, ◌-◌,
  ◌*◌, ◌/◌, ◌%◌, ◌^◌, ◌≤◌, ◌<◌, String, ◌≡◌, refl, sym, ap, ◌∙◌, subst, ◌≢◌, ◌↔◌, ◌⊎◌, inl, inr,
  Bool, true, false, not, ◌&&◌, ◌||◌, Option, none, some, List, [], ◌∷◌, ◌++◌, map, reverse, filter,
  arith, ltb, leb, ◌==◌, if◌then◌else◌, ==_iff, ==_refl, Bool-cases, Option-cases, and_true_left,
  and_true_right,
}
use reticulum_router.Text.{Text, Bytes, trim, into_bytes}

-- A digit of `{byte:02x}`.
unfoldable pub hex_digit : ℕ → ℕ
hex_digit n = if ltb n 10 then b'0' + n else b'a' + (n - 10)

unfoldable pub hex_encode : Bytes → Text
hex_encode [] = []
hex_encode (b ∷ bs) = hex_digit (b / 16 % 16) ∷ hex_digit (b % 16) ∷ hex_encode bs

unfoldable pub digit_value : ℕ → Option ℕ
digit_value c =
    if leb b'0' c && leb c b'9'
    then some (c - b'0')
    else if leb b'a' c && leb c b'f'
    then some (c - b'a' + 10)
    else if leb b'A' c && leb c b'F'
    then some (c - b'A' + 10)
    else none

abbrev pub two_digits : Option ℕ → Option ℕ → Option ℕ
two_digits none y = none
two_digits (some x) none = none
two_digits (some x) (some y) = some (16 * x + y)

-- `u8::from_str_radix(_, 16)` on a text of two bytes: an optional plus sign, then digits.
unfoldable pub from_str_radix : ℕ → ℕ → Option ℕ
from_str_radix a b = if a == b'+' then digit_value b else two_digits (digit_value a) (digit_value b)

-- A slice that ends inside a character panics.
pub data Decoded : Type 0 where
  ok : Bytes → Decoded
  invalid panicked : Decoded

-- The position before these bytes is the boundary of a character.
unfoldable pub is_char_boundary : Bytes → Bool
is_char_boundary [] = true
is_char_boundary (b ∷ bs) = ltb b 0x80 || leb 0xC0 b

abbrev pub add_byte : Option ℕ → Decoded → Decoded
add_byte none rest = invalid
add_byte (some b) (ok bs) = ok (b ∷ bs)
add_byte (some b) invalid = invalid
add_byte (some b) panicked = panicked

-- The loop, two bytes at a time.
unfoldable pub decode_pairs : Bytes → Decoded
decode_pairs [] = ok []
decode_pairs (a ∷ []) = invalid
decode_pairs (a ∷ b ∷ rest) =
    let decoded = decode_pairs rest in
    if not (is_char_boundary rest) then panicked else add_byte (from_str_radix a b) decoded

unfoldable pub decode_hex : Text → Decoded
decode_hex input =
    let bytes = into_bytes (trim input) in
    if not (length bytes % 2 == 0) then invalid else decode_pairs bytes
