-- ===== src/Hex.antt =====
-- The interface of the `hex` crate, which rngit uses for identity hashes (`hex::encode`,
-- `hex::decode`), with the behaviour that its documentation states.
use reticulum_router.Prelude.{
  ℕ, ◌+◌, ◌<◌, ◌≡◌, Bool, true, Option, some, All, length, all, leb, ◌&&◌, ◌||◌,
}
use reticulum_router.Text.{Text, Bytes}

-- A lowercase hexadecimal digit.
abbrev pub is_lower_hexdigit : ℕ → Bool
is_lower_hexdigit c = leb b'0' c && leb c b'9' || leb b'a' c && leb c b'f'

abbrev pub IsBytes : Bytes → Type 0
IsBytes = All (λ b. b < 256)

pub record HexCodec : Type 0 where
  pub encode : Bytes → Text
  pub decode : Text → Option Bytes
  pub decode-encode : (b : Bytes) → IsBytes b → decode (encode b) ≡ some b
  pub length-encode : (b : Bytes) → length (encode b) ≡ length b + length b
  pub encode_digits : (b : Bytes) → all is_lower_hexdigit (encode b) ≡ true
