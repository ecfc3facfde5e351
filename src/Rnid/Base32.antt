-- ===== src/Rnid/Base32.antt =====
-- src/bin/rnid.rs: `base32_encode` and `base32_decode`. The buffers are words of 16 and 32 bits.
pub mod Steps
pub mod RoundTrip
use reticulum_router.Prelude.{
  ℕ, zero, suc, ◌+◌, ◌-◌, ◌*◌, ◌/◌, ◌%◌, ◌^◌, Bool, true, false, ◌&&◌, Option, none, some, List, [],
  ◌∷◌, ◌++◌, length, is_empty, ltb, leb, ◌==◌, if◌then◌else◌,
}
use reticulum_router.Text.{Text, Bytes}

-- `ALPHABET[v]`
unfoldable pub letter : ℕ → ℕ
letter v = if ltb v 26 then b'A' + v else b'2' + (v - 26)

-- The loop that takes five bits at a time: the letters, and how many bits are left. There are fewer
-- rounds than bits.
unfoldable pub drain : ℕ → ℕ → ℕ → Text × ℕ
drain zero buffer bits = ([], bits)
drain (suc rounds) buffer bits =
    let (rest, left) = drain rounds buffer (bits - 5) in
    if leb 5 bits then (letter (buffer / 2 ^ (bits - 5) % 32) ∷ rest, left) else ([], bits)

-- The loop over the bytes, and the last letter.
unfoldable pub encode_from : Bytes → ℕ → ℕ → Text
encode_from [] buffer bits =
    if ltb 0 bits then letter (buffer * 2 ^ (5 - bits) % 2 ^ 16 % 32) ∷ [] else []
encode_from (byte ∷ bytes) buffer bits =
    let buffer' = buffer * 256 % 2 ^ 16 + byte in
    let (out, left) = drain (bits + 8) buffer' (bits + 8) in out ++ encode_from bytes buffer' left

-- The padding behind so many letters.
unfoldable pub padding : ℕ → ℕ → Text
padding zero len = []
padding (suc rounds) len =
    let rest = padding rounds (len + 1) in if len % 8 == 0 then [] else b'=' ∷ rest

unfoldable pub base32_encode : Bytes → Text
base32_encode bytes = let out = encode_from bytes 0 0 in out ++ padding 8 (length out)

-- `str::trim_end_matches` at a character.
unfoldable pub trim_end_matches : ℕ → Text → Text
trim_end_matches d [] = []
trim_end_matches d (c ∷ s) =
    let rest = trim_end_matches d s in if is_empty rest && c == d then [] else c ∷ rest

unfoldable pub letter_value : ℕ → Option ℕ
letter_value c =
    if leb b'A' c && leb c b'Z'
    then some (c - b'A')
    else if leb b'a' c && leb c b'z'
    then some (c - b'a')
    else if leb b'2' c && leb c b'7'
    then some (c - b'2' + 26)
    else none

abbrev pub push_byte : ℕ → Option Bytes → Option Bytes
push_byte b none = none
push_byte b (some out) = some (b ∷ out)

-- The loop over the text; a character outside ASCII is refused at its first byte.
unfoldable pub decode_from : Text → ℕ → ℕ → Option Bytes
decode_from [] buffer bits = some []
decode_from (c ∷ input) buffer bits = elim (letter_value c) [
  | none ↦ none
  | some val ↦
      let buffer' = buffer * 32 % 2 ^ 32 + val in
      elim (leb 8 (bits + 5)) [
        | true ↦
            push_byte (buffer' / 2 ^ (bits + 5 - 8) % 256)
              (decode_from input buffer' (bits + 5 - 8))
        | false ↦ decode_from input buffer' (bits + 5)
      ]
]

unfoldable pub base32_decode : Text → Option Bytes
base32_decode input = decode_from (trim_end_matches b'=' input) 0 0
