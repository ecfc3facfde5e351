-- ===== src/Rnid/Import.antt =====
-- src/bin/rnid.rs: the encoding of keys for export, and their import. The hexadecimal functions are
-- copies of those of src/bin/rnguard.rs (Rnguard/Hex).
pub mod RoundTrip
use reticulum_router.Prelude.{
  ℕ, ◌+◌, ◌*◌, ◌/◌, ◌≡◌, ◌≤◌, ◌<◌, Bool, true, false, not, ◌&&◌, Option, none, some, List, [], ◌∷◌,
  ◌++◌, All, all, length, ltb, ◌==◌, if◌then◌else◌,
}
use reticulum_router.Text.{Text, Bytes, codes, len}
use reticulum_router.Path.{FilePath, join}
use reticulum_router.Rngit.Listing.{strip_prefix}
use reticulum_router.Rnguard.Hex
use reticulum_router.Rnguard.Hex.{Decoded, hex_encode, decode_hex}
use reticulum_router.Rnid.Base32.{base32_encode, base32_decode}
use reticulum_router.Rnid.Base256.{base256_encode, base256_decode}

-- The options that choose an encoding.
pub record Args : Type 0 where
  pub base32 : Bool
  pub base64 : Bool
  pub base256 : Bool
  pub hex : Bool

pub data Encoding : Type 0 where
  bin_encoding hex_encoding base32_encoding base64_encoding base256_encoding : Encoding

unfoldable pub output_encoding : Args → Encoding
output_encoding args =
    if args.base32
    then base32_encoding
    else if args.base64
    then base64_encoding
    else if args.base256
    then base256_encoding
    else if args.hex
    then hex_encoding
    else bin_encoding

-- Four ASCII characters stand for three bytes, the last of them padded.
pub record Base64 : Type 0 where
  pub encode : Bytes → Text
  pub decode : Text → Option Bytes
  pub decode-encode : (b : Bytes) → All (λ n. n < 256) b → decode (encode b) ≡ some b
  pub length-encode : (b : Bytes) → length (encode b) ≡ (length b + 2) / 3 * 4
  pub encode_ascii : (b : Bytes) → All (λ n. n < 256) b → all (λ c. ltb c 128) (encode b) ≡ true

-- The home directory of the `dirs` crate, and the file system.
pub record Files : Type 0 where
  pub home_dir : Option FilePath
  pub is_file : FilePath → Bool
  pub read : FilePath → Option Bytes

pub data Import : Type 0 where
  imported : Bytes → Import
  read_error invalid_identity panicked : Import

module _ (b64 : Base64) where
  unfoldable pub encode_key : Args → Bytes → Text
  encode_key args bytes =
      if args.base64
      then b64.encode bytes
      else if args.base32
      then base32_encode bytes
      else if args.base256
      then base256_encode bytes
      else hex_encode bytes

  module _ (files : Files) where
    unfoldable pub expand_home : Text → FilePath
    expand_home input = elim (strip_prefix (codes "~/") input) [
      | none ↦ input
      | some rest ↦ elim files.home_dir [ none ↦ input | some home ↦ join home rest ]
    ]

    -- What an attempt gives, where it has the size; the next attempt otherwise.
    abbrev pub or_next : ℕ → Option Bytes → Import → Import
    or_next size none next = next
    or_next size (some bytes) next = if length bytes == size then imported bytes else next

    abbrev pub or_next_hex : ℕ → Decoded → Import → Import
    or_next_hex size (Hex.ok bytes) next = or_next size (some bytes) next
    or_next_hex size Hex.invalid next = next
    or_next_hex size Hex.panicked next = panicked

    unfoldable pub from_text : Text → ℕ → Import
    from_text input size =
        let alphabets = or_next size (base32_decode input) (
          or_next size (b64.decode input) (or_next size (base256_decode input) invalid_identity)) in
        if len input == size * 2 then or_next_hex size (decode_hex input) alphabets else alphabets

    abbrev pub or_unread : ℕ → Option Bytes → Import → Import
    or_unread size none next = read_error
    or_unread size (some bytes) next = or_next size (some bytes) next

    unfoldable pub decode_identity_input : Text → ℕ → Import
    decode_identity_input input size =
        let path = expand_home input in
        if files.is_file path
        then or_unread size (files.read path) (from_text input size)
        else from_text input size
