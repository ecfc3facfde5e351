-- ===== src/Tests/Identity.antt =====
-- The theorems on keys at concrete inputs.
use reticulum_router.Prelude.{
  ℕ, ◌%◌, ◌==◌, if◌then◌else◌, ap, ◌+◌, ◌*◌, ◌/◌, ◌≡◌, refl, all, ltb, true, false, Option, none,
  some, [], ◌∷◌, arith, length,
}
use reticulum_router.Text.{Text, Bytes, codes}
use reticulum_router.Rnid.Base32.{base32_encode, encode_from, drain, letter, padding}
use reticulum_router.Rnid.Base32.Steps.{AreBytes}
use reticulum_router.Rnid.Import.{Args, Files, Base64, imported, decode_identity_input, encode_key}
use reticulum_router.Rnid.Import.RoundTrip.{decode_identity_input-encode_key}

-- The alphabet of base32.
alphabet : letter 0 ∷ letter 1 ∷ letter 25 ∷ letter 26 ∷ letter 31 ∷ [] ≡ codes "ABZ27"
unfolding letter
alphabet = refl

some_letters : base32_encode (codes "hello") ≡ codes "NBSWY3DP"
unfolding base32_encode encode_from drain letter padding
some_letters = refl

padded : base32_encode (codes "hi") ≡ codes "NBUQ===="
unfolding base32_encode encode_from drain letter padding
padded = refl

-- A code of four characters for three bytes; the fourth says how many bytes there are.
unfoldable quads : Bytes → Text
quads [] = []
quads (a ∷ []) = a / 2 ∷ a % 2 ∷ 0 ∷ 9 ∷ []
quads (a ∷ b ∷ []) = a / 2 ∷ (a % 2 * 64 + b / 4) ∷ b % 4 ∷ 8 ∷ []
quads (a ∷ b ∷ c ∷ rest) = a / 2 ∷ (a % 2 * 64 + b / 4) ∷ (b % 4 * 32 + c / 8) ∷ c % 8 ∷ quads rest

abbrev push_three : ℕ → ℕ → ℕ → Option Bytes → Option Bytes
push_three a b c none = none
push_three a b c (some out) = some (a ∷ b ∷ c ∷ out)

unfoldable unquads : Text → Option Bytes
unquads [] = some []
unquads (w ∷ x ∷ y ∷ z ∷ rest) =
    let out = unquads rest in
    if z == 9
    then some ((w * 2 + x) ∷ [])
    else if z == 8
    then some ((w * 2 + x / 64) ∷ (x % 64 * 4 + y) ∷ [])
    else push_three (w * 2 + x / 64) (x % 64 * 4 + y / 32) (y % 32 * 8 + z) out
unquads _ = none

pair_eq : {x x' y y' : ℕ} → x ≡ x' → y ≡ y' → some (x ∷ y ∷ []) ≡ some (x' ∷ y' ∷ [])
pair_eq p q = rw (p, q) refl

triple_eq :
    {a b c a' b' c' : ℕ} {out : Bytes}
    → a ≡ a'
    → b ≡ b'
    → c ≡ c'
    → push_three a b c (some out) ≡ some (a' ∷ b' ∷ c' ∷ out)
triple_eq p q r = rw (p, q, r) refl

unquads-quads : (bytes : Bytes) → AreBytes bytes → unquads (quads bytes) ≡ some bytes
unfolding unquads quads
unquads-quads [] h = refl
unquads-quads (a ∷ []) h = ap (λ x. some (x ∷ [])) (omega arith)
unquads-quads (a ∷ b ∷ []) (h, (k, _)) = pair_eq (omega arith) (omega arith)
unquads-quads (a ∷ b ∷ c ∷ rest) (h, (k, (l, t))) =
    let nine : (c % 8 == 9) ≡ false = ground arith in
    let eight : (c % 8 == 8) ≡ false = ground arith in
    rw (unquads, nine, eight, unquads-quads rest t)
      (triple_eq (omega arith) (omega arith) (omega arith))

length-quads : (bytes : Bytes) → length (quads bytes) ≡ (length bytes + 2) / 3 * 4
unfolding quads
length-quads [] = refl
length-quads (a ∷ []) = refl
length-quads (a ∷ b ∷ []) = refl
length-quads (a ∷ b ∷ c ∷ rest) = omega (arith, length-quads rest)

quads_ascii : (bytes : Bytes) → AreBytes bytes → all (λ c. ltb c 128) (quads bytes) ≡ true
unfolding quads all
quads_ascii [] h = refl
quads_ascii (a ∷ []) (h, _) = ground (arith, h)
quads_ascii (a ∷ b ∷ []) (h, (k, _)) = ground (arith, h, k)
quads_ascii (a ∷ b ∷ c ∷ rest) (h, (k, (l, t))) = ground (arith, h, k, l, quads_ascii rest t)

abbrev own_base64 : Base64
own_base64 = record {
  encode = quads;
  decode = unquads;
  decode-encode = unquads-quads;
  length-encode = length-quads;
  encode_ascii = quads_ascii;
}

abbrev no_files : Files
no_files = record { home_dir = none; is_file = λ p. false; read = λ p. none }

abbrev in_base32 : Args
in_base32 = record { base32 = true; base64 = false; base256 = false; hex = false }

abbrev key : Bytes
key = codes "0123456789abcdef0123456789abcdef0123456789abcdef0123456789abcdef"

decode_identity_input-encode_key_example :
    decode_identity_input own_base64 no_files (encode_key own_base64 in_base32 key) 64
    ≡ imported key
decode_identity_input-encode_key_example =
    decode_identity_input-encode_key own_base64 no_files in_base32 key (omega arith) refl refl refl
