-- ===== src/Rnid/Base32/Steps.antt =====
-- The decoder follows the encoder, byte by byte.
use reticulum_router.Prelude.{
  ℕ, zero, suc, ◌+◌, ◌-◌, ◌*◌, ◌/◌, ◌%◌, ◌^◌, ◌<◌, ◌≡◌, refl, ap, ◌∙◌, true, false, Option, some,
  [], ◌∷◌, All, ltb, leb, arith, Bool-cases, inl, inr,
}
use reticulum_router.Text.{Text, Bytes}
use reticulum_router.Rnid.Base32.{letter, drain, encode_from, letter_value, push_byte, decode_from}

letter_value-letter : (v : ℕ) → v < 32 → letter_value (letter v) ≡ some v
unfolding letter_value letter
letter_value-letter v h = elim (Bool-cases (ltb v 26)) [
  | inl e ↦ ground (arith, e)
  | inr e ↦ ground (arith, e)
]

-- The decoder's step at a letter, with a byte and without one.
decode_from-full :
    (v buffer bits : ℕ) (t : Text)
    → v < 32
    → leb 8 (bits + 5) ≡ true
    → decode_from (letter v ∷ t) buffer bits
      ≡ push_byte
          ((buffer * 32 % 4294967296 + v) / 2 ^ (bits + 5 - 8) % 256)
          (decode_from t (buffer * 32 % 4294967296 + v) (bits + 5 - 8))
unfolding decode_from
decode_from-full v buffer bits t h e = rw (letter_value-letter v h, e, decode_from) refl

decode_from-part :
    (v buffer bits : ℕ) (t : Text)
    → v < 32
    → leb 8 (bits + 5) ≡ false
    → decode_from (letter v ∷ t) buffer bits
      ≡ decode_from t (buffer * 32 % 4294967296 + v) (bits + 5)
unfolding decode_from
decode_from-part v buffer bits t h e = rw (letter_value-letter v h, e, decode_from) refl

-- What the decoder has ahead when the encoder holds back some bits of the last byte.
abbrev pub ahead : ℕ → ℕ → ℕ → Bytes → Option Bytes
ahead zero e d bytes = some bytes
ahead (suc r) e d bytes = some ((d % 2 ^ (7 - r) * 2 ^ suc r + e % 2 ^ suc r) ∷ bytes)

abbrev pub bits_of : ℕ → ℕ
bits_of zero = 0
bits_of (suc r) = 7 - r

abbrev pub Decodes : ℕ → Bytes → Type 0
Decodes r bytes = (e d : ℕ) → decode_from (encode_from bytes e r) d (bits_of r) ≡ ahead r e d bytes

pair_eq :
    {x x' y y' : ℕ} {bytes : Bytes}
    → x ≡ x'
    → y ≡ y'
    → some (x ∷ y ∷ bytes) ≡ some (x' ∷ y' ∷ bytes)
pair_eq p q = rw (p, q) refl

pub small : (n : ℕ) → n % 32 < 32
small n = omega arith

Decodes-end : (r : ℕ) → r < 5 → Decodes r []
unfolding decode_from encode_from
Decodes-end zero h e d = refl
Decodes-end (suc zero) h e d =
    decode_from-full (e * 2 ^ 4 % 65536 % 32) d 7 [] (small (e * 2 ^ 4 % 65536)) refl
    ∙ ap (λ b. some (b ∷ [])) (omega arith)
Decodes-end (suc (suc zero)) h e d =
    decode_from-full (e * 2 ^ 3 % 65536 % 32) d 6 [] (small (e * 2 ^ 3 % 65536)) refl
    ∙ ap (λ b. some (b ∷ [])) (omega arith)
Decodes-end (suc (suc (suc zero))) h e d =
    decode_from-full (e * 2 ^ 2 % 65536 % 32) d 5 [] (small (e * 2 ^ 2 % 65536)) refl
    ∙ ap (λ b. some (b ∷ [])) (omega arith)
Decodes-end (suc (suc (suc (suc zero)))) h e d =
    decode_from-full (e * 2 ^ 1 % 65536 % 32) d 4 [] (small (e * 2 ^ 1 % 65536)) refl
    ∙ ap (λ b. some (b ∷ [])) (omega arith)
Decodes-end (suc (suc (suc (suc (suc r))))) h e d = absurd (omega arith)

Decodes-0 : (c : ℕ) (bytes : Bytes) → c < 256 → Decodes 3 bytes → Decodes 0 (c ∷ bytes)
unfolding encode_from drain
Decodes-0 c bytes h ih e d =
    let b = e * 256 % 65536 + c in
    let v1 = b / 2 ^ 3 % 32 in
    let d1 = d * 32 % 4294967296 + v1 in
    decode_from-part v1 d 0 (encode_from bytes b 3) (small (b / 2 ^ 3)) refl
    ∙ ih b d1
    ∙ ap (λ x. some (x ∷ bytes)) (omega arith)

Decodes-1 : (c : ℕ) (bytes : Bytes) → c < 256 → Decodes 4 bytes → Decodes 1 (c ∷ bytes)
unfolding encode_from drain
Decodes-1 c bytes h ih e d =
    let b = e * 256 % 65536 + c in
    let v1 = b / 2 ^ 4 % 32 in
    let d1 = d * 32 % 4294967296 + v1 in
    decode_from-full v1 d 7 (encode_from bytes b 4) (small (b / 2 ^ 4)) refl
    ∙ ap (push_byte (d1 / 2 ^ 4 % 256)) (ih b d1)
    ∙ pair_eq (omega arith) (omega arith)

Decodes-2 : (c : ℕ) (bytes : Bytes) → c < 256 → Decodes 0 bytes → Decodes 2 (c ∷ bytes)
unfolding encode_from drain
Decodes-2 c bytes h ih e d =
    let b = e * 256 % 65536 + c in
    let v1 = b / 2 ^ 5 % 32 in
    let d1 = d * 32 % 4294967296 + v1 in
    let v2 = b / 2 ^ 0 % 32 in
    let d2 = d1 * 32 % 4294967296 + v2 in
    decode_from-full v1 d 6 (letter v2 ∷ encode_from bytes b 0) (small (b / 2 ^ 5)) refl
    ∙ ap (push_byte (d1 / 2 ^ 3 % 256))
        (decode_from-full v2 d1 3 (encode_from bytes b 0) (small (b / 2 ^ 0)) refl)
    ∙ ap (push_byte (d1 / 2 ^ 3 % 256)) (ap (push_byte (d2 / 2 ^ 0 % 256)) (ih b d2))
    ∙ pair_eq (omega arith) (omega arith)

Decodes-3 : (c : ℕ) (bytes : Bytes) → c < 256 → Decodes 1 bytes → Decodes 3 (c ∷ bytes)
unfolding encode_from drain
Decodes-3 c bytes h ih e d =
    let b = e * 256 % 65536 + c in
    let v1 = b / 2 ^ 6 % 32 in
    let d1 = d * 32 % 4294967296 + v1 in
    let v2 = b / 2 ^ 1 % 32 in
    let d2 = d1 * 32 % 4294967296 + v2 in
    decode_from-full v1 d 5 (letter v2 ∷ encode_from bytes b 1) (small (b / 2 ^ 6)) refl
    ∙ ap (push_byte (d1 / 2 ^ 2 % 256))
        (decode_from-part v2 d1 2 (encode_from bytes b 1) (small (b / 2 ^ 1)) refl)
    ∙ ap (push_byte (d1 / 2 ^ 2 % 256)) (ih b d2)
    ∙ pair_eq (omega arith) (omega arith)

Decodes-4 : (c : ℕ) (bytes : Bytes) → c < 256 → Decodes 2 bytes → Decodes 4 (c ∷ bytes)
unfolding encode_from drain
Decodes-4 c bytes h ih e d =
    let b = e * 256 % 65536 + c in
    let v1 = b / 2 ^ 7 % 32 in
    let d1 = d * 32 % 4294967296 + v1 in
    let v2 = b / 2 ^ 2 % 32 in
    let d2 = d1 * 32 % 4294967296 + v2 in
    decode_from-full v1 d 4 (letter v2 ∷ encode_from bytes b 2) (small (b / 2 ^ 7)) refl
    ∙ ap (push_byte (d1 / 2 ^ 1 % 256))
        (decode_from-part v2 d1 1 (encode_from bytes b 2) (small (b / 2 ^ 2)) refl)
    ∙ ap (push_byte (d1 / 2 ^ 1 % 256)) (ih b d2)
    ∙ pair_eq (omega arith) (omega arith)

abbrev pub AreBytes : Bytes → Type 0
AreBytes = All (λ b. b < 256)

pub Decodes-always : (r : ℕ) (bytes : Bytes) → r < 5 → AreBytes bytes → Decodes r bytes
Decodes-always r [] h a = Decodes-end r h
Decodes-always zero (c ∷ bytes) h (b, a) =
    Decodes-0 c bytes b (Decodes-always 3 bytes (omega arith) a)
Decodes-always (suc zero) (c ∷ bytes) h (b, a) =
    Decodes-1 c bytes b (Decodes-always 4 bytes (omega arith) a)
Decodes-always (suc (suc zero)) (c ∷ bytes) h (b, a) =
    Decodes-2 c bytes b (Decodes-always 0 bytes (omega arith) a)
Decodes-always (suc (suc (suc zero))) (c ∷ bytes) h (b, a) =
    Decodes-3 c bytes b (Decodes-always 1 bytes (omega arith) a)
Decodes-always (suc (suc (suc (suc zero)))) (c ∷ bytes) h (b, a) =
    Decodes-4 c bytes b (Decodes-always 2 bytes (omega arith) a)
Decodes-always (suc (suc (suc (suc (suc r))))) (c ∷ bytes) h a = absurd (omega arith)
