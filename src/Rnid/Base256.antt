-- ===== src/Rnid/Base256.antt =====
-- src/bin/rnid.rs: `base256_encode` and `base256_decode`, a character for each byte.
use reticulum_router.Prelude.{
  ℕ, zero, suc, ◌<◌, ◌≡◌, refl, ap, inl, inr, Bool, true, false, ◌&&◌, Option, none, some, [], ◌∷◌,
  ◌++◌, All, ◌==◌, if◌then◌else◌, arith, Bool-cases, and_true_left, and_true_right,
}
use reticulum_router.Text.{Text, Bytes, codes}

-- `B256`
unfoldable pub b256 : Text
b256 =
    codes "abcdefghijklmnopqrstuvxyzæø01234"
    ++ codes "ABCDEFGHIJKLMNOPQRSTUWXYZÆØ56789"
    ++ codes "αβγδεζηθικλμνξπρστφχψωΓΔΘΛΞΠΣΦΨΩ"
    ++ codes "БДЖЗИЛПЦЧШЩЪЫЭЮЯбджзилпцчшщъыэюя"
    ++ codes "ԱԲԳԴԵԶԷԸԹԺԻԽԾԿՀՁՂՃՄՅՆՇՈՉՊՋՎՐՑՒՔՖ"
    ++ codes "ᚠᚢᚦᚱᚹᚺᚾᛈᛇᛉᛊᛏᛒᛖᛗᛟｲｳｵｶｷｹｻｼｽｾﾀﾁﾃﾄﾅﾇ"
    ++ codes "ﾈﾋﾌﾍﾎﾏﾐﾑﾒﾓﾔﾗﾘﾙﾚﾜ𐑐𐑑𐑒𐑔𐑕𐑗𐑙𐑳𐑶𐑸𐑹𐑺𐑻𐑽𐑾𐑿"
    ++ codes "᱑᱕᱘᱙ᱚᱝᱟᱣᱦᱨᱬᱭᱰᱳᱶᱷ𐌳𐌸𐌾𐐀𐐁𐐂𐐆𐐇𐐈𐐉𐐊𐐋𐐌𐐍𐐎𐐏"

-- The character at an index; there are 256.
unfoldable pub symbol : ℕ → Text → ℕ
symbol n [] = 0
symbol zero (c ∷ table) = c
symbol (suc n) (c ∷ table) = symbol n table

unfoldable pub base256_encode : Bytes → Text
base256_encode [] = []
base256_encode (byte ∷ bytes) = symbol byte b256 ∷ base256_encode bytes

abbrev pub next_position : Option ℕ → Option ℕ
next_position none = none
next_position (some n) = some (suc n)

unfoldable pub position : ℕ → Text → Option ℕ
position c [] = none
position c (d ∷ table) =
    let rest = position c table in if d == c then some 0 else next_position rest

abbrev pub push_byte : Option ℕ → Option Bytes → Option Bytes
push_byte none out = none
push_byte (some b) none = none
push_byte (some b) (some out) = some (b ∷ out)

unfoldable pub base256_decode : Text → Option Bytes
base256_decode [] = some []
base256_decode (c ∷ input) = push_byte (position c b256) (base256_decode input)

abbrev is_at : ℕ → Option ℕ → Bool
is_at n none = false
is_at n (some m) = m == n

-- The characters below an index are found where they stand.
unfoldable all_found : ℕ → Bool
all_found zero = true
all_found (suc n) = is_at n (position (symbol n b256) b256) && all_found n

all_256_found : all_found 256 ≡ true
unfolding all_found b256 position symbol
all_256_found = refl

is_at_eq : (n : ℕ) (o : Option ℕ) → is_at n o ≡ true → o ≡ some n
is_at_eq n none h = ground arith
is_at_eq n (some m) h = ap some (ground (arith, h))

found_below : (n b : ℕ) → all_found n ≡ true → b < n → position (symbol b b256) b256 ≡ some b
unfolding all_found
found_below zero b h k = absurd (omega arith)
found_below (suc n) b h k = elim (Bool-cases (b == n)) [
  | inl e ↦
      let same : b ≡ n = ground (arith, e) in
      rw same (
        is_at_eq n (position (symbol n b256) b256)
          (and_true_left (is_at n (position (symbol n b256) b256)) (all_found n) h))
  | inr e ↦
      found_below n b (and_true_right (is_at n (position (symbol n b256) b256)) (all_found n) h)
        (ground (arith, e))
]

-- The bytes that are encoded are decoded from their characters.
pub base256_decode-base256_encode :
    (bytes : Bytes) → All (λ b. b < 256) bytes → base256_decode (base256_encode bytes) ≡ some bytes
unfolding base256_decode base256_encode
base256_decode-base256_encode [] a = refl
base256_decode-base256_encode (b ∷ bytes) (h, a) =
    rw (found_below 256 b all_256_found h, base256_decode-base256_encode bytes a) refl
