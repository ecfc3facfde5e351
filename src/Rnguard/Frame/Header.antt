-- ===== src/Rnguard/Frame/Header.antt =====
-- The header of a frame says how long the data is.
use reticulum_router.Prelude.{ℕ, ◌+◌, ◌*◌, ◌/◌, ◌%◌, ◌^◌, ◌<◌, ◌≡◌, refl, ◌∙◌, [], ◌∷◌, ◌++◌, arith}
use reticulum_router.Text.{Bytes}
use reticulum_router.Rnguard.Frame.{from_be, be32, be64}

pub from_be-be32 : (acc n : ℕ) → from_be acc (be32 n) ≡ acc * 4294967296 + n % 4294967296
unfolding from_be
from_be-be32 acc n = omega arith

from_be-append : (acc : ℕ) (xs ys : Bytes) → from_be acc (xs ++ ys) ≡ from_be (from_be acc xs) ys
unfolding from_be
from_be-append acc [] ys = refl
from_be-append acc (x ∷ xs) ys = from_be-append (acc * 256 + x) xs ys

pub from_be-be64 : (n : ℕ) → n < 2 ^ 64 → from_be 0 (be64 n) ≡ n
from_be-be64 n h =
    from_be-append 0 (be32 (n / 4294967296)) (be32 n)
    ∙ rw
        (
          from_be-be32 0 (n / 4294967296),
          from_be-be32 (0 * 4294967296 + n / 4294967296 % 4294967296) n,
        )
        (omega arith)
