-- ===== src/Text/Trim.antt =====
-- Trimming white space.
use reticulum_router.Prelude.{all-reverse, all, ◌≡◌, refl, Bool, true, not, [], ◌∷◌, reverse, arith}
use reticulum_router.Text.{Text, is_whitespace, trim_start, trim_end, trim}
use mathlib.Core.List.{reverse-reverse}

-- No code point is white space.
abbrev pub no_space : Text → Bool
no_space = all (λ c. not (is_whitespace c))

pub trim_start_of_no_space : (s : Text) → no_space s ≡ true → trim_start s ≡ s
unfolding trim_start all
trim_start_of_no_space [] h = refl
trim_start_of_no_space (c ∷ s) h = ground arith

pub trim_of_no_space : (s : Text) → no_space s ≡ true → trim s ≡ s
unfolding trim trim_end
trim_of_no_space s h =
    rw
      (
        trim_start_of_no_space s h,
        trim_start_of_no_space (reverse s) (all-reverse (λ c. not (is_whitespace c)) s h),
      )
      (reverse-reverse s)
