-- ===== src/Text/Split.antt =====
-- Splitting a text at a separator.
use reticulum_router.Prelude.{
  any, ℕ, ◌≡◌, refl, ◌≢◌, inl, inr, false, none, some, [], ◌∷◌, ◌++◌, arith, Option-cases,
}
use reticulum_router.Text.{Text, contains_char, split_once, lines}

-- A text with no separator before it is cut at the first one.
pub split_once-append :
    (d : ℕ) (s t : Text) → contains_char d s ≡ false → split_once d (s ++ d ∷ t) ≡ some (s, t)
unfolding split_once contains_char any
split_once-append d [] t h = ground arith
split_once-append d (c ∷ s) t h = ground (arith, split_once-append d s t)

pub split_once_of_absent : (d : ℕ) (s : Text) → contains_char d s ≡ false → split_once d s ≡ none
unfolding split_once contains_char any
split_once_of_absent d [] h = refl
split_once_of_absent d (c ∷ s) h = ground (arith, split_once_of_absent d s)

-- The two parts and the separator are the text, and the first part has no separator.
pub split_once_parts :
    (d : ℕ) (s : Text) {a b : Text}
    → split_once d s ≡ some (a, b)
    → (s ≡ a ++ d ∷ b) × (contains_char d a ≡ false)
unfolding split_once contains_char any
split_once_parts d [] h = cc
split_once_parts d (c ∷ s) {a} {b} h = elim (Option-cases (split_once d s)) [
  | inl e ↦ ground arith
  | inr ((u, v), e) ↦ ground (arith, split_once_parts d s e)
]

pub lines_line :
    (s : Text)
    → contains_char 10 s ≡ false
    → contains_char 13 s ≡ false
    → s ≢ []
    → lines (s ++ 10 ∷ []) ≡ s ∷ []
unfolding lines contains_char any
lines_line [] h k n = absurd (n refl)
lines_line (c ∷ []) h k n = ground arith
lines_line (c ∷ d ∷ s) h k n = ground (arith, lines_line (d ∷ s))

pub split_once_absent : (d : ℕ) (s : Text) → split_once d s ≡ none → contains_char d s ≡ false
unfolding split_once contains_char any
split_once_absent d [] h = refl
split_once_absent d (c ∷ s) h = elim (Option-cases (split_once d s)) [
  | inl e ↦ ground (arith, split_once_absent d s e)
  | inr ((u, v), e) ↦ ground arith
]
