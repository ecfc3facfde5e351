-- ===== src/Text/Laws.antt =====
-- Equality of texts and lookup in association lists.
use reticulum_router.Prelude.{
  length, length-map, all, ◌≡◌, refl, ap, ◌≢◌, ◌↔◌, inl, inr, true, false, [], ◌∷◌, arith, ltb,
  Bool-cases,
}
use reticulum_router.Text.{Text, text_eq, lower, to_lowercase, len_utf8, len}

pub text_eq_refl : (s : Text) → text_eq s s ≡ true
unfolding text_eq
text_eq_refl [] = refl
text_eq_refl (c ∷ s) = ground (arith, text_eq_refl s)

pub eq_of_text_eq : (s t : Text) → text_eq s t ≡ true → s ≡ t
unfolding text_eq
eq_of_text_eq [] [] h = refl
eq_of_text_eq [] (d ∷ t) h = cc
eq_of_text_eq (c ∷ s) [] h = cc
eq_of_text_eq (c ∷ s) (d ∷ t) h = ground (arith, eq_of_text_eq s t)

pub text_eq_iff : (s t : Text) → (text_eq s t ≡ true) ↔ (s ≡ t)
text_eq_iff s t = (eq_of_text_eq s t, λ e. rw e (text_eq_refl t))

pub text_eq-ne_length : (s t : Text) → length s ≢ length t → text_eq s t ≡ false
text_eq-ne_length s t h = elim (Bool-cases (text_eq s t)) [
  | inl e ↦ absurd (h (ap length (eq_of_text_eq s t e)))
  | inr n ↦ n
]

pub length-to_lowercase : (s : Text) → length (to_lowercase s) ≡ length s
unfolding to_lowercase
length-to_lowercase s = length-map lower s

-- The bytes of a text of one-byte code points are its characters.
pub len_of_ascii : (s : Text) → all (λ c. ltb c 128) s ≡ true → len s ≡ length s
unfolding all len len_utf8
len_of_ascii [] h = refl
len_of_ascii (c ∷ s) h = ground (arith, len_of_ascii s)

pub text_eq_comm : (s t : Text) → text_eq s t ≡ text_eq t s
unfolding text_eq
text_eq_comm [] [] = refl
text_eq_comm [] (d ∷ t) = refl
text_eq_comm (c ∷ s) [] = refl
text_eq_comm (c ∷ s) (d ∷ t) = ground (arith, text_eq_comm s t)
