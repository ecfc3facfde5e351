-- ===== src/Text/Sort.antt =====
-- Sorting texts.
use reticulum_router.Prelude.{
  All, any, ◌≡◌, refl, ◌∙◌, ap, inl, inr, Bool, true, false, ◌||◌, List, [], ◌∷◌, arith, Bool-cases,
}
use reticulum_router.Text.{Text, text_le, insert_sorted, sort}

text_le-total : (s t : Text) → text_le s t ≡ false → text_le t s ≡ true
unfolding text_le
text_le-total [] t e = ground (arith, e)
text_le-total (c ∷ s) [] e = refl
text_le-total (c ∷ s) (d ∷ t) e = ground (arith, text_le-total s t)

-- A text is not above the first of a list.
abbrev IsBelow : Text → List Text → Type 0
IsBelow s [] = Unit
IsBelow s (t ∷ ts) = text_le s t ≡ true

abbrev pub IsSorted : List Text → Type 0
IsSorted [] = Unit
IsSorted (s ∷ ts) = IsBelow s ts × IsSorted ts

IsBelow-insert_sorted :
    (r s : Text) (ts : List Text)
    → text_le r s ≡ true
    → IsBelow r ts
    → IsBelow r (insert_sorted s ts)
unfolding insert_sorted
IsBelow-insert_sorted r s [] e h = e
IsBelow-insert_sorted r s (t ∷ ts) e h = elim (Bool-cases (text_le s t)) [
  | inl l ↦ rw (l, insert_sorted) e
  | inr l ↦ rw (l, insert_sorted) h
]

insert_sorted-IsSorted : (s : Text) (ts : List Text) → IsSorted ts → IsSorted (insert_sorted s ts)
unfolding insert_sorted
insert_sorted-IsSorted s [] h = (tt, tt)
insert_sorted-IsSorted s (t ∷ ts) (b, h) = elim (Bool-cases (text_le s t)) [
  | inl l ↦ rw (l, insert_sorted) (l, (b, h))
  | inr l ↦
      rw (l, insert_sorted)
        (IsBelow-insert_sorted t s ts (text_le-total s t l) b, insert_sorted-IsSorted s ts h)
]

pub sort-IsSorted : (ts : List Text) → IsSorted (sort ts)
unfolding sort
sort-IsSorted [] = tt
sort-IsSorted (t ∷ ts) = insert_sorted-IsSorted t (sort ts) (sort-IsSorted ts)

module _ {ℓ} (P : Text → Type ℓ) where
  All-insert_sorted : (s : Text) (ts : List Text) → P s → All P ts → All P (insert_sorted s ts)
  unfolding insert_sorted
  All-insert_sorted s [] p h = (p, tt)
  All-insert_sorted s (t ∷ ts) p (q, h) = elim (Bool-cases (text_le s t)) [
    | inl l ↦ rw (l, insert_sorted) (p, (q, h))
    | inr l ↦ rw (l, insert_sorted) (q, All-insert_sorted s ts p h)
  ]

  pub All-sort : (ts : List Text) → All P ts → All P (sort ts)
  unfolding sort
  All-sort [] h = tt
  All-sort (t ∷ ts) (p, h) = All-insert_sorted t (sort ts) p (All-sort ts h)

module _ (p : Text → Bool) where
  any-insert_sorted : (s : Text) (ts : List Text) → any p (insert_sorted s ts) ≡ (p s || any p ts)
  unfolding insert_sorted any
  any-insert_sorted s [] = refl
  any-insert_sorted s (t ∷ ts) = elim (Bool-cases (text_le s t)) [
    | inl l ↦ rw (l, insert_sorted) refl
    | inr l ↦ rw (l, insert_sorted) (ground (arith, any-insert_sorted s ts))
  ]

  pub any-sort : (ts : List Text) → any p (sort ts) ≡ any p ts
  unfolding sort any
  any-sort [] = refl
  any-sort (t ∷ ts) = any-insert_sorted t (sort ts) ∙ ap (λ b. p t || b) (any-sort ts)
