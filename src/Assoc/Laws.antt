-- ===== src/Assoc/Laws.antt =====
-- Lookup in maps that have been changed.
use reticulum_router.Prelude.{
  false, ◌≡◌, refl, Option, none, some, List, [], ◌∷◌, All, Bool-cases, inl, inr,
}
use reticulum_router.Text.{Text, text_eq, lookup}
use reticulum_router.Text.Laws.{text_eq_refl, eq_of_text_eq}
use reticulum_router.Assoc.{insert, remove, modify}

module _ {ℓ} {V : Type ℓ} where
  pub lookup-insert_self :
      (k : Text) (v : V) (m : List (Text × V)) → lookup k (insert k v m) ≡ some v
  unfolding lookup insert
  lookup-insert_self k v [] = rw (text_eq_refl k, lookup) refl
  lookup-insert_self k v ((j, u) ∷ m) = elim (Bool-cases (text_eq j k)) [
    | inl e ↦ rw (e, insert, text_eq_refl k, lookup) refl
    | inr e ↦ rw (e, insert, e, lookup) (lookup-insert_self k v m)
  ]

  pub lookup-insert_other :
      (k j : Text) (v : V) (m : List (Text × V))
      → text_eq j k ≡ false
      → lookup k (insert j v m) ≡ lookup k m
  unfolding lookup insert
  lookup-insert_other k j v [] h = rw (h, lookup) refl
  lookup-insert_other k j v ((i, u) ∷ m) h = elim (Bool-cases (text_eq i j)) [
    | inl e ↦
        let same : i ≡ j = eq_of_text_eq i j e in
        let other : text_eq i k ≡ false = rw same h in rw (e, insert, h, other, lookup) refl
    | inr e ↦ elim (Bool-cases (text_eq i k)) [
      | inl d ↦ rw (e, insert, d, lookup) refl
      | inr d ↦ rw (e, insert, d, lookup) (lookup-insert_other k j v m h)
    ]
  ]

  pub lookup-remove_self : (k : Text) (m : List (Text × V)) → lookup k (remove k m) ≡ none
  unfolding lookup remove
  lookup-remove_self k [] = refl
  lookup-remove_self k ((j, u) ∷ m) = elim (Bool-cases (text_eq j k)) [
    | inl e ↦ rw (e, remove) (lookup-remove_self k m)
    | inr e ↦ rw (e, remove, e, lookup) (lookup-remove_self k m)
  ]

  pub lookup-remove_other :
      (k j : Text) (m : List (Text × V)) → text_eq j k ≡ false → lookup k (remove j m) ≡ lookup k m
  unfolding lookup remove
  lookup-remove_other k j [] h = refl
  lookup-remove_other k j ((i, u) ∷ m) h = elim (Bool-cases (text_eq i j)) [
    | inl e ↦
        let same : i ≡ j = eq_of_text_eq i j e in
        let other : text_eq i k ≡ false = rw same h in
        rw (e, remove, other, lookup) (lookup-remove_other k j m h)
    | inr e ↦ elim (Bool-cases (text_eq i k)) [
      | inl d ↦ rw (e, remove, d, lookup) refl
      | inr d ↦ rw (e, remove, d, lookup) (lookup-remove_other k j m h)
    ]
  ]

  pub lookup-modify_other :
      (k j : Text) (f : V → V) (m : List (Text × V))
      → text_eq j k ≡ false
      → lookup k (modify j f m) ≡ lookup k m
  unfolding lookup modify
  lookup-modify_other k j f [] h = refl
  lookup-modify_other k j f ((i, u) ∷ m) h = elim (Bool-cases (text_eq i j)) [
    | inl e ↦
        let same : i ≡ j = eq_of_text_eq i j e in
        let other : text_eq i k ≡ false = rw same h in rw (e, modify, other, lookup) refl
    | inr e ↦ elim (Bool-cases (text_eq i k)) [
      | inl d ↦ rw (e, modify, d, lookup) refl
      | inr d ↦ rw (e, modify, d, lookup) (lookup-modify_other k j f m h)
    ]
  ]

  -- What a change does not touch is found unchanged.
  pub seen-modify :
      {A : Type 0} (g : Option V → A) (k j : Text) (f : V → V) (m : List (Text × V))
      → ((v : V) → g (some (f v)) ≡ g (some v))
      → g (lookup k (modify j f m)) ≡ g (lookup k m)
  unfolding lookup modify
  seen-modify g k j f [] h = refl
  seen-modify g k j f ((i, u) ∷ m) h = elim (Bool-cases (text_eq i j)) [
    | inl e ↦ elim (Bool-cases (text_eq i k)) [
      | inl d ↦ rw (e, modify, d, lookup) (h u)
      | inr d ↦ rw (e, modify, d, lookup) refl
    ]
    | inr e ↦ elim (Bool-cases (text_eq i k)) [
      | inl d ↦ rw (e, modify, d, lookup) refl
      | inr d ↦ rw (e, modify, d, lookup) (seen-modify g k j f m h)
    ]
  ]

  pub remove-All :
      (P : Text × V → Type 0) (k : Text) (m : List (Text × V))
      → All P m
      → All (λ e. P e × (text_eq e.0 k ≡ false)) (remove k m)
  unfolding remove
  remove-All P k [] h = tt
  remove-All P k ((j, u) ∷ m) (p, h) = elim (Bool-cases (text_eq j k)) [
    | inl e ↦ rw (e, remove) (remove-All P k m h)
    | inr e ↦ rw (e, remove) ((p, e), remove-All P k m h)
  ]
