-- ===== src/Path/Join.antt =====
-- The components of a joined path.
use reticulum_router.Prelude.{
  is_empty, ℕ, ◌≡◌, refl, inl, inr, true, false, List, [], ◌∷◌, ◌++◌, arith, ◌==◌, ==_refl,
  Bool-cases,
}
use reticulum_router.Text.{Text, push_head, split}
use reticulum_router.Path.{parts, relative, is_absolute, components, last_is, join}
use mathlib.Core.List.{append-nil}

push_head-append :
    (c : ℕ) (xs ys : List Text)
    → is_empty xs ≡ false
    → push_head c (xs ++ ys) ≡ push_head c xs ++ ys
push_head-append c [] ys h = cc
push_head-append c (x ∷ xs) ys h = refl

push_head-not-empty : (c : ℕ) (xs : List Text) → is_empty (push_head c xs) ≡ false
push_head-not-empty c [] = refl
push_head-not-empty c (x ∷ xs) = refl

pub split-cons_eq : (d c : ℕ) (s : Text) → (c == d) ≡ true → split d (c ∷ s) ≡ [] ∷ split d s
unfolding split
split-cons_eq d c s h = rw h

pub split-cons_ne :
    (d c : ℕ) (s : Text) → (c == d) ≡ false → split d (c ∷ s) ≡ push_head c (split d s)
unfolding split
split-cons_ne d c s h = rw h

pub split-not-empty : (d : ℕ) (s : Text) → is_empty (split d s) ≡ false
unfolding split
split-not-empty d [] = refl
split-not-empty d (c ∷ s) = elim (Bool-cases (c == d)) [
  | inl e ↦ rw e
  | inr e ↦ rw e (push_head-not-empty c (split d s))
]

pub split-append : (d : ℕ) (s t : Text) → split d (s ++ d ∷ t) ≡ split d s ++ split d t
unfolding split
split-append d [] t = rw (==_refl d)
split-append d (c ∷ s) t = elim (Bool-cases (c == d)) [
  | inl e ↦ rw (e, split-append d s t)
  | inr e ↦
      rw (e, split-append d s t) (push_head-append c (split d s) (split d t) (split-not-empty d s))
]

pub parts-append : (xs ys : List Text) → parts (xs ++ ys) ≡ parts xs ++ parts ys
unfolding parts
parts-append [] ys = refl
parts-append (x ∷ xs) ys = ground (arith, parts-append xs ys)

relative-append :
    (xs ys : List Text) → is_empty xs ≡ false → relative (xs ++ ys) ≡ relative xs ++ parts ys
unfolding relative
relative-append [] ys h = cc
relative-append (x ∷ xs) ys h = ground (arith, parts-append xs ys, parts-append (x ∷ xs) ys)

-- A text that ends with the separator: its pieces end with an empty one, which a text behind it
-- continues.
last_pieces :
    (d : ℕ) (s t : Text)
    → last_is d s ≡ true
    → (xs : List Text) × (split d s ≡ xs ++ [] ∷ [])
      × (split d (s ++ t) ≡ xs ++ split d t)
      × (is_empty xs ≡ false)
unfolding last_is
last_pieces d [] t h = cc
last_pieces d (c ∷ []) t h =
    ([] ∷ [], rw (split-cons_eq d c [] h) (unfold split in refl), split-cons_eq d c t h, refl)
last_pieces d (c ∷ e ∷ s) t h =
    let (xs, i, j, k) = last_pieces d (e ∷ s) t h in
    elim (Bool-cases (c == d)) [
      | inl q ↦ (
        [] ∷ xs,
        rw (split-cons_eq d c (e ∷ s) q, i),
        rw (split-cons_eq d c (e ∷ s ++ t) q, j),
        refl,
      )
      | inr q ↦ (
        push_head c xs,
        rw (split-cons_ne d c (e ∷ s) q, i) (push_head-append c xs ([] ∷ []) k),
        rw (split-cons_ne d c (e ∷ s ++ t) q, j) (push_head-append c xs (split d t) k),
        push_head-not-empty c xs,
      )
    ]

is_absolute-append : (s t : Text) → is_empty s ≡ false → is_absolute (s ++ t) ≡ is_absolute s
unfolding is_absolute
is_absolute-append [] t h = cc
is_absolute-append (c ∷ s) t h = refl

-- The pieces of a text are those of a base and, behind them, those of a relative path.
Continues : Text → Text → Text → Type 0
Continues base p joined =
    (xs : List Text) × (parts (split b'/' base) ≡ parts xs)
    × (relative (split b'/' base) ≡ relative xs)
    × (split b'/' joined ≡ xs ++ split b'/' p)
    × (is_empty xs ≡ false)

parts-drop_last : (xs : List Text) → parts (xs ++ [] ∷ []) ≡ parts xs
parts-drop_last xs = rw (parts-append xs ([] ∷ [])) (unfold parts in append-nil (parts xs))

join-Continues :
    (base p : Text) → is_absolute p ≡ false → is_empty base ≡ false → Continues base p (join base p)
unfolding Continues join
join-Continues base p r n = elim (Bool-cases (last_is b'/' base)) [
  | inl l ↦
      let (xs, i, j, k) = last_pieces b'/' base p l in
      (
        xs,
        rw i (parts-drop_last xs),
        rw i (rw (relative-append xs ([] ∷ []) k) (unfold parts in append-nil (relative xs))),
        rw (r, n, l) j,
        k,
      )
  | inr l ↦ (
    split b'/' base,
    refl,
    refl,
    rw (r, n, l) (split-append b'/' base p),
    split-not-empty b'/' base,
  )
]

join-is_absolute :
    (base p : Text)
    → is_absolute p ≡ false
    → is_empty base ≡ false
    → is_absolute (join base p) ≡ is_absolute base
unfolding join
join-is_absolute base p r n = elim (Bool-cases (last_is b'/' base)) [
  | inl l ↦ rw (r, n, l) (is_absolute-append base p n)
  | inr l ↦ rw (r, n, l) (is_absolute-append base (b'/' ∷ p) n)
]

-- The components of a path joined to a base that is not empty are the base's and then the path's.
pub components-join_parts :
    (base p : Text)
    → is_absolute p ≡ false
    → is_empty base ≡ false
    → components (join base p) ≡ components base ++ parts (split b'/' p)
unfolding components Continues
components-join_parts base p r n =
    let (xs, i, j, k, m) = join-Continues base p r n in
    rw (join-is_absolute base p r n, k, i, j)
      (elim (Bool-cases (is_absolute base)) [
        | inl a ↦ rw (a, parts-append xs (split b'/' p))
        | inr a ↦ rw (a, relative-append xs (split b'/' p) m)
      ])
