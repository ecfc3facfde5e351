-- ===== src/Rngit/Gitutil/Refs.antt =====
-- What an accepted ref looks like.
use reticulum_router.Prelude.{
  all, ℕ, ◌≡◌, refl, inl, inr, Bool, true, false, not, ◌&&◌, some, List, [], ◌∷◌, map, arith, leb,
  ◌==◌, Bool-cases,
}
use reticulum_router.Text.{Text, codes, text_eq, starts_with, ends_with, contains, split}
use reticulum_router.Path.{normal, parts, relative, is_absolute, components, last_is}
use reticulum_router.Rngit.Gitutil.{any_locked, any_control, san_ref}
use reticulum_router.Path.Join.{split-cons_eq, split-cons_ne}

-- A piece of a ref that is not empty and does not begin with a dot.
pub is_ordinary : Text → Bool
is_ordinary [] = false
is_ordinary (c ∷ s) = not (c == b'.')

contains-tail : (p : Text) (c : ℕ) (s : Text) → contains p (c ∷ s) ≡ false → contains p s ≡ false
unfolding contains
contains-tail p c s h = ground arith

-- A character behind a slash is not the second of an absent pair.
after_slash :
    (z x y : ℕ) (s : Text)
    → (x == b'/') ≡ true
    → contains (b'/' ∷ z ∷ []) (x ∷ y ∷ s) ≡ false
    → (y == z) ≡ false
unfolding contains starts_with
after_slash z x y s h k = ground arith

ordinary_pieces :
    (y : ℕ) (q : Text) (ps : List Text)
    → (y == b'.') ≡ false
    → all is_ordinary ps ≡ true
    → all is_ordinary ((y ∷ q) ∷ ps) ≡ true
unfolding all is_ordinary
ordinary_pieces y q ps h k = ground arith

-- What the ref is split into: the first piece begins with the first character, and every later piece
-- is ordinary.
abbrev Pieces : ℕ → Text → Type 0
Pieces c s =
    (q : Text) × (ps : List Text) × (split b'/' (c ∷ s) ≡ (c ∷ q) ∷ ps)
    × (all is_ordinary ps ≡ true)

pieces :
    (c : ℕ) (s : Text)
    → (c == b'/') ≡ false
    → last_is b'/' (c ∷ s) ≡ false
    → contains (codes "//") (c ∷ s) ≡ false
    → contains (codes "/.") (c ∷ s) ≡ false
    → Pieces c s
unfolding last_is
pieces c [] n l d e =
    ([], [], rw (split-cons_ne b'/' c [] n) (unfold split in refl), unfold all in refl)
pieces c (x ∷ []) n l d e = (
  x ∷ [],
  [],
  rw (split-cons_ne b'/' c (x ∷ []) n, split-cons_ne b'/' x [] l) (unfold split in refl),
  unfold all in refl,
)
pieces c (x ∷ y ∷ s) n l d e = elim (Bool-cases (x == b'/')) [
  | inl sep ↦
      let d' = contains-tail _ c _ d in
      let e' = contains-tail _ c _ e in
      let (q, ps, i, j) =
        pieces y s (after_slash b'/' x y s sep d') l (contains-tail _ x _ d')
          (contains-tail _ x _ e') in
      (
        [],
        (y ∷ q) ∷ ps,
        rw (split-cons_ne b'/' c (x ∷ y ∷ s) n, split-cons_eq b'/' x (y ∷ s) sep, i) refl,
        ordinary_pieces y q ps (after_slash b'.' x y s sep e') j,
      )
  | inr other ↦
      let (q, ps, i, j) =
        pieces x (y ∷ s) other l (contains-tail _ c _ d) (contains-tail _ c _ e) in
      (x ∷ q, ps, rw (split-cons_ne b'/' c (x ∷ y ∷ s) n, i) refl, j)
]

-- Ordinary pieces are ordinary components of a path.
parts-ordinary : (ps : List Text) → all is_ordinary ps ≡ true → parts ps ≡ map normal ps
unfolding all is_ordinary parts text_eq
parts-ordinary [] h = refl
parts-ordinary ([] ∷ ps) h = cc
parts-ordinary ((c ∷ p) ∷ ps) h = ground (arith, parts-ordinary ps)

san_ref-facts :
    (s : Text) {t : Text}
    → san_ref s ≡ some t
    → (t ≡ s)
      × (last_is b'/' s ≡ false)
      × (contains (codes "//") s ≡ false)
      × (contains (codes "/.") s ≡ false)
      × (any_control s ≡ false)
      × (any_locked (split b'/' s) ≡ false)
unfolding san_ref
san_ref-facts s h = ground arith

components_of_pieces :
    (c : ℕ) (s q : Text) (ps : List Text)
    → (c == b'/') ≡ false
    → (c == b'.') ≡ false
    → split b'/' (c ∷ s) ≡ (c ∷ q) ∷ ps
    → components (c ∷ s) ≡ parts ((c ∷ q) ∷ ps)
unfolding components is_absolute relative text_eq
components_of_pieces c s q ps n o i = rw (n, i, o) refl

none_locked :
    (ps : List Text)
    → any_locked ps ≡ false
    → all (λ piece. not (ends_with (codes ".lock") piece)) ps ≡ true
unfolding any_locked all
none_locked [] h = refl
none_locked (p ∷ ps) h = ground (arith, none_locked ps)

none_control : (s : Text) → any_control s ≡ false → all (λ c. leb 40 c && not (c == 127)) s ≡ true
unfolding any_control all
none_control [] h = refl
none_control (c ∷ s) h = ground (arith, none_control s)

components-refs_prefix :
    (s : Text)
    → starts_with (codes "refs/") s ≡ true
    → last_is b'/' s ≡ false
    → contains (codes "//") s ≡ false
    → contains (codes "/.") s ≡ false
    → components s ≡ map normal (split b'/' s)
unfolding starts_with
components-refs_prefix [] h l d e = cc
components-refs_prefix (c ∷ s) h l d e =
    let is_r : b'r' ≡ c = ground arith in
    let not_slash : (c == b'/') ≡ false = rw (← is_r) refl in
    let not_dot : (c == b'.') ≡ false = rw (← is_r) refl in
    let (q, ps, i, j) = pieces c s not_slash l d e in
    rw (components_of_pieces c s q ps not_slash not_dot i, i)
      (parts-ordinary ((c ∷ q) ∷ ps) (ordinary_pieces c q ps not_dot j))

-- An accepted ref below `refs/`, read as a path, is exactly its pieces between slashes, each of them
-- an ordinary name: no piece is empty, `.` or `..`, so the path stays below `refs`. No piece ends in
-- `.lock`, and no character is a control character, a space or one of the others below 40.
pub san_ref-components :
    (s : Text) {t : Text}
    → san_ref s ≡ some t
    → starts_with (codes "refs/") s ≡ true
    → (t ≡ s)
      × (components s ≡ map normal (split b'/' s))
      × (all (λ piece. not (ends_with (codes ".lock") piece)) (split b'/' s) ≡ true)
      × (all (λ c. leb 40 c && not (c == 127)) s ≡ true)
san_ref-components s h k =
    let (same, l, d, e, controls, locked) = san_ref-facts s h in
    (
      same,
      components-refs_prefix s k l d e,
      none_locked (split b'/' s) locked,
      none_control s controls,
    )
