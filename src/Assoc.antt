-- ===== src/Assoc.antt =====
-- Maps of Rust's standard library as association lists: `insert`, `remove` and the write through
-- `get_mut`. `get` is `lookup` of Text. A key is a byte string.
pub mod Laws
use reticulum_router.Prelude.{
  ℕ, Bool, true, false, not, ◌≡◌, refl, ap, Option, none, some, List, [], ◌∷◌, All, arith,
  if◌then◌else◌, Bool-cases, inl, inr,
}
use reticulum_router.Text.{Text, text_eq, lookup}

unfoldable pub insert {ℓ} : {V : Type ℓ} → Text → V → List (Text × V) → List (Text × V)
insert k v [] = (k, v) ∷ []
insert k v ((j, u) ∷ m) =
    let rest = insert k v m in if text_eq j k then (k, v) ∷ m else (j, u) ∷ rest

unfoldable pub remove {ℓ} : {V : Type ℓ} → Text → List (Text × V) → List (Text × V)
remove k [] = []
remove k ((j, u) ∷ m) = let rest = remove k m in if text_eq j k then rest else (j, u) ∷ rest

unfoldable pub modify {ℓ} : {V : Type ℓ} → Text → (V → V) → List (Text × V) → List (Text × V)
modify k f [] = []
modify k f ((j, u) ∷ m) =
    let rest = modify k f m in if text_eq j k then (j, f u) ∷ m else (j, u) ∷ rest
