-- ===== src/Path.antt =====
-- `std::path` on Unix, as the git server uses it: the components of a path, `Path::join`,
-- `Path::starts_with` and the equality of paths, which compares components.
pub mod Join
use reticulum_router.Prelude.{
  length, take, drop, is_empty, All, length-append, take-append_self, drop-append_self, length-drop,
  length-take, any-append, all-append, all-reverse, length-map, any, all, ℕ, zero, suc, ◌+◌, ◌-◌,
  ◌*◌, ◌/◌, ◌%◌, ◌^◌, ◌≤◌, ◌<◌, String, ◌≡◌, refl, sym, ap, ◌∙◌, subst, ◌≢◌, ◌↔◌, ◌⊎◌, inl, inr,
  Bool, true, false, not, ◌&&◌, ◌||◌, Option, none, some, List, [], ◌∷◌, ◌++◌, map, reverse, filter,
  arith, ltb, leb, ◌==◌, if◌then◌else◌, ==_iff, ==_refl, Bool-cases, Option-cases, and_true_left,
  and_true_right,
}
use reticulum_router.Text.{
  Text, Bytes, codes, text_eq, is_whitespace, trim_start, trim_end, trim, lower, to_lowercase,
  starts_with, ends_with, contains, contains_char, len_utf8, len, is_ascii_hexdigit, split_once,
  push_head, split, splitn, starts_newline, lines, lookup,
}

abbrev pub FilePath : Type 0
FilePath = Text

pub data Component : Type 0 where
  root_dir cur_dir parent_dir : Component
  normal : Text → Component

abbrev pub dot : Text
dot = codes "."

abbrev pub dot_dot : Text
dot_dot = codes ".."

-- The components of the pieces between separators: empty pieces and `.` are passed over.
unfoldable pub parts : List Text → List Component
parts [] = []
parts (x ∷ xs) =
    let rest = parts xs in
    if is_empty x || text_eq x dot
    then rest
    else if text_eq x dot_dot
    then parent_dir ∷ rest
    else normal x ∷ rest

-- A `.` at the start of a relative path is a component.
unfoldable pub relative : List Text → List Component
relative [] = []
relative (x ∷ xs) = if text_eq x dot then cur_dir ∷ parts xs else parts (x ∷ xs)

unfoldable pub is_absolute : FilePath → Bool
is_absolute [] = false
is_absolute (c ∷ p) = c == b'/'

-- `Path::components`
unfoldable pub components : FilePath → List Component
components p = if is_absolute p then root_dir ∷ parts (split b'/' p) else relative (split b'/' p)

unfoldable pub last_is : ℕ → Text → Bool
last_is d [] = false
last_is d (c ∷ []) = c == d
last_is d (c ∷ e ∷ s) = last_is d (e ∷ s)

-- `Path::join`
unfoldable pub join : FilePath → FilePath → FilePath
join base p =
    if is_absolute p
    then p
    else if is_empty base || last_is b'/' base
    then base ++ p
    else base ++ b'/' ∷ p

unfoldable pub component_eq : Component → Component → Bool
component_eq root_dir root_dir = true
component_eq cur_dir cur_dir = true
component_eq parent_dir parent_dir = true
component_eq (normal a) (normal b) = text_eq a b
component_eq _ _ = false

unfoldable pub is_prefix : List Component → List Component → Bool
is_prefix [] l = true
is_prefix (c ∷ k) [] = false
is_prefix (c ∷ k) (d ∷ l) = component_eq c d && is_prefix k l

-- `joined.starts_with(base)`
unfoldable pub path_starts_with : FilePath → FilePath → Bool
path_starts_with joined base = is_prefix (components base) (components joined)

-- `==` on paths
unfoldable pub path_eq : FilePath → FilePath → Bool
path_eq p q = is_prefix (components p) (components q) && is_prefix (components q) (components p)
