-- ===== src/Rngit/Gitutil.antt =====
-- src/bin/rngit/gitutil.rs: the checks of names that come from clients, and the paths built from
-- them.
pub mod RepoDir
pub mod Refs
pub mod Parse
use reticulum_router.Prelude.{
  length, take, drop, is_empty, All, length-append, take-append_self, drop-append_self, length-drop,
  length-take, any-append, all-append, all-reverse, length-map, any, all, ℕ, zero, suc, ◌+◌, ◌-◌,
  ◌*◌, ◌/◌, ◌%◌, ◌^◌, ◌≤◌, ◌<◌, String, ◌≡◌, refl, sym, ap, ◌∙◌, subst, ◌≢◌, ◌↔◌, ◌⊎◌, inl, inr,
  Bool, true, false, not, ◌&&◌, ◌||◌, Option, none, some, List, [], ◌∷◌, ◌++◌, map, reverse, filter,
  arith, ltb, leb, ◌==◌, if◌then◌else◌, ==_iff, ==_refl, Bool-cases, Option-cases, and_true_left,
  and_true_right,
}
use reticulum_router.Text.{
  Text, Bytes, codes, text_eq, is_whitespace, trim_start, trim_end, trim, lower, to_lowercase,
  starts_with, ends_with, contains, contains_char, len_utf8, len, is_ascii_hexdigit, split_once,
  push_head, split, splitn, starts_newline, lines, lookup,
}
use reticulum_router.Path.{
  FilePath, Component, root_dir, cur_dir, parent_dir, normal, dot, dot_dot, parts, relative,
  is_absolute, components, last_is, join, component_eq, is_prefix, path_starts_with, path_eq,
}

-- The loop over the components of a ref.
unfoldable pub any_locked : List Text → Bool
any_locked [] = false
any_locked (comp ∷ comps) = ends_with (codes ".lock") comp || any_locked comps

-- The loop over the characters of a ref.
unfoldable pub any_control : Text → Bool
any_control [] = false
any_control (c ∷ s) = (ltb c 40 || c == 0x7f) || any_control s

-- The loop over the forbidden characters.
unfoldable pub any_bad : Text → Text → Bool
any_bad [] ref_name = false
any_bad (bad ∷ rest) ref_name = contains_char bad ref_name || any_bad rest ref_name

unfoldable pub san_ref : Text → Option Text
san_ref ref_name =
    if starts_with (codes "-") ref_name
    then none
    else if starts_with (codes "/") ref_name
    then none
    else if last_is b'/' ref_name
    then none
    else if last_is b'.' ref_name
    then none
    else if contains_char b' ' ref_name
    then none
    else if not (contains_char b'/' ref_name)
    then none
    else if contains (codes "..") ref_name
        || contains (codes "/.") ref_name
        || contains (codes "//") ref_name
    then none
    else if contains_char 92 ref_name
    then none
    else if any_locked (split b'/' ref_name)
    then none
    else if any_control ref_name
    then none
    else if any_bad (codes "~^:?*[@") ref_name
    then none
    else if contains (codes "@{") ref_name || text_eq ref_name (codes "@")
    then none
    else some ref_name

unfoldable pub san_sha : Text → Option Text
san_sha sha =
    if ltb (len sha) 40 then none else if not (all is_ascii_hexdigit sha) then none else some sha

unfoldable pub is_single_normal : List Component → Bool
is_single_normal (normal name ∷ []) = true
is_single_normal _ = false

unfoldable pub is_plain_component : Text → Bool
is_plain_component name = is_single_normal (components name)

unfoldable pub repo_dir : FilePath → Text → Option FilePath
repo_dir group_path repo =
    if not (is_plain_component repo)
    then none
    else let joined = join group_path repo in
      if path_eq joined group_path || not (path_starts_with joined group_path)
      then none
      else some joined

unfoldable pub check_names : Text → Text → Option (Text × Text)
check_names group repo =
    if not (is_plain_component group) || not (is_plain_component repo)
    then none
    else if ltb 256 (len group) || ltb 256 (len repo)
    then none
    else some (group, repo)

unfoldable pub two_parts : List Text → Option (Text × Text)
two_parts (group ∷ repo ∷ []) = check_names group repo
two_parts _ = none

unfoldable pub parse_request_repository_path : Text → Option (Text × Text)
parse_request_repository_path path = two_parts (splitn 3 b'/' path)

-- The path of the `.allowed` file of a directory: the suffix is appended.
unfoldable pub acl_path : FilePath → FilePath
acl_path dir = dir ++ codes ".allowed"
