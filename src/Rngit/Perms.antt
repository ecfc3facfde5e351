-- ===== src/Rngit/Perms.antt =====
-- src/bin/rngit/perms.rs: permission entries, access lists and their resolution.
pub mod Resolve
pub mod Build
pub mod Creator
use reticulum_router.Prelude.{
  length, take, drop, is_empty, All, length-append, take-append_self, drop-append_self, length-drop,
  length-take, any-append, all-append, all-reverse, length-map, any, all, ℕ, zero, suc, ◌+◌, ◌-◌,
  ◌*◌, ◌/◌, ◌%◌, ◌^◌, ◌≤◌, ◌<◌, String, ◌≡◌, refl, sym, ap, ◌∙◌, subst, ◌≢◌, ◌↔◌, ◌⊎◌, inl, inr,
  Bool, true, false, not, ◌&&◌, ◌||◌, Option, none, some, List, [], ◌∷◌, ◌++◌, map, reverse, filter,
  arith, ltb, leb, ◌==◌, if◌then◌else◌, ==_iff, ==_refl, Bool-cases, Option-cases, and_true_left,
  and_true_right,
}
use reticulum_router.Text.{
  Text, Bytes, codes, text_eq, is_whitespace, trim_start, trim_end, trim, lower, to_lowercase,
  starts_with, ends_with, contains, contains_char, len_utf8, len, is_ascii_hexdigit, split_once,
  push_head, split, splitn, starts_newline, lines, lookup,
}
use reticulum_router.Hex.{HexCodec}

-- `Target::None` is `nobody` and `Target::All` is `everyone`.
pub data Target : Type 0 where
  nobody everyone : Target
  identity : Bytes → Target

unfoldable pub is_none : Target → Bool
is_none nobody = true
is_none everyone = false
is_none (identity h) = false

unfoldable pub is_all : Target → Bool
is_all nobody = false
is_all everyone = true
is_all (identity h) = false

pub data Perm : Type 0 where
  read write read_write create stats release interact propose admin : Perm

pub record AccessLists : Type 0 where
  pub read : List Target
  pub write : List Target
  pub create : List Target
  pub stats : List Target
  pub release : List Target
  pub interact : List Target
  pub propose : List Target
  pub admin : List Target

abbrev pub default : AccessLists
default = record {
  read = [];
  write = [];
  create = [];
  stats = [];
  release = [];
  interact = [];
  propose = [];
  admin = [];
}

unfoldable pub list_for : AccessLists → Perm → List Target
list_for lists read = lists.read
list_for lists read_write = lists.read
list_for lists write = lists.write
list_for lists create = lists.create
list_for lists stats = lists.stats
list_for lists release = lists.release
list_for lists interact = lists.interact
list_for lists propose = lists.propose
list_for lists admin = lists.admin

-- The derived `PartialEq` of `Target`.
unfoldable pub target_eq : Target → Target → Bool
target_eq nobody nobody = true
target_eq everyone everyone = true
target_eq (identity g) (identity h) = text_eq g h
target_eq _ _ = false

unfoldable pub perm_of : Text → Option Perm
perm_of s =
    if text_eq s (codes "r") || text_eq s (codes "read")
    then some read
    else if text_eq s (codes "w") || text_eq s (codes "write")
    then some write
    else if text_eq s (codes "rw") || text_eq s (codes "readwrite")
    then some read_write
    else if text_eq s (codes "c") || text_eq s (codes "create")
    then some create
    else if text_eq s (codes "s") || text_eq s (codes "stats")
    then some stats
    else if text_eq s (codes "rel") || text_eq s (codes "release")
    then some release
    else if text_eq s (codes "i") || text_eq s (codes "interact")
    then some interact
    else if text_eq s (codes "p") || text_eq s (codes "propose")
    then some propose
    else if text_eq s (codes "adm") || text_eq s (codes "admin")
    then some admin
    else none

infixl 5 ◌>>=◌
abbrev pub ◌>>=◌ {ℓ κ} : {A : Type ℓ} {B : Type κ} → Option A → (A → Option B) → Option B
none >>= k = none
some a >>= k = k a

-- `if !list.contains(&target) { list.push(target) }`
unfoldable pub push : List Target → Target → List Target
push list target = if any (target_eq target) list then list else list ++ target ∷ []

unfoldable pub add_entry : Perm → Target → AccessLists → AccessLists
add_entry read t l = record l { read = push l.read t }
add_entry write t l = record l { write = push l.write t }
add_entry read_write t l = record l { read = push l.read t; write = push l.write t }
add_entry create t l = record l { create = push l.create t }
add_entry stats t l = record l { stats = push l.stats t }
add_entry release t l = record l { release = push l.release t }
add_entry interact t l = record l { interact = push l.interact t }
add_entry propose t l = record l { propose = push l.propose t }
add_entry admin t l = record l { admin = push l.admin t }

module _ (hex : HexCodec) where
  unfoldable pub decode_identity_hash : Text → Option Bytes
  decode_identity_hash h = let t = trim h in if len t == 32 then hex.decode t else none

  unfoldable pub parse_target : Text → List (Text × Text) → Option Target
  parse_target target aliases =
      let t = trim target in
      let l = to_lowercase t in
      if text_eq l (codes "n") || text_eq l (codes "none") || text_eq l (codes "nobody")
      then some nobody
      else if text_eq l (codes "a") || text_eq l (codes "all") || text_eq l (codes "everyone")
      then some everyone
      else elim (lookup t aliases) [
        | some alias_hash ↦ do h ← decode_identity_hash alias_hash; some (identity h)
        | none ↦ do h ← decode_identity_hash t; some (identity h)
      ]

  unfoldable pub parse_permission : Text → List (Text × Text) → Option (Perm × Target)
  parse_permission line aliases = do
    (perm_str, target_str) ← split_once b':' (trim line)
    perm ← perm_of (to_lowercase perm_str)
    target ← parse_target target_str aliases
    some (perm, target)

  -- One round of the loop over the lines.
  unfoldable pub add_line : List (Text × Text) → Text → AccessLists → AccessLists
  add_line aliases line lists =
      let entry = trim line in
      if is_empty entry || starts_with (codes "#") entry
      then lists
      else elim (parse_permission entry aliases) [
        | none ↦ lists
        | some (perm, target) ↦ add_entry perm target lists
      ]

  unfoldable pub add_lines : List (Text × Text) → List Text → AccessLists → AccessLists
  add_lines aliases [] lists = lists
  add_lines aliases (line ∷ rest) lists = add_lines aliases rest (add_line aliases line lists)

  unfoldable pub permissions_from_allowed_input : Text → List (Text × Text) → AccessLists
  permissions_from_allowed_input input aliases = add_lines aliases (lines input) default

abbrev pub is_identity : Bytes → Target → Bool
is_identity hash nobody = false
is_identity hash everyone = false
is_identity hash (identity h) = text_eq h hash

unfoldable pub contains_identity : List Target → Bytes → Bool
contains_identity list hash = any (is_identity hash) list

unfoldable pub resolve_permission : AccessLists → AccessLists → Bytes → Perm → Bool
resolve_permission repo group remote_hash perm =
    let repo_list = list_for repo perm in
    let group_list = list_for group perm in
    if any is_none repo_list
    then false
    else if any is_all repo_list
    then true
    else if contains_identity repo_list remote_hash
    then true
    else if contains_identity repo.admin remote_hash
    then true
    else if not (is_empty repo_list)
    then false
    else if any is_none group_list
    then false
    else if any is_all group_list
    then true
    else if contains_identity group_list remote_hash
    then true
    else if contains_identity group.admin remote_hash
    then true
    else false

unfoldable pub resolve_group_permission : AccessLists → Bytes → Perm → Bool
resolve_group_permission group remote_hash perm =
    let list = list_for group perm in
    if any is_none list
    then false
    else if any is_all list
    then true
    else if contains_identity list remote_hash
    then true
    else if contains_identity group.admin remote_hash
    then true
    else false
