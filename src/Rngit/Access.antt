-- ===== src/Rngit/Access.antt =====
-- src/bin/rngit/server.rs: which identity may do what, as the server's handlers ask it.
pub mod Creation
use reticulum_router.Prelude.{
  length, take, drop, is_empty, All, length-append, take-append_self, drop-append_self, length-drop,
  length-take, any-append, all-append, all-reverse, length-map, any, all, ℕ, zero, suc, ◌+◌, ◌-◌,
  ◌*◌, ◌/◌, ◌%◌, ◌^◌, ◌≤◌, ◌<◌, String, ◌≡◌, refl, sym, ap, ◌∙◌, subst, ◌≢◌, ◌↔◌, ◌⊎◌, inl, inr,
  Bool, true, false, not, ◌&&◌, ◌||◌, Option, none, some, List, [], ◌∷◌, ◌++◌, map, reverse, filter,
  arith, ltb, leb, ◌==◌, if◌then◌else◌, ==_iff, ==_refl, Bool-cases, Option-cases, and_true_left,
  and_true_right,
}
use reticulum_router.Text.{
  Text, Bytes, codes, text_eq, is_whitespace, trim_start, trim_end, trim, lower, to_lowercase,
  starts_with, ends_with, contains, contains_char, len_utf8, len, is_ascii_hexdigit, split_once,
  push_head, split, splitn, starts_newline, lines, lookup,
}
use reticulum_router.Path.{
  FilePath, Component, root_dir, cur_dir, parent_dir, normal, dot, dot_dot, parts, relative,
  is_absolute, components, last_is, join, component_eq, is_prefix, path_starts_with, path_eq,
}
use reticulum_router.Rngit.Perms.{
  Target, nobody, everyone, identity, is_none, is_all, Perm, AccessLists, default, list_for,
  target_eq, perm_of, push, add_entry, decode_identity_hash, parse_target, parse_permission,
  add_line, add_lines, permissions_from_allowed_input, is_identity, contains_identity,
  resolve_permission, resolve_group_permission, ◌>>=◌,
}
use reticulum_router.Rngit.Perms
use reticulum_router.Rngit.Gitutil.{
  any_locked, any_control, any_bad, san_ref, san_sha, is_single_normal, is_plain_component,
  repo_dir, check_names, two_parts, parse_request_repository_path, acl_path,
}
use reticulum_router.Rngit.Host.{Output, DirEntry, Host, Wire, Cfg, Rngit}
use reticulum_router.Hex.{HexCodec}

unfoldable pub eq_ignore_ascii_case : Text → Text → Bool
eq_ignore_ascii_case a b = text_eq (to_lowercase a) (to_lowercase b)

-- `for e in entries { input.push_str(e); input.push('\n'); }`
unfoldable pub entry_lines : List Text → Text
entry_lines [] = []
entry_lines (e ∷ es) = e ++ 10 ∷ entry_lines es

abbrev pub or_empty : Option (List Text) → List Text
or_empty none = []
or_empty (some es) = es

abbrev pub file_lines : Option Text → Text
file_lines none = []
file_lines (some content) = content ++ 10 ∷ []

module _ (self : Rngit) where
  abbrev pub World : Type 0
  World = self.host.World

  unfoldable pub group_access : World → Text → FilePath → AccessLists
  group_access w group group_path =
      let input =
        file_lines (self.host.read_to_string w (acl_path group_path))
        ++ entry_lines (or_empty (lookup group self.cfg.access)) in
      permissions_from_allowed_input self.hex input self.cfg.aliases

  unfoldable pub repo_access : World → FilePath → AccessLists
  repo_access w repo_path = elim (self.host.read_to_string w (acl_path repo_path)) [
    | none ↦ default
    | some content ↦ permissions_from_allowed_input self.hex content self.cfg.aliases
  ]

  unfoldable pub resolve_repo_access :
      World → Text → Text → Option (FilePath × AccessLists × AccessLists)
  resolve_repo_access w group repo = do
    group_path ← lookup group self.cfg.repositories
    if not (self.host.is_dir w group_path) then none else do
      repo_path ← repo_dir group_path repo
      if not (self.host.is_dir w repo_path)
          then none
          else some (repo_path, repo_access w repo_path, group_access w group group_path)

  unfoldable pub is_blocked : Bytes → Bool
  is_blocked peer =
      any (λ h. eq_ignore_ascii_case h (self.hex.encode peer)) self.cfg.blocked_identities

  unfoldable pub resolve_perm : World → Bytes → Text → Text → Perm → Bool
  resolve_perm w peer group repo perm =
      if is_blocked peer then false else elim (resolve_repo_access w group repo) [
        | none ↦ false
        | some (repo_path, repo_lists, group_lists) ↦
            resolve_permission repo_lists group_lists peer perm
      ]

  unfoldable pub resolve_group_perm : World → Bytes → Text → Perm → Bool
  resolve_group_perm w peer group perm =
      if is_blocked peer then false else elim (lookup group self.cfg.repositories) [
        | none ↦ false
        | some group_path ↦
            if not (self.host.is_dir w group_path)
            then false
            else resolve_group_permission (group_access w group group_path) peer perm
      ]

  -- The group exists and the repository's directory does not.
  unfoldable pub repo_missing : World → Text → Text → Bool
  repo_missing w group repo = elim (lookup group self.cfg.repositories) [
    | none ↦ false
    | some group_path ↦
        if not (self.host.is_dir w group_path) then false else elim (repo_dir group_path repo) [
          | none ↦ false
          | some repo_path ↦ not (self.host.exists w repo_path)
        ]
  ]
