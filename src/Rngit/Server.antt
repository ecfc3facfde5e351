-- ===== src/Rngit/Server.antt =====
-- src/bin/rngit/server.rs: the handlers of the requests that push, delete and create.
pub mod Denied
pub mod Refs
pub mod Creator
use reticulum_router.Prelude.{
  length, take, drop, is_empty, All, length-append, take-append_self, drop-append_self, length-drop,
  length-take, any-append, all-append, all-reverse, length-map, any, all, ℕ, zero, suc, ◌+◌, ◌-◌,
  ◌*◌, ◌/◌, ◌%◌, ◌^◌, ◌≤◌, ◌<◌, String, ◌≡◌, refl, sym, ap, ◌∙◌, subst, ◌≢◌, ◌↔◌, ◌⊎◌, inl, inr,
  Bool, true, false, not, ◌&&◌, ◌||◌, Option, none, some, List, [], ◌∷◌, ◌++◌, map, reverse, filter,
  arith, ltb, leb, ◌==◌, if◌then◌else◌, ==_iff, ==_refl, Bool-cases, Option-cases, and_true_left,
  and_true_right,
}
use reticulum_router.Text.{
  Text, Bytes, codes, text_eq, is_whitespace, trim_start, trim_end, trim, lower, to_lowercase,
  starts_with, ends_with, contains, contains_char, len_utf8, len, is_ascii_hexdigit, split_once,
  push_head, split, splitn, starts_newline, lines, lookup,
}
use reticulum_router.Path.{
  FilePath, Component, root_dir, cur_dir, parent_dir, normal, dot, dot_dot, parts, relative,
  is_absolute, components, last_is, join, component_eq, is_prefix, path_starts_with, path_eq,
}
use reticulum_router.Rngit.Perms.{
  Target, nobody, everyone, identity, is_none, is_all, Perm, AccessLists, default, list_for,
  target_eq, perm_of, push, add_entry, decode_identity_hash, parse_target, parse_permission,
  add_line, add_lines, permissions_from_allowed_input, is_identity, contains_identity,
  resolve_permission, resolve_group_permission, ◌>>=◌,
}
use reticulum_router.Rngit.Perms
use reticulum_router.Rngit.Gitutil.{
  any_locked, any_control, any_bad, san_ref, san_sha, is_single_normal, is_plain_component,
  repo_dir, check_names, two_parts, parse_request_repository_path, acl_path,
}
use reticulum_router.Rngit.Host.{Output, DirEntry, Host, Wire, Cfg, Rngit}
use reticulum_router.Rngit.Access.{
  World, group_access, repo_access, resolve_repo_access, is_blocked, resolve_perm,
  resolve_group_perm, repo_missing, eq_ignore_ascii_case, entry_lines, or_empty, file_lines,
}
use reticulum_router.Rngit.Git
use reticulum_router.Rngit.Git.{
  GResult, ok, err, is_ok, refs_prefix, git, succeeded, object_exists, ref_exists, needs_force,
  update_ref, delete_ref, apply_in, apply_push_bundle, create_at, create_repository,
}
use reticulum_router.Rngit.Request.{
  res_ok, res_disallowed, res_invalid_req, res_not_found, res_remote_fail, error_response,
  not_identified, invalid_request, not_found, not_allowed, refusal, or_false, is_none?,
  get_or_default, is_true, after_operation, Value, is_key, find_key, find_repository,
  repo_repository, get_str, get_bool, data_bool, data_str, Handler, with_repository, with_path,
}

module _ (self : Rngit) where
  unfoldable pub create_repo_on_push : Bytes → Text → Text → World self → Bool × World self
  create_repo_on_push peer group repo w =
      if not (repo_missing self w group repo)
      then (false, w)
      else if not (resolve_group_perm self w peer group Perm.create)
      then (false, w)
      else elim (lookup group self.cfg.repositories) [
        | none ↦ (false, w)
        | some group_path ↦
            let (r, w') = create_repository self.host group_path repo (self.hex.encode peer) w in
            (is_ok r, w')
      ]

  abbrev pub result_response : Bytes → GResult (Unit {0}) × World self → Bytes × World self
  result_response failure (ok u, w) = (0 ∷ [], w)
  result_response failure (err e, w) = (failure, w)

  unfoldable pub push_bundle : FilePath → Bytes → Option Text → Option Text → Bool → Handler self
  push_bundle repo_path bundle (some local_ref) (some remote_ref) force w =
      if is_none? (san_ref local_ref) || is_none? (san_ref remote_ref)
      then (invalid_request, w)
      else result_response (error_response res_remote_fail (codes "Could not verify bundle"))
          (apply_push_bundle self.host repo_path bundle local_ref remote_ref force w)
  push_bundle repo_path bundle _ _ force w =
      (error_response res_invalid_req (codes "Missing ref specification"), w)

  abbrev pub invalid_sha : Bytes
  invalid_sha = error_response res_invalid_req (codes "Invalid SHA")

  -- One operation of a push without a bundle: the response that ends the push, or `none` to go on.
  unfoldable pub push_operation :
      FilePath → List (Value self × Value self) → World self → Option Bytes × World self
  push_operation repo_path op_map w =
      let action = get_or_default (get_str self (codes "action") op_map) in
      if not (text_eq action (codes "update_ref"))
      then (some (error_response res_invalid_req (codes "Unknown operation: " ++ action)), w)
      else elim (get_str self (codes "ref") op_map) [
        | none ↦ (some invalid_request, w)
        | some ref_name ↦
            if is_none? (san_ref ref_name) || not (starts_with refs_prefix ref_name)
            then (some invalid_request, w)
            else elim (get_str self (codes "sha") op_map) [
              | none ↦ (some invalid_sha, w)
              | some sha ↦
                  if is_none? (san_sha sha)
                  then (some invalid_sha, w)
                  else let (r, w') =
                      update_ref self.host repo_path ref_name sha
                        (get_bool self (codes "force") op_map) w in
                    (
                      elim r [
                        | ok u ↦ none
                        | err e ↦
                            some (error_response res_remote_fail (codes "Could not update refs"))
                      ],
                      w',
                    )
            ]
      ]

  unfoldable pub push_operations : FilePath → List (Value self) → Handler self
  push_operations repo_path [] w = (0 ∷ [], w)
  push_operations repo_path (op ∷ ops) w = elim (self.wire.as_map op) [
    | none ↦ (error_response res_invalid_req (codes "Invalid data for operations"), w)
    | some op_map ↦
        after_operation (push_operations repo_path ops) (push_operation repo_path op_map w)
  ]

  unfoldable pub push_map : FilePath → List (Value self × Value self) → Handler self
  push_map repo_path map w =
      elim (do v ← find_key self (codes "bundle") map; self.wire.as_slice v) [
        | some bundle ↦
            push_bundle repo_path bundle (get_str self (codes "local_ref") map)
              (get_str self (codes "remote_ref") map) (get_bool self (codes "force") map) w
        | none ↦ elim (do v ← find_key self (codes "operations") map; self.wire.as_array v) [
          | some operations ↦ push_operations repo_path operations w
          | none ↦ (error_response res_invalid_req (codes "Invalid request data"), w)
        ]
      ]

  unfoldable pub push_to : Text → Text → Value self → Handler self
  push_to group repo request = with_path self group repo λ repo_path w.
      elim (self.wire.as_map request) [
        | none ↦ (invalid_request, w)
        | some map ↦ push_map repo_path map w
      ]

  unfoldable pub push_as : Value self → Bytes → Text → Text → Handler self
  push_as request peer group repo w =
      let reader = resolve_perm self w peer group repo Perm.read in
      if resolve_perm self w peer group repo Perm.write
      then push_to group repo request w
      else let (created, w') = create_repo_on_push peer group repo w in
        if not created then (refusal reader, w') else push_to group repo request w'

  unfoldable pub handle_push : Option Bytes → Value self → Handler self
  handle_push peer request = with_repository self not_found peer request (push_as request)

  unfoldable pub delete_in : Value self → FilePath → Handler self
  delete_in request repo_path w = elim (data_str self (codes "ref") request) [
    | none ↦ (invalid_request, w)
    | some ref_name ↦
        if is_none? (san_ref ref_name) || not (starts_with refs_prefix ref_name)
        then (invalid_request, w)
        else let (found, w') = ref_exists self.host repo_path ref_name w in
          if not (is_true found)
          then (not_found, w')
          else result_response (error_response res_remote_fail (codes "Could not delete ref"))
              (delete_ref self.host repo_path ref_name w')
  ]

  unfoldable pub delete_as : Value self → Bytes → Text → Text → Handler self
  delete_as request peer group repo w =
      let reader = resolve_perm self w peer group repo Perm.read in
      if not (resolve_perm self w peer group repo Perm.write)
      then (refusal reader, w)
      else with_path self group repo (delete_in request) w

  unfoldable pub handle_delete : Option Bytes → Value self → Handler self
  handle_delete peer request = with_repository self not_found peer request (delete_as request)

  unfoldable pub create_in : Bytes → Text → Text → FilePath → Handler self
  create_in peer group repo group_path w = elim (repo_dir group_path repo) [
    | none ↦ (invalid_request, w)
    | some repository_path ↦
        if self.host.exists w repository_path
        then (
          if resolve_perm self w peer group repo Perm.read
              then error_response res_disallowed (codes "Repository already exists")
              else not_found,
          w,
        )
        else result_response
            (error_response res_remote_fail (codes "Could not initialize repository"))
            (create_repository self.host group_path repo (self.hex.encode peer) w)
  ]

  unfoldable pub create_as : Bytes → Text → Text → Handler self
  create_as peer group repo w = elim (lookup group self.cfg.repositories) [
    | none ↦ (not_found, w)
    | some group_path ↦
        if not (self.host.is_dir w group_path)
        then (not_found, w)
        else if not (resolve_group_perm self w peer group Perm.create)
        then (refusal (resolve_group_perm self w peer group Perm.read), w)
        else create_in peer group repo group_path w
  ]

  unfoldable pub handle_create : Option Bytes → Value self → Handler self
  handle_create peer request = with_repository self invalid_request peer request create_as
