-- ===== src/Tests/Remote.antt =====
-- The git remote helper's theorems at concrete inputs.
use reticulum_router.Prelude.{
  ℕ, ◌≡◌, refl, ap, true, false, Option, none, some, List, [], ◌∷◌, ◌++◌, map, concat, All,
}
use reticulum_router.Text.{Text, Bytes, codes}
use reticulum_router.Rngit.Perms.{Perm}
use reticulum_router.Rngit.Gitutil.{parse_request_repository_path}
use reticulum_router.Rngit.Access.{resolve_perm, resolve_repo_access}
use reticulum_router.Rngit.Git.{ok}
use reticulum_router.Rngit.Request.{invalid_request}
use reticulum_router.Rngit.Fetch.{inline, handle_fetch, pack_metadata}
use reticulum_router.GitRemote.Parse.{done}
use reticulum_router.GitRemote.State.{Values, Env, State, new, bytes, resource}
use reticulum_router.GitRemote.Commands.{fetched}
use reticulum_router.GitRemote.Push.{do_push_batch}
use reticulum_router.GitRemote.Loop.{commands, fetching, handle_option, run}
use reticulum_router.GitRemote.Fetching.{IsDecoding, fetch_text, first_ref, asked, fetch_is_refused}
use reticulum_router.GitRemote.DryRun.{Spec, IsSpec, spec_text, ok_line, do_push_batch-dry}
use reticulum_router.GitRemote.Bundles.{ended, IsLine, fetched-pack_metadata}
use reticulum_router.Rngit.Git.{git}
use reticulum_router.Path.{FilePath}
use reticulum_router.Rngit.Perms.{AccessLists}
use reticulum_router.Tests.World.{
  Val, Vals, Pairs, Files, small, small_host, small_wire, files, alice, items, pairs,
}
use reticulum_router.Rngit.Perms.{
  is_none, is_all, list_for, target_eq, perm_of, push, add_entry, decode_identity_hash,
  parse_target, parse_permission, add_line, add_lines, permissions_from_allowed_input,
  contains_identity, resolve_permission, resolve_group_permission,
}
use reticulum_router.Rngit.Gitutil.{
  any_locked, any_control, any_bad, san_ref, san_sha, is_single_normal, is_plain_component,
  repo_dir, check_names, two_parts, acl_path,
}
use reticulum_router.Rngit.Access.{
  group_access, repo_access, is_blocked, resolve_group_perm, repo_missing, eq_ignore_ascii_case,
  entry_lines,
}
use reticulum_router.Rngit.Git.{
  object_exists, ref_exists, needs_force, update_ref, delete_ref, write_acl, init_at, create_at,
  create_repository,
}
use reticulum_router.Rngit.Request.{
  find_key, find_repository, repo_repository, get_str, get_bool, data_bool, data_str,
  with_repository, with_path,
}
use reticulum_router.Rngit.Server.{
  create_repo_on_push, push_bundle, push_operation, push_operations, push_map, push_to, push_as,
  handle_push, delete_in, delete_as, handle_delete, create_in, create_as, handle_create,
}
use reticulum_router.Rnguard.Hex.RoundTrip.{own_codec}
use reticulum_router.Rnguard.Hex.{
  hex_encode, hex_digit, decode_hex, decode_pairs, digit_value, from_str_radix, is_char_boundary,
}
use reticulum_router.Tests.World.{server}

all_of_it : Unit {0}
unfolding server own_codec hex_encode hex_digit decode_hex decode_pairs digit_value from_str_radix
    is_char_boundary perm_of is_none is_all list_for target_eq push add_entry decode_identity_hash
    parse_target parse_permission add_line add_lines permissions_from_allowed_input
    contains_identity resolve_permission resolve_group_permission any_locked any_control any_bad
    san_ref san_sha is_single_normal is_plain_component repo_dir check_names two_parts
    parse_request_repository_path acl_path git object_exists ref_exists needs_force update_ref
    delete_ref write_acl init_at create_at create_repository group_access repo_access
    resolve_repo_access is_blocked resolve_perm resolve_group_perm repo_missing eq_ignore_ascii_case
    entry_lines find_key find_repository repo_repository get_str get_bool data_bool data_str
    with_repository with_path create_repo_on_push push_bundle push_operation push_operations
    push_map push_to push_as handle_push delete_in delete_as handle_delete create_in create_as
    handle_create
all_of_it = tt

abbrev vals : List Val → Vals
vals [] = Vals.nil
vals (v ∷ vs) = Vals.cons v (vals vs)

abbrev to_pairs : List (Val × Val) → Pairs
to_pairs [] = Pairs.end
to_pairs ((k, v) ∷ ps) = Pairs.pair k v (to_pairs ps)

abbrev val_int : ℕ → Val
val_int n = Val.repository

abbrev small_values : Values
small_values = record {
  Value = Val;
  int = val_int;
  str = Val.text;
  bool = Val.flag;
  binary = Val.bin;
  array = λ vs. Val.list (vals vs);
  map_ = λ ps. Val.dict (to_pairs ps);
}

items-vals : (vs : List Val) → items (vals vs) ≡ map (λ v. v) vs
items-vals [] = refl
items-vals (v ∷ vs) = ap (◌∷◌ v) (items-vals vs)

pairs-to_pairs : (ps : List (Val × Val)) → pairs (to_pairs ps) ≡ map (λ p. (p.0, p.1)) ps
pairs-to_pairs [] = refl
pairs-to_pairs ((k, v) ∷ ps) = ap (◌∷◌ (k, v)) (pairs-to_pairs ps)

small-IsDecoding : IsDecoding small_values small_wire λ v. v
small-IsDecoding = record {
  map_ = λ ps. ap some (pairs-to_pairs ps);
  array = λ vs. ap some (items-vals vs);
  str = λ s. refl;
  int = refl;
  key = refl;
}

abbrev desk : Env
desk = record {
  host = small_host;
  values = small_values;
  git_dir = some (codes "/home/a/.git");
  run_git = λ args w. (ok [], w);
  index_pack = λ dir pack w. (ok true, record w { calls = (pack ∷ []) ∷ w.calls });
  request = λ path v w. (ok (bytes (0 ∷ [])), w);
  from_utf8_lossy = λ b. b;
  show = λ n. n ∷ [];
  parse_u8 = λ t. none;
}

abbrev idle : State desk
idle = record { helper = new (codes "g/r"); out = []; world = files }

abbrev shared : Files
shared = record files { files = (codes "/srv/g/r.allowed", codes "r:all") ∷ [] }

path_names : parse_request_repository_path (codes "g/r") ≡ some (codes "g", codes "r")
unfolding all_of_it
path_names = refl

alice_reads : resolve_perm small shared alice (codes "g") (codes "r") Perm.read ≡ true
unfolding all_of_it
alice_reads = refl

repo_found :
    (found : FilePath × AccessLists × AccessLists) × (resolve_repo_access small shared
        (codes "g")
        (codes "r")
      ≡ some found)
unfolding all_of_it
repo_found = (_, refl)

fetch_is_refused_example :
    ((input : List (Option Text)) (s : State desk)
      → run desk (some (fetch_text (codes "1f") (codes "refs/heads/m")) ∷ input) commands s
        ≡ run desk input (fetching (first_ref (codes "1f") (codes "refs/heads/m") ∷ [])) s)
    × ((rest : List (Text × Text)) (have : List Text) (id : Bytes)
        → handle_fetch small
            (some alice)
            (asked desk small
              (λ v. v)
              small-IsDecoding
              (codes "g/r")
              (codes "1f")
              (codes "refs/heads/m")
              rest
              have)
            id
            shared
          ≡ (ok (inline invalid_request), shared))
fetch_is_refused_example =
    fetch_is_refused desk small (λ v. v) small-IsDecoding (codes "1f") (codes "refs/heads/m")
      (codes "g/r") (codes "g") (codes "r") alice shared path_names alice_reads repo_found.1

abbrev two_pushes : List Spec
two_pushes =
    (true, codes "refs/heads/m", codes "refs/heads/m") ∷ (false, [], codes "refs/heads/n") ∷ []

two_pushes-AreSpecs : All IsSpec two_pushes
unfolding all_of_it
two_pushes-AreSpecs = ((refl, refl), ((refl, refl), tt))

do_push_batch-dry_example :
    (let s' = (handle_option desk (codes "dry-run true") idle).1 in
      do_push_batch desk (map spec_text two_pushes) s'
      ≡ (done tt, record s' { out = s'.out ++ concat (map (ok_line desk) two_pushes) ++ 10 ∷ [] }))
    × ((handle_option desk (codes "dry-run true") idle).1.world ≡ files)
do_push_batch-dry_example =
    do_push_batch-dry desk two_pushes idle (codes "/home/a/.git", refl) two_pushes-AreSpecs

abbrev header : List Bytes
header = codes "# v2 git bundle" ∷ codes "1f refs/heads/m" ∷ []

packed_prefix : pack_metadata (0x81 ∷ []) ≡ some (0 ∷ 0 ∷ 1 ∷ 0x81 ∷ [])
unfolding pack_metadata
packed_prefix = refl

header-AreLines : All IsLine header
unfolding all_of_it
header-AreLines = ((refl, refl), ((refl, refl), tt))

fetched-pack_metadata_example :
    fetched desk
      (resource ((0 ∷ 0 ∷ 1 ∷ 0x81 ∷ []) ++ (concat (map ended header) ++ 10 ∷ codes "PACK")))
      idle
    ≡ (done tt, record idle { world = record files { calls = (codes "PACK" ∷ []) ∷ [] } })
fetched-pack_metadata_example =
    fetched-pack_metadata desk (codes "/home/a/.git") (0x81 ∷ []) (0 ∷ 0 ∷ 1 ∷ 0x81 ∷ []) header
      (codes "PACK") idle refl packed_prefix header-AreLines
