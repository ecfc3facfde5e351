-- ===== src/Tests/Server.antt =====
-- The git server's theorems at requests of two clients.
use reticulum_router.Prelude.{
  is_empty, all, ◌++◌, ◌⊎◌, ◌≤◌, ◌≡◌, refl, sym, ap, ◌∙◌, ◌≢◌, true, false, Option, some, List, [],
  ◌∷◌, arith,
}
use reticulum_router.Text.{
  into_bytes, sort, insert_sorted, text_le, Text, Bytes, codes, len, is_ascii_hexdigit,
  to_lowercase, lower,
}
use reticulum_router.Path.{FilePath}
use reticulum_router.Rngit.Perms.{
  is_none, is_all, Perm, list_for, target_eq, perm_of, push, add_entry, decode_identity_hash,
  parse_target, parse_permission, add_line, add_lines, permissions_from_allowed_input,
  contains_identity, resolve_permission, resolve_group_permission,
}
use reticulum_router.Rngit.Gitutil.{
  any_locked, any_control, any_bad, san_ref, san_sha, is_single_normal, is_plain_component,
  repo_dir, check_names, two_parts, parse_request_repository_path, acl_path,
}
use reticulum_router.Rngit.Access.{
  group_access, repo_access, resolve_repo_access, is_blocked, resolve_perm, resolve_group_perm,
  repo_missing, eq_ignore_ascii_case, entry_lines,
}
use reticulum_router.Rngit.Git.{
  ok, git, object_exists, ref_exists, needs_force, update_ref, delete_ref, write_acl, init_at,
  create_at, create_repository,
}
use reticulum_router.Rngit.Request.{
  not_found, res_ok, find_key, find_repository, repo_repository, get_str, get_bool, data_bool,
  data_str, with_repository, with_path,
}
use reticulum_router.Rngit.Server.{
  create_repo_on_push, push_bundle, push_operation, push_operations, push_map, push_to, push_as,
  handle_push, delete_in, delete_as, handle_delete, create_in, create_as, handle_create,
}
use mathlib.Core.Bool.{true≢false}
use reticulum_router.Rnguard.Hex.RoundTrip.{own_codec}
use reticulum_router.Rnguard.Hex.{
  hex_encode, hex_digit, decode_hex, decode_pairs, digit_value, from_str_radix, is_char_boundary,
}
use reticulum_router.Rngit.Access.Creation.{IsIdentity}
use reticulum_router.Rngit.Server.Denied.{
  Names, MayPush, handle_push-MayPush, handle_delete-write, handle_create-create,
}
use reticulum_router.Rngit.Server.Creator.{create_repo_on_push-resolve_perm}
use reticulum_router.Rngit.Server.Refs.{IsBelowRefs, push_operation-ref}
use reticulum_router.Rngit.Fetch.{inline, handle_fetch}
use reticulum_router.Rngit.Listing.{
  handle_list, handle_repos, readable_entries, readable_groups, is_repository, nonempty, join_lines,
}
use reticulum_router.Rngit.Listing.Repos.{IsUnknown, IsKnown, IsListing, handle_repos-IsListing}
use reticulum_router.Rngit.Hidden.{IsStranger, stranger_not_found, blocked-IsStranger}
use reticulum_router.Tests.World.{
  Files, Val, text, pair, dict, end, repository, alice, bob, small, small_host-KeepsFiles, files,
  open_files, update_pairs, push_of, delete_of, server, pairs,
}
-- All that the runs below compute with.
use reticulum_router.Prelude.{any, All}
use reticulum_router.Text.{lookup, text_eq}
use reticulum_router.Assoc.{insert, modify}
use reticulum_router.Rngit.Links.{
  State, serve, route_request, respond, update_link, on_network, continue, ◌>>=◌,
}
use reticulum_router.Rngit.Events.{
  LinkEvent, activated, remote_identified, request, Turn, event, ticked, handle_event, run, tick,
  tick_links, tick_link, age, hashes_of, readvertise, remove_all,
}
use reticulum_router.Rngit.Events.Identity.{names, changed-named}
use reticulum_router.Rngit.Events.Retries.{IsSent, ticks, run-IsSent}
use reticulum_router.Tests.Network.{small_net}

all_of_it : Unit {0}
unfolding server own_codec hex_encode hex_digit decode_hex decode_pairs digit_value from_str_radix
    is_char_boundary perm_of is_none is_all list_for target_eq push add_entry decode_identity_hash
    parse_target parse_permission add_line add_lines permissions_from_allowed_input
    contains_identity resolve_permission resolve_group_permission any_locked any_control any_bad
    san_ref san_sha is_single_normal is_plain_component repo_dir check_names two_parts
    parse_request_repository_path acl_path git object_exists ref_exists needs_force update_ref
    delete_ref write_acl init_at create_at create_repository group_access repo_access
    resolve_repo_access is_blocked resolve_perm resolve_group_perm repo_missing eq_ignore_ascii_case
    entry_lines find_key find_repository repo_repository get_str get_bool data_bool data_str
    with_repository with_path create_repo_on_push push_bundle push_operation push_operations
    push_map push_to push_as handle_push delete_in delete_as handle_delete create_in create_as
    handle_create
all_of_it = tt

abbrev calls : Bytes × Files → List (List Text)
calls (r, w) = w.calls

abbrev dirs : Bytes × Files → List FilePath
dirs (r, w) = w.dirs

push_calls : is_empty (calls (handle_push small (some alice) (push_of (codes "g/r")) files)) ≡ false
unfolding all_of_it
push_calls = refl

-- A call of `git` is a change of the world.
changed_of_calls : (result : Bytes × Files) → is_empty (calls result) ≡ false → result.1 ≢ files
changed_of_calls (r, w) h e = true≢false (ap (λ (v : Files). is_empty v.calls) (sym e) ∙ h)

push_g_r : (handle_push small (some alice) (push_of (codes "g/r")) files).1 ≢ files
unfolding all_of_it
push_g_r = changed_of_calls (handle_push small (some alice) (push_of (codes "g/r")) files) refl

handle_push-MayPush_example :
    (p : Bytes) × (g : Text) × (r : Text) × (◌≡◌ {A = Option Bytes} (some alice) (some p))
    × Names small (push_of (codes "g/r")) g r
    × MayPush small files p g r
handle_push-MayPush_example =
    handle_push-MayPush small (some alice) (push_of (codes "g/r")) files push_g_r

delete_g_r : (handle_delete small (some alice) (delete_of (codes "g/r")) files).1 ≢ files
unfolding all_of_it
delete_g_r =
    changed_of_calls (handle_delete small (some alice) (delete_of (codes "g/r")) files) refl

handle_delete-write_example :
    (p : Bytes) × (g : Text) × (r : Text) × (◌≡◌ {A = Option Bytes} (some alice) (some p))
    × Names small (delete_of (codes "g/r")) g r
    × (resolve_perm small files p g r Perm.write ≡ true)
handle_delete-write_example =
    handle_delete-write small (some alice) (delete_of (codes "g/r")) files delete_g_r

abbrev create_of : Text → Val
create_of path = dict (pair repository (text path) end)

create_g_new : (handle_create small (some alice) (create_of (codes "g/new")) files).1 ≢ files
unfolding all_of_it
create_g_new =
    changed_of_calls (handle_create small (some alice) (create_of (codes "g/new")) files) refl

handle_create-create_example :
    (p : Bytes) × (g : Text) × (r : Text) × (◌≡◌ {A = Option Bytes} (some alice) (some p))
    × Names small (create_of (codes "g/new")) g r
    × (resolve_group_perm small files p g Perm.create ≡ true)
handle_create-create_example =
    handle_create-create small (some alice) (create_of (codes "g/new")) files create_g_new

abbrev carol : Bytes
carol = 0 ∷ 0 ∷ 0 ∷ 0 ∷ 0 ∷ 0 ∷ 0 ∷ 0 ∷ 0 ∷ 0 ∷ 0 ∷ 0 ∷ 0 ∷ 0 ∷ 0 ∷ 3 ∷ []

carol-IsStranger : IsStranger small files carol (codes "g") (codes "new")
unfolding all_of_it
carol-IsStranger = record { no_read = refl; no_write = refl; no_create = refl }

push_new-Names : Names small (push_of (codes "g/new")) (codes "g") (codes "new")
unfolding Names all_of_it
push_new-Names = (codes "g/new", refl, refl)

stranger_not_found_example :
    (handle_list small (some carol) (push_of (codes "g/new")) files ≡ (not_found, files))
    × (handle_fetch small (some carol) (push_of (codes "g/new")) (7 ∷ []) files
        ≡ (ok (inline not_found), files))
    × (handle_push small (some carol) (push_of (codes "g/new")) files ≡ (not_found, files))
    × (handle_delete small (some carol) (push_of (codes "g/new")) files ≡ (not_found, files))
stranger_not_found_example =
    stranger_not_found small files carol (codes "g") (codes "new") (push_of (codes "g/new"))
      (7 ∷ []) carol-IsStranger push_new-Names

-- Bob's hash stands in the list of blocked identities.
blocked-IsStranger_example : IsStranger small files bob (codes "g") (codes "r")
unfolding own_codec hex_encode hex_digit to_lowercase lower
blocked-IsStranger_example =
    blocked-IsStranger small files bob (codes "g") (codes "r") [] []
      (codes "00000000000000000000000000000002") refl refl

alice-IsIdentity : IsIdentity small alice
unfolding all_of_it
alice-IsIdentity = record { bytes = omega arith; size = refl; no_alias = refl; not_blocked = refl }

alice_creates : (create_repo_on_push small alice (codes "g") (codes "new") files).0 ≡ true
unfolding all_of_it
alice_creates = refl

create_repo_on_push-resolve_perm_example :
    resolve_perm small
      (create_repo_on_push small alice (codes "g") (codes "new") files).1
      alice
      (codes "g")
      (codes "new")
      Perm.write
    ≡ true
create_repo_on_push-resolve_perm_example =
    create_repo_on_push-resolve_perm small small_host-KeepsFiles alice alice-IsIdentity files
      (codes "g") (codes "new") alice_creates Perm.write

update_changes : (push_operation small (codes "/srv/g/r") (pairs update_pairs) files).1 ≢ files
unfolding all_of_it
update_changes e = true≢false (ap (λ (v : Files). is_empty v.calls) (sym e))

push_operation-ref_example :
    (r : Text) × (s : Text) × (get_str small (codes "ref") (pairs update_pairs) ≡ some r)
    × (get_str small (codes "sha") (pairs update_pairs) ≡ some s)
    × IsBelowRefs r
    × (40 ≤ len s)
    × (all is_ascii_hexdigit s ≡ true)
push_operation-ref_example =
    push_operation-ref small (codes "/srv/g/r") files (pairs update_pairs) update_changes

delete_in_changes : (delete_in small (delete_of (codes "g/r")) (codes "/srv/g/r") files).1 ≢ files
unfolding all_of_it
delete_in_changes e = true≢false (ap (λ (v : Files). is_empty v.calls) (sym e))

handle_repos-IsListing_example :
    (IsUnknown small (nonempty small (data_str small (codes "group") (dict end)))
      × (handle_repos small (some alice) (dict end) open_files ≡ not_found))
    ⊎ (IsKnown small (nonempty small (data_str small (codes "group") (dict end)))
        × ((listed : List Text) × (handle_repos small (some alice) (dict end) open_files
              ≡ res_ok ∷ into_bytes (join_lines listed))
            × IsListing small open_files alice
                (nonempty small (data_str small (codes "group") (dict end)))
                listed))
handle_repos-IsListing_example = handle_repos-IsListing small open_files alice (dict end)

listed_repository :
    handle_repos small (some alice) (dict end) open_files ≡ res_ok ∷ codes "g/r" ++ 10 ∷ []
unfolding all_of_it handle_repos readable_groups readable_entries is_repository join_lines sort
    insert_sorted text_le
listed_repository = refl

-- A group that is not configured.
unknown_listing :
    handle_repos small
      (some alice)
      (dict (pair (text (codes "group")) (text (codes "h")) end))
      open_files
    ≡ not_found
unfolding all_of_it handle_repos
unknown_listing = refl

-- A link of the server: it is opened, Alice identifies herself and creates a repository.
abbrev create_request : LinkEvent Val
create_request = request (record {
  path_hash = codes "/git/create";
  body = create_of (codes "g/new");
  request_id = 5 ∷ [];
})

abbrev before : List (Turn Val)
before = event (1 ∷ []) activated ∷ ticked ∷ event (1 ∷ []) (remote_identified alice) ∷ []

abbrev fresh : State small small_net
fresh = record { links = []; world = files; network = 0 }

opened :
    (handle_event small small_net
      (1 ∷ [])
      create_request
      (run small small_net before fresh)).1.world
    ≡ (handle_create small (some alice) (create_of (codes "g/new")) files).1
unfolding handle_event serve route_request respond run tick tick_links tick_link age hashes_of
    readvertise remove_all insert modify lookup text_eq update_link on_network continue ◌>>=◌
opened = refl

not_ticked : (run small small_net before fresh).world ≡ files
unfolding handle_event run tick update_link
not_ticked = refl

changed-named_example : any (names small small_net (1 ∷ [])) before ≡ true
changed-named_example =
    changed-named small small_net before (1 ∷ []) create_request fresh refl
      λ e. create_g_new (sym opened ∙ e ∙ not_ticked)

-- A resource that is offered on a link and never asked for.
abbrev offering : State small small_net
offering = record {
  links =
      (
        1 ∷ [],
        record {
          link = 7;
          peer = some alice;
          outbound = (2 ∷ [], record { resource = 2 ∷ []; adv_retries = 0 }) ∷ [];
          inbound = [];
        },
      )
      ∷ [];
  world = files;
  network = 0;
}

run-IsSent_example :
    All
      (λ l. All (IsSent small small_net) l.1.outbound)
      (run small small_net (ticks small small_net) offering).links
run-IsSent_example = run-IsSent small small_net offering
