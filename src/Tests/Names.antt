-- ===== src/Tests/Names.antt =====
-- Access lists, paths and refs at concrete inputs.
use reticulum_router.Prelude.{
  any, all, ◌↔◌, ◌≡◌, refl, true, false, not, ◌&&◌, ◌||◌, none, some, [], ◌∷◌, ◌++◌, map, leb, ◌==◌,
  if◌then◌else◌,
}
use reticulum_router.Text.{Text, codes, text_eq, starts_with, ends_with, split, lines, lookup}
use reticulum_router.Path.{normal, components}
use reticulum_router.Rngit.Perms.{
  everyone, identity, is_none, is_all, Perm, AccessLists, default, list_for, target_eq, add_entry,
  permissions_from_allowed_input, contains_identity, resolve_permission,
}
use reticulum_router.Rngit.Gitutil.{
  parse_request_repository_path, check_names, two_parts, any_locked, any_control, any_bad, san_ref,
  is_single_normal, is_plain_component, repo_dir,
}
use reticulum_router.Rnguard.Hex.RoundTrip.{own_codec}
use reticulum_router.Rngit.Perms.Resolve.{resolve_permission-add_entry}
use reticulum_router.Rngit.Perms.Build.{line_grants, holds-permissions_from_allowed_input}
use reticulum_router.Rngit.Gitutil.RepoDir.{repo_dir_contained}
use reticulum_router.Rngit.Gitutil.Parse.{IsRequestPath, parse_request_repository_path_lem}
use reticulum_router.Rngit.Gitutil.Refs.{san_ref-components}
use reticulum_router.Tests.World.{alice, bob, server}

abbrev group : AccessLists
group = record default { read = everyone ∷ []; admin = identity bob ∷ [] }

abbrev repo : AccessLists
repo = record default { write = identity alice ∷ [] }

resolve_permission-add_entry_example :
    resolve_permission (add_entry Perm.write (identity bob) repo) group alice Perm.write ≡ (
      if any is_none (list_for repo Perm.write)
      then false
      else text_eq bob alice
        || contains_identity repo.admin alice
        || any is_all (list_for repo Perm.write)
        || contains_identity (list_for repo Perm.write) alice)
resolve_permission-add_entry_example = resolve_permission-add_entry repo group bob alice Perm.write

abbrev input : Text
input = codes "# x" ++ 10 ∷ codes "rw:all"

holds-permissions_from_allowed_input_example :
    any
      (target_eq everyone)
      (list_for (permissions_from_allowed_input own_codec input []) Perm.write)
    ≡ any (line_grants own_codec [] Perm.write everyone) (lines input)
holds-permissions_from_allowed_input_example =
    holds-permissions_from_allowed_input own_codec [] Perm.write everyone input

own_encode : lookup {V = Text} (own_codec.encode alice) [] ≡ none
unfolding lookup
own_encode = refl

repo_dir_r : repo_dir (codes "/srv/g") (codes "r") ≡ some (codes "/srv/g/r")
unfolding repo_dir server is_plain_component is_single_normal
repo_dir_r = refl

repo_dir_contained_example :
    (name : Text) × (components (codes "/srv/g/r")
      ≡ components (codes "/srv/g") ++ normal name ∷ [])
repo_dir_contained_example = repo_dir_contained (codes "/srv/g") (codes "r") repo_dir_r

-- A trailing separator passes the check of a plain component.
trailing_separator : is_plain_component (codes "foo/") ≡ true
unfolding server is_plain_component is_single_normal
trailing_separator = refl

abbrev main_ref : Text
main_ref = codes "refs/heads/main"

main_ref-san_ref : san_ref main_ref ≡ some main_ref
unfolding san_ref server any_locked any_control any_bad
main_ref-san_ref = refl

main_ref_below : starts_with (codes "refs/") main_ref ≡ true
unfolding starts_with
main_ref_below = refl

san_ref-components_example :
    (main_ref ≡ main_ref)
    × (components main_ref ≡ map normal (split b'/' main_ref))
    × (all (λ piece. not (ends_with (codes ".lock") piece)) (split b'/' main_ref) ≡ true)
    × (all (λ c. leb 40 c && not (c == 127)) main_ref ≡ true)
san_ref-components_example = san_ref-components main_ref main_ref-san_ref main_ref_below

refused_refs :
    (san_ref (codes "refs/../x") ≡ none)
    × (san_ref (codes "main") ≡ none)
    × (san_ref (codes "-x/y") ≡ none)
    × (san_ref (codes "refs/a.lock/b") ≡ none)
unfolding san_ref server any_locked any_control any_bad
refused_refs = (refl, refl, refl, refl)

parse_request_repository_path_lem_example :
    (parse_request_repository_path (codes "g/r") ≡ some (codes "g", codes "r"))
    ↔ IsRequestPath (codes "g/r") (codes "g") (codes "r")
parse_request_repository_path_lem_example =
    parse_request_repository_path_lem (codes "g/r") (codes "g") (codes "r")

request_paths :
    (parse_request_repository_path (codes "g/r") ≡ some (codes "g", codes "r"))
    × (parse_request_repository_path (codes "g/r/") ≡ none)
    × (parse_request_repository_path (codes "g/..") ≡ none)
unfolding server parse_request_repository_path two_parts check_names is_plain_component
    is_single_normal
request_paths = (refl, refl, refl)
