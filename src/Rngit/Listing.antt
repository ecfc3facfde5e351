-- ===== src/Rngit/Listing.antt =====
-- src/bin/rngit/server.rs and gitutil.rs: listing the refs of a repository and the repositories
-- that an identity may read.
pub mod Repos
use reticulum_router.Prelude.{
  is_empty, any, Bool, false, not, ◌&&◌, Option, none, some, List, [], ◌∷◌, ◌++◌, ◌==◌,
  if◌then◌else◌,
}
use reticulum_router.Text.{
  Text, Bytes, codes, text_eq, trim, split_once, lines, lookup, into_bytes, sort,
}
use reticulum_router.Path.{FilePath, join}
use reticulum_router.Rngit.Perms.{Perm, ◌>>=◌}
use reticulum_router.Rngit.Host.{Output, DirEntry, Host, Rngit}
use reticulum_router.Rngit.Access.{World, resolve_perm, resolve_group_perm, repo_missing}
use reticulum_router.Rngit.Git.{GResult, ok, err, git}
use reticulum_router.Rngit.Request.{
  res_ok, res_not_found, res_remote_fail, error_response, not_identified, not_found, is_none?,
  Value, data_bool, data_str, Handler, with_repository, with_path,
}

unfoldable pub strip_prefix : Text → Text → Option Text
strip_prefix [] s = some s
strip_prefix (p ∷ ps) [] = none
strip_prefix (p ∷ ps) (c ∷ s) = let rest = strip_prefix ps s in if p == c then rest else none

abbrev pub head_of : Option Text → Text
head_of none = codes "master"
head_of (some rest) = if is_empty (trim rest) then codes "master" else trim rest

-- The loop over the lines of `git for-each-ref`: the first line of each ref is kept.
unfoldable pub ref_lines : List Text → List Text → List Text
ref_lines seen [] = []
ref_lines seen (line ∷ rest) =
    let l = trim line in
    let skip = ref_lines seen rest in
    elim (split_once b' ' l) [
      | none ↦ skip
      | some (sha, ref_name) ↦
          let keep = ref_lines (ref_name ∷ seen) rest in
          if any (text_eq ref_name) seen then skip else l ∷ keep
    ]

unfoldable pub join_lines : List Text → Text
join_lines [] = []
join_lines (l ∷ ls) = l ++ 10 ∷ join_lines ls

module _ (host : Host) where
  unfoldable pub head_ref : FilePath → host.World → Text
  head_ref repo_path w = head_of (do
    content ← host.read_lossy w (join repo_path (codes "HEAD"))
    strip_prefix (codes "ref: ") content)

  abbrev pub refs_text : Text → GResult Output → GResult Text
  refs_text head (err e) = err e
  refs_text head (ok out) =
      if not out.success
      then err (codes "git for-each-ref failed")
      else ok (
          join_lines (ref_lines [] (lines out.stdout))
          ++ codes "@"
          ++ head
          ++ codes " HEAD"
          ++ 10 ∷ [])

  unfoldable pub list_refs : FilePath → host.World → GResult Text × host.World
  list_refs repo_path w =
      let head = head_ref repo_path w in
      let (out, w') =
        git host repo_path
          (codes "for-each-ref" ∷ codes "--format" ∷ codes "%(objectname) %(refname)" ∷ []) w in
      (refs_text head out, w')

  unfoldable pub is_repository : host.World → FilePath → Bool
  is_repository w repo_path =
      host.is_file w (join repo_path (codes "HEAD"))
      && host.is_dir w (join repo_path (codes "objects"))

abbrev pub refs_response : GResult Text → Bytes
refs_response (ok refs) = 0 ∷ into_bytes refs
refs_response (err e) = error_response res_remote_fail (codes "Could not list refs")

module _ (self : Rngit) where
  unfoldable pub list_in : FilePath → Handler self
  list_in repo_path w = let (refs, w') = list_refs self.host repo_path w in (refs_response refs, w')

  unfoldable pub list_as : Value self → Bytes → Text → Text → Handler self
  list_as request peer group repo w =
      let for_push = data_bool self (codes "for_push") request in
      let reader = resolve_perm self w peer group repo Perm.read in
      let writer = resolve_perm self w peer group repo Perm.write in
      if not (if for_push then writer else reader)
      then (
        if for_push
              && (repo_missing self w group repo
                  && resolve_group_perm self w peer group Perm.create)
            then res_ok ∷ []
            else if reader
            then error_response res_not_found (codes "Not allowed")
            else not_found,
        w,
      )
      else with_path self group repo list_in w

  unfoldable pub handle_list : Option Bytes → Value self → Handler self
  handle_list peer request = with_repository self not_found peer request (list_as request)

  -- The entries of a group's directory that are repositories which the peer may read.
  unfoldable pub readable_entries : World self → Bytes → Text → List DirEntry → List Text
  readable_entries w peer group [] = []
  readable_entries w peer group (entry ∷ entries) =
      let rest = readable_entries w peer group entries in
      if not (self.host.is_dir w entry.path) then rest else elim entry.name [
        | none ↦ rest
        | some name ↦
            if not (is_repository self.host w entry.path)
            then rest
            else if not (resolve_perm self w peer group name Perm.read)
            then rest
            else (group ++ codes "/" ++ name) ∷ rest
      ]

  abbrev pub is_other_group : Option Text → Text → Bool
  is_other_group none group = false
  is_other_group (some g) group = not (text_eq g group)

  unfoldable pub readable_groups :
      World self → Bytes → Option Text → List (Text × FilePath) → List Text
  readable_groups w peer filter' [] = []
  readable_groups w peer filter' ((group, group_path) ∷ groups) =
      let rest = readable_groups w peer filter' groups in
      if is_other_group filter' group then rest else elim (self.host.read_dir w group_path) [
        | none ↦ rest
        | some entries ↦ readable_entries w peer group entries ++ rest
      ]

  abbrev pub nonempty : Option Text → Option Text
  nonempty none = none
  nonempty (some g) = if is_empty g then none else some g

  abbrev pub unknown_group : Option Text → Bool
  unknown_group none = false
  unknown_group (some g) = is_none? (lookup g self.cfg.repositories)

  unfoldable pub handle_repos : Option Bytes → Value self → World self → Bytes
  handle_repos none request w = not_identified
  handle_repos (some peer) request w =
      let group_filter = nonempty (data_str self (codes "group") request) in
      if unknown_group group_filter
      then not_found
      else res_ok
        ∷ into_bytes (join_lines (sort (readable_groups w peer group_filter self.cfg.repositories)))
