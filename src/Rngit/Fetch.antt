-- ===== src/Rngit/Fetch.antt =====
-- src/bin/rngit/server.rs, transfer.rs and gitutil.rs: the fetch of refs as a git bundle.
use reticulum_router.Prelude.{
  length, ℕ, ◌+◌, ◌/◌, ◌%◌, Bool, true, false, not, Option, none, some, List, [], ◌∷◌, ◌++◌, map,
  ltb, ◌==◌, if◌then◌else◌,
}
use reticulum_router.Text.{Text, Bytes, codes, to_lowercase, contains}
use reticulum_router.Path.{FilePath, join}
use reticulum_router.Rngit.Perms.{Perm, ◌>>=◌}
use reticulum_router.Rngit.Gitutil.{san_ref, san_sha, parse_request_repository_path}
use reticulum_router.Rngit.Host.{Output, Host, Rngit}
use reticulum_router.Rngit.Access.{World, resolve_repo_access, resolve_perm}
use reticulum_router.Rngit.Git
use reticulum_router.Rngit.Git.{
  GResult, ok, err, is_ok, refs_prefix, git, succeeded, object_exists, ref_exists, needs_force,
  update_ref, delete_ref, apply_in, apply_push_bundle, write_acl, init_at, ran, create_at,
  create_repository,
}
use reticulum_router.Rngit.Request.{
  res_invalid_req, res_remote_fail, error_response, not_identified, invalid_request, not_found,
  is_none?, is_true, Value, find_key, repo_repository, get_str,
}

-- `pack_metadata` behind the packing: the length in three bytes, and the packed metadata.
unfoldable pub pack_metadata : Bytes → Option Bytes
pack_metadata packed =
    let n = length packed in
    if ltb 0xFFFFFF n then none else some (n / 65536 % 256 ∷ n / 256 % 256 ∷ n % 256 ∷ packed)

-- What a request's parsing gives: a value, or the response that ends the request.
pub data Parsed (A : Type 0) : Type 0 where
  good : A → Parsed A
  bad : Bytes → Parsed A

abbrev pub map_parsed : {A B : Type 0} → (A → B) → Parsed A → Parsed B
map_parsed f (good a) = good (f a)
map_parsed f (bad r) = bad r

abbrev pub sha_checked : Option Text → Parsed (Option Text)
sha_checked none = good none
sha_checked (some h) =
    if is_none? (san_sha h)
    then bad (error_response res_invalid_req (codes "Invalid SHA"))
    else good (some h)

module _ (self : Rngit) where
  -- One entry of `refs`: the ref and the object that the client has of it.
  unfoldable pub fetch_ref : Value self → Parsed (Text × Option Text)
  fetch_ref r = elim (self.wire.as_map r) [
    | none ↦ bad invalid_request
    | some m ↦ elim (get_str self (codes "ref") m) [
      | none ↦ bad invalid_request
      | some ref_name ↦
          if is_none? (san_ref ref_name)
          then bad invalid_request
          else map_parsed (λ have. (ref_name, have)) (sha_checked (get_str self (codes "have") m))
    ]
  ]

  unfoldable pub fetch_refs : List (Value self) → Parsed (List (Text × Option Text))
  fetch_refs [] = good []
  fetch_refs (r ∷ rs) =
      let rest = fetch_refs rs in
      elim (fetch_ref r) [
        | bad response ↦ bad response
        | good parsed ↦ map_parsed (λ parsed_rest. parsed ∷ parsed_rest) rest
      ]

  unfoldable pub have_sha : Value self → Parsed Text
  have_sha h = elim (self.wire.as_str h) [
    | none ↦ bad (error_response res_invalid_req (codes "Invalid SHA"))
    | some s ↦
        if is_none? (san_sha s)
        then bad (error_response res_invalid_req (codes "Invalid SHA"))
        else good s
  ]

  unfoldable pub have_shas : List (Value self) → Parsed (List Text)
  have_shas [] = good []
  have_shas (h ∷ hs) =
      let rest = have_shas hs in
      elim (have_sha h) [
        | bad response ↦ bad response
        | good sha ↦ map_parsed (λ shas. sha ∷ shas) rest
      ]

  abbrev pub or_nil : Option (List (Value self)) → List (Value self)
  or_nil none = []
  or_nil (some hs) = hs

module _ (host : Host) where
  unfoldable pub have_args : FilePath → Option Text → Git.Exec host (List Text)
  have_args repo_path none w = (ok [], w)
  have_args repo_path (some have) w = elim (san_sha have) [
    | none ↦ (err (codes "invalid SHA"), w)
    | some sha ↦
        let (found, w') = object_exists host repo_path sha w in
        (ok (if is_true found then (codes "^" ++ sha) ∷ [] else []), w')
  ]

  abbrev pub add_ref :
      Text → List Text → GResult (ℕ × List Text) × host.World → GResult (ℕ × List Text) × host.World
  add_ref ref_name have (ok (n, args), w) = (ok (n + 1, ref_name ∷ have ++ args), w)
  add_ref ref_name have (err e, w) = (err e, w)

  -- The first loop of `create_fetch_bundle`: the refs that exist and their arguments.
  unfoldable pub ref_args :
      FilePath → List (Text × Option Text) → host.World → GResult (ℕ × List Text) × host.World
  ref_args repo_path [] w = (ok (0, []), w)
  ref_args repo_path ((name, have) ∷ refs) w = elim (san_ref name) [
    | none ↦ (err (codes "invalid ref"), w)
    | some ref_name ↦
        let (found, w') = ref_exists host repo_path ref_name w in
        elim (is_true found) [
          | false ↦ ref_args repo_path refs w'
          | true ↦
              let (args, w'') = have_args repo_path have w' in
              elim args [
                | err e ↦ (err e, w'')
                | ok have_arg ↦ add_ref ref_name have_arg (ref_args repo_path refs w'')
              ]
        ]
  ]

  abbrev pub add_args :
      List Text → GResult (List Text) × host.World → GResult (List Text) × host.World
  add_args have (ok args, w) = (ok (have ++ args), w)
  add_args have (err e, w) = (err e, w)

  -- The second loop: the objects that the client has.
  unfoldable pub sha_args : FilePath → List Text → host.World → GResult (List Text) × host.World
  sha_args repo_path [] w = (ok [], w)
  sha_args repo_path (sha ∷ shas) w =
      let (args, w') = have_args repo_path (some sha) w in
      elim args [
        | err e ↦ (err e, w')
        | ok have_arg ↦ add_args have_arg (sha_args repo_path shas w')
      ]

  abbrev pub bundle_result : GResult Output → GResult Bool
  bundle_result (err e) = err e
  bundle_result (ok out) =
      if out.success
      then ok true
      else if contains (codes "empty bundle") (to_lowercase out.stderr)
      then ok false
      else err (codes "could not create bundle")

  unfoldable pub bundle_of :
      FilePath
      → FilePath
      → GResult (List Text) × host.World
      → ℕ
      → List Text
      → GResult Bool × host.World
  bundle_of repo_path bundle_path (err e, w) n args = (err e, w)
  bundle_of repo_path bundle_path (ok shas, w) n args =
      if n == 0
      then (ok false, w)
      else let (out, w') =
          git host repo_path
            (codes "bundle" ∷ codes "create" ∷ codes "--no-progress" ∷ bundle_path ∷ args ++ shas)
            w in
        (bundle_result out, w')

  -- `true` for `Ok(Some(()))`, `false` for `Ok(None)`.
  unfoldable pub create_fetch_bundle :
      FilePath
      → FilePath
      → List (Text × Option Text)
      → List Text
      → host.World
      → GResult Bool × host.World
  create_fetch_bundle repo_path bundle_path refs shas w =
      let (r, w') = ref_args repo_path refs w in
      elim r [
        | err e ↦ (err e, w')
        | ok (n, args) ↦ bundle_of repo_path bundle_path (sha_args repo_path shas w') n args
      ]

module _ (self : Rngit) where
  pub data Response : Type 0 where
    inline : Bytes → Response
    resource : self.wire.Resource → Response

  abbrev pub fetch_failed : Bytes
  fetch_failed = error_response res_remote_fail (codes "Could not fetch refs")

  -- The response of a fetch whose bundle stands in a file; `err` ends the handler with an error.
  unfoldable pub bundle_response : Bytes → Option Bytes → GResult Response
  bundle_response request_id none = ok (inline fetch_failed)
  bundle_response request_id (some bundle) =
      elim (do
        packed ← self.wire.ok_metadata
        metadata_prefix ← pack_metadata packed
        self.wire.new_response_resource (metadata_prefix ++ bundle) request_id) [
          | none ↦ err (codes "could not build the response resource")
          | some r ↦ ok (resource r)
        ]

  abbrev pub fetch_response : Bytes → Option Bytes → GResult Bool → GResult Response
  fetch_response request_id file (ok true) = bundle_response request_id file
  fetch_response request_id file (ok false) = ok (inline (0 ∷ []))
  fetch_response request_id file (err e) = ok (inline fetch_failed)

  unfoldable pub fetch_bundle_of :
      FilePath
      → List (Text × Option Text)
      → List Text
      → Bytes
      → World self
      → GResult Response × World self
  fetch_bundle_of repo_path refs shas request_id w =
      let (tmp, w') = self.host.temp_dir (codes "rngit-fetch") w in
      elim tmp [
        | none ↦ (err (codes "could not create temp dir"), w')
        | some dir ↦
            let bundle_path = join dir (codes "fetch.bundle") in
            let (made, w'') = create_fetch_bundle self.host repo_path bundle_path refs shas w' in
            (
              fetch_response request_id (self.host.read w'' bundle_path) made,
              self.host.remove_dir_all dir w'',
            )
      ]

  unfoldable pub fetch_in :
      Value self → Bytes → FilePath → World self → GResult Response × World self
  fetch_in request request_id repo_path w = elim (self.wire.as_map request) [
    | none ↦ (ok (inline invalid_request), w)
    | some map ↦ elim (do v ← find_key self (codes "refs") map; self.wire.as_array v) [
      | none ↦ (ok (inline (error_response res_invalid_req (codes "No refs specified"))), w)
      | some refs ↦ elim (fetch_refs self refs) [
        | bad response ↦ (ok (inline response), w)
        | good parsed ↦
            elim (have_shas self
              (or_nil self (do v ← find_key self (codes "have") map; self.wire.as_array v))) [
                | bad response ↦ (ok (inline response), w)
                | good shas ↦ fetch_bundle_of repo_path parsed shas request_id w
              ]
      ]
    ]
  ]

  unfoldable pub fetch_as :
      Value self → Bytes → Bytes → Text → Text → World self → GResult Response × World self
  fetch_as request request_id peer group repo w =
      if not (resolve_perm self w peer group repo Perm.read)
      then (ok (inline not_found), w)
      else elim (resolve_repo_access self w group repo) [
        | none ↦ (ok (inline not_found), w)
        | some (repo_path, repo_lists, group_lists) ↦ fetch_in request request_id repo_path w
      ]

  unfoldable pub handle_fetch :
      Option Bytes → Value self → Bytes → World self → GResult Response × World self
  handle_fetch none request request_id w = (ok (inline not_identified), w)
  handle_fetch (some peer) request request_id w = elim (repo_repository self request) [
    | none ↦ (ok (inline invalid_request), w)
    | some repo_path ↦ elim (parse_request_repository_path repo_path) [
      | none ↦ (ok (inline not_found), w)
      | some (group, repo) ↦ fetch_as request request_id peer group repo w
    ]
  ]
