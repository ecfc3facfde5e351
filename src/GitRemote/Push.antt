-- ===== src/GitRemote/Push.antt =====
-- src/bin/git-remote-rns.rs and src/bin/rngit/gitutil.rs: the push commands.
use reticulum_router.Prelude.{
  Bool, true, false, not, Option, none, some, List, [], ◌∷◌, ◌++◌, is_empty, if◌then◌else◌,
}
use reticulum_router.Text.{Text, Bytes, codes}
use reticulum_router.Path.{FilePath, join}
use reticulum_router.Rngit.Host.{Host, Output}
use reticulum_router.Rngit.Gitutil.{san_ref, san_sha}
use reticulum_router.Rngit.Git.{GResult, ok, err, git, object_exists}
use reticulum_router.Rngit.Request.{is_true}
use reticulum_router.GitRemote.Parse.{HResult, done, failed, panicked, parse_push_spec}
use reticulum_router.GitRemote.State.{Env, Action, ◌>>=◌, lift, run_in, write_all, helper, request}
use reticulum_router.GitRemote.Commands.{path_push, path_delete, entry, repository, check_ok_bytes}

abbrev pub cons_arg : Text → GResult (List Text) → GResult (List Text)
cons_arg a (ok args) = ok (a ∷ args)
cons_arg a (err e) = err e

-- The two loops of `create_push_bundle` over the refs and the prerequisites.
unfoldable pub prerequisite_args : List Text → GResult (List Text)
prerequisite_args [] = ok []
prerequisite_args (p ∷ ps) =
    let rest = prerequisite_args ps in
    elim (san_sha p) [
      | none ↦ err (codes "invalid prerequisite SHA")
      | some sha ↦ cons_arg (codes "^" ++ sha) rest
    ]

unfoldable pub bundle_args : List Text → List Text → GResult (List Text)
bundle_args [] prerequisites = prerequisite_args prerequisites
bundle_args (r ∷ refs) prerequisites =
    let rest = bundle_args refs prerequisites in
    elim (san_ref r) [ none ↦ err (codes "invalid ref") | some ref_name ↦ cons_arg ref_name rest ]

module _ (host : Host) where
  abbrev pub created : GResult Output → GResult (Unit {0})
  created (err e) = err e
  created (ok out) =
      if not out.success then err (codes "could not create bundle: " ++ out.stderr) else ok tt

  abbrev pub bundle_with :
      FilePath → FilePath → GResult (List Text) → host.World → GResult (Unit {0}) × host.World
  bundle_with repo_path bundle_path (err e) w = (err e, w)
  bundle_with repo_path bundle_path (ok args) w =
      let (out, w') =
        git host repo_path
          (codes "bundle" ∷ codes "create" ∷ codes "--no-progress" ∷ bundle_path ∷ args) w in
      (created out, w')

  unfoldable pub create_push_bundle :
      FilePath → FilePath → List Text → List Text → host.World → GResult (Unit {0}) × host.World
  create_push_bundle repo_path bundle_path [] prerequisites w = (err (codes "no refs to push"), w)
  create_push_bundle repo_path bundle_path (r ∷ refs) prerequisites w =
      bundle_with repo_path bundle_path (bundle_args (r ∷ refs) prerequisites) w

  -- The objects of the server's refs that are present here.
  unfoldable pub prereqs : List (Text × Text) → host.World → List Text × host.World
  prereqs [] w = ([], w)
  prereqs ((sha, name) ∷ refs) w =
      let (found, w') = object_exists host (codes ".") sha w in
      let (rest, w'') = prereqs refs w' in (if is_true found then sha ∷ rest else rest, w'')

module _ (env : Env) where
  abbrev pub delete_request : Text → Text → env.values.Value
  delete_request repo dst =
      env.values.map_ (repository env repo ∷ entry env (codes "ref") (env.values.str dst) ∷ [])

  abbrev pub push_request : Text → Text → Text → Bool → Bytes → env.values.Value
  push_request repo src dst force bundle = env.values.map_ (
      repository env repo
      ∷ entry env (codes "local_ref") (env.values.str src)
      ∷ entry env (codes "remote_ref") (env.values.str dst)
      ∷ entry env (codes "force") (env.values.bool force)
      ∷ entry env (codes "bundle") (env.values.binary bundle)
      ∷ [])

  abbrev pub bundle_file : Option Bytes → HResult Bytes
  bundle_file none = failed (codes "could not read bundle")
  bundle_file (some b) = done b

  unfoldable pub delete_ref : Text → Action env (Unit {0})
  delete_ref dst = do
    h ← helper
    resp ← request path_delete (delete_request h.repo dst)
    lift (check_ok_bytes env resp (codes "delete failed"))

  -- The push, with the bundle in a directory.
  unfoldable pub push_with : FilePath → Bool → Text → Text → Action env (Unit {0})
  push_with tmp force src dst = do
    h ← helper
    shas ← run_in λ w. let (shas, w') = prereqs env.host h.server_refs w in (ok shas, w')
    _ ←
        run_in
          (create_push_bundle env.host (codes ".") (join tmp (codes "push.bundle")) (src ∷ []) shas)
    bundle ← λ s. (bundle_file (env.host.read s.world (join tmp (codes "push.bundle"))), s)
    resp ← request path_push (push_request h.repo src dst force bundle)
    lift (check_ok_bytes env resp (codes "push failed"))

  -- The temporary directory is removed when `TempDir` is dropped, after an error too.
  unfoldable pub push_ref : Bool → Text → Text → Action env (Unit {0})
  push_ref force src dst s =
      let (tmp, w) = env.host.temp_dir (codes "rngit-push") s.world in
      elim tmp [
        | none ↦ (failed (codes "could not create temp dir"), record s { world = w })
        | some dir ↦
            let (r, s') = push_with dir force src dst (record s { world = w }) in
            (r, record s' { world = env.host.remove_dir_all dir s'.world })
      ]

  abbrev pub unless_dry : Action env (Unit {0}) → Action env (Unit {0})
  unless_dry m s = elim s.helper.dry_run [ true ↦ (done tt, s) | false ↦ m s ]

  unfoldable pub do_push : Bool → Text → Text → Action env (Unit {0})
  do_push force src dst = elim env.git_dir [
    | none ↦ lift (failed (codes "GIT_DIR is not set"))
    | some dir ↦ unless_dry (if is_empty src then delete_ref dst else push_ref force src dst)
  ]

  -- What git is told of one push; a panic ends the helper.
  abbrev pub report : Text → HResult (Unit {0}) → HResult Text
  report dst (done _) = done (codes "ok " ++ dst ++ 10 ∷ [])
  report dst (failed e) = done (codes "error " ++ dst ++ codes " " ++ e ++ 10 ∷ [])
  report dst panicked = panicked

  unfoldable pub push_one : Text → Action env (Unit {0})
  push_one spec = do
    (force, src, dst) ← lift (parse_push_spec spec)
    line ← λ s. let (r, s') = do_push force src dst s in (report dst r, s')
    write_all line

  unfoldable pub push_all : List Text → Action env (Unit {0})
  push_all [] = lift (done tt)
  push_all (spec ∷ specs) = do _ ← push_one spec; push_all specs

  unfoldable pub do_push_batch : List Text → Action env (Unit {0})
  do_push_batch batch = do _ ← push_all batch; write_all (10 ∷ [])
