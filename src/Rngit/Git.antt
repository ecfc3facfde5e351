-- ===== src/Rngit/Git.antt =====
-- src/bin/rngit/gitutil.rs: the operations on repositories, which run `git`.
-- A result's error is the message; the messages reach the log only.

use reticulum_router.Prelude.{
  is_empty, String, Bool, true, false, not, ◌&&◌, Option, none, some, List, [], ◌∷◌, ◌++◌,
  if◌then◌else◌,
}
use reticulum_router.Text.{Text, Bytes, codes, text_eq, trim, starts_with}
use reticulum_router.Path.{FilePath, join}
use reticulum_router.Rngit.Gitutil.{san_ref, san_sha, repo_dir, acl_path}
use reticulum_router.Rngit.Host.{Output, Host}

pub data GResult {ℓ} (A : Type ℓ) : Type ℓ where
  ok : A → GResult A
  err : Text → GResult A

abbrev pub is_ok {ℓ} : {A : Type ℓ} → GResult A → Bool
is_ok (ok a) = true
is_ok (err e) = false

abbrev pub refs_prefix : Text
refs_prefix = codes "refs/"

abbrev pub ran : Option Output → GResult Output
ran none = err (codes "could not run git")
ran (some o) = ok o

module _ (host : Host) where
  -- A step that may fail; the world stays changed after an error.
  abbrev pub Exec : Type 0 → Type 0
  Exec A = host.World → GResult A × host.World

  infixl 5 ◌>>=◌ ◌>>◌
  abbrev pub continue : {A B : Type 0} → GResult A → (A → Exec B) → Exec B
  continue (ok a) f w = f a w
  continue (err e) f w = (err e, w)

  abbrev pub ◌>>=◌ : {A B : Type 0} → Exec A → (A → Exec B) → Exec B
  ◌>>=◌ m f w = let (r, w') = m w in continue r f w'

  abbrev pub ◌>>◌ : {A B : Type 0} → Exec A → Exec B → Exec B
  m >> k = m >>= λ _. k

  abbrev pub pure : {A : Type 0} → A → Exec A
  pure a w = (ok a, w)

  abbrev pub raise : {A : Type 0} → String → Exec A
  raise e w = (err (codes e), w)

  -- `.ok_or(e)?`
  abbrev pub ok_or : {A : Type 0} → Option A → String → Exec A
  ok_or none e w = (err (codes e), w)
  ok_or (some a) e w = (ok a, w)

  unfoldable pub git : FilePath → List Text → Exec Output
  git repo_path args w = let (out, w') = host.git repo_path args w in (ran out, w')

  abbrev pub succeeded : GResult Output → Bool
  succeeded (ok o) = o.success
  succeeded (err e) = false

  unfoldable pub object_exists : FilePath → Text → Exec Bool
  object_exists repo_path sha w =
      let (r, w') = git repo_path (codes "cat-file" ∷ codes "-t" ∷ sha ∷ []) w in
      (ok (succeeded r), w')

  unfoldable pub ref_exists : FilePath → Text → Exec Bool
  ref_exists repo_path ref_name w =
      let (r, w') =
        git repo_path (codes "rev-parse" ∷ codes "--verify" ∷ codes "--quiet" ∷ ref_name ∷ []) w in
      (ok (succeeded r), w')

  -- An existing ref at another object needs `force`.
  unfoldable pub needs_force : Output → Text → Bool → Bool
  needs_force rev sha force =
      rev.success
      && not (is_empty (trim rev.stdout))
      && not (text_eq (trim rev.stdout) sha)
      && not force

  unfoldable pub update_ref : FilePath → Text → Text → Bool → Exec (Unit {0})
  update_ref repo_path ref_name' sha' force = do
    ref_name ← ok_or (san_ref ref_name') "invalid ref"
    if not (starts_with refs_prefix ref_name) then raise "invalid ref" else do
      sha ← ok_or (san_sha sha') "invalid SHA"
      found ← object_exists repo_path sha
      if not found then raise "object does not exist in repository" else do
        rev ← git repo_path (codes "rev-parse" ∷ ref_name ∷ [])
        if needs_force rev sha force
            then raise "ref already exists at different SHA (force required)"
            else do
              update ← git repo_path (codes "update-ref" ∷ ref_name ∷ sha ∷ [])
              if not update.success then raise "could not update ref" else pure tt

  unfoldable pub delete_ref : FilePath → Text → Exec (Unit {0})
  delete_ref repo_path ref_name' = do
    ref_name ← ok_or (san_ref ref_name') "invalid ref"
    if not (starts_with refs_prefix ref_name) then raise "invalid ref" else do
      found ← ref_exists repo_path ref_name
      if not found then raise "ref does not exist" else do
        del ← git repo_path (codes "update-ref" ∷ codes "-d" ∷ ref_name ∷ [])
        if not del.success then raise "could not delete ref" else pure tt

  unfoldable pub apply_in : FilePath → FilePath → Bytes → Text → Text → Bool → Exec (Unit {0})
  apply_in repo_path bundle_path bundle_data local_ref' remote_ref' force = do
    written ← λ w. let (b, w') = host.write_bytes bundle_path bundle_data w in (ok b, w')
    if not written then raise "could not write bundle file" else do
      verify ← git repo_path (codes "bundle" ∷ codes "verify" ∷ bundle_path ∷ [])
      if not verify.success then raise "bundle verification failed" else do
        local_ref ← ok_or (san_ref local_ref') "invalid local ref"
        remote_ref ← ok_or (san_ref remote_ref') "invalid remote ref"
        let forced = if force then codes "--force" ∷ [] else []
        fetch ←
            git repo_path
              (codes "fetch" ∷ bundle_path ∷ (local_ref ++ codes ":" ++ remote_ref) ∷ forced)
        if not fetch.success then raise "bundle fetch failed" else pure tt

  -- The temporary directory is removed when `TempDir` is dropped, after an error too.
  unfoldable pub apply_push_bundle : FilePath → Bytes → Text → Text → Bool → Exec (Unit {0})
  apply_push_bundle repo_path bundle_data local_ref remote_ref force w =
      let (tmp, w') = host.temp_dir (codes "rngit-push") w in
      elim tmp [
        | none ↦ (err (codes "could not create temp dir"), w')
        | some dir ↦
            let (r, w'') =
              apply_in repo_path (join dir (codes "push.bundle")) bundle_data local_ref remote_ref
                force w' in
            (r, host.remove_dir_all dir w'')
      ]

  -- The three steps of `create_repository` that change files; a failure removes the directory.
  unfoldable pub write_acl : FilePath → Text → Exec (Unit {0})
  write_acl repo_path creator_hash w =
      let (written, w') =
        host.write (acl_path repo_path) (codes "adm:" ++ creator_hash ++ 10 ∷ []) w in
      if not written
      then (err (codes "could not set repository permissions"), host.remove_dir_all repo_path w')
      else (ok tt, w')

  unfoldable pub init_at : FilePath → Text → Exec (Unit {0})
  init_at repo_path creator_hash w =
      let (init, w') = git repo_path (codes "init" ∷ codes "--bare" ∷ []) w in
      if not (succeeded init)
      then (err (codes "could not initialize repository"), host.remove_dir_all repo_path w')
      else write_acl repo_path creator_hash w'

  unfoldable pub create_at : FilePath → Text → Exec (Unit {0})
  create_at repo_path creator_hash w =
      let (made, w') = host.create_dir_all repo_path w in
      if not made
      then (err (codes "could not create dir"), w')
      else init_at repo_path creator_hash w'

  unfoldable pub create_repository : FilePath → Text → Text → Exec (Unit {0})
  create_repository group_path repo_name creator_hash w = elim (repo_dir group_path repo_name) [
    | none ↦ (err (codes "invalid repository name"), w)
    | some repo_path ↦
        if host.exists w repo_path
        then (err (codes "repository already exists"), w)
        else create_at repo_path creator_hash w
  ]
