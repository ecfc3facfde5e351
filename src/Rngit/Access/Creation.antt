-- ===== src/Rngit/Access/Creation.antt =====
-- Creating a repository gives its creator every permission on it.
use reticulum_router.Prelude.{
  length, any, ◌≡◌, inl, inr, true, false, none, some, [], ◌∷◌, arith, Bool-cases,
}
use reticulum_router.Text.{Text, Bytes, codes, lookup}
use reticulum_router.Path.{FilePath}
use reticulum_router.Rngit.Perms.{
  is_none, is_all, Perm, AccessLists, list_for, contains_identity, resolve_permission,
}
use reticulum_router.Rngit.Gitutil.{repo_dir, acl_path}
use reticulum_router.Rngit.Host.{Host, Rngit}
use reticulum_router.Rngit.Access.{
  World, repo_access, resolve_repo_access, is_blocked, resolve_perm,
}
use reticulum_router.Rngit.Git.{is_ok, git, succeeded, write_acl, init_at, ran, create_at}
use reticulum_router.Text.Laws.{text_eq_refl}
use reticulum_router.Hex.{IsBytes}
use reticulum_router.Rngit.Perms.Creator.{creator_entry, admin_only, permissions-creator_entry}

-- What the operating system and `git init` document and the creation of a repository relies on.
pub record KeepsFiles (host : Host) : Type 0 where
  pub made :
      (p : FilePath) (w : host.World)
      → (host.create_dir_all p w).0 ≡ true
      → host.is_dir (host.create_dir_all p w).1 p ≡ true
  pub make_keeps :
      (p q : FilePath) (w : host.World)
      → host.is_dir w q ≡ true
      → host.is_dir (host.create_dir_all p w).1 q ≡ true
  pub init_keeps :
      (p q : FilePath) (w : host.World)
      → host.is_dir w q ≡ true
      → host.is_dir (host.git p (codes "init" ∷ codes "--bare" ∷ []) w).1 q ≡ true
  pub write_keeps :
      (p q : FilePath) (t : Text) (w : host.World)
      → host.is_dir w q ≡ true
      → host.is_dir (host.write p t w).1 q ≡ true
  pub written :
      (p : FilePath) (t : Text) (w : host.World)
      → (host.write p t w).0 ≡ true
      → host.read_to_string (host.write p t w).1 p ≡ some t

-- A directory that `create_repository` has set up for a creator.
pub record IsSetUp (host : Host) (before after : host.World) (path : FilePath) (creator_hash : Text)
    : Type 0 where
  pub is_there : host.is_dir after path ≡ true
  pub keeps : (q : FilePath) → host.is_dir before q ≡ true → host.is_dir after q ≡ true
  pub acl : host.read_to_string after (acl_path path) ≡ some (creator_entry creator_hash)

module _ (host : Host) (laws : KeepsFiles host) (path : FilePath) (creator_hash : Text)
    (w : host.World) where
  write_acl-IsSetUp :
      (v : host.World)
      → host.is_dir v path ≡ true
      → ((q : FilePath) → host.is_dir w q ≡ true → host.is_dir v q ≡ true)
      → is_ok (write_acl host path creator_hash v).0 ≡ true
      → IsSetUp host w (write_acl host path creator_hash v).1 path creator_hash
  unfolding write_acl creator_entry
  write_acl-IsSetUp v there keeps h =
      elim (Bool-cases (host.write (acl_path path) (creator_entry creator_hash) v).0) [
        | inl e ↦ rw e (record {
          is_there = laws.write_keeps (acl_path path) path (creator_entry creator_hash) v there;
          keeps =
              λ q k. laws.write_keeps (acl_path path) q (creator_entry creator_hash) v (keeps q k);
          acl = laws.written (acl_path path) (creator_entry creator_hash) v e;
        })
        | inr e ↦ cc (rw e at h)
      ]

  init_at-IsSetUp :
      (v : host.World)
      → host.is_dir v path ≡ true
      → ((q : FilePath) → host.is_dir w q ≡ true → host.is_dir v q ≡ true)
      → is_ok (init_at host path creator_hash v).0 ≡ true
      → IsSetUp host w (init_at host path creator_hash v).1 path creator_hash
  unfolding init_at git
  init_at-IsSetUp v there keeps h =
      elim (Bool-cases
        (succeeded host (ran (host.git path (codes "init" ∷ codes "--bare" ∷ []) v).0))) [
          | inl e ↦ rw e (
              write_acl-IsSetUp _ (laws.init_keeps path path v there)
                (λ q k. laws.init_keeps path q v (keeps q k)) (rw e at h))
          | inr e ↦ cc (rw e at h)
        ]

  pub create_at-IsSetUp :
      is_ok (create_at host path creator_hash w).0 ≡ true
      → IsSetUp host w (create_at host path creator_hash w).1 path creator_hash
  unfolding create_at
  create_at-IsSetUp h = elim (Bool-cases (host.create_dir_all path w).0) [
    | inl e ↦
        rw e
          (init_at-IsSetUp _ (laws.made path w e) (λ q k. laws.make_keeps path q w k) (rw e at h))
    | inr e ↦ cc (rw e at h)
  ]

-- The only admin of a repository has every permission on it, whatever the group's lists say.
resolve_permission-admin_only :
    (h : Bytes) (group : AccessLists) (perm : Perm)
    → resolve_permission (admin_only h) group h perm ≡ true
unfolding resolve_permission list_for any is_none is_all contains_identity
resolve_permission-admin_only h group Perm.admin = ground (arith, text_eq_refl h)
resolve_permission-admin_only h group Perm.read = ground (arith, text_eq_refl h)
resolve_permission-admin_only h group _ = ground (arith, text_eq_refl h)

module _ (self : Rngit) (peer : Bytes) where
  -- An identity hash of 16 bytes that is not blocked and that no alias is named after.
  pub record IsIdentity : Type 0 where
    pub bytes : IsBytes peer
    pub size : length peer ≡ 16
    pub no_alias : lookup (self.hex.encode peer) self.cfg.aliases ≡ none
    pub not_blocked : is_blocked self peer ≡ false

  module _ (known : IsIdentity) (before after : World self) (group repo : Text)
      (group_path path : FilePath) where
    repo_access-creator :
        IsSetUp self.host before after path (self.hex.encode peer)
        → repo_access self after path ≡ admin_only peer
    unfolding repo_access
    repo_access-creator s =
        rw (s.acl, repo_access)
          (permissions-creator_entry self.hex peer self.cfg.aliases known.bytes known.size
            known.no_alias)

    pub resolve_perm-creator :
        lookup group self.cfg.repositories ≡ some group_path
        → self.host.is_dir before group_path ≡ true
        → repo_dir group_path repo ≡ some path
        → IsSetUp self.host before after path (self.hex.encode peer)
        → (perm : Perm) → resolve_perm self after peer group repo perm ≡ true
    unfolding resolve_perm resolve_repo_access
    resolve_perm-creator l d p s perm =
        rw (known.not_blocked, l, s.keeps group_path d, p, s.is_there, repo_access-creator s)
          (resolve_permission-admin_only peer _ perm)
