-- ===== src/Rngit/Server/Creator.antt =====
-- An identity that creates a repository, by a request or by its first push, may use it.
use reticulum_router.Prelude.{
  ◌≡◌, inl, inr, Bool, true, false, not, some, arith, Bool-cases, Option-cases,
}
use reticulum_router.Text.{Text, Bytes, lookup}
use reticulum_router.Path.{FilePath}
use reticulum_router.Rngit.Perms.{Perm}
use reticulum_router.Rngit.Gitutil.{repo_dir}
use reticulum_router.Rngit.Host.{Rngit}
use reticulum_router.Rngit.Access.{World, resolve_perm, resolve_group_perm, repo_missing}
use reticulum_router.Rngit.Git.{is_ok, create_repository}
use reticulum_router.Rngit.Server.{create_repo_on_push}
use mathlib.Core.Bool.{false≢true}
use reticulum_router.Rngit.Access.Creation.{
  KeepsFiles, create_at-IsSetUp, IsIdentity, resolve_perm-creator,
}

not-true : (b : Bool) → not b ≡ true → b ≡ false
not-true b h = ground arith

module _ (self : Rngit) (laws : KeepsFiles self.host) (peer : Bytes) (known : IsIdentity self peer)
    (w : World self) (group repo : Text) where
  -- After a successful creation the creator has every permission on the repository.
  create_repository-resolve_perm :
      (group_path : FilePath)
      → lookup group self.cfg.repositories ≡ some group_path
      → self.host.is_dir w group_path ≡ true
      → is_ok (create_repository self.host group_path repo (self.hex.encode peer) w).0 ≡ true
      → (perm : Perm)
      → resolve_perm self
          (create_repository self.host group_path repo (self.hex.encode peer) w).1
          peer
          group
          repo
          perm
        ≡ true
  unfolding create_repository
  create_repository-resolve_perm group_path l d h perm =
      elim (Option-cases (repo_dir group_path repo)) [
        | inl n ↦ absurd (false≢true (rw (n, create_repository) at h))
        | inr (path, p) ↦ elim (Bool-cases (self.host.exists w path)) [
          | inl e ↦ absurd (false≢true (rw (p, e, create_repository) at h))
          | inr e ↦
              rw (p, e, create_repository)
                (resolve_perm-creator self peer known w _ group repo group_path path l d p
                  (create_at-IsSetUp self.host laws path (self.hex.encode peer) w
                    (rw (p, e, create_repository) at h))
                  perm)
        ]
      ]

  missing-is_dir :
      (group_path : FilePath)
      → lookup group self.cfg.repositories ≡ some group_path
      → repo_missing self w group repo ≡ true
      → self.host.is_dir w group_path ≡ true
  unfolding repo_missing
  missing-is_dir gp l m = elim (Bool-cases (self.host.is_dir w gp)) [
    | inl d ↦ d
    | inr d ↦ absurd (false≢true (rw (l, d, repo_missing) at m))
  ]

  -- When a first push has created the repository, its identity has every permission on it, where a
  -- file that is written can be read back, directories that are made are there and none goes away,
  -- the identity is a hash of 16 bytes that is not blocked, and no alias of the configuration is
  -- spelled like the hexadecimal form of that hash.
  pub create_repo_on_push-resolve_perm :
      (create_repo_on_push self peer group repo w).0 ≡ true
      → (perm : Perm)
      → resolve_perm self (create_repo_on_push self peer group repo w).1 peer group repo perm ≡ true
  unfolding create_repo_on_push
  create_repo_on_push-resolve_perm h perm = elim (Bool-cases (repo_missing self w group repo)) [
    | inr m ↦ absurd (false≢true (rw m at h))
    | inl m ↦ elim (Bool-cases (resolve_group_perm self w peer group Perm.create)) [
      | inr c ↦ absurd (false≢true (rw (m, c) at h))
      | inl c ↦ elim (Option-cases (lookup group self.cfg.repositories)) [
        | inl n ↦ absurd (false≢true (rw (m, c, n, create_repo_on_push) at h))
        | inr (gp, l) ↦
            rw (m, c, l, create_repo_on_push)
              (create_repository-resolve_perm gp l (missing-is_dir gp l m)
                (rw (m, c, l, create_repo_on_push) at h) perm)
      ]
    ]
  ]
