-- ===== src/Rngit/Server/Denied.antt =====
-- Only an identity with the permission changes a repository, and what the others are told.
use reticulum_router.Prelude.{
  ◌≡◌, refl, ◌≢◌, ◌⊎◌, inl, inr, true, false, Option, none, some, Bool-cases, Option-cases,
}
use reticulum_router.Text.{Text, Bytes, lookup}
use reticulum_router.Rngit.Perms.{Perm}
use reticulum_router.Rngit.Gitutil.{parse_request_repository_path}
use reticulum_router.Rngit.Host.{Rngit}
use reticulum_router.Rngit.Access.{World, resolve_perm, resolve_group_perm, repo_missing}
use reticulum_router.Rngit.Request.{
  invalid_request, not_found, Value, repo_repository, Handler, with_repository,
}
use reticulum_router.Rngit.Server.{
  create_repo_on_push, push_as, handle_push, delete_as, handle_delete, create_as, handle_create,
}

-- The request names the repository of the group.
unfoldable pub Names : (self : Rngit) → Value self → Text → Text → Type 0
Names self request group repo =
    (path : Text) × (repo_repository self request ≡ some path)
    × (parse_request_repository_path path ≡ some (group, repo))

-- What is known where the shared checks of a handler have passed.
pub record Reached (self : Rngit) (peer : Option Bytes) (request : Value self)
    (body : Bytes → Text → Text → Handler self) (w : World self) (result : Bytes × World self)
    : Type 0 where
  pub id : Bytes
  pub group : Text
  pub repo : Text
  pub identified : peer ≡ some id
  pub names : Names self request group repo
  pub runs : result ≡ body id group repo w

module _ (self : Rngit) (unparsed : Bytes) (request : Value self)
    (body : Bytes → Text → Text → Handler self) (w : World self) where
  -- A handler's shared checks leave the world alone, or its body runs on what the request names.
  pub with_repository-cases :
      (peer : Option Bytes)
      → ((with_repository self unparsed peer request body w).1 ≡ w)
        ⊎ Reached self peer request body w (with_repository self unparsed peer request body w)
  unfolding with_repository
  with_repository-cases none = inl refl
  with_repository-cases (some p) = elim (Option-cases (repo_repository self request)) [
    | inl e ↦ inl (rw (e, with_repository))
    | inr (path, e) ↦ elim (Option-cases (parse_request_repository_path path)) [
      | inl f ↦ inl (rw (e, f, with_repository))
      | inr ((g, r), f) ↦ inr (record {
        id = p;
        group = g;
        repo = r;
        identified = refl;
        names = unfold Names in (path, e, f);
        runs = rw (e, f, with_repository);
      })
    ]
  ]

module _ (self : Rngit) (w : World self) (peer : Bytes) (group repo : Text) where
  -- What a push to a repository needs.
  pub MayPush : Type 0
  MayPush =
      (resolve_perm self w peer group repo Perm.write ≡ true)
      ⊎ ((repo_missing self w group repo ≡ true)
          × (resolve_group_perm self w peer group Perm.create ≡ true))

  create_repo_on_push-world :
      (create_repo_on_push self peer group repo w ≡ (false, w))
      ⊎ ((repo_missing self w group repo ≡ true)
          × (resolve_group_perm self w peer group Perm.create ≡ true))
  unfolding create_repo_on_push
  create_repo_on_push-world = elim (Bool-cases (repo_missing self w group repo)) [
    | inr m ↦ inl (rw m)
    | inl m ↦ elim (Bool-cases (resolve_group_perm self w peer group Perm.create)) [
      | inr c ↦ inl (rw (m, c))
      | inl c ↦ inr (m, c)
    ]
  ]

  pub push_as-MayPush :
      (request : Value self) → (push_as self request peer group repo w).1 ≢ w → MayPush
  unfolding push_as MayPush
  push_as-MayPush request changed =
      elim (Bool-cases (resolve_perm self w peer group repo Perm.write)) [
        | inl a ↦ inl a
        | inr a ↦ elim create_repo_on_push-world [
          | inr c ↦ inr c
          | inl c ↦ absurd (changed (rw (a, c) refl))
        ]
      ]

  pub delete_as-write :
      (request : Value self)
      → (delete_as self request peer group repo w).1 ≢ w
      → resolve_perm self w peer group repo Perm.write ≡ true
  unfolding delete_as
  delete_as-write request changed =
      elim (Bool-cases (resolve_perm self w peer group repo Perm.write)) [
        | inl a ↦ a
        | inr a ↦ absurd (changed (rw a refl))
      ]

  pub create_as-create :
      (create_as self peer group repo w).1 ≢ w
      → resolve_group_perm self w peer group Perm.create ≡ true
  unfolding create_as
  create_as-create changed = elim (Option-cases (lookup group self.cfg.repositories)) [
    | inl n ↦ absurd (changed (rw (n, create_as) refl))
    | inr (p, e) ↦ elim (Bool-cases (self.host.is_dir w p)) [
      | inr d ↦ absurd (changed (rw (e, d, create_as) refl))
      | inl d ↦ elim (Bool-cases (resolve_group_perm self w peer group Perm.create)) [
        | inl a ↦ a
        | inr a ↦ absurd (changed (rw (e, d, a, create_as) refl))
      ]
    ]
  ]

-- A push that changes anything comes from an identity that has identified itself and that may write
-- to the repository which the request names, or may create it in its group while it is missing.
pub handle_push-MayPush :
    (self : Rngit) (peer : Option Bytes) (request : Value self) (w : World self)
    → (handle_push self peer request w).1 ≢ w
    → (p : Bytes) × (g : Text) × (r : Text) × (peer ≡ some p)
      × Names self request g r
      × MayPush self w p g r
unfolding handle_push
handle_push-MayPush self peer request w changed =
    elim (with_repository-cases self not_found request (push_as self request) w peer) [
      | inl same ↦ absurd (changed same)
      | inr c ↦ (
        c.id,
        c.group,
        c.repo,
        c.identified,
        c.names,
        push_as-MayPush self w c.id c.group c.repo request (λ e. changed (rw c.runs e)),
      )
    ]

-- A deletion that changes anything comes from an identity that may write to the repository.
pub handle_delete-write :
    (self : Rngit) (peer : Option Bytes) (request : Value self) (w : World self)
    → (handle_delete self peer request w).1 ≢ w
    → (p : Bytes) × (g : Text) × (r : Text) × (peer ≡ some p)
      × Names self request g r
      × (resolve_perm self w p g r Perm.write ≡ true)
unfolding handle_delete
handle_delete-write self peer request w changed =
    elim (with_repository-cases self not_found request (delete_as self request) w peer) [
      | inl same ↦ absurd (changed same)
      | inr c ↦ (
        c.id,
        c.group,
        c.repo,
        c.identified,
        c.names,
        delete_as-write self w c.id c.group c.repo request (λ e. changed (rw c.runs e)),
      )
    ]

-- A creation that changes anything comes from an identity that may create in the group.
pub handle_create-create :
    (self : Rngit) (peer : Option Bytes) (request : Value self) (w : World self)
    → (handle_create self peer request w).1 ≢ w
    → (p : Bytes) × (g : Text) × (r : Text) × (peer ≡ some p)
      × Names self request g r
      × (resolve_group_perm self w p g Perm.create ≡ true)
unfolding handle_create
handle_create-create self peer request w changed =
    elim (with_repository-cases self invalid_request request (create_as self) w peer) [
      | inl same ↦ absurd (changed same)
      | inr c ↦ (
        c.id,
        c.group,
        c.repo,
        c.identified,
        c.names,
        create_as-create self w c.id c.group c.repo (λ e. changed (rw c.runs e)),
      )
    ]
