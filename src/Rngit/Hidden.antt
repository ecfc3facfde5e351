-- ===== src/Rngit/Hidden.antt =====
-- What an identity without permissions learns about a repository.
use reticulum_router.Prelude.{
  any, any-append, List, ◌∷◌, ◌++◌, ◌≡◌, refl, ◌∙◌, inl, inr, true, false, ◌&&◌, some, arith,
  Bool-cases,
}
use reticulum_router.Text.{Text, Bytes, text_eq, to_lowercase}
use reticulum_router.Text.Laws.{text_eq_refl}
use reticulum_router.Rngit.Perms.{Perm}
use reticulum_router.Rngit.Host.{Rngit}
use reticulum_router.Rngit.Access.{
  World, is_blocked, resolve_perm, resolve_group_perm, repo_missing, eq_ignore_ascii_case,
}
use reticulum_router.Rngit.Git.{ok}
use reticulum_router.Rngit.Request.{not_found, Value, Handler, with_repository}
use reticulum_router.Rngit.Server.{
  create_repo_on_push, push_as, handle_push, delete_as, handle_delete,
}
use reticulum_router.Rngit.Listing.{list_as, handle_list}
use reticulum_router.Rngit.Fetch.{inline, fetch_as, handle_fetch}
use mathlib.Core.Bool.{true≢false}
use reticulum_router.Rngit.Server.Denied.{Names}

-- The identity may neither read nor write the repository, nor create it while it is missing.
pub record IsStranger (self : Rngit) (w : World self) (peer : Bytes) (group repo : Text)
    : Type 0 where
  pub no_read : resolve_perm self w peer group repo Perm.read ≡ false
  pub no_write : resolve_perm self w peer group repo Perm.write ≡ false
  pub no_create :
      (repo_missing self w group repo && resolve_group_perm self w peer group Perm.create) ≡ false

module _ (self : Rngit) (w : World self) (peer : Bytes) (group repo : Text)
    (stranger : IsStranger self w peer group repo) where
  list_as-stranger :
      (request : Value self) → list_as self request peer group repo w ≡ (not_found, w)
  unfolding list_as
  list_as-stranger request =
      rw (stranger.no_read, stranger.no_write, stranger.no_create) (ground arith)

  create_repo_on_push-stranger : create_repo_on_push self peer group repo w ≡ (false, w)
  unfolding create_repo_on_push
  create_repo_on_push-stranger = elim (Bool-cases (repo_missing self w group repo)) [
    | inr m ↦ rw m refl
    | inl m ↦ elim (Bool-cases (resolve_group_perm self w peer group Perm.create)) [
      | inr c ↦ rw (m, c) refl
      | inl c ↦ absurd (true≢false (rw (m, c) at (stranger.no_create)))
    ]
  ]

  push_as-stranger :
      (request : Value self) → push_as self request peer group repo w ≡ (not_found, w)
  unfolding push_as
  push_as-stranger request =
      rw (stranger.no_read, stranger.no_write, create_repo_on_push-stranger) refl

  delete_as-stranger :
      (request : Value self) → delete_as self request peer group repo w ≡ (not_found, w)
  unfolding delete_as
  delete_as-stranger request = rw (stranger.no_read, stranger.no_write) refl

  fetch_as-stranger :
      (request : Value self) (id : Bytes)
      → fetch_as self request id peer group repo w ≡ (ok (inline not_found), w)
  unfolding fetch_as
  fetch_as-stranger request id = rw (stranger.no_read) refl

with_repository-Names :
    (self : Rngit) (unparsed : Bytes) (request : Value self)
    (body : Bytes → Text → Text → Handler self) (w : World self) (peer : Bytes) (group repo : Text)
    → Names self request group repo
    → with_repository self unparsed (some peer) request body w ≡ body peer group repo w
unfolding with_repository Names
with_repository-Names self unparsed request body w peer group repo (path, e, f) =
    rw (e, f, with_repository) refl

-- Whatever it requests, an identity that may neither read nor write a repository, nor create it
-- while it is missing, is told `Not found` and changes nothing: by a listing, a fetch, a push and a
-- deletion alike, whether the repository is there or not.
pub stranger_not_found :
    (self : Rngit) (w : World self) (peer : Bytes) (group repo : Text) (request : Value self)
    (request_id : Bytes)
    → IsStranger self w peer group repo
    → Names self request group repo
    → (handle_list self (some peer) request w ≡ (not_found, w))
      × (handle_fetch self (some peer) request request_id w ≡ (ok (inline not_found), w))
      × (handle_push self (some peer) request w ≡ (not_found, w))
      × (handle_delete self (some peer) request w ≡ (not_found, w))
unfolding handle_list handle_fetch handle_push handle_delete Names
stranger_not_found self w peer group repo request request_id stranger names = (
  with_repository-Names self not_found request (list_as self request) w peer group repo names
      ∙ list_as-stranger self w peer group repo stranger request,
  rw (names.1, names.2, handle_fetch)
      (fetch_as-stranger self w peer group repo stranger request request_id),
  with_repository-Names self not_found request (push_as self request) w peer group repo names
      ∙ push_as-stranger self w peer group repo stranger request,
  with_repository-Names self not_found request (delete_as self request) w peer group repo names
      ∙ delete_as-stranger self w peer group repo stranger request,
)

listed-is_blocked :
    (self : Rngit) (peer : Bytes) (before after : List Text) (h : Text)
    → self.cfg.blocked_identities ≡ before ++ h ∷ after
    → to_lowercase h ≡ to_lowercase (self.hex.encode peer)
    → is_blocked self peer ≡ true
unfolding is_blocked eq_ignore_ascii_case any
listed-is_blocked self peer before after h listed same =
    rw
      (
        listed,
        any-append (λ x. text_eq (to_lowercase x) (to_lowercase (self.hex.encode peer))) before
            (h ∷ after),
        same,
        text_eq_refl (to_lowercase (self.hex.encode peer)),
      )
      (ground arith)

-- An identity whose hash, in hexadecimal digits of either case, stands anywhere in the list of
-- blocked identities may neither read nor write any repository of any group, whatever the access
-- lists say, nor create one that is missing.
pub blocked-IsStranger :
    (self : Rngit) (w : World self) (peer : Bytes) (group repo : Text) (before after : List Text)
    (h : Text)
    → self.cfg.blocked_identities ≡ before ++ h ∷ after
    → to_lowercase h ≡ to_lowercase (self.hex.encode peer)
    → IsStranger self w peer group repo
unfolding resolve_perm resolve_group_perm
blocked-IsStranger self w peer group repo before after h listed same =
    let blocked = listed-is_blocked self peer before after h listed same in
    record {
      no_read = rw blocked refl;
      no_write = rw blocked refl;
      no_create = rw blocked (ground arith);
    }
