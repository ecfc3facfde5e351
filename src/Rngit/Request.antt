-- ===== src/Rngit/Request.antt =====
-- src/bin/rngit/server.rs: the response codes, the reading of requests, and the checks that the
-- handlers share. A handler takes the identity of the link's peer, if it has identified itself,
-- the decoded request and the world, and returns the response with the new world.
use reticulum_router.Prelude.{
  ℕ, Bool, true, false, Option, none, some, List, [], ◌∷◌, map, if◌then◌else◌,
}
use reticulum_router.Text.{Text, Bytes, codes, text_eq, into_bytes}
use reticulum_router.Path.{FilePath}
use reticulum_router.Rngit.Perms.{◌>>=◌}
use reticulum_router.Rngit.Gitutil.{parse_request_repository_path}
use reticulum_router.Rngit.Host.{Rngit}
use reticulum_router.Rngit.Access.{World, resolve_repo_access}
use reticulum_router.Rngit.Git.{GResult, ok, err}

abbrev pub res_ok : ℕ
res_ok = 0x00

abbrev pub res_disallowed : ℕ
res_disallowed = 0x01

abbrev pub res_invalid_req : ℕ
res_invalid_req = 0x02

abbrev pub res_not_found : ℕ
res_not_found = 0x03

abbrev pub res_remote_fail : ℕ
res_remote_fail = 0xFF

abbrev pub error_response : ℕ → Text → Bytes
error_response code msg = code ∷ into_bytes msg

abbrev pub not_identified : Bytes
not_identified = error_response res_disallowed (codes "Not identified")

abbrev pub invalid_request : Bytes
invalid_request = error_response res_invalid_req (codes "Invalid request")

abbrev pub not_found : Bytes
not_found = error_response res_not_found (codes "Not found")

abbrev pub not_allowed : Bytes
not_allowed = error_response res_disallowed (codes "Not allowed")

-- What an identity without the permission is told: a reader learns that it is not allowed, and
-- everyone else nothing.
abbrev pub refusal : Bool → Bytes
refusal reader = if reader then not_allowed else not_found

abbrev pub or_false : Option Bool → Bool
or_false none = false
or_false (some b) = b

abbrev pub is_none? {ℓ} : {A : Type ℓ} → Option A → Bool
is_none? none = true
is_none? (some a) = false

abbrev pub get_or_default : Option Text → Text
get_or_default none = []
get_or_default (some s) = s

abbrev pub is_true : GResult Bool → Bool
is_true (ok b) = b
is_true (err e) = false

-- What follows an operation of a push: its response, if it has one, ends the push.
abbrev pub after_operation {ℓ} : {W : Type ℓ} → (W → Bytes × W) → Option Bytes × W → Bytes × W
after_operation next (some response, w) = (response, w)
after_operation next (none, w) = next w

module _ (self : Rngit) where
  abbrev pub Value : Type 0
  Value = self.wire.Value

  abbrev pub is_key : Text → Option Text → Bool
  is_key key none = false
  is_key key (some s) = text_eq s key

  -- `iter().find(|(k, _)| k.as_str() == Some(key)).map(|(_, v)| v)`
  unfoldable pub find_key : Text → List (Value × Value) → Option Value
  find_key key [] = none
  find_key key ((k, v) ∷ m) =
      let rest = find_key key m in if is_key key (self.wire.as_str k) then some v else rest

  unfoldable pub find_repository : List (Value × Value) → Option Value
  find_repository [] = none
  find_repository ((k, v) ∷ m) =
      let rest = find_repository m in if self.wire.is_repository_key k then some v else rest

  unfoldable pub repo_repository : Value → Option Text
  repo_repository request = do
    map ← self.wire.as_map request
    v ← find_repository map
    self.wire.as_str v

  unfoldable pub get_str : Text → List (Value × Value) → Option Text
  get_str key map = do v ← find_key key map; self.wire.as_str v

  unfoldable pub get_bool : Text → List (Value × Value) → Bool
  get_bool key map = or_false (do v ← find_key key map; self.wire.as_bool v)

  -- A key of the request itself, which may be no map.
  unfoldable pub data_bool : Text → Value → Bool
  data_bool key request =
      or_false (do map ← self.wire.as_map request; v ← find_key key map; self.wire.as_bool v)

  unfoldable pub data_str : Text → Value → Option Text
  data_str key request = do map ← self.wire.as_map request; v ← find_key key map; self.wire.as_str v

  abbrev pub Handler : Type 0
  Handler = World self → Bytes × World self

  -- The checks with which each handler of one repository begins: the peer has identified itself and
  -- the request names a group and a repository.
  unfoldable pub with_repository :
      Bytes → Option Bytes → Value → (Bytes → Text → Text → Handler) → Handler
  with_repository unparsed none request body w = (not_identified, w)
  with_repository unparsed (some peer) request body w = elim (repo_repository request) [
    | none ↦ (invalid_request, w)
    | some repo_path ↦ elim (parse_request_repository_path repo_path) [
      | none ↦ (unparsed, w)
      | some (group, repo) ↦ body peer group repo w
    ]
  ]

  -- The repository's directory, for a handler that has checked the permission.
  unfoldable pub with_path : Text → Text → (FilePath → Handler) → Handler
  with_path group repo body w = elim (resolve_repo_access self w group repo) [
    | none ↦ (not_found, w)
    | some (repo_path, repo_lists, group_lists) ↦ body repo_path w
  ]
