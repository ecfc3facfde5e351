-- ===== src/GitRemote/Fetching.antt =====
-- What the server answers to the helper's fetch.
use reticulum_router.Prelude.{
  any, ◌≡◌, refl, true, Option, none, some, List, [], ◌∷◌, ◌++◌, map, arith,
}
use reticulum_router.Text.{
  Text, Bytes, codes, text_eq, contains_char, starts_with, splitn, split_once,
}
use reticulum_router.Path.{FilePath}
use reticulum_router.Rngit.Perms.{Perm, AccessLists}
use reticulum_router.Rngit.Gitutil.{san_ref, parse_request_repository_path}
use reticulum_router.Rngit.Host.{Wire, Rngit}
use reticulum_router.Rngit.Access.{World, resolve_perm, resolve_repo_access}
use reticulum_router.Rngit.Git.{ok}
use reticulum_router.Rngit.Request.{
  invalid_request, find_key, find_repository, repo_repository, get_str,
}
use reticulum_router.Rngit.Fetch.{
  bad, inline, fetch_ref, fetch_refs, fetch_in, fetch_as, handle_fetch,
}
use reticulum_router.GitRemote.Parse.{done, parse_fetch_line}
use reticulum_router.GitRemote.State.{Values, Env, State}
use reticulum_router.GitRemote.Commands.{fetch_request, ref_request}
use reticulum_router.GitRemote.Loop.{commands, fetching, command, run}

-- The server reads the values that a request is built of.
pub record IsDecoding (v : Values) (wire : Wire) (decode : v.Value → wire.Value) : Type 0 where
  pub map_ :
      (ps : List (v.Value × v.Value))
      → wire.as_map (decode (v.map_ ps)) ≡ some (map (λ p. (decode p.0, decode p.1)) ps)
  pub array : (vs : List v.Value) → wire.as_array (decode (v.array vs)) ≡ some (map decode vs)
  pub str : (s : Text) → wire.as_str (decode (v.str s)) ≡ some s
  pub int : wire.as_str (decode (v.int 0)) ≡ none
  pub key : wire.is_repository_key (decode (v.int 0)) ≡ true

pub san_ref_space : (s : Text) → contains_char b' ' s ≡ true → san_ref s ≡ none
unfolding san_ref
san_ref_space s h = ground (arith, h)

contains_space : (s t : Text) → contains_char b' ' (s ++ b' ' ∷ t) ≡ true
unfolding contains_char any
contains_space [] t = refl
contains_space (c ∷ s) t = ground (arith, contains_space s t)

-- The line of a fetch.
abbrev pub fetch_text : Text → Text → Text
fetch_text oid name = codes "fetch " ++ oid ++ b' ' ∷ name

-- What the helper takes for the object and the name of the first line.
abbrev pub first_ref : Text → Text → Text × Text
first_ref oid name = (codes "fetch", oid ++ b' ' ∷ name)

parse_fetch_line-fetch_text :
    (oid name : Text) → parse_fetch_line (fetch_text oid name) ≡ done (first_ref oid name)
unfolding parse_fetch_line splitn split_once
parse_fetch_line-fetch_text oid name = refl

command-fetch_text :
    (env : Env) (oid name : Text) (s : State env)
    → command env (fetch_text oid name) s ≡ (done (fetching (first_ref oid name ∷ [])), s)
unfolding command text_eq starts_with
command-fetch_text env oid name s = rw (parse_fetch_line-fetch_text oid name) refl

module _ (env : Env) (self : Rngit) (decode : env.values.Value → self.wire.Value)
    (d : IsDecoding env.values self.wire decode) where
  fetch_ref-space :
      (oid name : Text)
      → contains_char b' ' name ≡ true
      → fetch_ref self (decode (ref_request env (oid, name))) ≡ bad invalid_request
  unfolding fetch_ref get_str find_key text_eq
  fetch_ref-space oid name h =
      rw (fetch_ref, d.map_, get_str, find_key, d.str, text_eq, d.str name, san_ref_space name h)
        refl

  abbrev pub asked : Text → Text → Text → List (Text × Text) → List Text → self.wire.Value
  asked repo oid name rest have = decode (fetch_request env repo (first_ref oid name ∷ rest) have)

  repo_repository-asked :
      (repo oid name : Text) (rest : List (Text × Text)) (have : List Text)
      → repo_repository self (asked repo oid name rest have) ≡ some repo
  unfolding repo_repository find_repository
  repo_repository-asked repo oid name rest have =
      rw (repo_repository, d.map_, find_repository, d.key, d.str repo) refl

  fetch_refs-asked :
      (oid name : Text) (rest : List (Text × Text))
      → fetch_refs self (map decode (map (ref_request env) (first_ref oid name ∷ rest)))
        ≡ bad invalid_request
  unfolding fetch_refs
  fetch_refs-asked oid name rest =
      rw
        (fetch_refs, fetch_ref-space (codes "fetch") (oid ++ b' ' ∷ name) (contains_space oid name))
        refl

  fetch_in-asked :
      (repo oid name : Text) (rest : List (Text × Text)) (have : List Text) (id : Bytes)
      (p : FilePath) (w : World self)
      → fetch_in self (asked repo oid name rest have) id p w ≡ (ok (inline invalid_request), w)
  unfolding fetch_in find_key text_eq
  fetch_in-asked repo oid name rest have id p w =
      rw
        (
          fetch_in,
          d.map_,
          find_key,
          d.int,
          find_key,
          d.str (codes "refs"),
          text_eq,
          d.array (map (ref_request env) (first_ref oid name ∷ rest)),
          fetch_refs-asked oid name rest,
        )
        refl

  -- For every line of a fetch that git sends, the loop gathers a ref whose name holds a space, and
  -- whatever refs follow, the server answers the helper's request with "Invalid request", even where
  -- the peer may read the repository and the repository exists.
  pub fetch_is_refused :
      (oid name path group repo : Text) (peer : Bytes) (w : World self)
      → parse_request_repository_path path ≡ some (group, repo)
      → resolve_perm self w peer group repo Perm.read ≡ true
      → {found : FilePath × AccessLists × AccessLists}
      → resolve_repo_access self w group repo ≡ some found
      → ((input : List (Option Text)) (s : State env)
          → run env (some (fetch_text oid name) ∷ input) commands s
            ≡ run env input (fetching (first_ref oid name ∷ [])) s)
        × ((rest : List (Text × Text)) (have : List Text) (id : Bytes)
            → handle_fetch self (some peer) (asked path oid name rest have) id w
              ≡ (ok (inline invalid_request), w))
  unfolding run handle_fetch fetch_as
  fetch_is_refused oid name path group repo peer w e readable {found} exists = (
    λ input s. rw (run, command-fetch_text env oid name s) refl,
    λ rest have id.
        rw
          (
            handle_fetch,
            repo_repository-asked path oid name rest have,
            e,
            fetch_as,
            readable,
            exists,
          )
          (fetch_in-asked path oid name rest have id found.0 w),
  )
