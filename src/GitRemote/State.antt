-- ===== src/GitRemote/State.antt =====
-- src/bin/git-remote-rns.rs: what the helper stands on, its state, and actions on it.
use reticulum_router.Prelude.{ℕ, Bool, false, Option, List, [], ◌++◌}
use reticulum_router.Text.{Text, Bytes}
use reticulum_router.Rngit.Host.{Host}
use reticulum_router.Rngit.Git.{GResult, ok, err}
use reticulum_router.GitRemote.Parse.{HResult, done, failed, panicked}

-- What the server answers: bytes, or a resource.
pub data ClientResponse : Type 0 where
  bytes : Bytes → ClientResponse
  resource : Bytes → ClientResponse

-- The values that a request is built of, of the `rmpv` crate.
pub record Values : Type 1 where
  pub Value : Type 0
  pub int : ℕ → Value
  pub str : Text → Value
  pub bool : Bool → Value
  pub binary : Bytes → Value
  pub array : List Value → Value
  pub map_ : List (Value × Value) → Value

-- What the helper stands on: the file system and git, git with the repository of the environment, the
-- connection to the server, which is opened at the first request, and the decoding of bytes as text.
pub record Env : Type 1 where
  pub host : Host
  pub values : Values
  pub git_dir : Option Text
  pub run_git : List Text → host.World → GResult Text × host.World
  pub index_pack : Text → Bytes → host.World → GResult Bool × host.World
  pub request : Text → values.Value → host.World → GResult ClientResponse × host.World
  pub from_utf8_lossy : Bytes → Text
  -- A number as it is printed, and `str::parse` of a `u8`.
  pub show : ℕ → Text
  pub parse_u8 : Text → Option ℕ

pub record Helper : Type 0 where
  pub repo : Text
  pub dry_run : Bool
  pub verbosity : ℕ
  pub server_refs : List (Text × Text)

abbrev pub new : Text → Helper
new repo = record { repo = repo; dry_run = false; verbosity = 1; server_refs = [] }

module _ (env : Env) where
  -- The helper, what it has written for git, and the world.
  pub record State : Type 0 where
    pub helper : Helper
    pub out : Text
    pub world : env.host.World

  abbrev pub Action : Type 0 → Type 0
  Action A = State → HResult A × State

abbrev pub of_result : {A : Type 0} → GResult A → HResult A
of_result (ok a) = done a
of_result (err e) = failed e

module _ {env : Env} where
  infixl 5 ◌>>=◌ ◌>>◌
  abbrev pub continue : {A B : Type 0} → HResult A → (A → Action env B) → Action env B
  continue (done a) f s = f a s
  continue (failed e) f s = (failed e, s)
  continue panicked f s = (panicked, s)

  abbrev pub ◌>>=◌ : {A B : Type 0} → Action env A → (A → Action env B) → Action env B
  ◌>>=◌ m f s = let (r, s') = m s in continue r f s'

  abbrev pub ◌>>◌ : {A B : Type 0} → Action env A → Action env B → Action env B
  m >> k = m >>= λ _. k

  abbrev pub lift : {A : Type 0} → HResult A → Action env A
  lift r s = (r, s)

  abbrev pub run_in : {A : Type 0} → (env.host.World → GResult A × env.host.World) → Action env A
  run_in m s = let (r, w) = m s.world in (of_result r, record s { world = w })

  -- Writes for git; they succeed.
  abbrev pub write_all : Text → Action env (Unit {0})
  write_all t s = (done tt, record s { out = s.out ++ t })

  abbrev pub helper : Action env Helper
  helper s = (done s.helper, s)

  abbrev pub set_helper : (Helper → Helper) → Action env (Unit {0})
  set_helper f s = (done tt, record s { helper = f s.helper })

  abbrev pub request : Text → env.values.Value → Action env ClientResponse
  request path data' = run_in (env.request path data')
