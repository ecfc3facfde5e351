-- ===== src/Rngit/Host.antt =====
-- What the git server stands on and does not implement: the operating system and the `git`
-- executable (`Host`), the MessagePack values of the `rmpv` crate (`Wire`), the `hex` crate, and
-- the configuration of src/bin/rngit/config.rs.
use reticulum_router.Prelude.{Bool, Option, List}
use reticulum_router.Text.{Text, Bytes}
use reticulum_router.Path.{FilePath}
use reticulum_router.Hex.{HexCodec}

-- The status and the two streams of a finished process, as text.
pub record Output : Type 0 where
  pub success : Bool
  pub stdout : Text
  pub stderr : Text

-- An entry of a directory; its name is `none` where it is not UTF-8.
pub record DirEntry : Type 0 where
  pub path : FilePath
  pub name : Option Text

-- The file system and `git`. A call that changes the world returns the new one.
pub record Host : Type 1 where
  pub World : Type 0
  pub is_dir : World → FilePath → Bool
  pub is_file : World → FilePath → Bool
  pub exists : World → FilePath → Bool
  pub read_to_string : World → FilePath → Option Text
  pub read_dir : World → FilePath → Option (List DirEntry)
  pub create_dir_all : FilePath → World → Bool × World
  pub remove_dir_all : FilePath → World → World
  pub write : FilePath → Text → World → Bool × World
  pub write_bytes : FilePath → Bytes → World → Bool × World
  pub read : World → FilePath → Option Bytes
  -- The same, decoded by `String::from_utf8_lossy`.
  pub read_lossy : World → FilePath → Option Text
  -- A fresh temporary directory whose name has the given prefix.
  pub temp_dir : Text → World → Option FilePath × World
  -- `git` run in a directory with arguments; `none` where it could not be run.
  pub git : FilePath → List Text → World → Option Output × World

pub record Wire : Type 1 where
  pub Value : Type 0
  pub as_map : Value → Option (List (Value × Value))
  pub as_array : Value → Option (List Value)
  pub as_str : Value → Option Text
  pub as_bool : Value → Option Bool
  pub as_slice : Value → Option Bytes
  -- `k.as_i64() == Some(IDX_REPOSITORY)`
  pub is_repository_key : Value → Bool
  -- The packed metadata of a fetch, `{IDX_RESULT_CODE: RES_OK}`, where it can be packed.
  pub ok_metadata : Option Bytes
  -- `transfer::new_response_resource` on the response's bytes and the request's id.
  pub Resource : Type 0
  pub new_response_resource : Bytes → Bytes → Option Resource

-- `Cfg`, without the settings of the announces.
pub record Cfg : Type 0 where
  pub repositories : List (Text × FilePath)
  pub access : List (Text × List Text)
  pub aliases : List (Text × Text)
  pub blocked_identities : List Text

-- `Rngit`, with what it stands on.
pub record Rngit : Type 1 where
  pub host : Host
  pub wire : Wire
  pub hex : HexCodec
  pub cfg : Cfg
