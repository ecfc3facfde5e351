-- ===== src/Tests/World.antt =====
-- A small world for examples of the git server: a file system that holds what is written, a `git`
-- that succeeds and notes its calls, and requests as trees.
use reticulum_router.Prelude.{any, all, Bool, true, false, Option, none, some, List, [], ◌∷◌, arith}
use reticulum_router.Text.{
  Text, Bytes, codes, text_eq, is_whitespace, trim_start, trim_end, trim, lower, to_lowercase,
  starts_with, ends_with, contains, contains_char, len_utf8, len, is_ascii_hexdigit, split_once,
  split, splitn, lines, lookup, utf8, into_bytes,
}
use reticulum_router.Path.{
  FilePath, parts, relative, is_absolute, components, last_is, join, component_eq, is_prefix,
  path_starts_with, path_eq,
}
use reticulum_router.Rngit.Host.{Output, Host, Wire, Cfg, Rngit}
use reticulum_router.Text.Laws.{text_eq_refl}
use reticulum_router.Rnguard.Hex.RoundTrip.{own_codec}
use reticulum_router.Rngit.Access.Creation.{KeepsFiles}

pub record Files : Type 0 where
  pub dirs : List FilePath
  pub files : List (FilePath × Text)
  pub calls : List (List Text)

abbrev pub done : Output
done = record { success = true; stdout = []; stderr = [] }

mutual
  pub data Val : Type 0 where
    repository : Val
    text : Text → Val
    bin : Bytes → Val
    flag : Bool → Val
    list : Vals → Val
    dict : Pairs → Val

  pub data Vals : Type 0 where
    nil : Vals
    cons : Val → Vals → Vals

  pub data Pairs : Type 0 where
    end : Pairs
    pair : Val → Val → Pairs → Pairs

abbrev pub items : Vals → List Val
items nil = []
items (cons v vs) = v ∷ items vs

abbrev pub pairs : Pairs → List (Val × Val)
pairs end = []
pairs (pair k v ps) = (k, v) ∷ pairs ps

abbrev pub val_map : Val → Option (List (Val × Val))
val_map (dict ps) = some (pairs ps)
val_map _ = none

abbrev pub val_list : Val → Option (List Val)
val_list (list vs) = some (items vs)
val_list _ = none

abbrev pub val_text : Val → Option Text
val_text (text t) = some t
val_text _ = none

abbrev pub val_bool : Val → Option Bool
val_bool (flag b) = some b
val_bool _ = none

abbrev pub val_bytes : Val → Option Bytes
val_bytes (bin b) = some b
val_bytes _ = none

abbrev pub is_repository_val : Val → Bool
is_repository_val repository = true
is_repository_val _ = false

abbrev pub small_wire : Wire
small_wire = record {
  Value = Val;
  as_map = val_map;
  as_array = val_list;
  as_str = val_text;
  as_bool = val_bool;
  as_slice = val_bytes;
  is_repository_key = is_repository_val;
  ok_metadata = some (0x81 ∷ 1 ∷ 0 ∷ []);
  Resource = Bytes;
  new_response_resource = λ bytes request_id. some bytes;
}

abbrev pub small_host : Host
small_host = record {
  World = Files;
  is_dir = λ w p. any (text_eq p) w.dirs;
  is_file = λ w p. any (λ f. text_eq p f.0) w.files;
  exists = λ w p. any (text_eq p) w.dirs;
  read_to_string = λ w p. lookup p w.files;
  read_dir = λ w p. some (record { path = codes "/srv/g/r"; name = some (codes "r") } ∷ []);
  create_dir_all = λ p w. (true, record w { dirs = p ∷ w.dirs });
  remove_dir_all = λ p w. w;
  write = λ p t w. (true, record w { files = (p, t) ∷ w.files });
  write_bytes = λ p b w. (true, w);
  read = λ w p. none;
  read_lossy = λ w p. none;
  temp_dir = λ p w. (some (codes "/tmp/x"), w);
  git = λ p args w. (some done, record w { calls = args ∷ w.calls });
}

pub small_host-KeepsFiles : KeepsFiles small_host
unfolding any lookup
small_host-KeepsFiles = record {
  made = λ p w h. ground (arith, text_eq_refl p);
  make_keeps = λ p q w h. ground arith;
  init_keeps = λ p q w h. h;
  write_keeps = λ p q t w h. h;
  written = λ p t w h. ground (arith, text_eq_refl p);
}

-- Alice may create repositories in the group `g`; everyone may write to `g/r`; Bob is blocked.
abbrev pub alice : Bytes
alice = 0 ∷ 0 ∷ 0 ∷ 0 ∷ 0 ∷ 0 ∷ 0 ∷ 0 ∷ 0 ∷ 0 ∷ 0 ∷ 0 ∷ 0 ∷ 0 ∷ 0 ∷ 1 ∷ []

abbrev pub bob : Bytes
bob = 0 ∷ 0 ∷ 0 ∷ 0 ∷ 0 ∷ 0 ∷ 0 ∷ 0 ∷ 0 ∷ 0 ∷ 0 ∷ 0 ∷ 0 ∷ 0 ∷ 0 ∷ 2 ∷ []

abbrev pub small_cfg : Cfg
small_cfg = record {
  repositories = (codes "g", codes "/srv/g") ∷ [];
  access = (codes "g", codes "c:00000000000000000000000000000001" ∷ []) ∷ [];
  aliases = [];
  blocked_identities = codes "00000000000000000000000000000002" ∷ [];
}

abbrev pub small : Rngit
small = record { host = small_host; wire = small_wire; hex = own_codec; cfg = small_cfg }

abbrev pub files : Files
files = record {
  dirs = codes "/srv/g" ∷ codes "/srv/g/r" ∷ [];
  files = (codes "/srv/g/r.allowed", codes "w:all") ∷ [];
  calls = [];
}

-- The same with a repository in place that everyone may read.
abbrev pub open_files : Files
open_files = record {
  dirs = codes "/srv/g/r/objects" ∷ files.dirs;
  files = (codes "/srv/g/r/HEAD", []) ∷ (codes "/srv/g/r.allowed", codes "r:all") ∷ [];
  calls = [];
}

-- A push of one operation, and a deletion, of the ref `refs/heads/main` of a repository.
abbrev pub sha : Text
sha = codes "0123456789012345678901234567890123456789"

abbrev pub update_pairs : Pairs
update_pairs =
    (pair (text (codes "action")) (text (codes "update_ref")) (
      pair (text (codes "ref")) (text (codes "refs/heads/main"))
        (pair (text (codes "sha")) (text sha) end)))

abbrev pub update : Val
update = dict update_pairs

abbrev pub push_of : Text → Val
push_of path =
    dict
      (pair repository (text path) (pair (text (codes "operations")) (list (cons update nil)) end))

abbrev pub delete_of : Text → Val
delete_of path =
    dict
      (pair repository (text path) (pair (text (codes "ref")) (text (codes "refs/heads/main")) end))

-- All that a run of a handler computes with.
unfoldable pub server : Unit {0}
unfolding any all text_eq lookup trim trim_start trim_end is_whitespace to_lowercase lower
    starts_with ends_with contains contains_char len len_utf8 is_ascii_hexdigit split_once split
    splitn lines utf8 into_bytes parts relative is_absolute components last_is join component_eq
    is_prefix path_starts_with path_eq
server = tt
