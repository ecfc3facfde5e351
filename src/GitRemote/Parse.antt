-- ===== src/GitRemote/Parse.antt =====
-- src/bin/git-remote-rns.rs and src/bin/rngit/client.rs: the reading of URLs, of the lines that git
-- and the server send, and of bundles.
use reticulum_router.Prelude.{
  ℕ, ◌*◌, Bool, true, false, not, ◌&&◌, ◌||◌, Option, none, some, List, [], ◌∷◌, ◌++◌, is_empty,
  ◌==◌, if◌then◌else◌,
}
use reticulum_router.Text.{
  Text, Bytes, codes, len, trim, starts_with, split_once, split, splitn, lines,
}
use reticulum_router.Rngit.Listing.{strip_prefix}

-- A result, or the message of an error, or a panic.
pub data HResult {ℓ} (A : Type ℓ) : Type ℓ where
  done : A → HResult A
  failed : Text → HResult A
  panicked : HResult A

abbrev pub address_hash_size : ℕ
address_hash_size = 16

-- `AddressHash::new_from_hex_string` of the rns crate is a parameter.
module _ (new_from_hex_string : Text → Option Bytes) where
  abbrev pub parsed_hash : Option Bytes → HResult Bytes
  parsed_hash none = failed (codes "invalid destination hash")
  parsed_hash (some hash) = done hash

  unfoldable pub parse_destination_hash : Text → HResult Bytes
  parse_destination_hash hash_hex =
      if not (len hash_hex == address_hash_size * 2)
      then failed (codes "destination must be 32 hex chars")
      else parsed_hash (new_from_hex_string hash_hex)

  abbrev pub without_scheme : Text → Text
  without_scheme url = elim (strip_prefix (codes "rns://") url) [
    | some rest ↦ rest
    | none ↦ elim (strip_prefix (codes "rns:") url) [ some rest ↦ rest | none ↦ url ]
  ]

  abbrev pub with_repository : Text → Text → HResult Bytes → HResult (Bytes × Text)
  with_repository group repo (failed e) = failed e
  with_repository group repo panicked = panicked
  with_repository group repo (done hash) =
      if is_empty group || is_empty repo
      then failed (codes "invalid rns url: missing group or repository")
      else done (hash, group ++ codes "/" ++ repo)

  abbrev pub url_parts : List Text → HResult (Bytes × Text)
  url_parts (hash_hex ∷ group ∷ repo ∷ []) =
      with_repository group repo (parse_destination_hash hash_hex)
  url_parts (hash_hex ∷ group ∷ repo ∷ part ∷ rest) =
      failed (codes "invalid rns url: too many path components")
  url_parts _ = failed (codes "invalid rns url")

  unfoldable pub parse_rns_url : Text → HResult (Bytes × Text)
  parse_rns_url url = url_parts (split b'/' (without_scheme url))

  unfoldable pub parse_url : Text → HResult (Bytes × Text)
  parse_url raw = elim (strip_prefix (codes "rns::") raw) [
    | some rest ↦ parse_rns_url rest
    | none ↦ parse_rns_url raw
  ]

-- One line of the server's list: a ref, where it is one.
abbrev pub ref_of : Option (Text × Text) → Option (Text × Text)
ref_of none = none
ref_of (some (sha, name)) =
    if len sha == 40 && starts_with (codes "refs/") name then some (sha, name) else none

unfoldable pub server_ref : Text → Option (Text × Text)
server_ref line =
    if is_empty line || starts_with (codes "@") line then none else ref_of (split_once b' ' line)

abbrev pub push_some {ℓ} : {A : Type ℓ} → Option A → List A → List A
push_some none as' = as'
push_some (some a) as' = a ∷ as'

unfoldable pub server_refs_of : List Text → List (Text × Text)
server_refs_of [] = []
server_refs_of (line ∷ ls) = push_some (server_ref (trim line)) (server_refs_of ls)

-- The body is given as text, which `String::from_utf8_lossy` makes of it.
unfoldable pub parse_server_refs : Text → List (Text × Text)
parse_server_refs body = server_refs_of (lines body)

abbrev pub spec_of : Bool → Text → HResult (Bool × Text × Text)
spec_of force spec = elim (split_once b':' spec) [
  | none ↦ failed (codes "invalid push spec: " ++ spec)
  | some (src, dst) ↦ done (force, src, dst)
]

unfoldable pub parse_push_spec : Text → HResult (Bool × Text × Text)
parse_push_spec spec = elim (strip_prefix (codes "+") spec) [
  | some rest ↦ spec_of true rest
  | none ↦ spec_of false spec
]

abbrev pub oid_and_name : List Text → HResult (Text × Text)
oid_and_name (oid ∷ name ∷ rest) = done (oid, name)
oid_and_name _ = failed (codes "invalid fetch line")

unfoldable pub parse_fetch_line : Text → HResult (Text × Text)
parse_fetch_line rest = oid_and_name (splitn 2 b' ' rest)

-- The scan of a bundle; the flag says whether a line starts here.
unfoldable pub split_bundle_at : Bool → Bytes → Option Bytes
split_bundle_at line_start [] = none
split_bundle_at line_start (b ∷ bundle) =
    let next = split_bundle_at true bundle in
    let within = split_bundle_at false bundle in
    if b == 10 then if line_start then some bundle else next else within

unfoldable pub split_bundle : Bytes → Option Bytes
split_bundle bundle = split_bundle_at true bundle
