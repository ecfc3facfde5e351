-- ===== src/Rngit/Transfer.antt =====
-- src/bin/rngit/transfer.rs: the packets of resource transfers. Resources, links and packets are the
-- rns crate's.
use reticulum_router.Prelude.{
  ℕ, ◌+◌, Bool, true, false, Option, none, some, List, [], ◌∷◌, length, take, drop, ltb, ◌==◌,
  if◌then◌else◌,
}
use reticulum_router.Text.{Text, Bytes}
use reticulum_router.Rngit.Perms.{◌>>=◌}
use reticulum_router.Rngit.Host.{Wire}

-- A packet of a link, by its context.
pub data Packet : Type 0 where
  response : Bytes → Bytes → Packet
  advertisement part_request part hashmap_update proof : Bytes → Packet

-- A resource advertisement, as far as it is read.
pub record Advertisement : Type 0 where
  pub flags : ℕ
  pub request_id : Option Bytes
  pub raw : Bytes

-- The rns crate's links, packets and resources. `send` is false where the packet cannot be built.
pub record Net (wire : Wire) : Type 1 where
  pub hash_size : ℕ
  pub maphash_len : ℕ
  pub World : Type 0
  pub Link : Type 0
  pub find_in_link : Bytes → World → Option Link
  pub send : Link → Packet → World → Bool × World
  pub path_hash : Text → Bytes
  pub read_value : Bytes → Option wire.Value
  pub as_f64 : wire.Value → Option Bytes
  pub as_u64 : wire.Value → Option ℕ
  pub hash : wire.Resource → Bytes
  pub sent_parts : wire.Resource → ℕ
  pub pack_advertisement : Link → wire.Resource → Option Bytes
  pub unpack_advertisement : Bytes → Option Advertisement
  pub new_from_advertisement : Link → Advertisement → Option (wire.Resource × Bytes)
  -- The parts that are asked for, and a hashmap update.
  pub handle_request :
      wire.Resource → Bytes → Bytes → Option (List Bytes × Option Bytes) × wire.Resource
  pub receive_part : wire.Resource → Bytes → Bool × wire.Resource
  pub all_parts_received : wire.Resource → Bool
  pub outstanding_parts : wire.Resource → ℕ
  pub window : wire.Resource → ℕ
  pub apply_hashmap : wire.Resource → ℕ → Bytes → Bool × wire.Resource
  pub build_request : wire.Resource → Option Bytes × wire.Resource
  pub assemble : Link → wire.Resource → Option (Bytes × wire.Resource)
  pub build_proof : wire.Resource → Bytes
  pub validate_proof : wire.Resource → Bytes → Bool

-- `data.get(n..)`
abbrev pub get_from : ℕ → Bytes → Option Bytes
get_from n b = if ltb (length b) n then none else some (drop n b)

module _ (wire : Wire) (net : Net wire) where
  unfoldable pub copy_hash : Bytes → Option Bytes
  copy_hash slice =
      if ltb (length slice) net.hash_size then none else some (take net.hash_size slice)

  unfoldable pub resource_hash_from_request : Bytes → Option Bytes
  resource_hash_from_request [] = none
  resource_hash_from_request (a ∷ rest) = do
    slice ← get_from (if a == 0xFF then 1 + net.maphash_len else 1) (a ∷ rest)
    copy_hash slice

  abbrev pub resource_hash_from_hmu : Bytes → Option Bytes
  resource_hash_from_hmu = copy_hash

  abbrev pub resource_hash_from_proof : Bytes → Option Bytes
  resource_hash_from_proof = copy_hash

  pub record UnpackedRequest : Type 0 where
    pub path_hash : Bytes
    pub body : wire.Value

  abbrev pub request_of : List wire.Value → Option UnpackedRequest
  request_of (at ∷ path ∷ body ∷ []) = do
    _ ← net.as_f64 at
    hash ← wire.as_slice path
    some (record { path_hash = hash; body = body })
  request_of _ = none

  unfoldable pub unpack_request : Bytes → Option UnpackedRequest
  unpack_request packed = do
    value ← net.read_value packed
    arr ← wire.as_array value
    request_of arr

  unfoldable pub send_advertisement : net.Link → wire.Resource → net.World → Bool × net.World
  send_advertisement link resource w = elim (net.pack_advertisement link resource) [
    | none ↦ (false, w)
    | some packed ↦ net.send link (advertisement packed) w
  ]

  unfoldable pub send_parts : net.Link → List Bytes → net.World → Bool × net.World
  send_parts link [] w = (true, w)
  send_parts link (p ∷ ps) w =
      let (sent, w') = net.send link (part p) w in
      elim sent [ false ↦ (false, w') | true ↦ send_parts link ps w' ]

  abbrev pub send_update : net.Link → Option Bytes → Bool × net.World → Bool × net.World
  send_update link none r = r
  send_update link (some hmu) (false, w) = (false, w)
  send_update link (some hmu) (true, w) = net.send link (hashmap_update hmu) w

  -- Whether it went well, the resource after it, and the world.
  unfoldable pub process_part_request :
      net.Link → wire.Resource → Bytes → Bytes → net.World → Bool × wire.Resource × net.World
  process_part_request link resource request_data packet_hash w =
      let (result, resource') = net.handle_request resource request_data packet_hash in
      elim result [
        | none ↦ (false, resource', w)
        | some (parts, hmu) ↦
            let (sent, w') = send_update link hmu (send_parts link parts w) in (sent, resource', w')
      ]

  abbrev pub segment_of : List wire.Value → Option (ℕ × Bytes)
  segment_of (segment ∷ hashmap ∷ []) = do
    n ← net.as_u64 segment
    b ← wire.as_slice hashmap
    some (n, b)
  segment_of _ = none

  unfoldable pub process_hashmap_update : wire.Resource → Bytes → Option Bytes × wire.Resource
  process_hashmap_update resource hmu_data =
      elim (do
        body ← get_from net.hash_size hmu_data
        value ← net.read_value body
        arr ← wire.as_array value
        segment_of arr) [
          | none ↦ (none, resource)
          | some (segment, hashmap) ↦
              let (applied, resource') = net.apply_hashmap resource segment hashmap in
              if applied then net.build_request resource' else (none, resource')
        ]

  unfoldable pub assemble_and_prove :
      net.Link → wire.Resource → net.World → Option Bytes × net.World
  assemble_and_prove link resource w = elim (net.assemble link resource) [
    | none ↦ (none, w)
    | some (plaintext, resource') ↦
        let (sent, w') = net.send link (proof (net.build_proof resource')) w in
        (if sent then some plaintext else none, w')
  ]
