-- ===== src/Rngit/Links.antt =====
-- src/bin/rngit/server.rs: the server's links, the routing of requests, and the handling of the events
-- of links.
use reticulum_router.Prelude.{ℕ, ◌/◌, ◌%◌, Bool, Option, none, some, List, [], ◌==◌, if◌then◌else◌}
use reticulum_router.Text.{Text, Bytes, codes, text_eq, lookup}
use reticulum_router.Assoc.{insert, remove, modify}
use reticulum_router.Rngit.Host.{Rngit}
use reticulum_router.Rngit.Access
use reticulum_router.Rngit.Git.{GResult, ok, err}
use reticulum_router.Rngit.Request.{Value}
use reticulum_router.Rngit.Server.{handle_push, handle_delete, handle_create}
use reticulum_router.Rngit.Listing.{handle_list, handle_repos}
use reticulum_router.Rngit.Fetch.{Response, inline, resource, handle_fetch}
use reticulum_router.Rngit.Transfer.{
  Net, Packet.response, part_request, Advertisement, resource_hash_from_request,
  resource_hash_from_hmu, send_advertisement, process_part_request, process_hashmap_update,
}

abbrev pub path_repos : Text
path_repos = codes "/git/repos"

abbrev pub path_create : Text
path_create = codes "/git/create"

-- The kinds of resource packets.
pub data PacketContext : Type 0 where
  resource_advertisement resource_request resource_hash_update resource_part resource_proof
        other_context :
      PacketContext

unfoldable pub continue : {S A B : Type 0} → Option A × S → (A → S → Option B × S) → Option B × S
continue (none, s) f = (none, s)
continue (some a, s) f = f a s

infixl 5 ◌>>=◌
-- A step that may fail; the state stays changed after an error.
unfoldable pub ◌>>=◌ :
    {S A B : Type 0} → (S → Option A × S) → (A → S → Option B × S) → S → Option B × S
◌>>=◌ m f s = continue (m s) f

module _ (self : Rngit) (net : Net self.wire) where
  pub record OutboundResource : Type 0 where
    pub resource : self.wire.Resource
    pub adv_retries : ℕ

  pub record InboundResource : Type 0 where
    pub resource : self.wire.Resource
    pub request_id : Bytes

  pub record LinkState : Type 0 where
    pub link : net.Link
    pub peer : Option Bytes
    pub outbound : List (Bytes × OutboundResource)
    pub inbound : List (Bytes × InboundResource)

  abbrev pub new : net.Link → LinkState
  new link = record { link = link; peer = none; outbound = []; inbound = [] }

  -- The links, the server's world and the network.
  pub record State : Type 0 where
    pub links : List (Bytes × LinkState)
    pub world : Access.World self
    pub network : net.World

  abbrev pub Action : Type 0 → Type 0
  Action A = State → Option A × State

  abbrev pub pure : {A : Type 0} → A → Action A
  pure a s = (some a, s)

  abbrev pub ok_or : {A : Type 0} → Option A → Action A
  ok_or r s = (r, s)

  unfoldable pub on_network : (net.World → Bool × net.World) → Action (Unit {0})
  on_network m s =
      let (sent, w) = m s.network in (if sent then some tt else none, record s { network = w })

  abbrev pub get_link : Bytes → Action LinkState
  get_link link_id s = (lookup link_id s.links, s)

  unfoldable pub update_link : Bytes → (LinkState → LinkState) → Action (Unit {0})
  update_link link_id f s = (some tt, record s { links = modify link_id f s.links })

  abbrev pub peer_in : Option LinkState → Option Bytes
  peer_in none = none
  peer_in (some st) = st.peer

  abbrev pub peer_of : Bytes → State → Option Bytes
  peer_of link_id s = peer_in (lookup link_id s.links)

  abbrev pub bytes_of : (Access.World self → Bytes × Access.World self) → Action (Response self)
  bytes_of handler s = let (b, w) = handler s.world in (some (inline b), record s { world = w })

  abbrev pub fetched : GResult (Response self) → Option (Response self)
  fetched (ok r) = some r
  fetched (err e) = none

  abbrev pub is_path : Text → Bytes → Bool
  is_path path path_hash = text_eq path_hash (net.path_hash path)

  unfoldable pub route_request : Option Bytes → Bytes → Value self → Bytes → Action (Response self)
  route_request peer path_hash body request_id s =
      if is_path (codes "/git/list") path_hash
      then bytes_of (handle_list self peer body) s
      else if is_path path_repos path_hash
      then bytes_of (λ w. (handle_repos self peer body w, w)) s
      else if is_path (codes "/git/fetch") path_hash
      then (let (r, w) = handle_fetch self peer body request_id s.world in
          (fetched r, record s { world = w }))
      else if is_path (codes "/git/push") path_hash
      then bytes_of (handle_push self peer body) s
      else if is_path (codes "/git/delete") path_hash
      then bytes_of (handle_delete self peer body) s
      else if is_path path_create path_hash
      then bytes_of (handle_create self peer body) s
      else (none, s)

  -- The response is sent, or its resource is advertised and kept.
  unfoldable pub respond : Bytes → net.Link → Bytes → Response self → Action (Unit {0})
  respond link_id link request_id (inline b) = on_network (net.send link (response request_id b))
  respond link_id link request_id (resource r) = do
    _ ← on_network (send_advertisement self.wire net link r)
    update_link link_id λ st. record st {
      outbound = insert (net.hash r) (record { resource = r; adv_retries = 0 }) st.outbound;
    }

  -- A request with the peer that the link has at the time.
  unfoldable pub serve : Bytes → net.Link → Bytes → Value self → Bytes → Action (Unit {0})
  serve link_id link path_hash body request_id s =
      (route_request (peer_of link_id s) path_hash body request_id
          >>= respond link_id link request_id)
        s

  abbrev pub bit : ℕ → ℕ → Bool
  bit flag flags = flags / flag % 2 == 1

  abbrev pub or_no_id : Option Bytes → Bytes
  or_no_id none = []
  or_no_id (some id) = id

  abbrev pub on_request : Bytes → net.Link → Advertisement → Action (Unit {0})
  on_request link_id link adv = do
    started ← ok_or (net.new_from_advertisement link adv)
    _ ← on_network (net.send link (part_request started.1))
    update_link link_id λ st. record st {
      inbound =
          insert (net.hash started.0)
            (record { resource = started.0; request_id = or_no_id adv.request_id }) st.inbound;
    }

  unfoldable pub on_advertisement : Bytes → net.Link → Bytes → Action (Unit {0})
  on_advertisement link_id link payload = do
    adv ← ok_or (net.unpack_advertisement payload)
    if bit 0x10 adv.flags
        then pure tt
        else if bit 0x08 adv.flags
        then on_request link_id link adv
        else pure tt

  abbrev pub part_result :
      net.Link → self.wire.Resource → Bytes → Bytes → Action (Bool × self.wire.Resource)
  part_result link r payload packet_hash s =
      let result = process_part_request self.wire net link r payload packet_hash s.network in
      (some (result.0, result.1), record s { network = result.2 })

  -- The outbound resource is taken out and put back.
  unfoldable pub on_part_request : Bytes → net.Link → Bytes → Bytes → Action (Unit {0})
  on_part_request link_id link payload packet_hash = do
    hash ← ok_or (resource_hash_from_request self.wire net payload)
    st ← get_link link_id
    ob ← ok_or (lookup hash st.outbound)
    _ ← update_link link_id λ st. record st { outbound = remove hash st.outbound }
    result ← part_result link ob.resource payload packet_hash
    _ ←
        update_link link_id
          λ st. record st { outbound = insert hash (record ob { resource = result.1 }) st.outbound }
    ok_or (if result.0 then some tt else none)

  abbrev pub replace_inbound : Bytes → Bytes → self.wire.Resource → Action (Unit {0})
  replace_inbound link_id hash r =
      update_link link_id
        λ st. record st { inbound = modify hash (λ i. record i { resource = r }) st.inbound }

  unfoldable pub on_hash_update : Bytes → net.Link → Bytes → Action (Unit {0})
  on_hash_update link_id link payload = do
    hash ← ok_or (resource_hash_from_hmu self.wire net payload)
    st ← get_link link_id
    inbound ← ok_or (lookup hash st.inbound)
    request_bytes ← λ s. (some (process_hashmap_update self.wire net inbound.resource payload), s)
    _ ← replace_inbound link_id hash request_bytes.1
    b ← ok_or request_bytes.0
    on_network (net.send link (part_request b))
