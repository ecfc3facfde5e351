-- ===== src/Rngit/Events.antt =====
-- src/bin/rngit/server.rs: parts and proofs of resources, the events of links, the ticks, and the
-- loop over both.
pub mod Mute
pub mod Resources
pub mod Identity
pub mod Retries
use reticulum_router.Prelude.{
  ℕ, zero, suc, ◌+◌, Bool, true, false, not, ◌&&◌, Option, none, some, List, [], ◌∷◌, ◌++◌, ltb,
  ◌==◌, if◌then◌else◌,
}
use reticulum_router.Text.{Text, Bytes, lookup}
use reticulum_router.Assoc.{insert, remove, modify}
use reticulum_router.Rngit.Host.{Rngit}
use reticulum_router.Rngit.Request.{Value}
use reticulum_router.Rngit.Transfer.{
  Net, UnpackedRequest, part_request, resource_hash_from_proof, unpack_request, send_advertisement,
  assemble_and_prove,
}
use reticulum_router.Rngit.Links.{
  PacketContext, resource_advertisement, resource_request, resource_hash_update, resource_part,
  resource_proof, other_context, ◌>>=◌, OutboundResource, InboundResource, LinkState, new, State,
  Action, pure, ok_or, on_network, get_link, update_link, serve, on_advertisement, on_part_request,
  on_hash_update,
}

abbrev pub max_adv_retries : ℕ
max_adv_retries = 4

-- A request on a link, and a packet of a resource.
pub record LinkRequest (V : Type 0) : Type 0 where
  pub path_hash : Bytes
  pub body : V
  pub request_id : Bytes

pub record ResourcePacket : Type 0 where
  pub context : PacketContext
  pub payload : Bytes
  pub packet_hash : Bytes

pub data LinkEvent (V : Type 0) : Type 0 where
  activated : LinkEvent V
  remote_identified : Bytes → LinkEvent V
  closed : LinkEvent V
  request : LinkRequest V → LinkEvent V
  resource_packet : ResourcePacket → LinkEvent V
  other_event : LinkEvent V

-- What the loop's `select!` gives: an event of a link, a failed reception, or a tick.
pub data Turn (V : Type 0) : Type 0 where
  event : Bytes → LinkEvent V → Turn V
  lost : Turn V
  ticked : Turn V

module _ (self : Rngit) (net : Net self.wire) where
  abbrev Inbound : Type 0
  Inbound = List (Bytes × InboundResource self net)

  -- The inbound resources after a part, those that it completes, and those that ask for more.
  pub record Received : Type 0 where
    pub inbound : List (Bytes × InboundResource self net)
    pub completed : List Bytes
    pub followup : List Bytes

  abbrev pub keep_inbound : Bytes × InboundResource self net → Received → Received
  keep_inbound entry r = record r { inbound = entry ∷ r.inbound }

  abbrev pub note_part : Bytes → self.wire.Resource → Received → Received
  note_part hash r rest =
      if net.all_parts_received r
      then record rest { completed = hash ∷ rest.completed }
      else if ltb (net.outstanding_parts r) (net.window r)
      then record rest { followup = hash ∷ rest.followup }
      else rest

  unfoldable pub receive_all : Bytes → List (Bytes × InboundResource self net) → Received
  receive_all payload [] = record { inbound = []; completed = []; followup = [] }
  receive_all payload ((hash, i) ∷ rest) =
      let (taken, r) = net.receive_part i.resource payload in
      let after = keep_inbound (hash, record i { resource = r }) (receive_all payload rest) in
      if taken then note_part hash r after else after

  abbrev pub replace_inbound : Bytes → Bytes → self.wire.Resource → Action self net (Unit {0})
  replace_inbound link_id hash r =
      update_link self net link_id
        λ st. record st { inbound = modify hash (λ i. record i { resource = r }) st.inbound }

  abbrev pub send_if_some : net.Link → Option Bytes → Action self net (Unit {0})
  send_if_some link none = pure self net tt
  send_if_some link (some b) = on_network self net (net.send link (part_request b))

  unfoldable pub follow_up : Bytes → net.Link → List Bytes → Action self net (Unit {0})
  follow_up link_id link [] = pure self net tt
  follow_up link_id link (hash ∷ hashes) = do
    st ← get_link self net link_id
    inbound ← ok_or self net (lookup hash st.inbound)
    _ ← replace_inbound link_id hash (net.build_request inbound.resource).1
    _ ← send_if_some link (net.build_request inbound.resource).0
    follow_up link_id link hashes

  abbrev pub assembled : net.Link → self.wire.Resource → Action self net Bytes
  assembled link r s =
      let (plaintext, w) = assemble_and_prove self.wire net link r s.network in
      (plaintext, record s { network = w })

  abbrev pub serve_unpacked :
      Bytes → net.Link → Bytes → Option (UnpackedRequest self.wire net) → Action self net (Unit {0})
  serve_unpacked link_id link request_id none = pure self net tt
  serve_unpacked link_id link request_id (some unpacked) =
      serve self net link_id link unpacked.path_hash unpacked.body request_id

  abbrev pub complete_one :
      Bytes → net.Link → Option (InboundResource self net) → Action self net (Unit {0})
  complete_one link_id link none = pure self net tt
  complete_one link_id link (some inbound) = do
    plaintext ← assembled link inbound.resource
    serve_unpacked link_id link inbound.request_id (unpack_request self.wire net plaintext)

  unfoldable pub complete : Bytes → net.Link → List Bytes → Action self net (Unit {0})
  complete link_id link [] = pure self net tt
  complete link_id link (hash ∷ hashes) = do
    st ← get_link self net link_id
    _ ← update_link self net link_id λ st. record st { inbound = remove hash st.inbound }
    _ ← complete_one link_id link (lookup hash st.inbound)
    complete link_id link hashes

  unfoldable pub on_part : Bytes → net.Link → Bytes → Action self net (Unit {0})
  on_part link_id link payload = do
    st ← get_link self net link_id
    _ ←
        update_link self net link_id
          λ st. record st { inbound = (receive_all payload st.inbound).inbound }
    _ ← follow_up link_id link (receive_all payload st.inbound).followup
    complete link_id link (receive_all payload st.inbound).completed

  abbrev pub proved : Bytes → Option (OutboundResource self net) → Bool
  proved payload none = false
  proved payload (some ob) = net.validate_proof ob.resource payload

  unfoldable pub on_proof : Bytes → Bytes → Action self net (Unit {0})
  on_proof link_id payload = do
    hash ← ok_or self net (resource_hash_from_proof self.wire net payload)
    st ← get_link self net link_id
    if proved payload (lookup hash st.outbound)
        then update_link self net link_id (λ st. record st { outbound = remove hash st.outbound })
        else pure self net tt

  abbrev pub in_context :
      PacketContext → Bytes → net.Link → ResourcePacket → Action self net (Unit {0})
  in_context resource_advertisement link_id link rp =
      on_advertisement self net link_id link rp.payload
  in_context resource_request link_id link rp =
      on_part_request self net link_id link rp.payload rp.packet_hash
  in_context resource_hash_update link_id link rp = on_hash_update self net link_id link rp.payload
  in_context resource_part link_id link rp = on_part link_id link rp.payload
  in_context resource_proof link_id link rp = on_proof link_id rp.payload
  in_context other_context link_id link rp = pure self net tt

  unfoldable pub handle_resource_packet :
      Bytes → net.Link → ResourcePacket → Action self net (Unit {0})
  handle_resource_packet link_id link rp = in_context rp.context link_id link rp

  abbrev pub with_found :
      Option net.Link → (net.Link → Action self net (Unit {0})) → Action self net (Unit {0})
  with_found none f = pure self net tt
  with_found (some link) f = f link

  abbrev pub with_link :
      Bytes → (net.Link → Action self net (Unit {0})) → Action self net (Unit {0})
  with_link link_id f s = with_found (net.find_in_link link_id s.network) f s

  unfoldable pub handle_event : Bytes → LinkEvent (Value self) → Action self net (Unit {0})
  handle_event link_id activated =
      with_link link_id
        λ link s. (some tt, record s { links = insert link_id (new self net link) s.links })
  handle_event link_id (remote_identified hash) =
      update_link self net link_id λ st. record st { peer = some hash }
  handle_event link_id closed = λ s. (some tt, record s { links = remove link_id s.links })
  handle_event link_id (request r) =
      with_link link_id λ link. serve self net link_id link r.path_hash r.body r.request_id
  handle_event link_id (resource_packet rp) =
      with_link link_id λ link. handle_resource_packet link_id link rp
  handle_event link_id other_event = pure self net tt

  abbrev Outbound : Type 0
  Outbound = List (Bytes × OutboundResource self net)

  -- A resource of which no part has been asked for.
  abbrev pub is_unsent : OutboundResource self net → Bool
  is_unsent ob = net.sent_parts ob.resource == 0

  abbrev pub is_due : OutboundResource self net → Bool
  is_due ob = is_unsent ob && ltb ob.adv_retries max_adv_retries

  abbrev pub is_spent : OutboundResource self net → Bool
  is_spent ob = is_unsent ob && not (ltb ob.adv_retries max_adv_retries)

  -- The first loop of `tick` over the resources of a link: the resources, those that are advertised
  -- again, and those that are given up.
  abbrev pub age_one : OutboundResource self net → OutboundResource self net
  age_one ob = if is_due ob then record ob { adv_retries = ob.adv_retries + 1 } else ob

  unfoldable pub age :
      List (Bytes × OutboundResource self net) → List (Bytes × OutboundResource self net)
  age [] = []
  age ((hash, ob) ∷ rest) = (hash, age_one ob) ∷ age rest

  unfoldable pub hashes_of :
      (OutboundResource self net → Bool) → List (Bytes × OutboundResource self net) → List Bytes
  hashes_of p [] = []
  hashes_of p ((hash, ob) ∷ rest) = let hs = hashes_of p rest in if p ob then hash ∷ hs else hs

  -- The second loop: those whose advertisement could not be sent.
  unfoldable pub readvertise :
      net.Link
      → List (Bytes × OutboundResource self net)
      → List Bytes
      → net.World
      → List Bytes × net.World
  readvertise link outbound [] w = ([], w)
  readvertise link outbound (hash ∷ hashes) w = elim (lookup hash outbound) [
    | none ↦ readvertise link outbound hashes w
    | some ob ↦
        let (sent, w') = send_advertisement self.wire net link ob.resource w in
        let (failed, w'') = readvertise link outbound hashes w' in
        (if sent then failed else hash ∷ failed, w'')
  ]

  unfoldable pub remove_all :
      List Bytes
      → List (Bytes × OutboundResource self net)
      → List (Bytes × OutboundResource self net)
  remove_all [] outbound = outbound
  remove_all (hash ∷ hashes) outbound = remove_all hashes (remove hash outbound)

  unfoldable pub tick_link : LinkState self net → net.World → LinkState self net × net.World
  tick_link st w =
      let (failed, w') = readvertise st.link (age st.outbound) (hashes_of is_due st.outbound) w in
      (
        record st {
          outbound = remove_all (hashes_of is_spent st.outbound ++ failed) (age st.outbound);
        },
        w',
      )

  unfoldable pub tick_links :
      List (Bytes × LinkState self net) → net.World → List (Bytes × LinkState self net) × net.World
  tick_links [] w = ([], w)
  tick_links ((id, st) ∷ rest) w =
      let (st', w') = tick_link st w in
      let (rest', w'') = tick_links rest w' in ((id, st') ∷ rest', w'')

  unfoldable pub tick : State self net → State self net
  tick s = let (ls, w) = tick_links s.links s.network in record s { links = ls; network = w }

  -- The loop of `run`, over what `select!` gives. An error of a handler is logged.
  unfoldable pub run : List (Turn (Value self)) → State self net → State self net
  run [] s = s
  run (event link_id e ∷ turns) s = run turns (handle_event link_id e s).1
  run (lost ∷ turns) s = s
  run (ticked ∷ turns) s = run turns (tick s)
