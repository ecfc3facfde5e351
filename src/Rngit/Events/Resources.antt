-- ===== src/Rngit/Events/Resources.antt =====
-- The packets of resources give no link a peer, and change nothing where the link has none.
use reticulum_router.Prelude.{refl, Option, none, some, List, [], ◌∷◌, if◌then◌else◌}
use reticulum_router.Text.{Bytes, lookup}
use reticulum_router.Assoc.{remove}
use reticulum_router.Rngit.Host.{Rngit}
use reticulum_router.Rngit.Transfer.{Net, Advertisement, UnpackedRequest, unpack_request}
use reticulum_router.Rngit.Links.{
  PacketContext, resource_advertisement, resource_request, resource_hash_update, resource_part,
  resource_proof, other_context, InboundResource, pure, update_link, bit, on_request,
  on_advertisement, part_result, on_part_request, on_hash_update,
}
use reticulum_router.Rngit.Events.{
  ResourcePacket, replace_inbound, send_if_some, follow_up, assembled, serve_unpacked, complete_one,
  complete, on_part, proved, on_proof, in_context, handle_resource_packet,
}
use reticulum_router.Rngit.Events.Mute.{
  IsMute-refl, AllMute-bind, on_network-AllMute, update_link-AllMute, AllMute-if, serve-AllMute,
  AllMute,
}

module _ (self : Rngit) (net : Net self.wire) where
  pub on_request-AllMute :
      (link_id : Bytes) (link : net.Link) (adv : Advertisement)
      → AllMute self net link_id (on_request self net link_id link adv)
  on_request-AllMute link_id link adv =
      AllMute-bind self net link_id _ _ (IsMute-refl self net link_id) λ started.
        AllMute-bind self net link_id _ _ (on_network-AllMute self net link_id _)
          λ _. update_link-AllMute self net link_id link_id _ λ st. refl

  pub on_advertisement-AllMute :
      (link_id : Bytes) (link : net.Link) (payload : Bytes)
      → AllMute self net link_id (on_advertisement self net link_id link payload)
  unfolding on_advertisement
  on_advertisement-AllMute link_id link payload =
      AllMute-bind self net link_id _ _ (IsMute-refl self net link_id) λ adv.
        let asked =
          if bit self net 0x08 adv.flags
          then on_request self net link_id link adv
          else pure self net tt in
        AllMute-if self net link_id (bit self net 0x10 adv.flags) (pure self net tt) asked
          (IsMute-refl self net link_id)
          (AllMute-if self net link_id (bit self net 0x08 adv.flags)
            (on_request self net link_id link adv) (pure self net tt)
            (on_request-AllMute link_id link adv) (IsMute-refl self net link_id))

  pub part_result-AllMute :
      (link_id : Bytes) (link : net.Link) (r : self.wire.Resource) (payload packet_hash : Bytes)
      → AllMute self net link_id (part_result self net link r payload packet_hash)
  part_result-AllMute link_id link r payload packet_hash s = record {
    peers = λ k e. e;
    same = λ e. refl;
  }

  pub on_part_request-AllMute :
      (link_id : Bytes) (link : net.Link) (payload packet_hash : Bytes)
      → AllMute self net link_id (on_part_request self net link_id link payload packet_hash)
  unfolding on_part_request
  on_part_request-AllMute link_id link payload packet_hash =
      AllMute-bind self net link_id _ _ (IsMute-refl self net link_id) λ hash.
        AllMute-bind self net link_id _ _ (IsMute-refl self net link_id) λ st.
          AllMute-bind self net link_id _ _ (IsMute-refl self net link_id) λ ob.
            AllMute-bind self net link_id _ _
              (update_link-AllMute self net link_id link_id _ λ st. refl)
              λ _.
                AllMute-bind self net link_id _ _
                  (part_result-AllMute link_id link _ payload packet_hash)
                  λ result.
                    AllMute-bind self net link_id _ _
                      (update_link-AllMute self net link_id link_id _ λ st. refl)
                      λ _. IsMute-refl self net link_id

  pub on_hash_update-AllMute :
      (link_id : Bytes) (link : net.Link) (payload : Bytes)
      → AllMute self net link_id (on_hash_update self net link_id link payload)
  unfolding on_hash_update
  on_hash_update-AllMute link_id link payload =
      AllMute-bind self net link_id _ _ (IsMute-refl self net link_id) λ hash.
        AllMute-bind self net link_id _ _ (IsMute-refl self net link_id) λ st.
          AllMute-bind self net link_id _ _ (IsMute-refl self net link_id) λ inbound.
            AllMute-bind self net link_id _ _ (IsMute-refl self net link_id) λ request_bytes.
              AllMute-bind self net link_id _ _
                (update_link-AllMute self net link_id link_id _ λ st. refl)
                λ _.
                  AllMute-bind self net link_id _ _ (IsMute-refl self net link_id)
                    λ b. on_network-AllMute self net link_id _

  pub replace_inbound-AllMute :
      (link_id hash : Bytes) (r : self.wire.Resource)
      → AllMute self net link_id (replace_inbound self net link_id hash r)
  replace_inbound-AllMute link_id hash r = update_link-AllMute self net link_id link_id _ λ st. refl

  pub send_if_some-AllMute :
      (link_id : Bytes) (link : net.Link) (b : Option Bytes)
      → AllMute self net link_id (send_if_some self net link b)
  send_if_some-AllMute link_id link none = IsMute-refl self net link_id
  send_if_some-AllMute link_id link (some b) = on_network-AllMute self net link_id _

  pub follow_up-AllMute :
      (link_id : Bytes) (link : net.Link) (hashes : List Bytes)
      → AllMute self net link_id (follow_up self net link_id link hashes)
  unfolding follow_up
  follow_up-AllMute link_id link [] = IsMute-refl self net link_id
  follow_up-AllMute link_id link (hash ∷ hashes) =
      AllMute-bind self net link_id _ _ (IsMute-refl self net link_id) λ st.
        AllMute-bind self net link_id _ _ (IsMute-refl self net link_id) λ inbound.
          AllMute-bind self net link_id _ _ (replace_inbound-AllMute link_id hash _) λ _.
            AllMute-bind self net link_id _ _ (send_if_some-AllMute link_id link _)
              λ _. follow_up-AllMute link_id link hashes

  pub assembled-AllMute :
      (link_id : Bytes) (link : net.Link) (r : self.wire.Resource)
      → AllMute self net link_id (assembled self net link r)
  assembled-AllMute link_id link r s = record { peers = λ k e. e; same = λ e. refl }

  pub serve_unpacked-AllMute :
      (link_id : Bytes) (link : net.Link) (request_id : Bytes)
      (r : Option (UnpackedRequest self.wire net))
      → AllMute self net link_id (serve_unpacked self net link_id link request_id r)
  serve_unpacked-AllMute link_id link request_id none = IsMute-refl self net link_id
  serve_unpacked-AllMute link_id link request_id (some u) =
      serve-AllMute self net link_id link u.path_hash u.body request_id

  pub complete_one-AllMute :
      (link_id : Bytes) (link : net.Link) (i : Option (InboundResource self net))
      → AllMute self net link_id (complete_one self net link_id link i)
  complete_one-AllMute link_id link none = IsMute-refl self net link_id
  complete_one-AllMute link_id link (some i) =
      AllMute-bind self net link_id _ _ (assembled-AllMute link_id link i.resource) λ plaintext.
        serve_unpacked-AllMute link_id link i.request_id (unpack_request self.wire net plaintext)

  pub complete-AllMute :
      (link_id : Bytes) (link : net.Link) (hashes : List Bytes)
      → AllMute self net link_id (complete self net link_id link hashes)
  unfolding complete
  complete-AllMute link_id link [] = IsMute-refl self net link_id
  complete-AllMute link_id link (hash ∷ hashes) =
      AllMute-bind self net link_id _ _ (IsMute-refl self net link_id) λ st.
        AllMute-bind self net link_id _ _
          (update_link-AllMute self net link_id link_id _ λ st. refl)
          λ _.
            AllMute-bind self net link_id _ _ (complete_one-AllMute link_id link _)
              λ _. complete-AllMute link_id link hashes

  pub on_part-AllMute :
      (link_id : Bytes) (link : net.Link) (payload : Bytes)
      → AllMute self net link_id (on_part self net link_id link payload)
  unfolding on_part
  on_part-AllMute link_id link payload =
      AllMute-bind self net link_id _ _ (IsMute-refl self net link_id) λ st.
        AllMute-bind self net link_id _ _
          (update_link-AllMute self net link_id link_id _ λ st. refl)
          λ _.
            AllMute-bind self net link_id _ _ (follow_up-AllMute link_id link _)
              λ _. complete-AllMute link_id link _

  pub on_proof-AllMute :
      (link_id : Bytes) (payload : Bytes)
      → AllMute self net link_id (on_proof self net link_id payload)
  unfolding on_proof
  on_proof-AllMute link_id payload =
      AllMute-bind self net link_id _ _ (IsMute-refl self net link_id) λ hash.
        AllMute-bind self net link_id _ _ (IsMute-refl self net link_id) λ st.
          AllMute-if self net link_id (proved self net payload (lookup hash st.outbound))
            (update_link self net link_id (λ st. record st { outbound = remove hash st.outbound }))
            (pure self net tt) (update_link-AllMute self net link_id link_id _ λ st. refl)
            (IsMute-refl self net link_id)

  pub in_context-AllMute :
      (c : PacketContext) (link_id : Bytes) (link : net.Link) (rp : ResourcePacket)
      → AllMute self net link_id (in_context self net c link_id link rp)
  in_context-AllMute resource_advertisement link_id link rp =
      on_advertisement-AllMute link_id link rp.payload
  in_context-AllMute resource_request link_id link rp =
      on_part_request-AllMute link_id link rp.payload rp.packet_hash
  in_context-AllMute resource_hash_update link_id link rp =
      on_hash_update-AllMute link_id link rp.payload
  in_context-AllMute resource_part link_id link rp = on_part-AllMute link_id link rp.payload
  in_context-AllMute resource_proof link_id link rp = on_proof-AllMute link_id rp.payload
  in_context-AllMute other_context link_id link rp = IsMute-refl self net link_id

  pub handle_resource_packet-AllMute :
      (link_id : Bytes) (link : net.Link) (rp : ResourcePacket)
      → AllMute self net link_id (handle_resource_packet self net link_id link rp)
  unfolding handle_resource_packet
  handle_resource_packet-AllMute link_id link rp = in_context-AllMute rp.context link_id link rp
