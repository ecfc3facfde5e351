-- ===== src/Rngit/Events/Identity.antt =====
-- Who can change the repositories: only peers that have identified themselves.
use reticulum_router.Prelude.{
  ◌≡◌, ◌≢◌, refl, ap, ◌∙◌, inl, inr, Bool, true, false, none, List, [], ◌∷◌, any, arith, Bool-cases,
}
use reticulum_router.Text.{Bytes, text_eq, lookup}
use reticulum_router.Assoc.Laws.{lookup-modify_other}
use reticulum_router.Rngit.Host.{Rngit}
use reticulum_router.Rngit.Request.{Value}
use reticulum_router.Rngit.Transfer.{Net}
use reticulum_router.Rngit.Links.{LinkState, State, update_link, peer_in, peer_of}
use reticulum_router.Rngit.Events.{
  LinkEvent, activated, remote_identified, closed, request, resource_packet, other_event, Turn,
  event, lost, ticked, handle_event, tick_link, tick_links, tick, run,
}
use reticulum_router.Rngit.Events.Mute.{
  with_found-AllMute, serve-AllMute, insert-IsMute, remove-IsMute,
}
use reticulum_router.Rngit.Events.Resources.{handle_resource_packet-AllMute}

module _ (self : Rngit) (net : Net self.wire) where
  -- The event identifies the link.
  abbrev pub names : Bytes → Turn (Value self) → Bool
  names k (event link_id (remote_identified hash)) = text_eq link_id k
  names k (event link_id e) = false
  names k lost = false
  names k ticked = false

  handle_event-unnamed :
      (k link_id : Bytes) (e : LinkEvent (Value self)) (s : State self net)
      → names k (event link_id e) ≡ false
      → peer_of self net k s ≡ none
      → peer_of self net k (handle_event self net link_id e s).1 ≡ none
  unfolding handle_event update_link
  handle_event-unnamed k link_id activated s n h =
      (with_found-AllMute self net link_id (net.find_in_link link_id s.network) _
          (λ link t. insert-IsMute self net link_id link t) s).peers
        k h
  handle_event-unnamed k link_id (remote_identified hash) s n h =
      ap (peer_in self net) (lookup-modify_other k link_id _ s.links n) ∙ h
  handle_event-unnamed k link_id closed s n h = (remove-IsMute self net link_id s).peers k h
  handle_event-unnamed k link_id (request r) s n h =
      (with_found-AllMute self net link_id (net.find_in_link link_id s.network) _
          (λ link. serve-AllMute self net link_id link r.path_hash r.body r.request_id) s).peers
        k h
  handle_event-unnamed k link_id (resource_packet rp) s n h =
      (with_found-AllMute self net link_id (net.find_in_link link_id s.network) _
          (λ link. handle_resource_packet-AllMute self net link_id link rp) s).peers
        k h
  handle_event-unnamed k link_id other_event s n h = h

  -- An event of a link without a peer does not change the repositories.
  handle_event-same :
      (link_id : Bytes) (e : LinkEvent (Value self)) (s : State self net)
      → peer_of self net link_id s ≡ none
      → (handle_event self net link_id e s).1.world ≡ s.world
  unfolding handle_event update_link
  handle_event-same link_id activated s h =
      (with_found-AllMute self net link_id (net.find_in_link link_id s.network) _
          (λ link t. insert-IsMute self net link_id link t) s).same
        h
  handle_event-same link_id (remote_identified hash) s h = refl
  handle_event-same link_id closed s h = refl
  handle_event-same link_id (request r) s h =
      (with_found-AllMute self net link_id (net.find_in_link link_id s.network) _
          (λ link. serve-AllMute self net link_id link r.path_hash r.body r.request_id) s).same
        h
  handle_event-same link_id (resource_packet rp) s h =
      (with_found-AllMute self net link_id (net.find_in_link link_id s.network) _
          (λ link. handle_resource_packet-AllMute self net link_id link rp) s).same
        h
  handle_event-same link_id other_event s h = refl

  tick_links-peer :
      (k : Bytes) (ls : List (Bytes × LinkState self net)) (w : net.World)
      → peer_in self net (lookup k (tick_links self net ls w).0) ≡ peer_in self net (lookup k ls)
  unfolding tick_links tick_link lookup
  tick_links-peer k [] w = refl
  tick_links-peer k ((id, st) ∷ ls) w = elim (Bool-cases (text_eq id k)) [
    | inl e ↦ rw (tick_links, lookup, e) refl
    | inr e ↦ rw (tick_links, lookup, e) (tick_links-peer k ls (tick_link self net st w).1)
  ]

  -- A link that no event identifies gets no peer.
  run-unnamed :
      (k : Bytes) (turns : List (Turn (Value self))) (s : State self net)
      → any (names k) turns ≡ false
      → peer_of self net k s ≡ none
      → peer_of self net k (run self net turns s) ≡ none
  unfolding run any tick
  run-unnamed k [] s n h = h
  run-unnamed k (event link_id e ∷ turns) s n h =
      run-unnamed k turns (handle_event self net link_id e s).1 (ground (arith, n))
        (handle_event-unnamed k link_id e s (ground (arith, n)) h)
  run-unnamed k (lost ∷ turns) s n h = h
  run-unnamed k (ticked ∷ turns) s n h =
      run-unnamed k turns (tick self net s) n (tick_links-peer k s.links s.network ∙ h)

  -- Whatever has happened since the server started, an event of a link, be it a request, the last part
  -- of a request that came as a resource or any other, changes the repositories and their access lists
  -- only if an event before it has identified that link's peer.
  pub changed-named :
      (turns : List (Turn (Value self))) (link_id : Bytes) (e : LinkEvent (Value self))
      (s : State self net)
      → s.links ≡ []
      → (handle_event self net link_id e (run self net turns s)).1.world
        ≢ (run self net turns s).world
      → any (names link_id) turns ≡ true
  unfolding lookup
  changed-named turns link_id e s none_yet changed = elim (Bool-cases (any (names link_id) turns)) [
    | inl n ↦ n
    | inr n ↦ absurd (
        changed (
          handle_event-same link_id e (run self net turns s) (
            run-unnamed link_id turns s n
              (ap (λ ls. peer_in self net (lookup link_id ls)) none_yet))))
  ]
