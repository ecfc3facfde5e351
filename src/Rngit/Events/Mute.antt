-- ===== src/Rngit/Events/Mute.antt =====
-- Steps that give no link a peer, and change nothing where the link has none.
use reticulum_router.Prelude.{
  ◌≡◌, refl, ap, ◌∙◌, sym, inl, inr, Bool, true, false, Option, none, some, arith, Bool-cases,
  if◌then◌else◌,
}
use reticulum_router.Text.{Bytes, text_eq, lookup}
use reticulum_router.Text.Laws.{eq_of_text_eq}
use reticulum_router.Assoc.{insert, remove}
use reticulum_router.Assoc.Laws.{
  lookup-insert_self, lookup-insert_other, lookup-remove_self, lookup-remove_other, seen-modify,
}
use reticulum_router.Rngit.Host.{Rngit}
use reticulum_router.Rngit.Request.{Value, with_repository}
use reticulum_router.Rngit.Server.{handle_push, handle_delete, handle_create}
use reticulum_router.Rngit.Listing.{handle_list, handle_repos}
use reticulum_router.Rngit.Fetch.{Response, inline, resource, handle_fetch}
use reticulum_router.Rngit.Transfer.{Net}
use reticulum_router.Rngit.Links.{
  ◌>>=◌, LinkState, new, State, Action, on_network, update_link, peer_in, peer_of, continue,
  route_request, respond, serve,
}
use reticulum_router.Rngit.Events.{with_found}

module _ (self : Rngit) (net : Net self.wire) where
  -- A change of the state that gives no link a peer, and changes nothing else of the server where the
  -- link has none.
  pub record IsMute (link_id : Bytes) (s s' : State self net) : Type 0 where
    pub peers : (k : Bytes) → peer_of self net k s ≡ none → peer_of self net k s' ≡ none
    pub same : peer_of self net link_id s ≡ none → s'.world ≡ s.world

  abbrev pub AllMute : {A : Type 0} → Bytes → Action self net A → Type 0
  AllMute link_id m = (s : State self net) → IsMute link_id s (m s).1

  pub IsMute-refl : (link_id : Bytes) (s : State self net) → IsMute link_id s s
  IsMute-refl link_id s = record { peers = λ k e. e; same = λ e. refl }

  pub IsMute-trans :
      (link_id : Bytes) (s t u : State self net)
      → IsMute link_id s t
      → IsMute link_id t u
      → IsMute link_id s u
  IsMute-trans link_id s t u a b = record {
    peers = λ k e. b.peers k (a.peers k e);
    same = λ e. b.same (a.peers link_id e) ∙ a.same e;
  }

  pub IsMute-continue :
      {A B : Type 0} (link_id : Bytes) (s : State self net) (r : Option A × State self net)
      (f : A → Action self net B)
      → IsMute link_id s r.1
      → ((a : A) → AllMute link_id (f a))
      → IsMute link_id s (continue r f).1
  unfolding continue
  IsMute-continue link_id s (none, s') f p q = p
  IsMute-continue link_id s (some a, s') f p q = IsMute-trans link_id s s' (f a s').1 p (q a s')

  pub AllMute-bind :
      {A B : Type 0} (link_id : Bytes) (m : Action self net A) (f : A → Action self net B)
      → AllMute link_id m
      → ((a : A) → AllMute link_id (f a))
      → AllMute link_id (m >>= f)
  unfolding ◌>>=◌
  AllMute-bind link_id m f p q s = IsMute-continue link_id s (m s) f (p s) q

  -- A change of the network, and of a link but for its peer.
  pub on_network-AllMute :
      (link_id : Bytes) (m : net.World → Bool × net.World) → AllMute link_id (on_network self net m)
  unfolding on_network
  on_network-AllMute link_id m s = record { peers = λ k e. e; same = λ e. refl }

  pub update_link-AllMute :
      (link_id j : Bytes) (f : LinkState self net → LinkState self net)
      → ((st : LinkState self net) → (f st).peer ≡ st.peer)
      → AllMute link_id (update_link self net j f)
  unfolding update_link
  update_link-AllMute link_id j f h s = record {
    peers = λ k e. seen-modify (peer_in self net) k j f s.links (λ st. h st) ∙ e;
    same = λ e. refl;
  }

  pub route_request-anonymous :
      (link_id path_hash : Bytes) (body : Value self) (request_id : Bytes) (s : State self net)
      → (route_request self net none path_hash body request_id s).1 ≡ s
  unfolding route_request with_repository handle_list handle_repos handle_fetch handle_push
      handle_delete handle_create
  route_request-anonymous link_id path_hash body request_id s = ground arith

  pub AllMute-if :
      {A : Type 0} (link_id : Bytes) (b : Bool) (m n : Action self net A)
      → AllMute link_id m
      → AllMute link_id n
      → AllMute link_id (if b then m else n)
  AllMute-if link_id true m n p q = p
  AllMute-if link_id false m n p q = q

  pub route_request-links :
      (peer : Option Bytes) (path_hash : Bytes) (body : Value self) (request_id : Bytes)
      (s : State self net)
      → (route_request self net peer path_hash body request_id s).1.links ≡ s.links
  unfolding route_request
  route_request-links peer path_hash body request_id s = ground arith

  pub respond-AllMute :
      (link_id : Bytes) (link : net.Link) (request_id : Bytes) (r : Response self)
      → AllMute link_id (respond self net link_id link request_id r)
  unfolding respond
  respond-AllMute link_id link request_id (inline b) = on_network-AllMute link_id _
  respond-AllMute link_id link request_id (resource r) =
      AllMute-bind link_id _ _ (on_network-AllMute link_id _)
        λ _. update_link-AllMute link_id link_id _ λ st. refl

  -- The peer of the link is the one that the request is answered with.
  pub serve-AllMute :
      (link_id : Bytes) (link : net.Link) (path_hash : Bytes) (body : Value self)
      (request_id : Bytes)
      → AllMute link_id (serve self net link_id link path_hash body request_id)
  unfolding serve ◌>>=◌
  serve-AllMute link_id link path_hash body request_id s =
      let peer = peer_of self net link_id s in
      IsMute-continue link_id s (route_request self net peer path_hash body request_id s)
        (respond self net link_id link request_id)
        (record {
          peers = λ k e.
              ap (λ ls. peer_in self net (lookup k ls))
                (route_request-links peer path_hash body request_id s)
              ∙ e;
          same = λ e.
              ap (λ p. (route_request self net p path_hash body request_id s).1.world) e
              ∙ ap (λ t. t.world) (route_request-anonymous link_id path_hash body request_id s);
        })
        (respond-AllMute link_id link request_id)

  pub with_found-AllMute :
      (link_id : Bytes) (found : Option net.Link) (f : net.Link → Action self net (Unit {0}))
      → ((link : net.Link) → AllMute link_id (f link))
      → AllMute link_id (with_found self net found f)
  with_found-AllMute link_id none f p = IsMute-refl link_id
  with_found-AllMute link_id (some link) f p = p link

  pub insert-IsMute :
      (link_id : Bytes) (link : net.Link) (s : State self net)
      → IsMute link_id s (record s { links = insert link_id (new self net link) s.links })
  insert-IsMute link_id link s = record {
    peers = λ k e. elim (Bool-cases (text_eq link_id k)) [
      | inl i ↦
          rw (sym (eq_of_text_eq link_id k i))
            (ap (peer_in self net) (lookup-insert_self link_id (new self net link) s.links))
      | inr i ↦
          ap (peer_in self net) (lookup-insert_other k link_id (new self net link) s.links i) ∙ e
    ];
    same = λ e. refl;
  }

  pub remove-IsMute :
      (link_id : Bytes) (s : State self net)
      → IsMute link_id s (record s { links = remove link_id s.links })
  remove-IsMute link_id s = record {
    peers = λ k e. elim (Bool-cases (text_eq link_id k)) [
      | inl i ↦
          rw (sym (eq_of_text_eq link_id k i))
            (ap (peer_in self net) (lookup-remove_self link_id s.links))
      | inr i ↦ ap (peer_in self net) (lookup-remove_other k link_id s.links i) ∙ e
    ];
    same = λ e. refl;
  }
