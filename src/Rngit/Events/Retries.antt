-- ===== src/Rngit/Events/Retries.antt =====
-- The resources that are given up.
use reticulum_router.Prelude.{
  ℕ, ◌+◌, ◌≤◌, ◌<◌, ◌≡◌, refl, ◌∙◌, inl, inr, Bool, true, false, List, [], ◌∷◌, ◌++◌, All, any,
  any-append, arith, Bool-cases,
}
use reticulum_router.Text.{Bytes, text_eq}
use reticulum_router.Text.Laws.{text_eq_refl}
use reticulum_router.Assoc.{remove}
use reticulum_router.Assoc.Laws.{remove-All}
use reticulum_router.Rngit.Host.{Rngit}
use reticulum_router.Rngit.Request.{Value}
use reticulum_router.Rngit.Transfer.{Net}
use reticulum_router.Rngit.Links.{OutboundResource, LinkState, State}
use reticulum_router.Rngit.Events.{
  ticked, Turn, is_unsent, is_due, is_spent, age_one, age, hashes_of, readvertise, remove_all,
  tick_link, tick_links, tick, run,
}

All_map :
    {A : Type 0} {P Q : A → Type 0} → ((a : A) → P a → Q a) → (xs : List A) → All P xs → All Q xs
All_map f [] h = tt
All_map f (x ∷ xs) (p, h) = (f x p, All_map f xs h)

All_of_all : {A : Type 0} (P : A → Type 0) → ((a : A) → P a) → (xs : List A) → All P xs
All_of_all P f [] = tt
All_of_all P f (x ∷ xs) = (f x, All_of_all P f xs)

module _ (self : Rngit) (net : Net self.wire) where
  abbrev Entry : Type 0
  Entry = Bytes × OutboundResource self net

  -- Every resource that is waiting has been advertised again so often.
  abbrev Waited : ℕ → Entry → Type 0
  Waited n e = is_unsent self net e.1 ≡ true → n ≤ e.1.adv_retries

  remove_all-kept :
      (hashes : List Bytes) (P : Entry → Type 0) (m : List Entry)
      → All P m
      → All (λ e. P e × (any (text_eq e.0) hashes ≡ false)) (remove_all self net hashes m)
  unfolding remove_all any
  remove_all-kept [] P m h = All_map (λ e p. (p, refl)) m h
  remove_all-kept (k ∷ hashes) P m h =
      All_map (λ e p. (p.0.0, ground (arith, p.0.1, p.1))) (remove_all self net hashes (remove k m))
        (remove_all-kept hashes (λ e. P e × (text_eq e.0 k ≡ false)) (remove k m)
          (remove-All P k m h))

  age_one-Waited :
      (n : ℕ) (h : Bytes) (ob : OutboundResource self net)
      → n < 4
      → Waited n (h, ob)
      → Waited (n + 1) (h, age_one self net ob)
  age_one-Waited n h ob few w u = elim (Bool-cases (is_unsent self net ob)) [
    | inl v ↦ let b : n ≤ ob.adv_retries = w v in ground (arith, v, b)
    | inr v ↦ ground (arith, v, u)
  ]

  age-Waited :
      (n : ℕ) (m : List Entry) → n < 4 → All (Waited n) m → All (Waited (n + 1)) (age self net m)
  unfolding age
  age-Waited n [] few h = tt
  age-Waited n ((k, ob) ∷ m) few (w, h) = (age_one-Waited n k ob few w, age-Waited n m few h)

  tick_link-Waited :
      (n : ℕ) (st : LinkState self net) (w : net.World)
      → n < 4
      → All (Waited n) st.outbound
      → All (Waited (n + 1)) (tick_link self net st w).0.outbound
  unfolding tick_link
  tick_link-Waited n st w few h =
      All_map (λ e p. p.0) (tick_link self net st w).0.outbound
        (remove_all-kept
          (hashes_of self net (is_spent self net) st.outbound
            ++ (readvertise self net st.link (age self net st.outbound)
                (hashes_of self net (is_due self net) st.outbound) w).0)
          (Waited (n + 1)) (age self net st.outbound) (age-Waited n st.outbound few h))

  -- After the last advertisement a resource is on the list of those that are given up.
  abbrev IsGivenUp : List Bytes → Entry → Type 0
  IsGivenUp hashes e = is_unsent self net e.1 ≡ true → any (text_eq e.0) hashes ≡ true

  unsent-age_one :
      (ob : OutboundResource self net)
      → is_unsent self net (age_one self net ob) ≡ true
      → is_unsent self net ob ≡ true
  unsent-age_one ob u = elim (Bool-cases (is_unsent self net ob)) [
    | inl v ↦ v
    | inr v ↦ ground (arith, v, u)
  ]

  -- The hashes of a longer list have those of its rest, and that of the first resource if it is one.
  hashes_of-rest :
      (p : OutboundResource self net → Bool) (k h : Bytes) (ob : OutboundResource self net)
      (m : List Entry)
      → any (text_eq h) (hashes_of self net p m) ≡ true
      → any (text_eq h) (hashes_of self net p ((k, ob) ∷ m)) ≡ true
  unfolding hashes_of any
  hashes_of-rest p k h ob m e = elim (Bool-cases (p ob)) [
    | inl q ↦ rw (q, hashes_of) (ground (arith, e))
    | inr q ↦ rw (q, hashes_of) e
  ]

  hashes_of-first :
      (p : OutboundResource self net → Bool) (k : Bytes) (ob : OutboundResource self net)
      (m : List Entry)
      → p ob ≡ true
      → any (text_eq k) (hashes_of self net p ((k, ob) ∷ m)) ≡ true
  unfolding hashes_of any
  hashes_of-first p k ob m q = rw (q, hashes_of) (ground (arith, text_eq_refl k))

  age-IsGivenUp :
      (m : List Entry) (hashes : List Bytes)
      → All (Waited 4) m
      → ((k : Bytes)
          → any (text_eq k) (hashes_of self net (is_spent self net) m) ≡ true
          → any (text_eq k) hashes ≡ true)
      → All (IsGivenUp hashes) (age self net m)
  unfolding age hashes_of any
  age-IsGivenUp [] hashes h s = tt
  age-IsGivenUp ((k, ob) ∷ m) hashes (w, h) s = (
    λ u.
        let v = unsent-age_one ob u in
        let b : 4 ≤ ob.adv_retries = w v in
        let spent : is_spent self net ob ≡ true = ground (arith, v, b) in
        s k (hashes_of-first (is_spent self net) k ob m spent),
    age-IsGivenUp m hashes h λ k' e. s k' (hashes_of-rest (is_spent self net) k k' ob m e),
  )

  abbrev pub IsSent : Entry → Type 0
  IsSent e = is_unsent self net e.1 ≡ false

  given_up-IsSent :
      (hashes : List Bytes) (e : Entry)
      → IsGivenUp hashes e × (any (text_eq e.0) hashes ≡ false)
      → IsSent e
  given_up-IsSent hashes e (g, kept) = elim (Bool-cases (is_unsent self net e.1)) [
    | inl u ↦ ground (arith, g u, kept)
    | inr u ↦ u
  ]

  tick_link-IsSent :
      (st : LinkState self net) (w : net.World)
      → All (Waited 4) st.outbound
      → All IsSent (tick_link self net st w).0.outbound
  unfolding tick_link any
  tick_link-IsSent st w h =
      let spent = hashes_of self net (is_spent self net) st.outbound in
      let failed =
        (readvertise self net st.link (age self net st.outbound)
          (hashes_of self net (is_due self net) st.outbound) w).0 in
      All_map (given_up-IsSent (spent ++ failed)) (tick_link self net st w).0.outbound (
        remove_all-kept (spent ++ failed) (IsGivenUp (spent ++ failed)) (age self net st.outbound) (
          age-IsGivenUp st.outbound (spent ++ failed) h
            λ k e. any-append (text_eq k) spent failed ∙ ground (arith, e)))

  -- The same for the links.
  abbrev LinksAre : (Entry → Type 0) → List (Bytes × LinkState self net) → Type 0
  LinksAre P = All (λ l. All P l.1.outbound)

  tick_links-All :
      (P Q : Entry → Type 0)
      → ((st : LinkState self net) (w : net.World)
          → All P st.outbound
          → All Q (tick_link self net st w).0.outbound)
      → (ls : List (Bytes × LinkState self net)) (w : net.World) → LinksAre P ls
      → LinksAre Q (tick_links self net ls w).0
  unfolding tick_links
  tick_links-All P Q f [] w h = tt
  tick_links-All P Q f ((id, st) ∷ ls) w (p, h) =
      (f st w p, tick_links-All P Q f ls (tick_link self net st w).1 h)

  tick-Waited :
      (n : ℕ) (s : State self net)
      → n < 4
      → LinksAre (Waited n) s.links
      → LinksAre (Waited (n + 1)) (tick self net s).links
  unfolding tick
  tick-Waited n s few h =
      tick_links-All (Waited n) (Waited (n + 1)) (λ st w. tick_link-Waited n st w few) s.links
        s.network h

  abbrev pub ticks : List (Turn (Value self))
  ticks = ticked ∷ ticked ∷ ticked ∷ ticked ∷ ticked ∷ []

  -- After five ticks with no event between them, the server keeps no resource, on any link, of which
  -- the peer has asked for no part, however many there were and whether the advertisements could be
  -- sent or not.
  pub run-IsSent :
      (s : State self net) → All (λ l. All IsSent l.1.outbound) (run self net ticks s).links
  unfolding run tick
  run-IsSent s =
      let s1 = tick self net s in
      let s2 = tick self net s1 in
      let s3 = tick self net s2 in
      let s4 = tick self net s3 in
      let start : LinksAre (Waited 0) s.links =
        All_of_all (λ l. All (Waited 0) l.1.outbound)
          (λ l. All_of_all (Waited 0) (λ e u. omega arith) l.1.outbound) s.links in
      tick_links-All (Waited 4) IsSent tick_link-IsSent s4.links s4.network (
        tick-Waited 3 s3 (omega arith) (
          tick-Waited 2 s2 (omega arith)
            (tick-Waited 1 s1 (omega arith) (tick-Waited 0 s (omega arith) start))))
