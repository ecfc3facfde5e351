-- ===== src/Rnguard/Watch/Filing.antt =====
-- When a frame leads to a call of the instance, and what is called.
use reticulum_router.Prelude.{
  ◌∙◌, ℕ, ◌≡◌, ◌≢◌, refl, ap, inl, inr, false, Option, none, some, ◌==◌, length, Bool-cases,
  Option-cases, ==_iff, subst,
}
use reticulum_router.Text.{Bytes, codes}
use reticulum_router.Rnguard.Tracker.{record_announce}
use reticulum_router.Rnguard.Watch.{
  Instance, violation_reason, Announced, announce, other, malformed, Args, Guard, map_get,
  of_destination, is_announce, announce_destination, blackhole, file_report, handle_announce,
  handle_frame, seen, address_hash_size,
}

abbrev WellSized : Announced → Type 0
WellSized (announce d) = length d ≡ 16
WellSized other = Unit
WellSized malformed = Unit

module _ (i : Instance) where
  of_destination-WellSized : (o : Option Bytes) → WellSized (of_destination i o)
  of_destination-WellSized none = tt
  of_destination-WellSized (some dest) = elim (Bool-cases (length dest == address_hash_size)) [
    | inl e ↦ rw e ((==_iff (length dest) 16).0 e)
    | inr e ↦ rw e tt
  ]

  announce_destination-WellSized : (bytes : Bytes) → WellSized (announce_destination i bytes)
  unfolding announce_destination
  announce_destination-WellSized bytes = elim (Option-cases (i.read_value bytes)) [
    | inl e ↦ rw (e, announce_destination) tt
    | inr (value, e) ↦ elim (Option-cases (i.as_map value)) [
      | inl m ↦ rw (e, m, announce_destination) tt
      | inr (map, m) ↦
          elim (Bool-cases (is_announce i (map_get i i.as_u64 map (codes "packet_type")))) [
            | inl p ↦
                rw (e, m, p, announce_destination)
                  (of_destination-WellSized (map_get i i.as_slice map (codes "destination")))
            | inr p ↦ rw (e, m, p, announce_destination) tt
          ]
    ]
  ]

  -- What is behind a call of the instance.
  pub record IsFiled (args : Args i) (now : ℕ) (g : Guard i) (bytes : Bytes) (after : i.World)
      : Type 0 where
    pub destination : Bytes
    pub reports : ℕ
    pub announced : announce_destination i bytes ≡ announce destination
    pub size : length destination ≡ 16
    pub reported : (record_announce g.tracker destination now).0 ≡ some reports
    pub wet : args.dry_run ≡ false
    pub filed :
        after
        ≡ (blackhole i destination
            (violation_reason destination reports args.window)
            args.duration
            g.world).1

  file_report-filed :
      (args : Args i) (destination : Bytes) (n : ℕ) (g : Guard i)
      → (file_report i args destination n g).world ≢ g.world
      → (args.dry_run ≡ false)
        × ((file_report i args destination n g).world
            ≡ (blackhole i destination
                (violation_reason destination n args.window)
                args.duration
                g.world).1)
  unfolding file_report
  file_report-filed args destination n g changed = elim (Bool-cases args.dry_run) [
    | inl dry ↦ absurd (changed (rw dry refl))
    | inr wet ↦ (wet, rw wet refl)
  ]

  handle_announce-IsFiled :
      (args : Args i) (bytes destination : Bytes) (now : ℕ) (g : Guard i)
      → announce_destination i bytes ≡ announce destination
      → (handle_announce i args destination now g).world ≢ g.world
      → IsFiled args now g bytes (handle_announce i args destination now g).world
  unfolding handle_announce
  handle_announce-IsFiled args bytes destination now g announced changed =
      elim (Option-cases (record_announce g.tracker destination now).0) [
        | inl e ↦ absurd (
            changed (
              rw (e, handle_announce)
                (elim (Bool-cases args.verbose) [ inl v ↦ rw v refl | inr v ↦ rw v refl ])))
        | inr (n, e) ↦
            let unlogged : (handle_announce i args destination now g).world
                ≡ (file_report i args destination n record (seen i g) {
                  tracker = (record_announce g.tracker destination now).1;
                }).world =
              rw (e, handle_announce) refl in
            let (wet, filed) =
              file_report-filed args destination n
                record (seen i g) { tracker = (record_announce g.tracker destination now).1 }
                (λ same. changed (unlogged ∙ same)) in
            record {
              destination = destination;
              reports = n;
              announced = announced;
              size = subst WellSized announced (announce_destination-WellSized bytes);
              reported = e;
              wet = wet;
              filed = unlogged ∙ filed;
            }
      ]

  handle_frame-cases :
      (args : Args i) (bytes : Bytes) (now : ℕ) (g : Guard i) (a : Announced)
      → announce_destination i bytes ≡ a
      → (handle_frame i args bytes now g).world ≢ g.world
      → IsFiled args now g bytes (handle_frame i args bytes now g).world
  unfolding handle_frame
  handle_frame-cases args bytes now g (announce destination) e changed =
      let same : handle_frame i args bytes now g ≡ handle_announce i args destination now g =
        rw (e, handle_frame) refl in
      rw same (
        handle_announce-IsFiled args bytes destination now g e
          (λ h. changed (ap (λ x. x.world) same ∙ h)))
  handle_frame-cases args bytes now g other e changed = absurd (changed (rw (e, handle_frame) refl))
  handle_frame-cases args bytes now g malformed e changed =
      absurd (changed (rw (e, handle_frame) refl))

  -- A frame on which the watchdog calls the instance describes an announce of a 16-byte destination
  -- that the tracker reports at that instant, the run is not dry, and the call asks for a blackhole
  -- of that destination, with the number of announces and the window as its reason.
  pub handle_frame-IsFiled :
      (args : Args i) (bytes : Bytes) (now : ℕ) (g : Guard i)
      → (handle_frame i args bytes now g).world ≢ g.world
      → IsFiled args now g bytes (handle_frame i args bytes now g).world
  handle_frame-IsFiled args bytes now g changed =
      handle_frame-cases args bytes now g (announce_destination i bytes) refl changed
