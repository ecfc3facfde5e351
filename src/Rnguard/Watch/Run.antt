-- ===== src/Rnguard/Watch/Run.antt =====
-- What holds over a whole run of the watchdog, whatever the connections bring.
use reticulum_router.Prelude.{
  ◌∙◌, ℕ, ◌-◌, ◌≤◌, ◌≡◌, refl, inl, inr, Bool, true, false, not, Option, none, some, List, [], ◌∷◌,
  arith, ltb, Bool-cases, Option-cases,
}
use reticulum_router.Text.{Bytes}
use reticulum_router.Rnguard.Tracker.{new, record_announce}
use reticulum_router.Rnguard.Watch.{
  Instance, Announced, announce, other, malformed, Args, Guard, Readings, new_stats,
  announce_destination, file_report, handle_announce, handle_frame, sweep, reached, mark_report,
  prune_interval,
}
use reticulum_router.Rnguard.Watch.Loop.{
  Event, frame, idle, failed, Ended, unreachable, exited, watching, ended, listen_request,
  subscribe, open_stream, watch_all, watch, run,
}

-- A predicate that each announce, each sweep and each opening of a stream keeps is kept by the loops.
module _ (i : Instance) (args : Args i) (P : Guard i → Type 0) where
  record IsKept : Type 0 where
    announces : (d : Bytes) (now : ℕ) (g : Guard i) → P g → P (handle_announce i args d now g)
    sweeps : (r : Readings) (g : Guard i) → P g → P (sweep i args r g).1
    opens : (g : Guard i) → P g → P (open_stream i g).1

  module _ (kept : IsKept) where
    handle_frame-kept_as :
        (bytes : Bytes) (now : ℕ) (g : Guard i) (a : Announced)
        → announce_destination i bytes ≡ a
        → P g
        → P (handle_frame i args bytes now g)
    unfolding handle_frame
    handle_frame-kept_as bytes now g (announce d) e h =
        rw (e, handle_frame) (kept.announces d now g h)
    handle_frame-kept_as bytes now g other e h = rw (e, handle_frame) h
    handle_frame-kept_as bytes now g malformed e h = rw (e, handle_frame) h

    handle_frame-kept :
        (bytes : Bytes) (now : ℕ) (g : Guard i) → P g → P (handle_frame i args bytes now g)
    handle_frame-kept bytes now g =
        handle_frame-kept_as bytes now g (announce_destination i bytes) refl

    watch-kept : (events : List (Event i)) (g : Guard i) → P g → P (watch i args events g).1
    unfolding watch
    watch-kept [] g h = h
    watch-kept (failed ∷ events) g h = h
    watch-kept (idle r ∷ events) g h = elim (Bool-cases (sweep i args r g).0) [
      | inl on ↦ rw (on, watch) (watch-kept events (sweep i args r g).1 (kept.sweeps r g h))
      | inr off ↦ rw (off, watch) (kept.sweeps r g h)
    ]
    watch-kept (frame bytes now r ∷ events) g h =
        let g' = handle_frame i args bytes now g in
        let h' = kept.sweeps r g' (handle_frame-kept bytes now g h) in
        elim (Bool-cases (sweep i args r g').0) [
          | inl on ↦ rw (on, watch) (watch-kept events (sweep i args r g').1 h')
          | inr off ↦ rw (off, watch) h'
        ]

    watch_all-kept :
        (attempts : List (List (Event i))) (g : Guard i) → P g → P (watch_all i args attempts g).1
    unfolding watch_all
    watch_all-kept [] g h = h
    watch_all-kept (events ∷ attempts) g h =
        let g' = (open_stream i g).1 in
        let h' = kept.opens g h in
        elim (Bool-cases (open_stream i g).0) [
          | inr off ↦ rw (off, watch_all) (watch_all-kept attempts g' h')
          | inl opened ↦
              let h'' = watch-kept events g' h' in
              elim (Bool-cases (watch i args events g').0) [
                | inl on ↦
                    rw (opened, on, watch_all)
                      (watch_all-kept attempts (watch i args events g').1 h'')
                | inr off ↦ rw (opened, off, watch_all) h''
              ]
        ]

-- The limit of `--once` that a number of blackholes has reached.
abbrev pub HasReached : Option ℕ → ℕ → Type 0
HasReached once n = (limit : ℕ) × (once ≡ some limit) × (limit ≤ n)

not-reached : (once : Option ℕ) (n : ℕ) → not (reached once n) ≡ false → HasReached once n
not-reached none n e = absurd (ground (arith, e))
not-reached (some limit) n e = (limit, refl, ground (arith, e))

-- What connecting to an instance and sending it listen requests makes of it.
pub data IsListener (i : Instance) (w : i.World) : i.World → Type 0 where
  same : IsListener i w w
  connects : {v : i.World} → IsListener i w v → IsListener i w (i.connect_rpc v).1
  listens : {v : i.World} → IsListener i w v → IsListener i w (i.exchange (listen_request i) v).1

-- The instance as a run leaves it.
abbrev pub world_of : (i : Instance) → Ended i → i.World
world_of i (unreachable w) = w
world_of i (exited g) = g.world
world_of i (watching g) = g.world

module _ (i : Instance) (args : Args i) where
  -- What the outer loop begins with, where the first connection succeeds.
  abbrev first_guard : ℕ × ℕ → i.World → Guard i
  first_guard marks w = record {
    tracker = new args.window args.threshold args.coalesce;
    stats = new_stats marks.0 marks.1;
    world = (i.connect_rpc w).1;
  }

  sweep-world : (r : Readings) (g : Guard i) → (sweep i args r g).1.world ≡ g.world
  unfolding sweep
  sweep-world r g =
      elim (Bool-cases
        (ltb (r.prune_elapsed - (mark_report args.verbose r g.stats).last_prune) prune_interval)) [
          | inl e ↦ rw (e, sweep) refl
          | inr e ↦ rw (e, sweep) refl
        ]

  handle_announce-dry :
      args.dry_run ≡ true
      → (d : Bytes) (now : ℕ) (g : Guard i) → (handle_announce i args d now g).world ≡ g.world
  unfolding handle_announce file_report
  handle_announce-dry dry d now g = elim (Option-cases (record_announce g.tracker d now).0) [
    | inl e ↦ elim (Bool-cases args.verbose) [
      | inl v ↦ rw (e, v, handle_announce) refl
      | inr v ↦ rw (e, v, handle_announce) refl
    ]
    | inr (n, e) ↦ rw (e, handle_announce) (rw (dry, file_report) refl)
  ]

  open_stream-IsListener :
      (w : i.World) (g : Guard i)
      → IsListener i w g.world
      → IsListener i w (open_stream i g).1.world
  unfolding open_stream subscribe
  open_stream-IsListener w g h = elim (Bool-cases (i.connect_rpc g.world).0) [
    | inl c ↦ rw (c, open_stream) (listens (connects h))
    | inr c ↦ rw (c, open_stream) (connects h)
  ]

  watch_all-dry :
      args.dry_run ≡ true
      → (w : i.World) (attempts : List (List (Event i))) (g : Guard i) → IsListener i w g.world
      → IsListener i w (watch_all i args attempts g).1.world
  watch_all-dry dry w =
      watch_all-kept i args (λ x. IsListener i w x.world)
        (record {
          announces = λ d now x h. rw (handle_announce-dry dry d now x) h;
          sweeps = λ r x h. rw (sweep-world r x) h;
          opens = λ x h. open_stream-IsListener w x h;
        })

  world_of-ended :
      (w : i.World) (r : Bool × Guard i)
      → IsListener i w r.1.world
      → IsListener i w (world_of i (ended i r))
  world_of-ended w (true, g) h = h
  world_of-ended w (false, g) h = h

  -- A dry run files no blackhole: whatever arrives on however many connections, the instance comes to
  -- be as connecting to it and sending it listen requests makes it, and nothing else that is sent
  -- reaches it.
  pub run-dry :
      (marks : ℕ × ℕ) (attempts : List (List (Event i))) (w : i.World)
      → args.dry_run ≡ true
      → IsListener i w (world_of i (run i args marks attempts w))
  unfolding run
  run-dry marks attempts w dry = elim (Bool-cases (i.connect_rpc w).0) [
    | inl c ↦
        rw (c, run)
          (world_of-ended w (watch_all i args attempts (first_guard marks w))
            (watch_all-dry dry w attempts (first_guard marks w) (connects same)))
    | inr c ↦ rw (c, run) (connects same)
  ]

  -- Whether a step goes on, and if not, why.
  abbrev Explains : Bool × Guard i → Type 0
  Explains (on, g) = on ≡ false → HasReached args.once g.stats.blackholes

  sweep-Explains : (r : Readings) (g : Guard i) → Explains (sweep i args r g)
  unfolding sweep
  sweep-Explains r g off =
      elim (Bool-cases
        (ltb (r.prune_elapsed - (mark_report args.verbose r g.stats).last_prune) prune_interval)) [
          | inl e ↦
              let on : (sweep i args r g).0 ≡ true = rw (e, sweep) refl in
              absurd (ground (arith, on, off))
          | inr e ↦
              let stops : not (reached args.once (mark_report args.verbose r g.stats).blackholes)
                  ≡ false =
                rw (e, sweep) refl ∙ off in
              rw (e, sweep)
                (not-reached args.once (mark_report args.verbose r g.stats).blackholes stops)
        ]

  watch-Explains : (events : List (Event i)) (g : Guard i) → Explains (watch i args events g)
  unfolding watch
  watch-Explains [] g = λ off. absurd (ground (arith, off))
  watch-Explains (failed ∷ events) g = λ off. absurd (ground (arith, off))
  watch-Explains (idle r ∷ events) g = elim (Bool-cases (sweep i args r g).0) [
    | inl on ↦ rw (on, watch) (watch-Explains events (sweep i args r g).1)
    | inr off ↦ rw (off, watch) λ e. sweep-Explains r g off
  ]
  watch-Explains (frame bytes now r ∷ events) g =
      let g' = handle_frame i args bytes now g in
      elim (Bool-cases (sweep i args r g').0) [
        | inl on ↦ rw (on, watch) (watch-Explains events (sweep i args r g').1)
        | inr off ↦ rw (off, watch) λ e. sweep-Explains r g' off
      ]

  watch_all-Explains :
      (attempts : List (List (Event i))) (g : Guard i) → Explains (watch_all i args attempts g)
  unfolding watch_all
  watch_all-Explains [] g = λ off. absurd (ground (arith, off))
  watch_all-Explains (events ∷ attempts) g =
      let g' = (open_stream i g).1 in
      elim (Bool-cases (open_stream i g).0) [
        | inr off ↦ rw (off, watch_all) (watch_all-Explains attempts g')
        | inl opened ↦ elim (Bool-cases (watch i args events g').0) [
          | inl on ↦
              rw (opened, on, watch_all) (watch_all-Explains attempts (watch i args events g').1)
          | inr off ↦ rw (opened, off, watch_all) λ e. watch-Explains events g' off
        ]
      ]

  -- Why the tool has ended, where it has.
  abbrev pub IsCause : i.World → Ended i → Type 0
  IsCause w (unreachable w') = ((i.connect_rpc w).0 ≡ false) × (w' ≡ (i.connect_rpc w).1)
  IsCause w (exited g) = ((i.connect_rpc w).0 ≡ true) × HasReached args.once g.stats.blackholes
  IsCause w (watching g) = (i.connect_rpc w).0 ≡ true

  ended-IsCause :
      (w : i.World) (r : Bool × Guard i)
      → (i.connect_rpc w).0 ≡ true
      → Explains r
      → IsCause w (ended i r)
  ended-IsCause w (true, g) c h = c
  ended-IsCause w (false, g) c h = (c, h refl)

  -- The tool fails exactly where its first connection fails, and has then done nothing but that
  -- connection; it exits otherwise only because of `--once`, and then it has counted at least as many
  -- blackholes as the limit says.
  pub run-exit :
      (marks : ℕ × ℕ) (attempts : List (List (Event i))) (w : i.World)
      → IsCause w (run i args marks attempts w)
  unfolding run
  run-exit marks attempts w = elim (Bool-cases (i.connect_rpc w).0) [
    | inl c ↦
        rw (c, run)
          (ended-IsCause w (watch_all i args attempts (first_guard marks w)) c
            (watch_all-Explains attempts (first_guard marks w)))
    | inr c ↦ rw (c, run) (c, refl)
  ]
