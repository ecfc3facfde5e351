-- ===== src/Rnguard/Watch/Loop.antt =====
-- src/bin/rnguard.rs: `run` and `subscribe`. The watchdog connects, subscribes to the events of the
-- instance, again and again, and processes them.
use reticulum_router.Prelude.{
  ℕ, Bool, true, false, not, Option, none, some, List, [], ◌∷◌, if◌then◌else◌,
}
use reticulum_router.Text.{Bytes, codes}
use reticulum_router.Rnguard.Tracker.{new}
use reticulum_router.Rnguard.Watch.{
  Instance, Args, Readings, Guard, new_stats, is_key, map_get, handle_frame, sweep,
}

module _ (instance' : Instance) where
  -- What `next_frame` gives the inner loop of `run`, with the readings of the clock of the turn.
  pub data Event : Type 0 where
    frame : Bytes → ℕ → Readings → Event
    idle : Readings → Event
    failed : Event

  -- The inner loop of `run`: false when the tool exits, true when it is to subscribe again.
  unfoldable pub watch : Args instance' → List Event → Guard instance' → Bool × Guard instance'
  watch args [] g = (true, g)
  watch args (failed ∷ events) g = (true, g)
  watch args (idle r ∷ events) g =
      let (on, g') = sweep instance' args r g in
      elim on [ false ↦ (false, g') | true ↦ watch args events g' ]
  watch args (frame bytes now r ∷ events) g =
      let (on, g') = sweep instance' args r (handle_frame instance' args bytes now g) in
      elim on [ false ↦ (false, g') | true ↦ watch args events g' ]

  abbrev pub listen_request : instance'.Value
  listen_request =
      instance'.map_value ((instance'.str (codes "listen"), instance'.map_value []) ∷ [])

  unfoldable pub is_acknowledged : Option Bytes → Bool
  is_acknowledged none = false
  is_acknowledged (some bytes) = elim (instance'.read_value bytes) [
    | none ↦ false
    | some value ↦ elim (instance'.as_map value) [
      | none ↦ false
      | some map ↦
          is_key instance' (codes "listening")
            (map_get instance' instance'.as_str map (codes "status"))
    ]
  ]

  -- True where the instance acknowledges the listen request.
  unfoldable pub subscribe : instance'.World → Bool × instance'.World
  subscribe w =
      let (response, w') = instance'.exchange listen_request w in (is_acknowledged response, w')

  -- The beginning of a turn of the outer loop: false where it is to be tried again.
  unfoldable pub open_stream : Guard instance' → Bool × Guard instance'
  open_stream g =
      let (connected, w) = instance'.connect_rpc g.world in
      let (listening, w') = subscribe w in
      elim connected [
        | false ↦ (false, record g { world = w })
        | true ↦ (listening, record g { world = w' })
      ]

  -- The outer loop of `run`, on the events that each turn's subscription gives, if it comes about.
  unfoldable pub watch_all :
      Args instance' → List (List Event) → Guard instance' → Bool × Guard instance'
  watch_all args [] g = (true, g)
  watch_all args (events ∷ attempts) g =
      let (opened, g') = open_stream g in
      let (on, g'') = watch args events g' in
      elim opened [
        | false ↦ watch_all args attempts g'
        | true ↦ elim on [ false ↦ (false, g'') | true ↦ watch_all args attempts g'' ]
      ]

  -- How far `run` gets: it fails at once, it exits, or it is still in its outer loop.
  pub data Ended : Type 0 where
    unreachable : instance'.World → Ended
    exited : Guard instance' → Ended
    watching : Guard instance' → Ended

  abbrev pub ended : Bool × Guard instance' → Ended
  ended (true, g) = watching g
  ended (false, g) = exited g

  -- With the two readings of the clock by which the statistics begin.
  unfoldable pub run : Args instance' → ℕ × ℕ → List (List Event) → instance'.World → Ended
  run args (prune_mark, report_mark) attempts w =
      let (connected, w') = instance'.connect_rpc w in
      if not connected
      then unreachable w'
      else ended (
          watch_all args attempts (record {
            tracker = new args.window args.threshold args.coalesce;
            stats = new_stats prune_mark report_mark;
            world = w';
          }))
