-- ===== src/Rnguard/Watch.antt =====
-- src/bin/rnguard.rs: the processing of the event stream. A frame that describes an announce is
-- recorded, a destination that exceeds its rate is blackholed, and silent destinations are swept
-- out.
pub mod Filing
pub mod Loop
pub mod Run
pub mod Verbose
use reticulum_router.Prelude.{
  ℕ, zero, suc, ◌+◌, ◌-◌, ◌/◌, ◌%◌, ◌^◌, ◌*◌, Bool, true, false, not, ◌&&◌, Option, none, some,
  List, [], ◌∷◌, ◌++◌, arith, ltb, leb, ◌==◌, if◌then◌else◌, length,
}
use reticulum_router.Text.{Text, Bytes, codes, text_eq}
use reticulum_router.Rnguard.Tracker.{AnnounceRateTracker, new, record_announce, count, prune}
use reticulum_router.Rnguard.Hex.{hex_encode}

-- What the watchdog stands on: the MessagePack values of the rmpv crate and the instance that it
-- watches, to which each call dials afresh.
pub record Instance : Type 1 where
  pub Value : Type 0
  pub read_value : Bytes → Option Value
  pub as_map : Value → Option (List (Value × Value))
  pub as_str : Value → Option Text
  pub as_slice : Value → Option Bytes
  pub as_u64 : Value → Option ℕ
  pub as_bool : Value → Option Bool
  pub str : Text → Value
  pub binary : Bytes → Value
  pub map_value : List (Value × Value) → Value
  -- A number of hours, and the value of so many seconds.
  pub Hours : Type 0
  pub seconds : Hours → Value
  pub World : Type 0
  -- False where the instance cannot be reached or refuses the key.
  pub connect_rpc : World → Bool × World
  -- `write_frame`, then `next_frame`, on a new connection: the frame that comes back, if one does.
  pub exchange : Value → World → Option Bytes × World
  -- `connect_rpc`, then `send_rpc_request`.
  pub send_rpc_request : Value → World → Option Value × World

-- Decimal digits, of which a number has at most as many as the fuel.
unfoldable pub digits : ℕ → ℕ → Text
digits zero n = []
digits (suc fuel) n = elim (ltb n 10) [
  | true ↦ (n + 48) ∷ []
  | false ↦ digits fuel (n / 10) ++ (n % 10 + 48) ∷ []
]

-- A 64-bit number has at most 20 digits.
abbrev pub show : ℕ → Text
show n = digits 20 n

-- `Duration::as_secs`
abbrev pub as_secs : ℕ → ℕ
as_secs window = window / 1000000000

unfoldable pub window_phrase : ℕ → Text
window_phrase window =
    if as_secs window == 3600 then codes "an hour" else show (as_secs window) ++ codes "s"

abbrev pub pretty_hex : Bytes → Text
pretty_hex bytes = codes "/" ++ hex_encode bytes ++ codes "/"

unfoldable pub violation_reason : Bytes → ℕ → ℕ → Text
violation_reason destination n window =
    codes "("
    ++ pretty_hex destination
    ++ codes ") announced "
    ++ show n
    ++ codes " times in "
    ++ window_phrase window

abbrev pub packet_type_announce : ℕ
packet_type_announce = 1

abbrev pub address_hash_size : ℕ
address_hash_size = 16

-- The result of `announce_destination`.
pub data Announced : Type 0 where
  announce : Bytes → Announced
  other : Announced
  malformed : Announced

-- The arguments that `run` and the stream's processing read.
pub record Args (instance' : Instance) : Type 0 where
  pub threshold : ℕ
  pub window : ℕ
  pub coalesce : ℕ
  pub duration : Option instance'.Hours
  pub dry_run : Bool
  pub once : Option ℕ
  pub verbose : Bool

pub record Stats : Type 0 where
  pub announces : ℕ
  pub blackholes : ℕ
  pub last_prune : ℕ
  pub last_report : ℕ

-- `Stats::new`, which reads the clock twice.
unfoldable pub new_stats : ℕ → ℕ → Stats
new_stats prune_mark report_mark = record {
  announces = 0;
  blackholes = 0;
  last_prune = prune_mark;
  last_report = report_mark;
}

-- The readings of the clock in one sweep: for each elapsed time, and for each new mark.
pub record Readings : Type 0 where
  pub report_elapsed : ℕ
  pub report_mark : ℕ
  pub prune_elapsed : ℕ
  pub prune_mark : ℕ

abbrev pub report_interval : ℕ
report_interval = 10 * 1000000000

abbrev pub prune_interval : ℕ
prune_interval = 60 * 1000000000

abbrev pub reached : Option ℕ → ℕ → Bool
reached none n = false
reached (some limit) n = leb limit n

abbrev pub mark_report : Bool → Readings → Stats → Stats
mark_report verbose r stats =
    if verbose && leb report_interval (r.report_elapsed - stats.last_report)
    then record stats { last_report = r.report_mark }
    else stats

module _ (instance' : Instance) where
  abbrev pub Map : Type 0
  Map = List (instance'.Value × instance'.Value)

  abbrev pub is_key : Text → Option Text → Bool
  is_key key none = false
  is_key key (some k) = text_eq k key

  abbrev pub or_else {ℓ} : {A : Type ℓ} → Option A → Option A → Option A
  or_else none b = b
  or_else (some a) b = some a

  -- `map.iter().find_map`: the first entry of the key whose value has the kind.
  unfoldable pub map_get : {A : Type 0} → (instance'.Value → Option A) → Map → Text → Option A
  map_get kind [] key = none
  map_get kind ((k, v) ∷ map) key =
      let rest = map_get kind map key in
      if is_key key (instance'.as_str k) then or_else (kind v) rest else rest

  abbrev pub of_destination : Option Bytes → Announced
  of_destination none = other
  of_destination (some dest) = if length dest == address_hash_size then announce dest else malformed

  abbrev pub is_announce : Option ℕ → Bool
  is_announce none = false
  is_announce (some n) = n == packet_type_announce

  unfoldable pub announce_destination : Bytes → Announced
  announce_destination frame = elim (instance'.read_value frame) [
    | none ↦ malformed
    | some value ↦ elim (instance'.as_map value) [
      | none ↦ other
      | some map ↦
          if not (is_announce (map_get instance'.as_u64 map (codes "packet_type")))
          then other
          else of_destination (map_get instance'.as_slice map (codes "destination"))
    ]
  ]

  -- The request by which `Control::blackhole` files a destination.
  unfoldable pub blackhole_request : Bytes → Text → Option instance'.Hours → instance'.Value
  blackhole_request destination reason duration =
      let last_entry = (instance'.str (codes "reason"), instance'.str reason) ∷ [] in
      instance'.map_value (
        (instance'.str (codes "blackhole_identity"), instance'.binary destination) ∷ elim duration [
          | none ↦ last_entry
          | some hours ↦ (instance'.str (codes "duration"), instance'.seconds hours) ∷ last_entry
        ])

  abbrev pub was_added : Option instance'.Value → Option Bool
  was_added none = none
  was_added (some response) = elim (instance'.as_bool response) [
    | none ↦ some false
    | some b ↦ some b
  ]

  unfoldable pub blackhole :
      Bytes → Text → Option instance'.Hours → instance'.World → Option Bool × instance'.World
  blackhole destination reason duration w =
      let (response, w') =
        instance'.send_rpc_request (blackhole_request destination reason duration) w in
      (was_added response, w')

  -- The variables of `run`, and the instance.
  pub record Guard : Type 0 where
    pub tracker : AnnounceRateTracker
    pub stats : Stats
    pub world : instance'.World

  -- What becomes of a destination that the tracker reports.
  unfoldable pub file_report : Args instance' → Bytes → ℕ → Guard → Guard
  file_report args destination n g =
      let reason = violation_reason destination n args.window in
      let g' = record g {
        stats = record g.stats { blackholes = (g.stats.blackholes + 1) % 2 ^ 32 };
      } in
      if args.dry_run
      then g'
      else record g' { world = (blackhole destination reason args.duration g.world).1 }

  -- The verbose message of an announce that is not reported asks for the count, where it is logged.
  abbrev pub quiet : Args instance' → Bytes → ℕ → Guard → Guard
  quiet args destination now g =
      if args.verbose then record g { tracker = (count g.tracker destination now).1 } else g

  abbrev pub seen : Guard → Guard
  seen g = record g { stats = record g.stats { announces = (g.stats.announces + 1) % 2 ^ 64 } }

  unfoldable pub handle_announce : Args instance' → Bytes → ℕ → Guard → Guard
  handle_announce args destination now g =
      let (reported, tracker) = record_announce g.tracker destination now in
      let g' = record (seen g) { tracker = tracker } in
      elim reported [
        | none ↦ quiet args destination now g'
        | some n ↦ file_report args destination n g'
      ]

  -- `now` is the instant at which the frame is processed.
  unfoldable pub handle_frame : Args instance' → Bytes → ℕ → Guard → Guard
  handle_frame args frame now g = elim (announce_destination frame) [
    | announce destination ↦ handle_announce args destination now g
    | other ↦ g
    | malformed ↦ g
  ]

  -- False when the tool is to exit.
  unfoldable pub sweep : Args instance' → Readings → Guard → Bool × Guard
  sweep args r g =
      let stats = mark_report args.verbose r g.stats in
      if ltb (r.prune_elapsed - stats.last_prune) prune_interval
      then (true, record g { stats = stats })
      else (
        not (reached args.once stats.blackholes),
        record g {
          stats = record stats { last_prune = r.prune_mark };
          tracker = (prune g.tracker r.prune_mark).1;
        },
      )
