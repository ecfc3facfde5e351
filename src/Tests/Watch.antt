-- ===== src/Tests/Watch.antt =====
-- The watchdog on a stream: an instance that keeps the requests which it is sent, and whose frames
-- all acknowledge a request and describe one announce.
use reticulum_router.Prelude.{
  ℕ, length, any, ◌≡◌, refl, ap, true, false, Option, none, some, List, [], ◌∷◌, arith,
}
use reticulum_router.Text.{Text, Bytes, codes, text_eq, lookup}
use reticulum_router.Rnguard.Tracker.{
  new, cutoff, retain_after, last, put, member, live, record_announce, prune, prune_history,
  retain_known,
}
use reticulum_router.Rnguard.Watch.{
  Instance, Args, Guard, Readings, map_get, announce_destination, file_report, handle_announce,
  handle_frame, sweep, blackhole, new_stats,
}
use reticulum_router.Rnguard.Watch.Loop.{
  Event, frame, idle, failed, watch, watch_all, run, open_stream, subscribe, is_acknowledged,
  unreachable,
}
use reticulum_router.Rnguard.Watch.Filing.{IsFiled, handle_frame-IsFiled}
use reticulum_router.Rnguard.Watch.Verbose.{asked, handle_frame_verbose}
use reticulum_router.Rnguard.Watch.Run.{run-dry, run-exit, IsListener, IsCause, world_of}

data Item : Type 0 where
  text : Text → Item
  bin : Bytes → Item
  num : ℕ → Item
  packet : Item
  request : ℕ → Item

abbrev item_text : Item → Option Text
item_text (text t) = some t
item_text _ = none

abbrev item_bin : Item → Option Bytes
item_bin (bin b) = some b
item_bin _ = none

abbrev item_num : Item → Option ℕ
item_num (num n) = some n
item_num _ = none

abbrev loud : Bytes
loud = 1 ∷ 2 ∷ 3 ∷ 4 ∷ 5 ∷ 6 ∷ 7 ∷ 8 ∷ 9 ∷ 10 ∷ 11 ∷ 12 ∷ 13 ∷ 14 ∷ 15 ∷ 16 ∷ []

abbrev item_map : Item → Option (List (Item × Item))
item_map packet = some (
    (text (codes "packet_type"), num 1)
    ∷ (text (codes "destination"), bin loud)
    ∷ (text (codes "status"), text (codes "listening"))
    ∷ [])
item_map _ = none

abbrev small : Instance
small = record {
  Value = Item;
  read_value = λ bytes. some packet;
  as_map = item_map;
  as_str = item_text;
  as_slice = item_bin;
  as_u64 = item_num;
  as_bool = λ v. some true;
  str = text;
  binary = bin;
  map_value = λ m. request (length m);
  Hours = ℕ;
  seconds = num;
  World = List Item;
  connect_rpc = λ w. (true, w);
  exchange = λ v w. (some [], v ∷ w);
  send_rpc_request = λ v w. (some (num 1), v ∷ w);
}

abbrev wet : Args small
wet = record {
  threshold = 0;
  window = 100;
  coalesce = 10;
  duration = some 2;
  dry_run = false;
  once = some 1;
  verbose = true;
}

abbrev dry : Args small
dry = record wet { dry_run = true }

abbrev start : Guard small
start = record {
  tracker = new 100 0 10;
  stats = record { announces = 0; blackholes = 0; last_prune = 0; last_report = 0 };
  world = [];
}

abbrev early : Readings
early = record { report_elapsed = 1; report_mark = 1; prune_elapsed = 1; prune_mark = 1 }

abbrev late : Readings
late = record {
  report_elapsed = 70000000000;
  report_mark = 70000000001;
  prune_elapsed = 70000000002;
  prune_mark = 70000000003;
}

one_request : length (handle_frame small wet [] 150 start).world ≡ 1
unfolding handle_frame announce_destination map_get handle_announce file_report record_announce live
    retain_after cutoff last put member any text_eq lookup new blackhole
one_request = refl

handle_frame-IsFiled_example :
    IsFiled small wet 150 start [] (handle_frame small wet [] 150 start).world
handle_frame-IsFiled_example =
    handle_frame-IsFiled small wet [] 150 start
      (λ e. absurd (ground (arith, one_request, ap length e)))

handle_frame_verbose_example :
    handle_frame small (asked small wet true) [] 150 start
    ≡ handle_frame small (asked small wet false) [] 150 start
handle_frame_verbose_example =
    handle_frame_verbose small wet [] 150 start (unfold new in omega arith)
      (unfold new in omega arith)

abbrev connections : List (List (Event small))
connections = (frame [] 150 early ∷ failed ∷ []) ∷ (idle late ∷ idle early ∷ []) ∷ []

run-dry_example : IsListener small [] (world_of small (run small dry (0, 0) connections []))
run-dry_example = run-dry small dry (0, 0) connections [] refl

run-exit_example : IsCause small wet [] (run small wet (0, 0) connections [])
run-exit_example = run-exit small wet (0, 0) connections []

-- The first stream brings an announce, which is blackholed; on the second one a sweep is due.
two_streams : length (world_of small (run small wet (0, 0) connections [])) ≡ 3
unfolding run watch_all open_stream subscribe is_acknowledged new_stats watch sweep handle_frame
    announce_destination map_get handle_announce file_report record_announce live retain_after
    cutoff last put member any text_eq lookup new blackhole prune prune_history retain_known
two_streams = refl

-- The same instance, out of reach.
abbrev down : Instance
down = record small { connect_rpc = λ w. (false, w) }

abbrev idle_args : Args down
idle_args = record {
  threshold = 0;
  window = 100;
  coalesce = 10;
  duration = none;
  dry_run = false;
  once = none;
  verbose = false;
}

fails_fast : run down idle_args (0, 0) [] [] ≡ unreachable []
unfolding run
fails_fast = refl
