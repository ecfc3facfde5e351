-- ===== src/Tests/Watchdog.antt =====
-- The watchdog's theorems at concrete inputs.
use reticulum_router.Prelude.{
  any, ◌+◌, ◌≤◌, ◌≡◌, refl, false, ◌&&◌, none, some, [], ◌∷◌, map, arith,
}
use reticulum_router.Text.{Bytes, text_eq, lookup}
use reticulum_router.Rnguard.Tracker.{
  AnnounceRateTracker, new, cutoff, retain_after, last, put, member, is_recent, live,
  record_announce, has_key, prune, tracked,
}
use reticulum_router.Text.{Bytes}
use reticulum_router.Rnguard.Frame.{
  from_be, be32, be64, i32_max, minus_one, frame_header, write_frame, FrameReader, pending, Taken,
  waiting, invalid, too_large, frame, data_len, consumed, take_data, take_frame, Read, closed,
  timed_out, failed, chunk, compact, fill, Next, got, idle, broken, NextResult, on_taken, on_filled,
  next_frame,
}
use reticulum_router.Rnguard.Frame
use reticulum_router.Rnguard.Hex.{Decoded, hex_encode, decode_hex}
use reticulum_router.Rnguard.Hex.RoundTrip.{decode_hex-hex_encode}
use reticulum_router.Rnguard.Tracker.Record.{
  IsOrdered, new-IsOrdered, record_announce-IsOrdered, IsGenuine,
}
use reticulum_router.Rnguard.Tracker.Reports.{
  occurrences, reports, record_announce-IsGenuine, reported_at_most_once, record_announce_young,
}
use reticulum_router.Rnguard.Tracker.Fanout.{fanout_counts_once}
use reticulum_router.Rnguard.Tracker.Prune.{
  HasDistinctKeys, inside_window, record_announce-HasDistinctKeys, prune_lem,
}
use reticulum_router.Rnguard.Frame.Stream.{read_frames, read_frames-write_frame}

abbrev dest : Bytes
dest = 1 ∷ []

abbrev empty_tracker : AnnounceRateTracker
empty_tracker = new 100 1 10

abbrev once : AnnounceRateTracker
once = (record_announce empty_tracker dest 150).1

record_announce-IsOrdered_example : IsOrdered once 150
record_announce-IsOrdered_example =
    record_announce-IsOrdered empty_tracker dest 0 150 (new-IsOrdered 100 1 10 0) (omega arith)

once_reported : (record_announce once dest 170).0 ≡ some 2
unfolding record_announce live retain_after cutoff last put member any text_eq lookup new
once_reported = refl

once_window : once.window ≡ 100
unfolding record_announce live retain_after cutoff last put member any text_eq lookup new
once_window = refl

once-IsOrdered : IsOrdered once 150
once-IsOrdered =
    record_announce-IsOrdered empty_tracker dest 0 150 (new-IsOrdered 100 1 10 0) (omega arith)

record_announce-IsGenuine_example : IsGenuine once (record_announce once dest 170).1 dest 170 2
record_announce-IsGenuine_example =
    record_announce-IsGenuine once dest 150 170 once-IsOrdered (omega arith)
      (rw once_window (omega arith)) (rw once_window (omega arith)) once_reported

reported_at_most_once_example :
    occurrences dest (reports empty_tracker ((dest, 150) ∷ (dest, 170) ∷ (dest, 190) ∷ [])) ≤ 1
reported_at_most_once_example =
    reported_at_most_once empty_tracker dest ((dest, 150) ∷ (dest, 170) ∷ (dest, 190) ∷ [])

new_facts :
    (empty_tracker.window ≡ 100) × (empty_tracker.threshold ≡ 1) × (empty_tracker.coalesce ≡ 10)
unfolding new
new_facts = (refl, refl, refl)

young_facts :
    ((record_announce empty_tracker dest 40).1.window ≡ 100)
    × ((record_announce empty_tracker dest 40).1.threshold ≡ 1)
unfolding record_announce live retain_after cutoff last put member any text_eq lookup new
young_facts = (refl, refl)

record_announce_young_example :
    ((record_announce (record_announce empty_tracker dest 40).1 dest 60).0 ≡ none)
    × (lookup dest (record_announce (record_announce empty_tracker dest 40).1 dest 60).1.history
        ≡ some (60 ∷ []))
record_announce_young_example =
    record_announce_young (record_announce empty_tracker dest 40).1 dest 40 60
      (record_announce-IsOrdered empty_tracker dest 0 40 (new-IsOrdered 100 1 10 0) (omega arith))
      (omega arith) (rw (young_facts.0) (omega arith)) (rw (young_facts.1) (omega arith))

fresh_at_150 : is_recent empty_tracker.coalesce 150 (last (live empty_tracker dest 150)) ≡ false
unfolding live retain_after cutoff last lookup new
fresh_at_150 = refl

fanout_counts_once_example :
    ((record_announce once dest 155).0 ≡ none)
    × (live (record_announce once dest 155).1 dest 155 ≡ live once dest 155)
    × ((record_announce once dest 155).1.reported ≡ once.reported)
fanout_counts_once_example =
    fanout_counts_once empty_tracker dest 150 155 fresh_at_150 (omega arith)
      (rw (new_facts.2) (omega arith)) (rw (new_facts.2, new_facts.0) (omega arith))
      (rw (new_facts.0) (omega arith))

empty-HasDistinctKeys : HasDistinctKeys empty_tracker.history
unfolding new
empty-HasDistinctKeys = tt

prune_lem_example :
    (lookup dest (prune once 300).1.history
      ≡ inside_window 300 once.window (lookup dest once.history))
    × (member dest (prune once 300).1.reported
        ≡ (member dest once.reported && has_key (prune once 300).1.history dest))
    × ((prune once 300).0 + tracked (prune once 300).1 ≡ tracked once)
prune_lem_example =
    prune_lem once 300 dest
      (record_announce-HasDistinctKeys empty_tracker dest 150 empty-HasDistinctKeys)
      (rw once_window (omega arith))

abbrev part : FrameReader
part = record { buf = 0 ∷ 0 ∷ 0 ∷ 1 ∷ []; start = 0 }

read_frames-write_frame_example :
    read_frames 2 64 (map chunk ((0 ∷ 0 ∷ []) ∷ (0 ∷ 1 ∷ 7 ∷ 0 ∷ 0 ∷ 0 ∷ 0 ∷ []) ∷ [])) Frame.new
    ≡ (7 ∷ []) ∷ [] ∷ []
read_frames-write_frame_example =
    read_frames-write_frame 64 ((7 ∷ []) ∷ [] ∷ [])
      ((0 ∷ 0 ∷ []) ∷ (0 ∷ 1 ∷ 7 ∷ 0 ∷ 0 ∷ 0 ∷ 0 ∷ []) ∷ []) Frame.new (omega arith) (omega arith)
      (omega arith) (unfold write_frame frame_header in refl)

decode_hex-hex_encode_example :
    decode_hex (hex_encode (0x2B ∷ 0xFF ∷ [])) ≡ Decoded.ok (0x2B ∷ 0xFF ∷ [])
decode_hex-hex_encode_example = decode_hex-hex_encode (0x2B ∷ 0xFF ∷ []) (omega arith)
