-- ===== src/Tests/Shell.antt =====
-- The remote shell's theorems at concrete inputs.
use reticulum_router.Prelude.{
  map, all, any, ◌||◌, ℕ, ◌+◌, ◌≡◌, refl, true, false, not, none, some, List, [], ◌∷◌, ◌++◌, arith,
}
use reticulum_router.Text.{Bytes, codes, text_eq}
use reticulum_router.Tests.Values.{zeros, listed, runs}
use reticulum_router.Rnsh.Stream.{compress_from, compress, frames_from, stream_frames, stream_hdr}
use reticulum_router.Rnsh.Stream.Loop.{stream_frames_ends}
use reticulum_router.Rnsh.Stream.RoundTrip.{IsTransfer, stream_frames-IsTransfer}
use reticulum_router.Rnsh.Escape.{EscapeHandler, default, process_byte, process_bytes, erasures}
use reticulum_router.Rnsh.Escape.Quote.{quote, IsPlain, process_bytes-quote}
use reticulum_router.Rnsh.Escape.Counted.{newline_keeps_escape}
use reticulum_router.Rnsh.Messages.{Exec}
use reticulum_router.Rnsh.Messages.RoundTrip.{IsSized}
use reticulum_router.Rnsh.Handshake.{
  Args, check_allowed, auth_required, Turn, ours, quiet, foreign, remote_identified, Link,
  do_version_handshake, handshake_loop, finish, allowed_set,
}
use reticulum_router.Rnsh.Handshake.Gate.{
  in_time, identifies, versions, commands, do_version_handshake-gate,
}
use reticulum_router.Rnsh.Handshake.Completes.{
  quiet_idle, foreign_idle, version_turn, exec_turn, do_version_handshake_completes,
}
use reticulum_router.Rnsh.Handshake.Chosen.{auth_required-allowed_set}
use reticulum_router.Rnsh.Session
use reticulum_router.Rnsh.Session.{session, cleanup, close_master, Session}
use reticulum_router.Rnsh.Session.Closes.{session-closes}
use reticulum_router.Rnsh.Session.Delivery.{arrives, session_delivers}

-- Forty zeros, which are compressed, and a byte.
abbrev data' : Bytes
data' =
    0 ∷ 0 ∷ 0 ∷ 0 ∷ 0 ∷ 0 ∷ 0 ∷ 0 ∷ 0 ∷ 0 ∷ 0 ∷ 0 ∷ 0 ∷ 0 ∷ 0 ∷ 0 ∷ 0 ∷ 0 ∷ 0 ∷ 0 ∷ 0 ∷ 0 ∷ 0 ∷ 0
    ∷ 0 ∷ 0 ∷ 0 ∷ 0 ∷ 0 ∷ 0 ∷ 0 ∷ 0 ∷ 0 ∷ 0 ∷ 0 ∷ 0 ∷ 5 ∷ []

-- The zeros are compressed in the second try, with half of the block; what is left is sent plain.
some_frames :
    stream_frames runs 1 false (zeros 64 ++ 5 ∷ []) 40
    ≡ some ((0x40 ∷ 1 ∷ 32 ∷ []) ∷ (0 ∷ 1 ∷ zeros 32 ++ 5 ∷ []) ∷ [])
unfolding stream_frames frames_from compress compress_from stream_hdr zeros all
some_frames = refl

stream_frames_ends_example :
    (frames : List Bytes) × (stream_frames runs 1 false data' 0 ≡ some frames)
stream_frames_ends_example = stream_frames_ends runs 1 false data' 0

stream_frames-IsTransfer_example :
    (frames : List Bytes) × (stream_frames runs 1 true data' 8 ≡ some frames)
    × IsTransfer runs 1 true data' 8 frames
stream_frames-IsTransfer_example =
    stream_frames-IsTransfer runs 1 true data' 8 (omega arith) (omega arith)

process_bytes-quote_example :
    (h : EscapeHandler) × (process_bytes default (quote false (codes "a" ++ 10 ∷ codes "~.b"))
      ≡ some (codes "a" ++ 10 ∷ codes "~.b", h))
    × IsPlain h
process_bytes-quote_example =
    process_bytes-quote default (codes "a" ++ 10 ∷ codes "~.b")
      (record { idle = refl; direct = refl })

newline_keeps_escape_example :
    process_bytes (record default { pre_newline = true }) (b'~' ∷ 10 ∷ b'.' ∷ codes "x") ≡ none
newline_keeps_escape_example =
    newline_keeps_escape (record default { pre_newline = true }) 10 (codes "x") refl refl

abbrev typed : EscapeHandler
typed = record default { line_mode = true }

-- In line mode the bytes of a line are sent as they are typed, and again at a control character.
sent_again :
    process_bytes typed (codes "ab" ++ 3 ∷ [])
    ≡ some (codes "abab" ++ 3 ∷ 8 ∷ 32 ∷ 8 ∷ 8 ∷ 32 ∷ 8 ∷ [], typed)
unfolding process_bytes process_byte erasures
sent_again = refl

abbrev shell : Exec
shell = record {
  cmd = codes "sh" ∷ [];
  pipe_in = false;
  pipe_out = false;
  pipe_err = false;
  term = some (codes "vt100");
  rows = 24;
  cols = 80;
  width = 0;
  height = 0;
}

shell-IsSized : IsSized listed shell
shell-IsSized = record {
  rows = omega arith;
  cols = omega arith;
  width = omega arith;
  height = omega arith;
}

abbrev open_link : Link
open_link = record { World = ℕ; send_channel = λ kind payload w. (true, w + 1) }

abbrev strict : Args
strict = record { no_auth = false; cmd = []; no_remote_cmd = true; remote_cmd_as_args = false }

abbrev friend : Bytes
friend = 1 ∷ 2 ∷ []

-- The clock's readings are seconds apart.
abbrev turns : List (ℕ × Turn)
turns =
    (100, quiet)
    ∷ (1000000100, version_turn listed open_link strict (friend ∷ []) (codes "0.2.0"))
    ∷ (2000000100, ours (remote_identified friend))
    ∷ (3000000100, foreign)
    ∷ (4000000100, exec_turn listed open_link strict (friend ∷ []) shell)
    ∷ []

member : check_allowed friend (friend ∷ []) ≡ true
unfolding check_allowed any text_eq
member = refl

do_version_handshake_completes_example :
    (do_version_handshake listed open_link strict (friend ∷ []) 100 turns 0).0
    ≡ some (record {
      cmd = codes "sh" ∷ [];
      term = some (codes "vt100");
      rows = 24;
      cols = 80;
      got_ver = true;
      got_exec = true;
      authed = true;
    })
do_version_handshake_completes_example =
    do_version_handshake_completes listed open_link strict (friend ∷ []) 100 1000000100 2000000100
      4000000100 (codes "0.2.0") friend shell ((100, quiet) ∷ []) [] ((3000000100, foreign) ∷ []) []
      0 (λ kind b w. refl) member shell-IsSized
      (record { early = omega arith; idle = quiet_idle }, tt) (omega arith) tt (omega arith)
      (record { early = omega arith; idle = foreign_idle }, tt) (omega arith)

-- Once 30 s are over, nothing that the peer sends is looked at.
too_late :
    (do_version_handshake listed open_link strict
      (friend ∷ [])
      100
      ((30000000100, ours (remote_identified friend)) ∷ [])
      0).0
    ≡ none
unfolding do_version_handshake handshake_loop finish
too_late = refl

do_version_handshake-gate_example :
    (any (in_time 30000000100 (versions listed)) turns ≡ true)
    × (any (in_time 30000000100 (commands listed)) turns ≡ true)
    × ((not (auth_required strict (friend ∷ []))
          || any (in_time 30000000100 (identifies (friend ∷ []))) turns)
        ≡ true)
do_version_handshake-gate_example =
    do_version_handshake-gate listed open_link strict (friend ∷ []) 100 turns _ 0
      do_version_handshake_completes_example

auth_required-allowed_set_example :
    auth_required strict (allowed_set (λ h. none) (codes "typo" ∷ []) []) ≡ false
auth_required-allowed_set_example =
    auth_required-allowed_set (λ h. none) strict (codes "typo" ∷ []) (refl, tt)

session-closes_example :
    (cleanup
      (session runs
        (arrives (0x80 ∷ 0 ∷ []) ∷ arrives (0x80 ∷ 0 ∷ []) ∷ [])
        Session.start).1).closes
    ≡ 1
session-closes_example =
    session-closes runs (arrives (0x80 ∷ 0 ∷ []) ∷ arrives (0x80 ∷ 0 ∷ []) ∷ [])

session_delivers_example :
    (frames : List Bytes) × (stream_frames runs 0 false data' 8 ≡ some frames)
    × (session runs (map arrives frames ++ (arrives (stream_hdr 0 true false) ∷ [])) Session.start
        ≡ session runs [] (close_master (record Session.start { handed = data' })))
session_delivers_example =
    session_delivers runs data' 8 [] Session.start (omega arith)
      (record { running = refl; open_ = refl })
