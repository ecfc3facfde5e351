-- ===== src/Rnsh/Session.antt =====
-- src/bin/rnsh.rs: the loop of `handle_link`, which feeds the child's terminal from the link until the
-- child has exited and its output is sent.
pub mod Closes
pub mod Delivery
use reticulum_router.Prelude.{
  ℕ, ◌+◌, Bool, true, false, not, ◌&&◌, ◌||◌, Option, none, some, List, [], ◌∷◌, ◌++◌, is_empty,
  ◌==◌, if◌then◌else◌,
}
use reticulum_router.Text.{Bytes}
use reticulum_router.Rnsh.Messages.{msg_type_stream_data, unwrap_or}
use reticulum_router.Rnsh.Stream.{Bzip2, StreamHeader, stream_unhdr, stream_data}
use reticulum_router.Rnsh.Handshake.{LinkEvent, remote_identified, channel, closed, other}

abbrev pub sid_stdin : ℕ
sid_stdin = 0

-- What one wait for an event gives; where nothing came in time, what `waitpid` says of the child: its
-- exit status if it has exited.
pub data Wait : Type 0 where
  got : LinkEvent → Wait
  foreign : Wait
  lost : Wait
  timed_out : Option ℕ → Wait

-- One round of the loop: whether the reader of the terminal has finished, at the loop's test and at
-- the check behind it, whether the child exited more than three seconds ago, and the wait.
pub record Round : Type 0 where
  pub finished : Bool
  pub finished_now : Bool
  pub late : Bool
  pub wait : Wait

-- The variables of the loop. `child_code` is `none` for -1. `handed` is what has been handed to
-- `write` on the terminal, `closes` how often its descriptor has been closed.
pub record Session : Type 0 where
  pub child_exited : Bool
  pub child_code : Option ℕ
  pub master_closed : Bool
  pub handed : Bytes
  pub closes : ℕ

abbrev pub start : Session
start = record {
  child_exited = false;
  child_code = none;
  master_closed = false;
  handed = [];
  closes = 0;
}

abbrev pub close_master : Session → Session
close_master s = record s { master_closed = true; closes = s.closes + 1 }

abbrev pub hand : Bytes → Session → Session
hand d s =
    if not (is_empty d) && not s.master_closed then record s { handed = s.handed ++ d } else s

-- The standard input's bytes, then its end.
abbrev pub on_stdin : Bool → Bytes → Session → Session
on_stdin eof d s = let s' = hand d s in if eof && not s'.master_closed then close_master s' else s'

abbrev pub exit_link : Session → Session
exit_link s = record s { child_code = some (unwrap_or 0 s.child_code); child_exited = true }

module _ (bz : Bzip2) where
  unfoldable pub on_stream : Bytes → Session → Session
  on_stream payload s = elim (stream_unhdr payload) [
    | none ↦ s
    | some h ↦ if h.sid == sid_stdin then on_stdin h.eof (stream_data bz h.comp payload) s else s
  ]

  unfoldable pub react : Wait → Session → Session
  react (got (channel kind payload)) s =
      if kind == msg_type_stream_data then on_stream payload s else s
  react (got closed) s = exit_link s
  react (got (remote_identified id)) s = s
  react (got other) s = s
  react foreign s = s
  react lost s = exit_link s
  react (timed_out none) s = s
  react (timed_out (some status)) s = record s { child_code = some status; child_exited = true }

  abbrev pub is_over : Round → Session → Bool
  is_over r s =
      s.child_exited && r.finished || r.finished_now && s.child_exited || s.child_exited && r.late

  -- The loop, with whether it has ended within the rounds.
  unfoldable pub session : List Round → Session → Bool × Session
  session [] s = (false, s)
  session (r ∷ rounds) s = elim (is_over r s) [
    | true ↦ (true, s)
    | false ↦ session rounds (react r.wait s)
  ]

-- What follows the loop: the descriptor is closed if it is not.
abbrev pub cleanup : Session → Session
cleanup s = if not s.master_closed then close_master s else s

-- The exit code that the peer is sent, where the child has exited or its output has ended.
abbrev pub exit_code : Session → ℕ
exit_code s = unwrap_or 0 s.child_code
