-- ===== src/Rnsh/Handshake.antt =====
-- src/bin/rnsh.rs: the listener's side of the handshake, and the choice of the command that is run.
pub mod Gate
pub mod Chosen
pub mod Completes
use reticulum_router.Prelude.{
  ℕ, zero, suc, ◌+◌, ◌≡◌, Bool, true, false, not, ◌&&◌, ◌||◌, Option, none, some, List, [], ◌∷◌,
  ◌++◌, ◌*◌, ltb, any, is_empty, ◌==◌, if◌then◌else◌,
}
use reticulum_router.Text.{Text, Bytes, codes, text_eq}
use reticulum_router.Rnsh.Messages.{
  Rmpv, Exec, msg_type_exec_cmd, msg_type_version_info, msg_type_error, protocol_version,
  rnsh_version, pack_ver, unpack_ver, unpack_exec, pack_err,
}

-- The arguments that the listener reads.
pub record Args : Type 0 where
  pub no_auth : Bool
  pub cmd : List Text
  pub no_remote_cmd : Bool
  pub remote_cmd_as_args : Bool

unfoldable pub check_allowed : Bytes → List Bytes → Bool
check_allowed id allowed = any (text_eq id) allowed

unfoldable pub auth_required : Args → List Bytes → Bool
auth_required a allowed = not a.no_auth && not (is_empty allowed)

unfoldable pub handshake_complete : Bool → Bool → Bool → Bool
handshake_complete got_ver got_exec authed = got_ver && got_exec && authed

-- An event of a link.
pub data LinkEvent : Type 0 where
  remote_identified : Bytes → LinkEvent
  channel : ℕ → Bytes → LinkEvent
  closed : LinkEvent
  other : LinkEvent

-- What one wait for an event gives: an event of this link or of another one, the end of the event
-- channel, or nothing in time.
pub data Turn : Type 0 where
  ours : LinkEvent → Turn
  foreign : Turn
  lost : Turn
  quiet : Turn

-- The sending of channel messages on the link, of the rns crate: false where it fails.
pub record Link : Type 1 where
  pub World : Type 0
  pub send_channel : ℕ → Bytes → World → Bool × World

-- 30 s, in nanoseconds.
abbrev pub handshake_time : ℕ
handshake_time = 30 * 1000000000

-- The variables of the handshake.
pub record Handshake : Type 0 where
  pub cmd : List Text
  pub term : Option Text
  pub rows : ℕ
  pub cols : ℕ
  pub got_ver : Bool
  pub got_exec : Bool
  pub authed : Bool

module _ (m : Rmpv) (link : Link) (a : Args) (allowed : List Bytes) where
  abbrev pub start : Handshake
  start = record {
    cmd = [];
    term = none;
    rows = 24;
    cols = 80;
    got_ver = false;
    got_exec = false;
    authed = not (auth_required a allowed);
  }

  abbrev pub Result : Type 0
  Result = Option Handshake × link.World

  -- An error that is sent to the peer first; the handshake fails whether it can be sent or not.
  abbrev pub refuse : Text → link.World → Result
  refuse msg w = (none, (link.send_channel msg_type_error (pack_err m msg true) w).1)

  unfoldable pub on_identified : Bytes → Handshake → link.World → Result
  on_identified id h w =
      if not (auth_required a allowed)
      then (some (record h { authed = true }), w)
      else if check_allowed id allowed
      then (some (record h { authed = true }), w)
      else refuse (codes "not allowed") w

  unfoldable pub on_version : Bytes → Handshake → link.World → Result
  on_version payload h w = elim (unpack_ver m payload) [
    | none ↦ (none, w)
    | some (sw, pv) ↦
        if not (pv == protocol_version)
        then refuse (codes "incompatible protocol") w
        else let (sent, w') =
            link.send_channel msg_type_version_info (pack_ver m rnsh_version protocol_version) w in
          (if sent then some (record h { got_ver = true }) else none, w')
  ]

  unfoldable pub on_exec : Bytes → Handshake → link.World → Result
  on_exec payload h w = elim (unpack_exec m payload) [
    | none ↦ (none, w)
    | some e ↦ (
      some (record h { cmd = e.cmd; term = e.term; rows = e.rows; cols = e.cols; got_exec = true }),
      w,
    )
  ]

  abbrev pub on_channel : ℕ → Bytes → Handshake → link.World → Result
  on_channel kind payload h w =
      if kind == msg_type_version_info
      then on_version payload h w
      else if kind == msg_type_exec_cmd
      then on_exec payload h w
      else if kind == msg_type_error
      then (none, w)
      else (some h, w)

  unfoldable pub turn : Turn → Handshake → link.World → Result
  turn (ours (remote_identified id)) h w = on_identified id h w
  turn (ours (channel kind payload)) h w = on_channel kind payload h w
  turn (ours closed) h w = (none, w)
  turn (ours other) h w = (some h, w)
  turn foreign h w = (some h, w)
  turn lost h w = (none, w)
  turn quiet h w = (some h, w)

  abbrev pub is_complete : Handshake → Bool
  is_complete h = handshake_complete h.got_ver h.got_exec h.authed

  -- The checks behind the loop.
  unfoldable pub finish : Handshake → Option Handshake
  finish h =
      if not h.got_ver
      then none
      else if not h.got_exec
      then none
      else if not h.authed
      then none
      else some h

  -- The loop of `do_version_handshake` and what follows it. Each turn has the clock's reading at the
  -- loop's test, and what the wait for an event gives if the test lets it begin.
  unfoldable pub handshake_loop : ℕ → List (ℕ × Turn) → Handshake → link.World → Result
  handshake_loop deadline [] h w = (finish h, w)
  handshake_loop deadline ((now, t) ∷ turns) h w =
      let (r, w') = turn t h w in
      if not (ltb now deadline) then (finish h, w) else elim r [
        | none ↦ (none, w')
        | some h' ↦ elim (is_complete h') [
          | true ↦ (finish h', w')
          | false ↦ handshake_loop deadline turns h' w'
        ]
      ]

  -- From the instant at which the handshake starts.
  unfoldable pub do_version_handshake : ℕ → List (ℕ × Turn) → link.World → Result
  do_version_handshake started turns w = handshake_loop (started + handshake_time) turns start w

-- The command that `handle_link` runs; `shell` is the value of `SHELL` or `/bin/sh`.
unfoldable pub chosen_command : Args → Text → List Text → List Text
chosen_command a shell remote_cmd =
    if a.no_remote_cmd && not (is_empty a.cmd)
    then a.cmd
    else if a.remote_cmd_as_args
    then a.cmd ++ remote_cmd
    else if not (is_empty remote_cmd)
    then remote_cmd
    else if not (is_empty a.cmd)
    then a.cmd
    else shell ∷ []

abbrev pub first_is_empty : List Text → Bool
first_is_empty [] = true
first_is_empty (w ∷ ws) = is_empty w

unfoldable pub command : Args → Text → List Text → Option (List Text)
command a shell remote_cmd =
    let cmd = chosen_command a shell remote_cmd in if first_is_empty cmd then none else some cmd

-- The allowed identities of the arguments and of the files; `AddressHash::new_from_hex_string` of the
-- rns crate is a parameter. What it refuses is passed over.
module _ (new_from_hex_string : Text → Option Bytes) where
  unfoldable pub hashes : List Text → List Bytes
  hashes [] = []
  hashes (h ∷ hs) =
      let rest = hashes hs in elim (new_from_hex_string h) [ none ↦ rest | some id ↦ id ∷ rest ]

  unfoldable pub allowed_set : List Text → List Bytes → List Bytes
  allowed_set given loaded = hashes given ++ loaded
