-- ===== src/Rnsh/Handshake/Completes.antt =====
-- A peer that does its part is let in.
use reticulum_router.Prelude.{
  ℕ, ◌+◌, ◌<◌, ltb, ◌≡◌, refl, ap, ◌∙◌, true, false, some, List, [], ◌∷◌, ◌++◌, All, arith,
}
use reticulum_router.Text.{Text, Bytes}
use reticulum_router.Rnsh.Messages.{
  Rmpv, Exec, msg_type_exec_cmd, msg_type_version_info, protocol_version, rnsh_version, pack_ver,
  pack_exec,
}
use reticulum_router.Rnsh.Messages.RoundTrip.{IsSized, unpack_ver-pack_ver, unpack_exec-pack_exec}
use reticulum_router.Rnsh.Handshake.{
  Args, check_allowed, handshake_complete, remote_identified, channel, other, Turn, ours, foreign,
  quiet, Link, Handshake, start, Result, on_identified, on_version, on_exec, turn, is_complete,
  finish, handshake_loop, do_version_handshake, handshake_time,
}

-- A turn that brings nothing.
pub data IsIdle : Turn → Type 0 where
  foreign_idle : IsIdle foreign
  quiet_idle : IsIdle quiet
  other_idle : IsIdle (ours other)

-- A turn before the deadline that brings nothing.
pub record IsQuiet (deadline : ℕ) (x : ℕ × Turn) : Type 0 where
  pub early : x.0 < deadline
  pub idle : IsIdle x.1

module _ (m : Rmpv) (link : Link) (a : Args) (allowed : List Bytes) where
  abbrev run : ℕ → List (ℕ × Turn) → Handshake → link.World → Result m link a allowed
  run = handshake_loop m link a allowed

  run_step :
      (deadline now : ℕ) (t : Turn) (turns : List (ℕ × Turn)) (h h' : Handshake) (w w' : link.World)
      → now < deadline
      → (turn m link a allowed t h w).0 ≡ some h'
      → (turn m link a allowed t h w).1 ≡ w'
      → is_complete m link a allowed h' ≡ false
      → run deadline ((now, t) ∷ turns) h w ≡ run deadline turns h' w'
  unfolding handshake_loop
  run_step deadline now t turns h h' w w' early e f c =
      let test : ltb now deadline ≡ true = ground arith in rw (test, e, c, f, handshake_loop) refl

  run_last :
      (deadline now : ℕ) (t : Turn) (turns : List (ℕ × Turn)) (h h' : Handshake) (w : link.World)
      → now < deadline
      → (turn m link a allowed t h w).0 ≡ some h'
      → is_complete m link a allowed h' ≡ true
      → (run deadline ((now, t) ∷ turns) h w).0 ≡ finish m link a allowed h'
  unfolding handshake_loop
  run_last deadline now t turns h h' w early e c =
      let test : ltb now deadline ≡ true = ground arith in rw (test, e, c, handshake_loop) refl

  turn_idle :
      {t : Turn} (h : Handshake) (w : link.World)
      → IsIdle t
      → turn m link a allowed t h w ≡ (some h, w)
  unfolding turn
  turn_idle h w foreign_idle = refl
  turn_idle h w quiet_idle = refl
  turn_idle h w other_idle = refl

  run_idle :
      (deadline : ℕ) (idle turns : List (ℕ × Turn)) (h : Handshake) (w : link.World)
      → All (IsQuiet deadline) idle
      → is_complete m link a allowed h ≡ false
      → run deadline (idle ++ turns) h w ≡ run deadline turns h w
  run_idle deadline [] turns h w p c = refl
  run_idle deadline ((now, t) ∷ idle) turns h w (q, p) c =
      run_step deadline now t (idle ++ turns) h h w w q.early (ap (λ r. r.0) (turn_idle h w q.idle))
        (ap (λ r. r.1) (turn_idle h w q.idle)) c
      ∙ run_idle deadline idle turns h w p c

  -- The messages of a peer that does its part.
  abbrev pub version_turn : Text → Turn
  version_turn sw = ours (channel msg_type_version_info (pack_ver m sw protocol_version))

  abbrev pub exec_turn : Exec → Turn
  exec_turn e = ours (channel msg_type_exec_cmd (pack_exec m e))

  version_step :
      (sw : Text) (h : Handshake) (w : link.World)
      → ((kind : ℕ) (b : Bytes) (v : link.World) → (link.send_channel kind b v).0 ≡ true)
      → (turn m link a allowed (version_turn sw) h w).0 ≡ some (record h { got_ver = true })
  unfolding turn on_version
  version_step sw h w sends =
      rw (unpack_ver-pack_ver m sw protocol_version (omega arith), turn, on_version)
        (ground (arith, sends msg_type_version_info (pack_ver m rnsh_version protocol_version) w))

  identified_step :
      (id : Bytes) (h : Handshake) (w : link.World)
      → check_allowed id allowed ≡ true
      → turn m link a allowed (ours (remote_identified id)) h w
        ≡ (some (record h { authed = true }), w)
  unfolding turn on_identified
  identified_step id h w e = ground (arith, e)

  exec_step :
      (e : Exec) (h : Handshake) (w : link.World)
      → IsSized m e
      → turn m link a allowed (exec_turn e) h w ≡ (
        some (record h {
          cmd = e.cmd;
          term = e.term;
          rows = e.rows;
          cols = e.cols;
          got_exec = true;
        }),
        w,
      )
  unfolding turn on_exec
  exec_step e h w s = rw (unpack_exec-pack_exec m e s, turn, on_exec) refl

  -- A peer that gives the protocol's version, identifies itself as an allowed identity and asks for a
  -- command, with any quiet spells between, is let in with that command, its terminal and its size,
  -- where the listener's messages can be sent, and where the loop waits for each of the three, and for
  -- all that lies between them, within 30 s of the handshake's start.
  pub do_version_handshake_completes :
      (started now1 now2 now3 : ℕ) (sw : Text) (id : Bytes) (e : Exec)
      (first second third rest : List (ℕ × Turn)) (w : link.World)
      → ((kind : ℕ) (b : Bytes) (v : link.World) → (link.send_channel kind b v).0 ≡ true)
      → check_allowed id allowed ≡ true
      → IsSized m e
      → All (IsQuiet (started + handshake_time)) first
      → now1 < started + handshake_time
      → All (IsQuiet (started + handshake_time)) second
      → now2 < started + handshake_time
      → All (IsQuiet (started + handshake_time)) third
      → now3 < started + handshake_time
      → (do_version_handshake m link a allowed started
          (first
            ++ ((now1, version_turn sw)
                ∷ (second
                    ++ ((now2, ours (remote_identified id))
                        ∷ (third ++ ((now3, exec_turn e) ∷ rest))))))
          w).0
        ≡ some (record {
          cmd = e.cmd;
          term = e.term;
          rows = e.rows;
          cols = e.cols;
          got_ver = true;
          got_exec = true;
          authed = true;
        })
  unfolding do_version_handshake handshake_complete finish
  do_version_handshake_completes started now1 now2 now3 sw id e first second third rest w sends
        member sized i t1 j t2 k t3 =
      let deadline = started + handshake_time in
      let h0 = start m link a allowed in
      let h1 = record h0 { got_ver = true } in
      let h2 = record h1 { authed = true } in
      let h3 : Handshake = record h2 {
        cmd = e.cmd;
        term = e.term;
        rows = e.rows;
        cols = e.cols;
        got_exec = true;
      } in
      let w' = (turn m link a allowed (version_turn sw) h0 w).1 in
      let tail3 : List (ℕ × Turn) = (now3, exec_turn e) ∷ rest in
      let tail2 : List (ℕ × Turn) = (now2, ours (remote_identified id)) ∷ (third ++ tail3) in
      let tail1 : List (ℕ × Turn) = (now1, version_turn sw) ∷ (second ++ tail2) in
      ap (λ r. r.0)
        (run_idle deadline first tail1 h0 w i refl
          ∙ run_step deadline now1 (version_turn sw) (second ++ tail2) h0 h1 w w' t1
              (version_step sw h0 w sends) refl refl
          ∙ run_idle deadline second tail2 h1 w' j refl
          ∙ run_step deadline now2 (ours (remote_identified id)) (third ++ tail3) h1 h2 w' w' t2
              (ap (λ r. r.0) (identified_step id h1 w' member))
              (ap (λ r. r.1) (identified_step id h1 w' member)) refl
          ∙ run_idle deadline third tail3 h2 w' k refl)
      ∙ run_last deadline now3 (exec_turn e) rest h2 h3 w' t3
          (ap (λ r. r.0) (exec_step e h2 w' sized)) refl
