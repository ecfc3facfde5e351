-- ===== src/Rnsh/Handshake/Gate.antt =====
-- What has happened when a handshake succeeds.
use reticulum_router.Prelude.{
  ℕ, ◌≡◌, refl, ◌∙◌, sym, inl, inr, Bool, true, false, not, ◌&&◌, ◌||◌, Option, none, some, List,
  [], ◌∷◌, any, ◌+◌, ltb, ◌==◌, arith, Bool-cases, Option-cases,
}
use reticulum_router.Text.{Text, Bytes}
use reticulum_router.Rnsh.Messages.{
  Rmpv, msg_type_exec_cmd, msg_type_version_info, protocol_version, unpack_ver, unpack_exec,
}
use reticulum_router.Rnsh.Handshake.{
  Args, check_allowed, auth_required, remote_identified, channel, closed, other, Turn, ours,
  foreign, lost, quiet, Link, Handshake, start, on_identified, on_version, on_exec, turn,
  is_complete, finish, handshake_loop, do_version_handshake, handshake_time,
}

-- The peer identifies itself as one of the allowed identities.
abbrev pub identifies : List Bytes → Turn → Bool
identifies allowed (ours (remote_identified id)) = check_allowed id allowed
identifies allowed _ = false

-- A turn of a kind, for which the loop waits before the deadline.
abbrev pub in_time : ℕ → (Turn → Bool) → ℕ × Turn → Bool
in_time deadline kind (now, t) = ltb now deadline && kind t

module _ (m : Rmpv) where
  abbrev pub is_version : Option (Text × ℕ) → Bool
  is_version none = false
  is_version (some (sw, pv)) = pv == protocol_version

  -- The peer gives the protocol's version.
  abbrev pub versions : Turn → Bool
  versions (ours (channel kind payload)) =
      kind == msg_type_version_info && is_version (unpack_ver m payload)
  versions _ = false

  abbrev pub is_some {ℓ} : {A : Type ℓ} → Option A → Bool
  is_some none = false
  is_some (some a) = true

  -- The peer gives a command.
  abbrev pub commands : Turn → Bool
  commands (ours (channel kind payload)) =
      kind == msg_type_exec_cmd && is_some (unpack_exec m payload)
  commands _ = false

module _ (m : Rmpv) (link : Link) (a : Args) (allowed : List Bytes) where
  -- What a flag of the handshake says of the turns that have passed.
  record IsEarned (t : Turn) (h h' : Handshake) : Type 0 where
    authed :
        auth_required a allowed ≡ true
        → h'.authed ≡ true
        → (h.authed || identifies allowed t) ≡ true
    version : h'.got_ver ≡ true → (h.got_ver || versions m t) ≡ true
    exec : h'.got_exec ≡ true → (h.got_exec || commands m t) ≡ true

  turn-IsEarned :
      (t : Turn) (h h' : Handshake) (w : link.World)
      → (turn m link a allowed t h w).0 ≡ some h'
      → IsEarned t h h'
  unfolding turn on_identified on_version on_exec
  turn-IsEarned (ours (remote_identified id)) h h' w e = ground (arith, e)
  turn-IsEarned (ours (channel kind payload)) h h' w e =
      elim (Option-cases (unpack_ver m payload)) [
        | inl v ↦ elim (Option-cases (unpack_exec m payload)) [
          | inl x ↦ ground (arith, e, v, x)
          | inr (c, x) ↦ ground (arith, e, v, x)
        ]
        | inr ((sw, pv), v) ↦ elim (Option-cases (unpack_exec m payload)) [
          | inl x ↦ ground (arith, e, v, x)
          | inr (c, x) ↦ ground (arith, e, v, x)
        ]
      ]
  turn-IsEarned (ours closed) h h' w e = cc
  turn-IsEarned (ours other) h h' w e = ground (arith, e)
  turn-IsEarned foreign h h' w e = ground (arith, e)
  turn-IsEarned lost h h' w e = cc
  turn-IsEarned quiet h h' w e = ground (arith, e)

  -- What a success says of the turns.
  pub record IsGated (deadline : ℕ) (turns : List (ℕ × Turn)) (h : Handshake) : Type 0 where
    pub authed :
        auth_required a allowed ≡ true
        → (h.authed || any (in_time deadline (identifies allowed)) turns) ≡ true
    pub version : (h.got_ver || any (in_time deadline (versions m)) turns) ≡ true
    pub exec : (h.got_exec || any (in_time deadline (commands m)) turns) ≡ true

  finish-IsGated :
      (deadline : ℕ) (h h' : Handshake) (turns : List (ℕ × Turn))
      → finish m link a allowed h ≡ some h'
      → IsGated deadline turns h
  unfolding finish
  finish-IsGated deadline h h' turns e = ground (arith, e)

  IsGated-cons :
      (deadline now : ℕ) (t : Turn) (turns : List (ℕ × Turn)) (h h' : Handshake)
      → ltb now deadline ≡ true
      → IsEarned t h h'
      → IsGated deadline turns h'
      → IsGated deadline ((now, t) ∷ turns) h
  unfolding any
  IsGated-cons deadline now t turns h h' early s g =
      ground (arith, early, s.authed, s.version, s.exec, g.authed, g.version, g.exec)

  handshake_loop-IsGated :
      (deadline : ℕ) (turns : List (ℕ × Turn)) (h h' : Handshake) (w : link.World)
      → (handshake_loop m link a allowed deadline turns h w).0 ≡ some h'
      → IsGated deadline turns h
  unfolding handshake_loop
  handshake_loop-IsGated deadline [] h h' w e = finish-IsGated deadline h h' [] e
  handshake_loop-IsGated deadline ((now, t) ∷ turns) h h' w e =
      elim (Bool-cases (ltb now deadline)) [
        | inr late ↦
            finish-IsGated deadline h h' ((now, t) ∷ turns) (rw (late, handshake_loop) at e)
        | inl early ↦ elim (Option-cases (turn m link a allowed t h w).0) [
          | inl n ↦
              let failed : (handshake_loop m link a allowed deadline ((now, t) ∷ turns) h w).0
                  ≡ none =
                rw (early, n, handshake_loop) refl in
              absurd (ground (arith, failed, e))
          | inr (h1, s) ↦
              IsGated-cons deadline now t turns h h1 early (turn-IsEarned t h h1 w s)
                (elim (Bool-cases (is_complete m link a allowed h1)) [
                  | inl c ↦
                      let over : (handshake_loop m link a allowed deadline ((now, t) ∷ turns) h w).0
                          ≡ finish m link a allowed h1 =
                        rw (early, s, c, handshake_loop) refl in
                      finish-IsGated deadline h1 h' turns (sym over ∙ e)
                  | inr c ↦
                      let goes : (handshake_loop m link a allowed deadline ((now, t) ∷ turns) h w).0
                          ≡ (handshake_loop m link a allowed deadline turns h1
                              (turn m link a allowed t h w).1).0 =
                        rw (early, s, c, handshake_loop) refl in
                      handshake_loop-IsGated deadline turns h1 h' (turn m link a allowed t h w).1
                        (sym goes ∙ e)
                ])
        ]
      ]

  -- A handshake that succeeds has seen the peer give the protocol's version and a command; and where
  -- authorization is required, it has seen the peer identify itself as an allowed identity. Each was
  -- waited for before the deadline.
  pub do_version_handshake-gate :
      (started : ℕ) (turns : List (ℕ × Turn)) (h' : Handshake) (w : link.World)
      → (do_version_handshake m link a allowed started turns w).0 ≡ some h'
      → (any (in_time (started + handshake_time) (versions m)) turns ≡ true)
        × (any (in_time (started + handshake_time) (commands m)) turns ≡ true)
        × ((not (auth_required a allowed)
              || any (in_time (started + handshake_time) (identifies allowed)) turns)
            ≡ true)
  unfolding do_version_handshake
  do_version_handshake-gate started turns h' w e =
      let g =
        handshake_loop-IsGated (started + handshake_time) turns (start m link a allowed) h' w e in
      (g.version, g.exec, ground (arith, g.authed))
