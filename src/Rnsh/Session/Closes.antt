-- ===== src/Rnsh/Session/Closes.antt =====
-- The terminal's descriptor is closed once.
use reticulum_router.Prelude.{
  ◌≡◌, refl, inl, inr, none, some, List, [], ◌∷◌, if◌then◌else◌, arith, Bool-cases, Option-cases,
}
use reticulum_router.Text.{Bytes}
use reticulum_router.Rnsh.Stream.{Bzip2, stream_unhdr}
use reticulum_router.Rnsh.Handshake.{remote_identified, channel, closed, other}
use reticulum_router.Rnsh.Session.{
  Wait, got, foreign, lost, timed_out, Round, Session, start, on_stream, react, is_over, session,
  cleanup,
}

-- The descriptor has been closed once if it is closed, and never otherwise.
abbrev pub IsClosedOnce : Session → Type 0
IsClosedOnce s = s.closes ≡ (if s.master_closed then 1 else 0)

module _ (bz : Bzip2) where
  on_stream-IsClosedOnce :
      (payload : Bytes) (s : Session) → IsClosedOnce s → IsClosedOnce (on_stream bz payload s)
  unfolding on_stream
  on_stream-IsClosedOnce payload s c = elim (Option-cases (stream_unhdr payload)) [
    | inl e ↦ rw (e, on_stream) c
    | inr (h, e) ↦ rw (e, on_stream) (ground (arith, c))
  ]

  react-IsClosedOnce : (w : Wait) (s : Session) → IsClosedOnce s → IsClosedOnce (react bz w s)
  unfolding react
  react-IsClosedOnce (got (channel kind payload)) s c =
      ground (arith, c, on_stream-IsClosedOnce payload s c)
  react-IsClosedOnce (got closed) s c = c
  react-IsClosedOnce (got (remote_identified id)) s c = c
  react-IsClosedOnce (got other) s c = c
  react-IsClosedOnce foreign s c = c
  react-IsClosedOnce lost s c = c
  react-IsClosedOnce (timed_out none) s c = c
  react-IsClosedOnce (timed_out (some status)) s c = c

  session-IsClosedOnce :
      (rounds : List Round) (s : Session) → IsClosedOnce s → IsClosedOnce (session bz rounds s).1
  unfolding session
  session-IsClosedOnce [] s c = c
  session-IsClosedOnce (r ∷ rounds) s c = elim (Bool-cases (is_over bz r s)) [
    | inl o ↦ rw (o, session) c
    | inr o ↦
        rw (o, session)
          (session-IsClosedOnce rounds (react bz r.wait s) (react-IsClosedOnce r.wait s c))
  ]

  -- Whatever the session brings, the terminal's descriptor has been closed exactly once after it.
  pub session-closes : (rounds : List Round) → (cleanup (session bz rounds start).1).closes ≡ 1
  session-closes rounds = ground (arith, session-IsClosedOnce rounds start refl)
