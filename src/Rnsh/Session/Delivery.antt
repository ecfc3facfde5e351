-- ===== src/Rnsh/Session/Delivery.antt =====
-- What one end sends as its standard input is what the other end hands to the child's terminal.
use reticulum_router.Prelude.{
  concat, map, All, ◌<◌, ℕ, ◌≡◌, refl, ap, ◌∙◌, sym, true, false, some, List, [], ◌∷◌, ◌++◌, arith,
}
use mathlib.Core.List.{append_assoc, append-nil}
use reticulum_router.Text.{Bytes}
use reticulum_router.Rnsh.Messages.{msg_type_stream_data}
use reticulum_router.Rnsh.Stream.{
  Bzip2, stream_hdr, stream_unhdr, stream_data, stream_frames, received,
}
use reticulum_router.Rnsh.Stream.RoundTrip.{IsMarked, stream_frames-IsTransfer}
use reticulum_router.Rnsh.Handshake.{channel}
use reticulum_router.Rnsh.Session.{
  got, Round, Session, close_master, hand, on_stream, react, is_over, session, sid_stdin,
}

-- A round in which a stream frame arrives while the child's output goes on.
abbrev pub arrives : Bytes → Round
arrives payload = record {
  finished = false;
  finished_now = false;
  late = false;
  wait = got (channel msg_type_stream_data payload);
}

-- The child runs, and its terminal is open.
pub record IsOpen (s : Session) : Type 0 where
  pub running : s.child_exited ≡ false
  pub open_ : s.master_closed ≡ false

module _ (bz : Bzip2) where
  session_running :
      (r : Round) (rounds : List Round) (s : Session)
      → s.child_exited ≡ false
      → session bz (r ∷ rounds) s ≡ session bz rounds (react bz r.wait s)
  unfolding session
  session_running r rounds s e =
      let on : is_over bz r s ≡ false = ground (arith, e) in rw (on, session) refl

  hand_open :
      (d : Bytes) (s : Session)
      → s.master_closed ≡ false
      → hand d s ≡ record s { handed = s.handed ++ d }
  hand_open [] s o = ap (λ h. record s { handed = h }) (sym (append-nil s.handed))
  hand_open (b ∷ d) s o = ground (arith, o)

  react_frame :
      (f : Bytes) (s : Session)
      → IsMarked bz sid_stdin false f
      → s.master_closed ≡ false
      → react bz (got (channel msg_type_stream_data f)) s
        ≡ record s { handed = s.handed ++ received bz f }
  unfolding react on_stream received
  react_frame f s (comp, e) o =
      rw (e, react, on_stream, received) (hand_open (stream_data bz comp f) s o)

  session_frames :
      (frames : List Bytes) (rounds : List Round) (s : Session)
      → All (IsMarked bz sid_stdin false) frames
      → IsOpen s
      → session bz (map arrives frames ++ rounds) s
        ≡ session bz rounds (record s { handed = s.handed ++ concat (map (received bz) frames) })
  session_frames [] rounds s m o =
      ap (λ h. session bz rounds (record s { handed = h })) (sym (append-nil s.handed))
  session_frames (f ∷ frames) rounds s (e, m) o =
      let s' = record s { handed = s.handed ++ received bz f } in
      session_running (arrives f) (map arrives frames ++ rounds) s o.running
      ∙ ap (session bz (map arrives frames ++ rounds)) (react_frame f s e o.open_)
      ∙ session_frames frames rounds s' m (record { running = o.running; open_ = o.open_ })
      ∙ ap (λ h. session bz rounds (record s { handed = h }))
          (append_assoc s.handed (received bz f) (concat (map (received bz) frames)))

  react_end :
      (s : Session)
      → s.master_closed ≡ false
      → react bz (got (channel msg_type_stream_data (stream_hdr sid_stdin true false))) s
        ≡ close_master s
  unfolding react on_stream stream_hdr stream_unhdr stream_data
  react_end s o = ground (arith, o)

  -- Data that the initiator sends in frames as its standard input, followed by the end mark, is handed
  -- to the child's terminal whole and in order, and the terminal is then closed; the session goes on
  -- with the rounds that follow.
  pub session_delivers :
      (buf : Bytes) (max_data : ℕ) (rounds : List Round) (s : Session)
      → 0 < max_data
      → IsOpen s
      → (frames : List Bytes) × (stream_frames bz sid_stdin false buf max_data ≡ some frames)
        × (session bz (map arrives frames ++ (arrives (stream_hdr sid_stdin true false) ∷ rounds)) s
            ≡ session bz rounds (close_master (record s { handed = s.handed ++ buf })))
  session_delivers buf max_data rounds s p o =
      let (frames, e, t) =
        stream_frames-IsTransfer bz sid_stdin false buf max_data (omega arith) p in
      let last = arrives (stream_hdr sid_stdin true false) in
      let s' = record s { handed = s.handed ++ buf } in
      (
        frames,
        e,
        session_frames frames (last ∷ rounds) s t.marked o
            ∙ ap (λ d. session bz (last ∷ rounds) (record s { handed = s.handed ++ d })) t.whole
            ∙ session_running last rounds s' o.running
            ∙ ap (session bz rounds) (react_end s' o.open_),
      )
