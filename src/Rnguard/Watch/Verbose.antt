-- ===== src/Rnguard/Watch/Verbose.antt =====
-- What the verbose messages of src/bin/rnguard.rs change: the count in them ages the timestamps.
use reticulum_router.Prelude.{
  Bool, ◌∙◌, ℕ, ◌≤◌, ◌<◌, ◌≡◌, refl, ap, sym, inl, inr, true, false, some, List, [], ◌∷◌, ◌++◌,
  arith, Bool-cases, Option-cases,
}
use reticulum_router.Text.{Bytes, lookup, text_eq}
use reticulum_router.Text.Laws.{text_eq_refl}
use reticulum_router.Rnguard.Tracker.{
  AnnounceRateTracker, cutoff, retain_after, last, put, is_recent, live, record_announce, count,
}
use reticulum_router.Rnguard.Tracker.Fanout.{
  retain_after-push, retain_after_twice, lookup-put_self, counted-history,
}
use reticulum_router.Rnguard.Watch.{
  Instance, Announced, announce, other, malformed, Args, Guard, announce_destination, file_report,
  seen, handle_announce, handle_frame,
}

put_twice :
    (d : Bytes) (ss : List ℕ) (m : List (Bytes × List ℕ)) → put d ss (put d ss m) ≡ put d ss m
unfolding put
put_twice d ss [] = rw (text_eq_refl d, put) refl
put_twice d ss ((e, old) ∷ m) = elim (Bool-cases (text_eq e d)) [
  | inl same ↦ rw (same, text_eq_refl d, put) refl
  | inr differ ↦ rw (differ, put) (rw (differ, put_twice d ss m) refl)
]

-- The timestamps that a recording leaves are not aged again at the same instant.
record IsSettled (t t' : AnnounceRateTracker) (d : Bytes) (now : ℕ) : Type 0 where
  stamps : List ℕ
  kept : t'.history ≡ put d stamps t.history
  window : t'.window ≡ t.window
  settled : retain_after (cutoff now t.window) stamps ≡ stamps

count-history :
    (t : AnnounceRateTracker) (d : Bytes) (now : ℕ) (stamps : List ℕ)
    → lookup d t.history ≡ some stamps
    → (count t d now).1
      ≡ record t { history = put d (retain_after (cutoff now t.window) stamps) t.history }
unfolding count
count-history t d now stamps l = rw (l, count) refl

count-IsSettled :
    (t t' : AnnounceRateTracker) (d : Bytes) (now : ℕ)
    → IsSettled t t' d now
    → (count t' d now).1 ≡ t'
count-IsSettled t t' d now s =
    let aged : retain_after (cutoff now t'.window) s.stamps ≡ s.stamps =
      ap (λ w. retain_after (cutoff now w) s.stamps) s.window ∙ s.settled in
    let same : put d (retain_after (cutoff now t'.window) s.stamps) t'.history ≡ t'.history =
      ap (λ x. put d x t'.history) aged
      ∙ ap (put d s.stamps) s.kept
      ∙ put_twice d s.stamps t.history
      ∙ sym s.kept in
    count-history t' d now s.stamps (ap (lookup d) s.kept ∙ lookup-put_self d s.stamps t.history)
    ∙ ap (λ h. record t' { history = h }) same

coalesced-history :
    (t : AnnounceRateTracker) (d : Bytes) (now : ℕ)
    → is_recent t.coalesce now (last (live t d now)) ≡ true
    → ((record_announce t d now).1.history ≡ put d (live t d now) t.history)
      × ((record_announce t d now).1.window ≡ t.window)
unfolding record_announce
coalesced-history t d now r = rw r (refl, refl)

record_announce-IsSettled :
    (t : AnnounceRateTracker) (d : Bytes) (now : ℕ)
    → 0 < t.window
    → t.window ≤ now
    → IsSettled t (record_announce t d now).1 d now
record_announce-IsSettled t d now some_window old =
    let aged : retain_after (cutoff now t.window) (live t d now) ≡ live t d now =
      unfold live in retain_after_twice _ _ in
    let inside : cutoff now t.window < now = unfold cutoff in ground arith in
    elim (Bool-cases (is_recent t.coalesce now (last (live t d now)))) [
      | inl r ↦
          let (h, w) = coalesced-history t d now r in
          record { stamps = live t d now; kept = h; window = w; settled = aged }
      | inr r ↦
          let (h, c, w) = counted-history t d now r in
          record {
            stamps = live t d now ++ now ∷ [];
            kept = h;
            window = w;
            settled =
                retain_after-push (cutoff now t.window) now (live t d now) inside
                ∙ ap (λ x. x ++ now ∷ []) aged;
          }
    ]

module _ (i : Instance) where
  -- The arguments of a tool that is asked for its verbose messages, or not.
  abbrev pub asked : Args i → Bool → Args i
  asked args v = record args { verbose = v }

  handle_announce_verbose :
      (args : Args i) (d : Bytes) (now : ℕ) (g : Guard i)
      → 0 < g.tracker.window
      → g.tracker.window ≤ now
      → handle_announce i (asked args true) d now g ≡ handle_announce i (asked args false) d now g
  unfolding handle_announce file_report
  handle_announce_verbose args d now g some_window old =
      let t' = (record_announce g.tracker d now).1 in
      let still : (count t' d now).1 ≡ t' =
        count-IsSettled g.tracker t' d now
          (record_announce-IsSettled g.tracker d now some_window old) in
      elim (Option-cases (record_announce g.tracker d now).0) [
        | inl e ↦ rw (e, handle_announce) (ap (λ x. record (seen i g) { tracker = x }) still)
        | inr (n, e) ↦ rw (e, handle_announce) refl
      ]

  handle_frame_verbose_as :
      (args : Args i) (bytes : Bytes) (now : ℕ) (g : Guard i) (a : Announced)
      → announce_destination i bytes ≡ a
      → 0 < g.tracker.window
      → g.tracker.window ≤ now
      → handle_frame i (asked args true) bytes now g ≡ handle_frame i (asked args false) bytes now g
  unfolding handle_frame
  handle_frame_verbose_as args bytes now g (announce d) e some_window old =
      rw (e, handle_frame) (handle_announce_verbose args d now g some_window old)
  handle_frame_verbose_as args bytes now g other e some_window old = rw (e, handle_frame) refl
  handle_frame_verbose_as args bytes now g malformed e some_window old = rw (e, handle_frame) refl

  -- Where the window is not empty and the clock is at least a window from its earliest instant,
  -- verbose messages change nothing of what a frame does: not the timestamps, though the count in a
  -- message ages them, nor what is reported, the statistics or what is sent to the instance.
  pub handle_frame_verbose :
      (args : Args i) (bytes : Bytes) (now : ℕ) (g : Guard i)
      → 0 < g.tracker.window
      → g.tracker.window ≤ now
      → handle_frame i (asked args true) bytes now g ≡ handle_frame i (asked args false) bytes now g
  handle_frame_verbose args bytes now g some_window old =
      handle_frame_verbose_as args bytes now g (announce_destination i bytes) refl some_window old
