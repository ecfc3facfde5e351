-- ===== src/Rnguard/Tracker/Fanout.antt =====
-- The fan-out of one announce over several interfaces, and the independence of destinations.
use reticulum_router.Prelude.{
  length, any, ℕ, ◌+◌, ◌%◌, ◌^◌, ◌≤◌, ◌<◌, ◌≡◌, refl, ◌≢◌, inl, inr, true, false, not, ◌&&◌, none,
  some, List, [], ◌∷◌, ◌++◌, arith, ltb, Bool-cases,
}
use reticulum_router.Text.{Bytes, text_eq, lookup}
use reticulum_router.Text.Laws.{text_eq_refl, text_eq_iff, text_eq_comm}
use reticulum_router.Rnguard.Tracker.{
  AnnounceRateTracker, cutoff, retain_after, last, or_empty, put, member, is_recent, live,
  record_announce,
}
use reticulum_router.Rnguard.Tracker.Record.{lookup-put}

last-push : (ss : List ℕ) (s : ℕ) → last (ss ++ s ∷ []) ≡ some s
unfolding last
last-push [] s = refl
last-push (t ∷ []) s = refl
last-push (t ∷ u ∷ ss) s = last-push (u ∷ ss) s

pub retain_after-push :
    (c s : ℕ) (ss : List ℕ) → c < s → retain_after c (ss ++ s ∷ []) ≡ retain_after c ss ++ s ∷ []
unfolding retain_after
retain_after-push c s [] h = ground arith
retain_after-push c s (t ∷ ss) h = ground (arith, retain_after-push c s ss h)

pub retain_after_twice :
    (c : ℕ) (ss : List ℕ) → retain_after c (retain_after c ss) ≡ retain_after c ss
unfolding retain_after
retain_after_twice c [] = refl
retain_after_twice c (s ∷ ss) = ground (arith, retain_after_twice c ss)

pub lookup-put_self :
    (d : Bytes) (stamps : List ℕ) (m : List (Bytes × List ℕ))
    → lookup d (put d stamps m) ≡ some stamps
lookup-put_self d stamps m = rw (lookup-put d d stamps m, text_eq_refl d) refl

-- A recording that is not coalesced leaves its instant as the last timestamp.
pub counted-history :
    (t : AnnounceRateTracker) (d : Bytes) (now : ℕ)
    → is_recent t.coalesce now (last (live t d now)) ≡ false
    → ((record_announce t d now).1.history ≡ put d (live t d now ++ now ∷ []) t.history)
      × ((record_announce t d now).1.coalesce ≡ t.coalesce)
      × ((record_announce t d now).1.window ≡ t.window)
unfolding record_announce
counted-history t d now r =
    elim (Bool-cases
      (ltb t.threshold (length (live t d now ++ now ∷ []) % 2 ^ 32) && not (member d t.reported))) [
        | inl c ↦ rw (r, c) (refl, refl, refl)
        | inr c ↦ rw (r, c) (refl, refl, refl)
      ]

coalesced-record :
    (t : AnnounceRateTracker) (d : Bytes) (now : ℕ)
    → is_recent t.coalesce now (last (live t d now)) ≡ true
    → ((record_announce t d now).0 ≡ none)
      × (live (record_announce t d now).1 d now ≡ live t d now)
      × ((record_announce t d now).1.reported ≡ t.reported)
unfolding record_announce live
coalesced-record t d now r = rw r (
  refl,
  rw
      (lookup-put_self d (retain_after (cutoff now t.window) (or_empty (lookup d t.history)))
        t.history)
      (retain_after_twice _ _),
  refl,
)

live-counted :
    (t : AnnounceRateTracker) (d : Bytes) (now again : ℕ)
    → is_recent t.coalesce now (last (live t d now)) ≡ false
    → cutoff again t.window < now
    → last (live (record_announce t d now).1 d again) ≡ some now
live-counted t d now again r live_still =
    let (h, k, w) = counted-history t d now r in
    unfold live in
    rw
      (
        h,
        w,
        lookup-put_self d (live t d now ++ now ∷ []) t.history,
        retain_after-push (cutoff again t.window) now (live t d now) live_still,
      )
      (last-push (retain_after (cutoff again t.window) (live t d now)) now)

-- An announce of the same destination that arrives within the coalescing time of a counted one (of
-- one that was itself not coalesced) is not counted, where the coalescing time is at most the window
-- and the clock is at least a window from its earliest instant: nothing is reported, and the
-- timestamps inside the window stay as they are.
pub fanout_counts_once :
    (t : AnnounceRateTracker) (d : Bytes) (now again : ℕ)
    → is_recent t.coalesce now (last (live t d now)) ≡ false
    → now ≤ again
    → again < now + t.coalesce
    → t.coalesce ≤ t.window
    → t.window ≤ again
    → ((record_announce (record_announce t d now).1 d again).0 ≡ none)
      × (live (record_announce (record_announce t d now).1 d again).1 d again
          ≡ live (record_announce t d now).1 d again)
      × ((record_announce (record_announce t d now).1 d again).1.reported
          ≡ (record_announce t d now).1.reported)
fanout_counts_once t d now again r a b c e =
    let (h, k, w) = counted-history t d now r in
    let inside : cutoff again t.window < now = unfold cutoff in ground arith in
    coalesced-record (record_announce t d now).1 d again
      (rw (k, live-counted t d now again r inside) (ground arith))

-- Recording an announce of one destination changes neither the timestamps of another nor whether it
-- has been reported.
pub record_announce_other :
    (t : AnnounceRateTracker) (d e : Bytes) (now : ℕ)
    → d ≢ e
    → (lookup e (record_announce t d now).1.history ≡ lookup e t.history)
      × (member e (record_announce t d now).1.reported ≡ member e t.reported)
unfolding record_announce
record_announce_other t d e now ne =
    let differ : text_eq d e ≡ false = ground (arith, text_eq_iff d e) in
    let differ' : text_eq e d ≡ false = rw (text_eq_comm e d) differ in
    let same : (stamps : List ℕ) → lookup e (put d stamps t.history) ≡ lookup e t.history =
      λ stamps. rw (lookup-put d e stamps t.history, differ) refl in
    elim (Bool-cases (is_recent t.coalesce now (last (live t d now)))) [
      | inl r ↦ rw r (same (live t d now), refl)
      | inr r ↦
          elim (Bool-cases (
            ltb t.threshold (length (live t d now ++ now ∷ []) % 2 ^ 32)
            && not (member d t.reported))) [
              | inl c ↦
                  rw (r, c) (same (live t d now ++ now ∷ []), unfold member any in rw differ' refl)
              | inr c ↦ rw (r, c) (same (live t d now ++ now ∷ []), refl)
            ]
    ]
