-- ===== src/Rnguard/Tracker/Reports.antt =====
-- A report of a destination is a genuine excess, is made once, and what prevents it.
use reticulum_router.Prelude.{
  length, All, any, ℕ, suc, ◌+◌, ◌*◌, ◌%◌, ◌^◌, ◌≤◌, ◌<◌, ◌≡◌, refl, ◌⊎◌, inl, inr, true, false,
  not, ◌&&◌, ◌||◌, none, some, List, [], ◌∷◌, ◌++◌, arith, ltb, if◌then◌else◌, Bool-cases,
}
use reticulum_router.Text.{Bytes, text_eq, lookup}
use reticulum_router.Text.Laws.{text_eq_refl, text_eq_iff}
use reticulum_router.Rnguard.Tracker.{
  AnnounceRateTracker, cutoff, retain_after, last, put, member, is_recent, live, record_announce,
}
use native.Mathlib.Nat.{mod-le}
use reticulum_router.Rnguard.Tracker.Stamps.{
  All-after, IsSpaced, All-push, IsSpaced-push, IsSpaced-room,
}
use reticulum_router.Rnguard.Tracker.Record.{
  lookup-put, All-later, IsOrdered, live-IsSpaced, live_past, IsGenuine,
}

-- The two tests of `record_announce` have let a report through.
reported-tests :
    (t : AnnounceRateTracker) (d : Bytes) (now : ℕ) {n : ℕ}
    → (record_announce t d now).0 ≡ some n
    → (is_recent t.coalesce now (last (live t d now)) ≡ false)
      × ((ltb t.threshold (length (live t d now ++ now ∷ []) % 2 ^ 32) && not (member d t.reported))
          ≡ true)
      × (n ≡ length (live t d now ++ now ∷ []) % 2 ^ 32)
unfolding record_announce
reported-tests t d now h = ground arith

-- What is left of the tracker after a report.
reported-tracker :
    (t : AnnounceRateTracker) (d : Bytes) (now : ℕ) {n : ℕ}
    → (record_announce t d now).0 ≡ some n
    → ((record_announce t d now).1.history ≡ put d (live t d now ++ now ∷ []) t.history)
      × ((record_announce t d now).1.reported ≡ d ∷ t.reported)
unfolding record_announce
reported-tracker t d now h = let (r, c, e) = reported-tests t d now h in rw (r, c) (refl, refl)

length_room :
    (gap now c : ℕ) (ss : List ℕ)
    → IsSpaced gap ss
    → All (λ s. s ≤ now) ss
    → All (λ s. c < s) ss
    → (k : ℕ) → k < length ss
    → c + k * gap < now
length_room gap now c [] h p a k l = absurd (omega arith)
length_room gap now c (s ∷ ss) h p a k l = grind (arith, IsSpaced-room gap now s ss h p, a.0)

lookup-put_self :
    (d : Bytes) (stamps : List ℕ) (m : List (Bytes × List ℕ))
    → lookup d (put d stamps m) ≡ some stamps
lookup-put_self d stamps m = rw (lookup-put d d stamps m, text_eq_refl d) refl

-- A report is made of a destination only where more announces than the threshold, each at least the
-- coalescing time after the one before it, lie within the window; so it needs a window longer than
-- the threshold times the coalescing time. The destination had not been reported and is noted.
pub record_announce-IsGenuine :
    (t : AnnounceRateTracker) (d : Bytes) (before now : ℕ) {n : ℕ}
    → IsOrdered t before
    → before ≤ now
    → 0 < t.window
    → t.window ≤ now
    → (record_announce t d now).0 ≡ some n
    → IsGenuine t (record_announce t d now).1 d now n
record_announce-IsGenuine t d before now ordered later some_window old h =
    let (r, c, e) = reported-tests t d now h in
    let (hist, rep) = reported-tracker t d now h in
    let pushed = live t d now ++ now ∷ [] in
    let below : cutoff now t.window < now = unfold cutoff in ground arith in
    let spaced =
      IsSpaced-push t.coalesce now (live t d now) (live-IsSpaced t d before now ordered later)
        (live_past t d before now ordered later) r in
    let past =
      All-push (λ s. s ≤ now) (live t d now) now (live_past t d before now ordered later)
        (omega arith) in
    let within =
      All-push (λ s. cutoff now t.window < s) (live t d now) now (unfold live in All-after _ _)
        below in
    let above : t.threshold < length pushed = ground (arith, mod-le (length pushed) (2 ^ 32)) in
    record {
      stamps = pushed;
      kept = rw hist (lookup-put_self d pushed t.history);
      counted = (e, ground arith);
      above = above;
      spaced = spaced;
      within = within;
      possible =
          unfold cutoff in
          ground (
            arith,
            length_room t.coalesce now (cutoff now t.window) pushed spaced past within t.threshold
                above,
          );
      first = ground arith;
      noted = rw rep (unfold member any in ground (arith, text_eq_refl d));
    }

-- The destinations that are reported while a sequence of announces, each with its instant, is
-- recorded with no pruning between.
unfoldable pub reports : AnnounceRateTracker → List (Bytes × ℕ) → List Bytes
reports t [] = []
reports t ((d, now) ∷ es) =
    let rest = reports (record_announce t d now).1 es in
    elim (record_announce t d now).0 [ none ↦ rest | some n ↦ d ∷ rest ]

unfoldable pub occurrences : Bytes → List Bytes → ℕ
occurrences d [] = 0
occurrences d (e ∷ ds) = let rest = occurrences d ds in if text_eq e d then suc rest else rest

record_announce-reported :
    (t : AnnounceRateTracker) (d e : Bytes) (now : ℕ)
    → (((record_announce t d now).0 ≡ none) × ((record_announce t d now).1.reported ≡ t.reported))
      ⊎ ((member d t.reported ≡ false)
          × ((record_announce t d now).1.reported ≡ d ∷ t.reported)
          × ((n : ℕ) × ((record_announce t d now).0 ≡ some n)))
unfolding record_announce
record_announce-reported t d e now =
    elim (Bool-cases (is_recent t.coalesce now (last (live t d now)))) [
      | inl r ↦ inl (rw r (refl, refl))
      | inr r ↦
          elim (Bool-cases (
            ltb t.threshold (length (live t d now ++ now ∷ []) % 2 ^ 32)
            && not (member d t.reported))) [
              | inl c ↦ inr (
                ground arith,
                rw (r, c) refl,
                (length (live t d now ++ now ∷ []) % 2 ^ 32, rw (r, c) refl),
              )
              | inr c ↦ inl (rw (r, c) (refl, refl))
            ]
    ]

reports-none :
    (t : AnnounceRateTracker) (d : Bytes) (now : ℕ) (es : List (Bytes × ℕ))
    → (record_announce t d now).0 ≡ none
    → reports t ((d, now) ∷ es) ≡ reports (record_announce t d now).1 es
unfolding reports
reports-none t d now es h = rw (h, reports) refl

reports-some :
    (t : AnnounceRateTracker) (d : Bytes) (now n : ℕ) (es : List (Bytes × ℕ))
    → (record_announce t d now).0 ≡ some n
    → reports t ((d, now) ∷ es) ≡ d ∷ reports (record_announce t d now).1 es
unfolding reports
reports-some t d now n es h = rw (h, reports) refl

occurrences-cons :
    (d e : Bytes) (ds : List Bytes)
    → occurrences d (e ∷ ds) ≡ (if text_eq e d then suc (occurrences d ds) else occurrences d ds)
unfolding occurrences
occurrences-cons d e ds = refl

member-cons : (d e : Bytes) (ds : List Bytes) → member d (e ∷ ds) ≡ (text_eq d e || member d ds)
unfolding member any
member-cons d e ds = refl

reports-bound :
    (d : Bytes) (es : List (Bytes × ℕ)) (t : AnnounceRateTracker)
    → (member d t.reported ≡ true → occurrences d (reports t es) ≡ 0)
      × (occurrences d (reports t es) ≤ 1)
reports-bound d [] t = unfold reports occurrences in ((λ h. refl), omega arith)
reports-bound d ((e, now) ∷ es) t =
    let t' = (record_announce t e now).1 in
    let (absent, once) = reports-bound d es t' in
    elim (record_announce-reported t e d now) [
      | inl (n, r) ↦ rw (reports-none t e now es n) ((λ h. absent (rw r h)), once)
      | inr (new_one, r, (k, s)) ↦
          let step = occurrences-cons d e (reports t' es) in
          let grown : member d t'.reported ≡ (text_eq d e || member d t.reported) =
            rw r (member-cons d e t.reported) in
          rw (reports-some t e now k es s) (
            (λ h. ground (arith, step, grown, absent, text_eq_iff e d, text_eq_iff d e)),
            ground (arith, step, grown, absent, text_eq_iff e d, text_eq_iff d e),
          )
    ]

-- While nothing is pruned, each destination is reported at most once, however often it announces.
pub reported_at_most_once :
    (t : AnnounceRateTracker) (d : Bytes) (es : List (Bytes × ℕ)) → occurrences d (reports t es) ≤ 1
reported_at_most_once t d es = (reports-bound d es t).1

retain_after-none : (now : ℕ) (ss : List ℕ) → All (λ s. s ≤ now) ss → retain_after now ss ≡ []
unfolding retain_after
retain_after-none now [] h = refl
retain_after-none now (s ∷ ss) h = ground (arith, retain_after-none now ss h.1)

young_live :
    (t : AnnounceRateTracker) (d : Bytes) (before now : ℕ)
    → IsOrdered t before
    → before ≤ now
    → now < t.window
    → live t d now ≡ []
unfolding live
young_live t d before now ordered later young =
    let c : cutoff now t.window ≡ now = unfold cutoff in ground arith in
    rw c (retain_after-none now _ (All-later before now _ later (ordered.past d)))

-- At an instant that the window reaches back beyond the earliest one, and not before the announces
-- recorded so far, every earlier announce of the destination is dropped, whatever was recorded: its
-- entry is left with the new instant alone, and where the threshold is not zero nothing is reported.
pub record_announce_young :
    (t : AnnounceRateTracker) (d : Bytes) (before now : ℕ)
    → IsOrdered t before
    → before ≤ now
    → now < t.window
    → 0 < t.threshold
    → ((record_announce t d now).0 ≡ none)
      × (lookup d (record_announce t d now).1.history ≡ some (now ∷ []))
unfolding record_announce
record_announce_young t d before now ordered later young some_threshold =
    let one : ltb t.threshold (1 % 2 ^ 32) ≡ false = ground arith in
    rw (young_live t d before now ordered later young)
      (unfold last in rw one (refl, lookup-put_self d (now ∷ []) t.history))
