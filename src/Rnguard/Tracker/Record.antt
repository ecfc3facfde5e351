-- ===== src/Rnguard/Tracker/Record.antt =====
-- What recording an announce does to the tracker, and what a report means.
use reticulum_router.Prelude.{
  length, All, ℕ, ◌*◌, ◌%◌, ◌^◌, ◌≤◌, ◌<◌, ◌≡◌, refl, inl, inr, Bool, true, false, not, ◌&&◌,
  Option, some, List, [], ◌∷◌, ◌++◌, arith, ltb, if◌then◌else◌, Bool-cases,
}
use reticulum_router.Text.{Bytes, text_eq, lookup}
use reticulum_router.Text.Laws.{text_eq_iff}
use reticulum_router.Rnguard.Tracker.{
  AnnounceRateTracker, new, cutoff, last, or_empty, put, member, is_recent, live, record_announce,
}
use reticulum_router.Rnguard.Tracker.Stamps.{
  IsSpaced, retain_after-IsSpaced, retain_after-All, All-push, IsSpaced-push,
}

pub lookup-put :
    (d e : Bytes) (stamps : List ℕ) (m : List (Bytes × List ℕ))
    → lookup e (put d stamps m) ≡ (if text_eq d e then some stamps else lookup e m)
unfolding lookup put
lookup-put d e stamps [] = refl
lookup-put d e stamps ((k, old) ∷ m) =
    ground (arith, text_eq_iff d e, text_eq_iff k d, text_eq_iff k e, lookup-put d e stamps m)

-- Every destination's timestamps are spaced by the coalescing time and lie in the past.
pub record IsOrdered (t : AnnounceRateTracker) (now : ℕ) : Type 0 where
  pub spaced : (d : Bytes) → IsSpaced t.coalesce (or_empty (lookup d t.history))
  pub past : (d : Bytes) → All (λ s. s ≤ now) (or_empty (lookup d t.history))

pub new-IsOrdered :
    (window threshold coalesce now : ℕ) → IsOrdered (new window threshold coalesce) now
unfolding new lookup
new-IsOrdered window threshold coalesce now = record { spaced = λ d. tt; past = λ d. tt }

pub All-later : (a b : ℕ) (ss : List ℕ) → a ≤ b → All (λ s. s ≤ a) ss → All (λ s. s ≤ b) ss
All-later a b [] h k = tt
All-later a b (s ∷ ss) h k = (omega arith, All-later a b ss h k.1)

or_empty-if {κ} :
    (P : List ℕ → Type κ) (b : Bool) (stamps : List ℕ) (o : Option (List ℕ))
    → P stamps
    → P (or_empty o)
    → P (or_empty (if b then some stamps else o))
or_empty-if P true stamps o h k = h
or_empty-if P false stamps o h k = k

module _ (t : AnnounceRateTracker) (d : Bytes) (before now : ℕ) (ordered : IsOrdered t before)
    (later : before ≤ now) where
  pub live-IsSpaced : IsSpaced t.coalesce (live t d now)
  unfolding live
  live-IsSpaced = retain_after-IsSpaced t.coalesce _ _ (ordered.spaced d)

  pub live_past : All (λ s. s ≤ now) (live t d now)
  unfolding live
  live_past = retain_after-All _ _ _ (All-later before now _ later (ordered.past d))

  put-IsOrdered :
      (stamps : List ℕ)
      → IsSpaced t.coalesce stamps
      → All (λ s. s ≤ now) stamps
      → IsOrdered (record t { history = put d stamps t.history }) now
  put-IsOrdered stamps s p = record {
    spaced = λ e. rw (lookup-put d e stamps t.history) (
        or_empty-if (IsSpaced t.coalesce) (text_eq d e) stamps (lookup e t.history) s
          (ordered.spaced e));
    past = λ e. rw (lookup-put d e stamps t.history) (
        or_empty-if (All (λ s. s ≤ now)) (text_eq d e) stamps (lookup e t.history) p
          (All-later before now _ later (ordered.past e)));
  }

  pushed-IsOrdered :
      is_recent t.coalesce now (last (live t d now)) ≡ false
      → IsOrdered (record t { history = put d (live t d now ++ now ∷ []) t.history }) now
  pushed-IsOrdered fresh =
      put-IsOrdered (live t d now ++ now ∷ [])
        (IsSpaced-push t.coalesce now (live t d now) live-IsSpaced live_past fresh)
        (All-push (λ s. s ≤ now) (live t d now) now live_past (omega arith))

  -- Recording an announce, at an instant that is not before the earlier ones, keeps the timestamps
  -- of every destination in order, at least the coalescing time apart, and in the past.
  pub record_announce-IsOrdered : IsOrdered (record_announce t d now).1 now
  unfolding record_announce
  record_announce-IsOrdered = elim (Bool-cases (is_recent t.coalesce now (last (live t d now)))) [
    | inl r ↦ rw r (put-IsOrdered (live t d now) live-IsSpaced live_past)
    | inr r ↦
        elim (Bool-cases (
          ltb t.threshold (length (live t d now ++ now ∷ []) % 2 ^ 32)
          && not (member d t.reported))) [
            | inl c ↦
                let o = pushed-IsOrdered r in
                rw (r, c) (record { spaced = o.spaced; past = o.past })
            | inr c ↦ rw (r, c) (pushed-IsOrdered r)
          ]
  ]

-- What a report of a destination means.
pub record IsGenuine (t after : AnnounceRateTracker) (d : Bytes) (now count : ℕ) : Type 0 where
  pub stamps : List ℕ
  pub kept : lookup d after.history ≡ some stamps
  pub counted : (count ≡ length stamps % 2 ^ 32) × (t.threshold < count)
  pub above : t.threshold < length stamps
  pub spaced : IsSpaced t.coalesce stamps
  pub within : All (λ s. cutoff now t.window < s) stamps
  pub possible : t.threshold * t.coalesce < t.window
  pub first : member d t.reported ≡ false
  pub noted : member d after.reported ≡ true
