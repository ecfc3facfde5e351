-- ===== src/Rnguard/Tracker/Stamps.antt =====
-- Lists of timestamps: order, spacing and age.
use reticulum_router.Prelude.{
  length, All, ℕ, ◌+◌, ◌*◌, ◌≤◌, ◌<◌, ◌≡◌, refl, inl, inr, true, false, Option, none, some, List,
  [], ◌∷◌, ◌++◌, arith, ltb, Bool-cases,
}
use reticulum_router.Rnguard.Tracker.{retain_after, last, is_recent}

-- Each timestamp is at least `gap` after the one before it.
abbrev pub IsSpaced : ℕ → List ℕ → Type 0
IsSpaced gap [] = Unit
IsSpaced gap (s ∷ []) = Unit
IsSpaced gap (s ∷ t ∷ ss) = (s + gap ≤ t) × IsSpaced gap (t ∷ ss)

abbrev pub IsBelow : ℕ → Option ℕ → Type 0
IsBelow bound none = Unit
IsBelow bound (some s) = s ≤ bound

-- Every timestamp is after the cutoff.
pub All-after : (c : ℕ) (ss : List ℕ) → All (λ s. c < s) (retain_after c ss)
unfolding retain_after
All-after c [] = tt
All-after c (s ∷ ss) = ground (arith, All-after c ss)

pub retain_after_id : (c : ℕ) (ss : List ℕ) → All (λ s. c < s) ss → retain_after c ss ≡ ss
unfolding retain_after
retain_after_id c [] h = refl
retain_after_id c (s ∷ ss) h = ground (arith, retain_after_id c ss h.1)

All-mono : (a b : ℕ) (ss : List ℕ) → a ≤ b → All (λ t. b ≤ t) ss → All (λ t. a ≤ t) ss
All-mono a b [] h k = tt
All-mono a b (s ∷ ss) h k = (omega arith, All-mono a b ss h k.1)

pub IsSpaced-above : (gap s : ℕ) (ss : List ℕ) → IsSpaced gap (s ∷ ss) → All (λ t. s ≤ t) ss
IsSpaced-above gap s [] h = tt
IsSpaced-above gap s (t ∷ ss) h =
    (omega arith, All-mono s t ss (omega arith) (IsSpaced-above gap t ss h.1))

All-above : (c s : ℕ) (ss : List ℕ) → c < s → All (λ t. s ≤ t) ss → All (λ t. c < t) ss
All-above c s [] h k = tt
All-above c s (t ∷ ss) h k = (omega arith, All-above c s ss h k.1)

IsSpaced-tail : (gap s : ℕ) (ss : List ℕ) → IsSpaced gap (s ∷ ss) → IsSpaced gap ss
IsSpaced-tail gap s [] h = tt
IsSpaced-tail gap s (t ∷ ss) h = h.1

retain_after-kept :
    (c s : ℕ) (ss : List ℕ) → ltb c s ≡ true → retain_after c (s ∷ ss) ≡ s ∷ retain_after c ss
unfolding retain_after
retain_after-kept c s ss h = rw h

retain_after-dropped :
    (c s : ℕ) (ss : List ℕ) → ltb c s ≡ false → retain_after c (s ∷ ss) ≡ retain_after c ss
unfolding retain_after
retain_after-dropped c s ss h = rw h

-- Ageing keeps the spacing.
pub retain_after-IsSpaced :
    (gap c : ℕ) (ss : List ℕ) → IsSpaced gap ss → IsSpaced gap (retain_after c ss)
retain_after-IsSpaced gap c [] h = unfold retain_after in tt
retain_after-IsSpaced gap c (s ∷ ss) h = elim (Bool-cases (ltb c s)) [
  | inl k ↦
      rw
        (
          retain_after-kept c s ss k,
          retain_after_id c ss (All-above c s ss (ground arith) (IsSpaced-above gap s ss h)),
        )
        h
  | inr k ↦
      rw (retain_after-dropped c s ss k) (retain_after-IsSpaced gap c ss (IsSpaced-tail gap s ss h))
]

pub retain_after-All {κ} :
    (P : ℕ → Type κ) (c : ℕ) (ss : List ℕ) → All P ss → All P (retain_after c ss)
retain_after-All P c [] h = unfold retain_after in tt
retain_after-All P c (s ∷ ss) h = elim (Bool-cases (ltb c s)) [
  | inl k ↦ rw (retain_after-kept c s ss k) (h.0, retain_after-All P c ss h.1)
  | inr k ↦ rw (retain_after-dropped c s ss k) (retain_after-All P c ss h.1)
]

pub All-push {κ} : (P : ℕ → Type κ) (ss : List ℕ) (s : ℕ) → All P ss → P s → All P (ss ++ s ∷ [])
All-push P [] s h p = (p, tt)
All-push P (t ∷ ss) s h p = (h.0, All-push P ss s h.1 p)

-- A timestamp that is not recent may follow.
pub IsSpaced-push :
    (gap now : ℕ) (ss : List ℕ)
    → IsSpaced gap ss
    → All (λ s. s ≤ now) ss
    → is_recent gap now (last ss) ≡ false
    → IsSpaced gap (ss ++ now ∷ [])
unfolding last
IsSpaced-push gap now [] h b r = tt
IsSpaced-push gap now (s ∷ []) h b r = (ground arith, tt)
IsSpaced-push gap now (s ∷ t ∷ ss) h b r = (h.0, IsSpaced-push gap now (t ∷ ss) h.1 b.1 r)

-- Timestamps with a spacing need room.
pub IsSpaced-room :
    (gap now s : ℕ) (ss : List ℕ)
    → IsSpaced gap (s ∷ ss)
    → All (λ t. t ≤ now) (s ∷ ss)
    → s + length ss * gap ≤ now
IsSpaced-room gap now s [] h b = omega (arith, b.0)
IsSpaced-room gap now s (t ∷ ss) h b = grind (arith, IsSpaced-room gap now t ss h.1 b.1)
