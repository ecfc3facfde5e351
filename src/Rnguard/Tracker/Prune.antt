-- ===== src/Rnguard/Tracker/Prune.antt =====
-- Pruning forgets the destinations that were silent for a whole window, and only those.
use reticulum_router.Prelude.{
  length, is_empty, any, ℕ, ◌+◌, ◌%◌, ◌^◌, ◌≤◌, ◌≡◌, refl, ap, ◌∙◌, inl, inr, Bool, true, false,
  not, ◌&&◌, Option, none, some, List, [], ◌∷◌, ◌++◌, arith, ltb, if◌then◌else◌, Bool-cases,
}
use reticulum_router.Text.{Bytes, text_eq, lookup}
use reticulum_router.Text.Laws.{text_eq_refl, eq_of_text_eq, text_eq_comm}
use reticulum_router.Rnguard.Tracker.{
  AnnounceRateTracker, cutoff, retain_after, last, put, member, is_recent, live, record_announce,
  prune_history, has_key, retain_known, prune, tracked,
}
use reticulum_router.Rnguard.Tracker.Record.{lookup-put}

-- No destination stands twice in the table, as in a `HashMap`.
abbrev pub HasDistinctKeys : List (Bytes × List ℕ) → Type 0
HasDistinctKeys [] = Unit
HasDistinctKeys ((d, stamps) ∷ m) = (lookup d m ≡ none) × HasDistinctKeys m

-- What ageing leaves of a destination's entry.
abbrev pub aged : ℕ → Option (List ℕ) → Option (List ℕ)
aged c none = none
aged c (some stamps) =
    if is_empty (retain_after c stamps) then none else some (retain_after c stamps)

lookup-cons :
    (d e : Bytes) (stamps : List ℕ) (m : List (Bytes × List ℕ))
    → lookup d ((e, stamps) ∷ m) ≡ (if text_eq e d then some stamps else lookup d m)
unfolding lookup
lookup-cons d e stamps m = refl

prune_history-cons :
    (c : ℕ) (e : Bytes) (stamps : List ℕ) (m : List (Bytes × List ℕ))
    → prune_history c ((e, stamps) ∷ m) ≡ (
        if is_empty (retain_after c stamps)
        then prune_history c m
        else (e, retain_after c stamps) ∷ prune_history c m)
unfolding prune_history
prune_history-cons c e stamps m = refl

aged-if :
    (c : ℕ) (b : Bool) (stamps : List ℕ) (o : Option (List ℕ))
    → aged c (if b then some stamps else o) ≡ (
        if b
        then (if is_empty (retain_after c stamps) then none else some (retain_after c stamps))
        else aged c o)
aged-if c true stamps o = refl
aged-if c false stamps o = refl

pub lookup-prune_history :
    (c : ℕ) (d : Bytes) (m : List (Bytes × List ℕ))
    → HasDistinctKeys m
    → lookup d (prune_history c m) ≡ aged c (lookup d m)
lookup-prune_history c d [] h = unfold prune_history lookup in refl
lookup-prune_history c d ((e, stamps) ∷ m) (new_key, h) =
    let ih = lookup-prune_history c d m h in
    elim (Bool-cases (text_eq e d)) [
      | inr other ↦ elim (Bool-cases (is_empty (retain_after c stamps))) [
        | inl gone ↦ rw (prune_history-cons c e stamps m, gone, lookup-cons d e stamps m, other) ih
        | inr kept ↦
            rw
              (
                prune_history-cons c e stamps m,
                kept,
                lookup-cons d e stamps m,
                lookup-cons d e (retain_after c stamps) (prune_history c m),
                other,
              )
              ih
      ]
      | inl same ↦
          let absent : lookup d m ≡ none = rw (← eq_of_text_eq e d same) new_key in
          elim (Bool-cases (is_empty (retain_after c stamps))) [
            | inl gone ↦
                rw (prune_history-cons c e stamps m, gone, lookup-cons d e stamps m, same)
                  (rw gone (ih ∙ ap (aged c) absent))
            | inr kept ↦
                rw
                  (
                    prune_history-cons c e stamps m,
                    kept,
                    lookup-cons d e stamps m,
                    lookup-cons d e (retain_after c stamps) (prune_history c m),
                    same,
                  )
                  (rw kept refl)
          ]
    ]

pub prune_history-HasDistinctKeys :
    (c : ℕ) (m : List (Bytes × List ℕ)) → HasDistinctKeys m → HasDistinctKeys (prune_history c m)
prune_history-HasDistinctKeys c [] h = unfold prune_history in tt
prune_history-HasDistinctKeys c ((e, stamps) ∷ m) (new_key, h) =
    elim (Bool-cases (is_empty (retain_after c stamps))) [
      | inl gone ↦ rw (prune_history-cons c e stamps m, gone) (prune_history-HasDistinctKeys c m h)
      | inr kept ↦
          rw (prune_history-cons c e stamps m, kept)
            (
              lookup-prune_history c e m h ∙ ap (aged c) new_key,
              prune_history-HasDistinctKeys c m h,
            )
    ]

put-cons :
    (d : Bytes) (stamps : List ℕ) (e : Bytes) (old : List ℕ) (m : List (Bytes × List ℕ))
    → put d stamps ((e, old) ∷ m)
      ≡ (if text_eq e d then (d, stamps) ∷ m else (e, old) ∷ put d stamps m)
unfolding put
put-cons d stamps e old m = refl

pub put-HasDistinctKeys :
    (d : Bytes) (stamps : List ℕ) (m : List (Bytes × List ℕ))
    → HasDistinctKeys m
    → HasDistinctKeys (put d stamps m)
put-HasDistinctKeys d stamps [] h = unfold put lookup in (refl, tt)
put-HasDistinctKeys d stamps ((e, old) ∷ m) (new_key, h) = elim (Bool-cases (text_eq e d)) [
  | inl same ↦ rw (put-cons d stamps e old m, same) (rw (← eq_of_text_eq e d same) new_key, h)
  | inr other ↦
      rw (put-cons d stamps e old m, other)
        (
          rw (lookup-put d e stamps m, text_eq_comm d e, other) new_key,
          put-HasDistinctKeys d stamps m h,
        )
]

-- Recording an announce keeps the table's keys distinct.
pub record_announce-HasDistinctKeys :
    (t : AnnounceRateTracker) (d : Bytes) (now : ℕ)
    → HasDistinctKeys t.history
    → HasDistinctKeys (record_announce t d now).1.history
unfolding record_announce
record_announce-HasDistinctKeys t d now h =
    elim (Bool-cases (is_recent t.coalesce now (last (live t d now)))) [
      | inl r ↦ rw r (put-HasDistinctKeys d (live t d now) t.history h)
      | inr r ↦
          elim (Bool-cases (
            ltb t.threshold (length (live t d now ++ now ∷ []) % 2 ^ 32)
            && not (member d t.reported))) [
              | inl c ↦ rw (r, c) (put-HasDistinctKeys d (live t d now ++ now ∷ []) t.history h)
              | inr c ↦ rw (r, c) (put-HasDistinctKeys d (live t d now ++ now ∷ []) t.history h)
            ]
    ]

member-retain_known :
    (m : List (Bytes × List ℕ)) (d : Bytes) (ds : List Bytes)
    → member d (retain_known m ds) ≡ (member d ds && has_key m d)
unfolding member any retain_known
member-retain_known m d [] = refl
member-retain_known m d (e ∷ ds) = elim (Bool-cases (text_eq d e)) [
  | inl same ↦
      rw (eq_of_text_eq d e same) (ground (arith, member-retain_known m e ds, text_eq_refl e))
  | inr other ↦ ground (arith, member-retain_known m d ds)
]

length-prune_history : (c : ℕ) (m : List (Bytes × List ℕ)) → length (prune_history c m) ≤ length m
unfolding prune_history
length-prune_history c [] = omega arith
length-prune_history c ((e, stamps) ∷ m) = ground (arith, length-prune_history c m)

-- The timestamps that are less than a window old.
abbrev pub inside : ℕ → ℕ → List ℕ → List ℕ
inside now window [] = []
inside now window (s ∷ ss) =
    if ltb now (s + window) then s ∷ inside now window ss else inside now window ss

-- An entry without its timestamps that are a window old or more, and no entry where none are left.
abbrev pub inside_window : ℕ → ℕ → Option (List ℕ) → Option (List ℕ)
inside_window now window none = none
inside_window now window (some stamps) =
    if is_empty (inside now window stamps) then none else some (inside now window stamps)

retain_after-inside :
    (now window : ℕ) (ss : List ℕ)
    → window ≤ now
    → retain_after (cutoff now window) ss ≡ inside now window ss
unfolding retain_after cutoff
retain_after-inside now window [] h = refl
retain_after-inside now window (s ∷ ss) h = ground (arith, retain_after-inside now window ss h)

aged-inside_window :
    (now window : ℕ) (o : Option (List ℕ))
    → window ≤ now
    → aged (cutoff now window) o ≡ inside_window now window o
aged-inside_window now window none h = refl
aged-inside_window now window (some ss) h = rw (retain_after-inside now window ss h) refl

-- Where the clock is at least a window from its earliest instant, and no destination stands twice in
-- the table: after pruning, a destination's entry holds exactly its timestamps that are less than a
-- window old, in their order, and is gone when there are none; a destination counts as reported
-- exactly when it was reported and still has an entry; and the result is the number of entries
-- dropped.
pub prune_lem :
    (t : AnnounceRateTracker) (now : ℕ) (d : Bytes)
    → HasDistinctKeys t.history
    → t.window ≤ now
    → (lookup d (prune t now).1.history ≡ inside_window now t.window (lookup d t.history))
      × (member d (prune t now).1.reported
          ≡ (member d t.reported && has_key (prune t now).1.history d))
      × ((prune t now).0 + tracked (prune t now).1 ≡ tracked t)
unfolding prune tracked
prune_lem t now d h old = (
  lookup-prune_history (cutoff now t.window) d t.history h
      ∙ aged-inside_window now t.window (lookup d t.history) old,
  member-retain_known (prune_history (cutoff now t.window) t.history) d t.reported,
  omega (arith, length-prune_history (cutoff now t.window) t.history),
)
