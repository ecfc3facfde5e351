-- ===== src/Rnguard/Tracker.antt =====
-- src/bin/rnguard.rs: the announce rate tracker. Instants and durations are numbers of nanoseconds,
-- an instant's from the earliest one that the platform represents, so that `checked_sub` fails
-- below it.
pub mod Stamps
pub mod Record
pub mod Prune
pub mod Fanout
pub mod Reports
use reticulum_router.Prelude.{
  length, take, drop, is_empty, All, length-append, take-append_self, drop-append_self, length-drop,
  length-take, any-append, all-append, all-reverse, length-map, any, all, ℕ, zero, suc, ◌+◌, ◌-◌,
  ◌*◌, ◌/◌, ◌%◌, ◌^◌, ◌≤◌, ◌<◌, String, ◌≡◌, refl, sym, ap, ◌∙◌, subst, ◌≢◌, ◌↔◌, ◌⊎◌, inl, inr,
  Bool, true, false, not, ◌&&◌, ◌||◌, Option, none, some, List, [], ◌∷◌, ◌++◌, map, reverse, filter,
  arith, ltb, leb, ◌==◌, if◌then◌else◌, ==_iff, ==_refl, Bool-cases, Option-cases, and_true_left,
  and_true_right,
}
use reticulum_router.Text.{
  Text, Bytes, codes, text_eq, is_whitespace, trim_start, trim_end, trim, lower, to_lowercase,
  starts_with, ends_with, contains, contains_char, len_utf8, len, is_ascii_hexdigit, split_once,
  push_head, split, splitn, starts_newline, lines, lookup, utf8, into_bytes, text_le, insert_sorted,
  sort,
}

pub record AnnounceRateTracker : Type 0 where
  pub window : ℕ
  pub threshold : ℕ
  pub coalesce : ℕ
  pub history : List (Bytes × List ℕ)
  pub reported : List Bytes

unfoldable pub new : ℕ → ℕ → ℕ → AnnounceRateTracker
new window threshold coalesce = record {
  window = window;
  threshold = threshold;
  coalesce = coalesce;
  history = [];
  reported = [];
}

-- `now.checked_sub(self.window).unwrap_or(now)`
unfoldable pub cutoff : ℕ → ℕ → ℕ
cutoff now window = if leb window now then now - window else now

-- `stamps.retain(|stamp| *stamp > cutoff)`
unfoldable pub retain_after : ℕ → List ℕ → List ℕ
retain_after c [] = []
retain_after c (s ∷ ss) = let rest = retain_after c ss in if ltb c s then s ∷ rest else rest

unfoldable pub last : List ℕ → Option ℕ
last [] = none
last (s ∷ []) = some s
last (s ∷ t ∷ ss) = last (t ∷ ss)

abbrev pub or_empty : Option (List ℕ) → List ℕ
or_empty none = []
or_empty (some stamps) = stamps

-- The write through the entry of `destination`, which is made where it is missing.
unfoldable pub put : Bytes → List ℕ → List (Bytes × List ℕ) → List (Bytes × List ℕ)
put d stamps [] = (d, stamps) ∷ []
put d stamps ((e, old) ∷ m) =
    let rest = put d stamps m in if text_eq e d then (d, stamps) ∷ m else (e, old) ∷ rest

unfoldable pub member : Bytes → List Bytes → Bool
member d = any (text_eq d)

abbrev pub is_recent : ℕ → ℕ → Option ℕ → Bool
is_recent coalesce now none = false
is_recent coalesce now (some s) = ltb (now - s) coalesce

-- The live timestamps of a destination.
unfoldable pub live : AnnounceRateTracker → Bytes → ℕ → List ℕ
live t destination now =
    retain_after (cutoff now t.window) (or_empty (lookup destination t.history))

-- The new tracker, and the count where the destination is reported. `as u32` wraps around.
unfoldable pub record_announce : AnnounceRateTracker → Bytes → ℕ → Option ℕ × AnnounceRateTracker
record_announce t destination now =
    let stamps = live t destination now in
    if is_recent t.coalesce now (last stamps)
    then (none, record t { history = put destination stamps t.history })
    else let pushed = stamps ++ now ∷ [] in
      let t' = record t { history = put destination pushed t.history } in
      let count = length pushed % 2 ^ 32 in
      if ltb t.threshold count && not (member destination t.reported)
      then (some count, record t' { reported = destination ∷ t.reported })
      else (none, t')

unfoldable pub count : AnnounceRateTracker → Bytes → ℕ → ℕ × AnnounceRateTracker
count t destination now = elim (lookup destination t.history) [
  | none ↦ (0, t)
  | some stamps ↦
      let kept = retain_after (cutoff now t.window) stamps in
      (length kept % 2 ^ 32, record t { history = put destination kept t.history })
]

-- `history.retain`, with the timestamps of each destination aged first.
unfoldable pub prune_history : ℕ → List (Bytes × List ℕ) → List (Bytes × List ℕ)
prune_history c [] = []
prune_history c ((d, stamps) ∷ m) =
    let rest = prune_history c m in
    let kept = retain_after c stamps in if is_empty kept then rest else (d, kept) ∷ rest

abbrev pub has_key : List (Bytes × List ℕ) → Bytes → Bool
has_key m d = elim (lookup d m) [ none ↦ false | some s ↦ true ]

unfoldable pub retain_known : List (Bytes × List ℕ) → List Bytes → List Bytes
retain_known m [] = []
retain_known m (d ∷ ds) = let rest = retain_known m ds in if has_key m d then d ∷ rest else rest

unfoldable pub prune : AnnounceRateTracker → ℕ → ℕ × AnnounceRateTracker
prune t now =
    let pruned = prune_history (cutoff now t.window) t.history in
    (
      length t.history - length pruned,
      record t { history = pruned; reported = retain_known pruned t.reported },
    )

unfoldable pub tracked : AnnounceRateTracker → ℕ
tracked t = length t.history
