-- ===== src/Rnguard/Frame/Stream.antt =====
-- Frames come out of a stream whole and in order, however the bytes arrive, and what a time-out does.
use reticulum_router.Prelude.{
  concat, length, is_empty, All, length-append, ℕ, zero, suc, ◌^◌, ◌≤◌, ◌<◌, ◌≡◌, refl, sym, ap,
  ◌∙◌, inl, inr, true, false, none, some, List, [], ◌∷◌, ◌++◌, map, arith, ltb, if◌then◌else◌,
  Bool-cases,
}
use reticulum_router.Text.{Bytes}
use reticulum_router.Rnguard.Frame.{
  write_frame, FrameReader, pending, waiting, frame, take_frame, Read, timed_out, chunk, compact,
  fill, got, idle, broken, NextResult, next_frame,
}
use mathlib.Core.List.{append_assoc}
use reticulum_router.Rnguard.Frame.Take.{IsReader, take_frame-write_frame, take_frame_partial}

drop_zero : (r : FrameReader) → ltb 0 r.start ≡ false → pending r ≡ r.buf
drop_zero r h = let zero_start : r.start ≡ 0 = ground arith in rw zero_start refl

compact-pending : (r : FrameReader) → ((compact r).buf ≡ pending r) × ((compact r).start ≡ 0)
unfolding compact
compact-pending r = elim (Bool-cases (ltb 0 r.start)) [
  | inl moved ↦ rw moved (refl, refl)
  | inr still ↦ rw still (sym (drop_zero r still), ground arith)
]

-- A read puts its bytes behind the pending ones.
fill-chunk :
    (bytes : Bytes) (r : FrameReader)
    → (r' : FrameReader) × (fill (chunk bytes) r ≡ (some true, r'))
      × (pending r' ≡ pending r ++ bytes)
      × IsReader r'
unfolding fill
fill-chunk bytes r =
    let (b, s) = compact-pending r in
    (
      record (compact r) { buf = (compact r).buf ++ bytes },
      refl,
      rw (s, b) refl,
      rw s (omega arith),
    )

-- What a frame in the stream makes of the next call: the frame, and a reader behind it.
pub record Delivers (result : NextResult) (bytes rest : Bytes) : Type 0 where
  pub left : List Bytes
  pub after : FrameReader
  pub result_is : result ≡ some (got bytes, map chunk left, after)
  pub behind : pending after ++ concat left ≡ rest
  pub reader : IsReader after

module _ {ℓ} {A : Type ℓ} where
  -- Of two ways to cut a list the longer first part continues the shorter.
  cut :
      (p q e r : List A)
      → p ++ q ≡ e ++ r
      → length e ≤ length p
      → (m : List A) × (p ≡ e ++ m) × (m ++ q ≡ r)
  cut p q [] r h l = (p, refl, h)
  cut [] q (x ∷ e) r h l = absurd (omega arith)
  cut (y ∷ p) q (x ∷ e) r h l = let (m, i, j) = cut p q e r (cc) (omega arith) in (m, cc, j)

next_frame-take :
    (max_size : ℕ) (events : List Read) (r r' : FrameReader) (bytes : Bytes)
    → take_frame max_size r ≡ (frame bytes, r')
    → next_frame max_size events r ≡ some (got bytes, events, r')
unfolding next_frame
next_frame-take max_size [] r r' bytes h = rw h refl
next_frame-take max_size (event ∷ events) r r' bytes h = rw h refl

next_frame-fill :
    (max_size : ℕ) (bytes : Bytes) (events : List Read) (r r' : FrameReader)
    → take_frame max_size r ≡ (waiting, r)
    → fill (chunk bytes) r ≡ (some true, r')
    → next_frame max_size (chunk bytes ∷ events) r ≡ next_frame max_size events r'
unfolding next_frame
next_frame-fill max_size bytes events r r' h k = rw (h, next_frame) (rw k refl)

module _ (max_size : ℕ) (bound : max_size < 2 ^ 64) where
  Delivers-whole :
      (chunks : List Bytes) (r : FrameReader) (bytes rest : Bytes)
      → IsReader r
      → pending r ++ concat chunks ≡ write_frame bytes ++ rest
      → length bytes ≤ max_size
      → length (write_frame bytes) ≤ length (pending r)
      → Delivers (next_frame max_size (map chunk chunks) r) bytes rest
  Delivers-whole chunks r bytes rest reader e small whole =
      let (m, i, j) = cut (pending r) (concat chunks) (write_frame bytes) rest e whole in
      let (r', t, p, k) = take_frame-write_frame max_size r reader bytes m i small bound in
      record {
        left = chunks;
        after = r';
        result_is = next_frame-take max_size (map chunk chunks) r r' bytes t;
        behind = rw p j;
        reader = k;
      }

  -- However the bytes of a frame and of what follows are cut into reads, `next_frame` returns exactly
  -- the frame, and the bytes behind it are what it leaves in the buffer and in the unused reads.
  pub next_frame-Delivers :
      (chunks : List Bytes) (r : FrameReader) (bytes rest : Bytes)
      → IsReader r
      → pending r ++ concat chunks ≡ write_frame bytes ++ rest
      → length bytes ≤ max_size
      → Delivers (next_frame max_size (map chunk chunks) r) bytes rest
  next_frame-Delivers [] r bytes rest reader e small =
      Delivers-whole [] r bytes rest reader e small (
        omega (
          arith,
          ap length e,
          length-append (pending r) [],
          length-append (write_frame bytes) rest,
        ))
  next_frame-Delivers (c ∷ chunks) r bytes rest reader e small =
      elim (Bool-cases (ltb (length (pending r)) (length (write_frame bytes)))) [
        | inr whole ↦ Delivers-whole (c ∷ chunks) r bytes rest reader e small (ground arith)
        | inl part ↦
            let (r', f, p, k) = fill-chunk c r in
            let waits =
              take_frame_partial max_size r bytes (c ++ concat chunks) rest e (ground arith) small
                bound in
            let d =
              next_frame-Delivers chunks r' bytes rest k
                (rw p (append_assoc (pending r) c (concat chunks) ∙ e)) small in
            record {
              left = d.left;
              after = d.after;
              result_is = next_frame-fill max_size c (map chunk chunks) r r' waits f ∙ d.result_is;
              behind = d.behind;
              reader = d.reader;
            }
      ]

-- The frames of a number of calls of `next_frame`, up to the first call that gives none.
unfoldable pub read_frames : ℕ → ℕ → List Read → FrameReader → List Bytes
read_frames zero max_size events r = []
read_frames (suc n) max_size events r = elim (next_frame max_size events r) [
  | none ↦ []
  | some (result, events', r') ↦ elim result [
    | got bytes ↦ bytes ∷ read_frames n max_size events' r'
    | idle ↦ []
    | broken ↦ []
  ]
]

read_frames-got :
    (n max_size : ℕ) (events events' : List Read) (r r' : FrameReader) (bytes : Bytes)
    → next_frame max_size events r ≡ some (got bytes, events', r')
    → read_frames (suc n) max_size events r ≡ bytes ∷ read_frames n max_size events' r'
unfolding read_frames
read_frames-got n max_size events events' r r' bytes h = rw (h, read_frames) refl

abbrev pub AllSmall : ℕ → List Bytes → Type 0
AllSmall max_size frames = All (λ bytes. length bytes ≤ max_size) frames

-- The frames that were written, none of them longer than the reader's limit, come out in order and
-- unchanged, however the stream is cut into reads.
pub read_frames-write_frame :
    (max_size : ℕ) (frames chunks : List Bytes) (r : FrameReader)
    → max_size < 2 ^ 64
    → IsReader r
    → AllSmall max_size frames
    → pending r ++ concat chunks ≡ concat (map write_frame frames)
    → read_frames (length frames) max_size (map chunk chunks) r ≡ frames
read_frames-write_frame max_size [] chunks r bound reader small e = unfold read_frames in refl
read_frames-write_frame max_size (bytes ∷ frames) chunks r bound reader small e =
    let d =
      next_frame-Delivers max_size bound chunks r bytes (concat (map write_frame frames)) reader e
        small.0 in
    read_frames-got (length frames) max_size (map chunk chunks) (map chunk d.left) r d.after bytes
      d.result_is
    ∙ ap (◌∷◌ bytes)
        (read_frames-write_frame max_size frames d.left d.after bound d.reader small.1 d.behind)

-- A read that times out while part of a frame is pending is an error, not an idle tick, though
-- nothing was lost; with nothing pending it is an idle tick.
pub fill-timed_out :
    (r : FrameReader) → (fill timed_out r).0 ≡ (if is_empty (pending r) then some false else none)
unfolding fill
fill-timed_out r = let (b, s) = compact-pending r in rw b refl
