-- ===== src/Rnsh/Stream.antt =====
-- src/bin/rnsh.rs: the frames of the standard streams, which carry a header of two bytes and a payload
-- that may be compressed.
pub mod Loop
pub mod RoundTrip
use reticulum_router.Prelude.{
  ℕ, zero, suc, ◌+◌, ◌*◌, ◌/◌, ◌%◌, ◌<◌, ◌≡◌, refl, Bool, true, false, ◌&&◌, Option, none, some,
  List, [], ◌∷◌, ◌++◌, map, length, take, drop, is_empty, ltb, leb, ◌==◌, if◌then◌else◌,
}
use reticulum_router.Text.{Bytes}

abbrev pub hdr_eof : ℕ
hdr_eof = 0x8000

abbrev pub hdr_compressed : ℕ
hdr_compressed = 0x4000

abbrev pub hdr_id_mask : ℕ
hdr_id_mask = 0x3fff

abbrev pub max_chunk : ℕ
max_chunk = 16384

abbrev pub comp_tries : ℕ
comp_tries = 4

abbrev pub bit : ℕ → Bool → ℕ
bit flag true = flag
bit flag false = 0

-- The mask keeps the low bits, so both flags are clear when they are set: `|=` adds them.
unfoldable pub stream_hdr : ℕ → Bool → Bool → Bytes
stream_hdr sid eof comp =
    let h = sid % (hdr_id_mask + 1) + bit hdr_eof eof + bit hdr_compressed comp in
    h / 256 ∷ h % 256 ∷ []

abbrev pub has_bit : ℕ → ℕ → Bool
has_bit flag h = h / flag % 2 == 1

pub record StreamHeader : Type 0 where
  pub sid : ℕ
  pub eof : Bool
  pub comp : Bool

unfoldable pub stream_unhdr : Bytes → Option StreamHeader
stream_unhdr (a ∷ b ∷ rest) =
    let h = a * 256 + b in
    some (record {
      sid = h % (hdr_id_mask + 1);
      eof = has_bit hdr_eof h;
      comp = has_bit hdr_compressed h;
    })
stream_unhdr _ = none

-- The `bzip2` crate. `encode` is what the encoder gives for a block of bytes, where it gives any, and
-- `decode n` the first bytes that the decoder yields, `n` at most. The decoder restores what was
-- encoded.
pub record Bzip2 : Type 0 where
  pub encode : Bytes → Option Bytes
  pub decode : ℕ → Bytes → Option Bytes
  pub decode-encode :
      (n : ℕ) (b : Bytes) {c : Bytes} → encode b ≡ some c → decode n c ≡ some (take n b)

-- What `compress` gives: whether the payload is compressed, the number of bytes used, the payload.
pub record Compressed : Type 0 where
  pub comp : Bool
  pub used : ℕ
  pub payload : Bytes

module _ (bz : Bzip2) where
  abbrev pub accept : ℕ → ℕ → Option Bytes → Option Compressed → Option Compressed
  accept max seg none rest = rest
  accept max seg (some c) rest =
      if ltb (length c) max && ltb (length c) seg
      then some (record { comp = true; used = seg; payload = c })
      else rest

  -- The rounds of `compress` from `t` on, of which there are so many.
  unfoldable pub compress_from : ℕ → ℕ → Bytes → ℕ → ℕ → Option Compressed
  compress_from zero t buf len max = none
  compress_from (suc rounds) t buf len max =
      let rest = compress_from rounds (t + 1) buf len max in
      let seg = len / t in
      if ltb seg 32 then none else accept max seg (bz.encode (take seg buf)) rest

  abbrev pub or_plain : Bytes → ℕ → Option Compressed → Compressed
  or_plain buf plain (some c) = c
  or_plain buf plain none = record { comp = false; used = plain; payload = take plain buf }

  abbrev pub smaller : ℕ → ℕ → ℕ
  smaller a b = if ltb b a then b else a

  unfoldable pub compress : Bytes → ℕ → Compressed
  compress buf max =
      let len = smaller (length buf) max_chunk in
      or_plain buf (smaller max len) (compress_from comp_tries 1 buf len max)

  abbrev pub frame_of : ℕ → Bool → Compressed → Bytes
  frame_of sid eof c = stream_hdr sid eof c.comp ++ c.payload

  abbrev pub cons_frame : Bytes → Option (List Bytes) → Option (List Bytes)
  cons_frame f none = none
  cons_frame f (some fs) = some (f ∷ fs)

  -- The loop of `stream_frames`, for so many rounds; `none` where they do not suffice.
  unfoldable pub frames_from : ℕ → ℕ → Bool → Bytes → ℕ → Option (List Bytes)
  frames_from fuel sid eof [] max_data = some []
  frames_from zero sid eof (b ∷ rest) max_data = none
  frames_from (suc fuel) sid eof (b ∷ rest) max_data =
      let c = compress (b ∷ rest) max_data in
      let f = frame_of sid eof c in
      elim (c.used == 0) [
        | true ↦ some (f ∷ [])
        | false ↦ cons_frame f (frames_from fuel sid eof (drop c.used (b ∷ rest)) max_data)
      ]

  unfoldable pub stream_frames : ℕ → Bool → Bytes → ℕ → Option (List Bytes)
  stream_frames sid eof data' max_data = frames_from (length data') sid eof data' max_data

  abbrev pub within : ℕ → Option Bytes → Option Bytes
  within max none = none
  within max (some out) = if ltb max (length out) then none else some out

  unfoldable pub decompress : Bytes → ℕ → Option Bytes
  decompress data' max = within max (bz.decode (max + 1) data')

  abbrev pub or_nothing : Option Bytes → Bytes
  or_nothing none = []
  or_nothing (some d) = d

  -- What the receiver of a stream frame takes from it.
  unfoldable pub stream_data : Bool → Bytes → Bytes
  stream_data comp payload =
      let data' = drop 2 payload in if comp then or_nothing (decompress data' max_chunk) else data'

  -- What a frame brings, as the loops of the two ends of a session take it: nothing where the header
  -- is too short.
  unfoldable pub received : Bytes → Bytes
  received payload = elim (stream_unhdr payload) [ none ↦ [] | some h ↦ stream_data h.comp payload ]
