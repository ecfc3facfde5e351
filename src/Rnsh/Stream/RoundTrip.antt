-- ===== src/Rnsh/Stream/RoundTrip.antt =====
-- What is sent in frames is received, and the frames fit the link.
use reticulum_router.Prelude.{
  concat, take_all, take-append-drop, All, ℕ, zero, suc, ◌+◌, ◌<◌, ◌≤◌, ◌≡◌, refl, ap, ◌∙◌, inl,
  inr, Bool, true, false, some, List, [], ◌∷◌, ◌++◌, map, length, take, drop, length-drop,
  length-take, ◌==◌, if◌then◌else◌, arith, Bool-cases,
}
use reticulum_router.Text.{Bytes}
use reticulum_router.Rnsh.Stream.{
  Bzip2, Compressed, compress, max_chunk, frame_of, frames_from, stream_frames, stream_hdr,
  stream_unhdr, stream_data, decompress, received, or_nothing,
}
use reticulum_router.Rnsh.Stream.Loop.{IsBlock, compress-IsBlock}

-- A stream's number and flags are read back from the header of a frame, whatever the payload.
pub stream_unhdr-stream_hdr :
    (sid : ℕ) (eof comp : Bool) (payload : Bytes)
    → sid < 16384
    → stream_unhdr (stream_hdr sid eof comp ++ payload)
      ≡ some (record { sid = sid; eof = eof; comp = comp })
unfolding stream_hdr stream_unhdr
stream_unhdr-stream_hdr sid true true payload h = ground arith
stream_unhdr-stream_hdr sid true false payload h = ground arith
stream_unhdr-stream_hdr sid false true payload h = ground arith
stream_unhdr-stream_hdr sid false false payload h = ground arith

module _ (bz : Bzip2) where
  stream_data-frame_of :
      (sid : ℕ) (eof : Bool) (c : Compressed)
      → stream_data bz c.comp (frame_of bz sid eof c)
        ≡ (if c.comp then or_nothing bz (decompress bz c.payload max_chunk) else c.payload)
  unfolding stream_data stream_hdr
  stream_data-frame_of sid eof c = refl

  decompress-block :
      (buf : Bytes) (max : ℕ) (c : Compressed)
      → IsBlock bz buf max c
      → c.comp ≡ true
      → decompress bz c.payload max_chunk ≡ some (take c.used buf)
  unfolding decompress
  decompress-block buf max c b h =
      let short : length (take c.used buf) ≤ max_chunk =
        omega (arith, length-take c.used buf, b.chunk) in
      rw
        (
          bz.decode-encode (max_chunk + 1) (take c.used buf) (b.coded h),
          take_all (max_chunk + 1) (take c.used buf) (omega arith),
          decompress,
        )
        (ground (arith, short))

  received-frame_of :
      (sid : ℕ) (eof : Bool) (buf : Bytes) (max : ℕ) (c : Compressed)
      → IsBlock bz buf max c
      → sid < 16384
      → received bz (frame_of bz sid eof c) ≡ take c.used buf
  unfolding received
  received-frame_of sid eof buf max c b h =
      rw (stream_unhdr-stream_hdr sid eof c.comp c.payload h, received)
        (stream_data-frame_of sid eof c ∙ elim (Bool-cases c.comp) [
          | inl y ↦ rw (y, decompress-block buf max c b y) refl
          | inr n ↦ rw n (b.plain n)
        ])

  length-frame_of :
      (sid : ℕ) (eof : Bool) (buf : Bytes) (max : ℕ) (c : Compressed)
      → IsBlock bz buf max c
      → length (frame_of bz sid eof c) ≤ 2 + max
  unfolding stream_hdr
  length-frame_of sid eof buf max c b = omega (arith, b.fits)

  -- A frame with the stream's number and end mark.
  abbrev pub IsMarked : ℕ → Bool → Bytes → Type 0
  IsMarked sid eof f =
      (comp : Bool) × (stream_unhdr f ≡ some (record { sid = sid; eof = eof; comp = comp }))

  -- What the frames of a block of data are to be.
  pub record IsTransfer (sid : ℕ) (eof : Bool) (buf : Bytes) (max_data : ℕ) (frames : List Bytes)
      : Type 0 where
    pub marked : All (IsMarked sid eof) frames
    pub whole : concat (map (received bz) frames) ≡ buf
    pub fit : All (λ f. length f ≤ 2 + max_data) frames

  frames_from-IsTransfer :
      (fuel sid : ℕ) (eof : Bool) (buf : Bytes) (max_data : ℕ)
      → sid < 16384
      → 0 < max_data
      → length buf ≤ fuel
      → (frames : List Bytes) × (frames_from bz fuel sid eof buf max_data ≡ some frames)
        × IsTransfer sid eof buf max_data frames
  unfolding frames_from
  frames_from-IsTransfer fuel sid eof [] max_data s p h =
      ([], refl, record { marked = tt; whole = refl; fit = tt })
  frames_from-IsTransfer zero sid eof (b ∷ rest) max_data s p h = absurd (omega arith)
  frames_from-IsTransfer (suc fuel) sid eof (b ∷ rest) max_data s p h =
      let c = compress bz (b ∷ rest) max_data in
      let block = compress-IsBlock bz (b ∷ rest) max_data in
      let moved : 0 < c.used = block.moves p (omega arith) in
      let going : (c.used == 0) ≡ false = ground (arith, moved) in
      let left : length (drop c.used (b ∷ rest)) ≤ fuel =
        omega (arith, length-drop c.used (b ∷ rest)) in
      let (frames, e, t) =
        frames_from-IsTransfer fuel sid eof (drop c.used (b ∷ rest)) max_data s p left in
      (
        frame_of bz sid eof c ∷ frames,
        rw (going, e, frames_from) refl,
        record {
          marked = ((c.comp, stream_unhdr-stream_hdr sid eof c.comp c.payload s), t.marked);
          whole =
              ap (λ x. x ++ concat (map (received bz) frames))
                (received-frame_of sid eof (b ∷ rest) max_data c block s)
              ∙ ap (λ x. take c.used (b ∷ rest) ++ x) t.whole
              ∙ take-append-drop c.used (b ∷ rest);
          fit = (length-frame_of sid eof (b ∷ rest) max_data c block, t.fit);
        },
      )

  -- Data that is sent in frames over a link with room for data is received whole and in order,
  -- compressed or not; each frame carries the stream's number and end mark, and is no larger than
  -- the header and the room.
  pub stream_frames-IsTransfer :
      (sid : ℕ) (eof : Bool) (buf : Bytes) (max_data : ℕ)
      → sid < 16384
      → 0 < max_data
      → (frames : List Bytes) × (stream_frames bz sid eof buf max_data ≡ some frames)
        × IsTransfer sid eof buf max_data frames
  unfolding stream_frames
  stream_frames-IsTransfer sid eof buf max_data s p =
      frames_from-IsTransfer (length buf) sid eof buf max_data s p (omega arith)
