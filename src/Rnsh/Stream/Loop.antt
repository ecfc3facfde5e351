-- ===== src/Rnsh/Stream/Loop.antt =====
-- What `compress` gives, and that the loop of `stream_frames` ends.
use reticulum_router.Prelude.{
  ℕ, zero, suc, ◌+◌, ◌/◌, ◌<◌, ◌≤◌, ◌≡◌, refl, ◌∙◌, sym, inl, inr, Bool, true, false, ◌&&◌, Option,
  none, some, List, [], ◌∷◌, length, take, drop, length-drop, length-take, ltb, ◌==◌, arith,
  Bool-cases,
}
use native.Mathlib.Nat.{div-le_self}
use reticulum_router.Text.{Bytes}
use reticulum_router.Rnsh.Stream.{
  Bzip2, Compressed, accept, compress_from, or_plain, smaller, compress, max_chunk, comp_tries,
  frame_of, frames_from, stream_frames,
}

module _ (bz : Bzip2) where
  -- A block that was compressed: what the encoder gave for the bytes used.
  record IsEncoded (buf : Bytes) (len max : ℕ) (c : Compressed) : Type 0 where
    comp : c.comp ≡ true
    payload : bz.encode (take c.used buf) ≡ some c.payload
    fits : length c.payload < max
    shorter : length c.payload < c.used
    used : c.used ≤ len

  accept-IsEncoded :
      (buf : Bytes) (len max seg : ℕ) (o : Option Bytes) (rest : Option Compressed) {c : Compressed}
      → seg ≤ len
      → bz.encode (take seg buf) ≡ o
      → accept bz max seg o rest ≡ some c
      → (rest ≡ some c → IsEncoded buf len max c)
      → IsEncoded buf len max c
  accept-IsEncoded buf len max seg none rest small made e later = later e
  accept-IsEncoded buf len max seg (some d) rest {c} small made e later =
      elim (Bool-cases (ltb (length d) max && ltb (length d) seg)) [
        | inl y ↦
            let same : record { comp = true; used = seg; payload = d } ≡ c = ground (arith, e, y) in
            rw (← same) (record {
              comp = refl;
              payload = made;
              fits = ground (arith, y);
              shorter = ground (arith, y);
              used = small;
            })
        | inr n ↦
            let skipped : accept bz max seg (some d) rest ≡ rest = rw n refl in
            later (sym skipped ∙ e)
      ]

  compress_from-IsEncoded :
      (rounds t : ℕ) (buf : Bytes) (len max : ℕ) {c : Compressed}
      → compress_from bz rounds t buf len max ≡ some c
      → IsEncoded buf len max c
  unfolding compress_from
  compress_from-IsEncoded zero t buf len max e = cc
  compress_from-IsEncoded (suc rounds) t buf len max {c} e = elim (Bool-cases (ltb (len / t) 32)) [
    | inl y ↦
        let ended : compress_from bz (suc rounds) t buf len max ≡ none =
          rw (y, compress_from) refl in
        absurd (ground (arith, ended, e))
    | inr n ↦
        let next : compress_from bz (suc rounds) t buf len max
            ≡ accept bz max (len / t) (bz.encode (take (len / t) buf))
                (compress_from bz rounds (t + 1) buf len max) =
          rw (n, compress_from) refl in
        accept-IsEncoded buf len max (len / t) (bz.encode (take (len / t) buf))
          (compress_from bz rounds (t + 1) buf len max) (div-le_self len t) refl (sym next ∙ e)
          (compress_from-IsEncoded rounds (t + 1) buf len max)
  ]

  -- What `compress` promises of a buffer: the bytes used stand in it, in one chunk, and the payload is
  -- these or their encoding, and fits.
  pub record IsBlock (buf : Bytes) (max : ℕ) (c : Compressed) : Type 0 where
    pub used : c.used ≤ length buf
    pub chunk : c.used ≤ max_chunk
    pub fits : length c.payload ≤ max
    pub moves : 0 < max → 0 < length buf → 0 < c.used
    pub coded : c.comp ≡ true → bz.encode (take c.used buf) ≡ some c.payload
    pub plain : c.comp ≡ false → c.payload ≡ take c.used buf

  or_plain-IsBlock :
      (buf : Bytes) (max : ℕ) (o : Option Compressed)
      → compress_from bz comp_tries 1 buf (smaller bz (length buf) max_chunk) max ≡ o
      → IsBlock buf max (or_plain bz buf (smaller bz max (smaller bz (length buf) max_chunk)) o)
  or_plain-IsBlock buf max none e = record {
    used = ground arith;
    chunk = ground arith;
    fits = ground (arith, length-take (smaller bz max (smaller bz (length buf) max_chunk)) buf);
    moves = λ p q. ground arith;
    coded = λ h. ground (arith, h);
    plain = λ h. refl;
  }
  or_plain-IsBlock buf max (some c) e =
      let d = compress_from-IsEncoded comp_tries 1 buf (smaller bz (length buf) max_chunk) max e in
      record {
        used = ground (arith, d.used);
        chunk = ground (arith, d.used);
        fits = omega (arith, d.fits);
        moves = λ p q. omega (arith, d.shorter);
        coded = λ h. d.payload;
        plain = λ h. ground (arith, h, d.comp);
      }

  pub compress-IsBlock : (buf : Bytes) (max : ℕ) → IsBlock buf max (compress bz buf max)
  unfolding compress
  compress-IsBlock buf max = or_plain-IsBlock buf max _ refl

  -- Each round uses a byte at least, so as many rounds as there are bytes are enough.
  pub frames_from_ends :
      (fuel sid : ℕ) (eof : Bool) (buf : Bytes) (max_data : ℕ)
      → length buf ≤ fuel
      → (frames : List Bytes) × (frames_from bz fuel sid eof buf max_data ≡ some frames)
  unfolding frames_from
  frames_from_ends fuel sid eof [] max_data h = ([], refl)
  frames_from_ends zero sid eof (b ∷ rest) max_data h = absurd (omega arith)
  frames_from_ends (suc fuel) sid eof (b ∷ rest) max_data h =
      let c = compress bz (b ∷ rest) max_data in
      elim (Bool-cases (c.used == 0)) [
        | inl y ↦ (frame_of bz sid eof c ∷ [], rw (y, frames_from) refl)
        | inr n ↦
            let left : length (drop c.used (b ∷ rest)) ≤ fuel =
              ground (arith, length-drop c.used (b ∷ rest)) in
            let (frames, e) =
              frames_from_ends fuel sid eof (drop c.used (b ∷ rest)) max_data left in
            (frame_of bz sid eof c ∷ frames, rw (n, e, frames_from) refl)
      ]

  -- The loop of `stream_frames` ends for every block of data and every size of the link's packets,
  -- zero included, after at most as many rounds as there are bytes.
  pub stream_frames_ends :
      (sid : ℕ) (eof : Bool) (buf : Bytes) (max_data : ℕ)
      → (frames : List Bytes) × (stream_frames bz sid eof buf max_data ≡ some frames)
  unfolding stream_frames
  stream_frames_ends sid eof buf max_data =
      frames_from_ends (length buf) sid eof buf max_data (omega arith)
