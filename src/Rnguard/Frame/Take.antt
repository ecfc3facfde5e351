-- ===== src/Rnguard/Frame/Take.antt =====
-- Taking a frame from the buffer: a whole frame comes out, part of one waits.
use reticulum_router.Prelude.{
  length, take, drop, length-append, take-append_self, drop-append_self, length-drop, all, ℕ, zero,
  suc, ◌+◌, ◌-◌, ◌*◌, ◌^◌, ◌≤◌, ◌<◌, ◌≡◌, refl, sym, ap, ◌∙◌, inl, inr, true, false, ◌&&◌, some,
  List, [], ◌∷◌, ◌++◌, arith, ltb, leb, ◌==◌, if◌then◌else◌, Bool-cases,
}
use reticulum_router.Text.{Bytes}
use reticulum_router.Rnguard.Frame.{
  from_be, be32, be64, i32_max, minus_one, frame_header, write_frame, FrameReader, pending, waiting,
  frame, data_len, consumed, take_data, take_frame,
}
use mathlib.Core.List.{append_assoc}
use reticulum_router.Rnguard.Frame.Header.{from_be-be32, from_be-be64}

module _ {ℓ} {A : Type ℓ} where
  drop_nil : (n : ℕ) → drop {A = A} n [] ≡ []
  drop_nil zero = refl
  drop_nil (suc n) = refl

  drop-drop : (m n : ℕ) (xs : List A) → drop n (drop m xs) ≡ drop (m + n) xs
  drop-drop zero n xs = ap (λ k. drop k xs) (omega arith)
  drop-drop (suc m) n [] = drop_nil n ∙ sym (drop_nil (suc m + n))
  drop-drop (suc m) n (x ∷ xs) =
      let same : suc (m + n) ≡ suc m + n = omega arith in
      drop-drop m n xs ∙ ap (λ k. drop k (x ∷ xs)) same

  drop_all : (xs : List A) → drop (length xs) xs ≡ []
  drop_all [] = refl
  drop_all (x ∷ xs) = drop_all xs

abbrev pub IsReader : FrameReader → Type 0
IsReader r = r.start ≤ length r.buf

length-pending : (r : FrameReader) → length (pending r) ≡ length r.buf - r.start
length-pending r = length-drop r.start r.buf

-- Consuming up to a position inside the buffer leaves the bytes behind it.
consumed-pending :
    (r : FrameReader) (s : ℕ)
    → s ≤ length r.buf
    → (pending (consumed r s) ≡ drop s r.buf) × IsReader (consumed r s)
unfolding consumed
consumed-pending r s h = elim (Bool-cases (ltb 0 s && s == length r.buf)) [
  | inl all ↦
      let whole : s ≡ length r.buf = ground arith in
      rw all (sym (rw whole (drop_all r.buf)), omega arith)
  | inr some_left ↦ elim (Bool-cases (ltb (64 * 1024) s)) [
    | inl long ↦ rw (some_left, long) (refl, omega arith)
    | inr short ↦ rw (some_left, short) (refl, h)
  ]
]

-- The header of a frame, and what a reader makes of it.
record Header (bytes rest : Bytes) : Type 0 where
  head : Bytes
  parts : write_frame bytes ++ rest ≡ head ++ (bytes ++ rest)
  len : ℕ
  is_len : from_be 0 (take 4 (head ++ (bytes ++ rest))) ≡ len
  is_size : (if len == minus_one then 12 else 4) ≡ length head
  four : 4 ≤ length head
  is_n : data_len len (head ++ (bytes ++ rest)) ≡ some (length bytes)

Header-of : (bytes rest : Bytes) → length bytes < 2 ^ 64 → Header bytes rest
unfolding write_frame frame_header data_len
Header-of bytes rest h = elim (Bool-cases (leb (length bytes) i32_max)) [
  | inl short ↦ record {
    head = be32 (length bytes);
    parts = rw short (append_assoc (be32 (length bytes)) bytes rest);
    len = length bytes;
    is_len = from_be-be32 0 (length bytes) ∙ ground arith;
    is_size = ground arith;
    four = omega arith;
    is_n = ground arith;
  }
  | inr long ↦ record {
    head = be32 minus_one ++ be64 (length bytes);
    parts = rw long (append_assoc (be32 minus_one ++ be64 (length bytes)) bytes rest);
    len = minus_one;
    is_len = from_be-be32 0 minus_one;
    is_size = refl;
    four = omega arith;
    is_n = ap some (from_be-be64 (length bytes) h);
  }
]

module _ (max_size : ℕ) (r : FrameReader) where
  -- What the header says decides.
  take_frame_by :
      (len size n : ℕ)
      → 4 ≤ length r.buf - r.start
      → from_be 0 (take 4 (pending r)) ≡ len
      → (if len == minus_one then 12 else 4) ≡ size
      → size ≤ length r.buf - r.start
      → data_len len (pending r) ≡ some n
      → take_frame max_size r ≡ take_data r max_size (length r.buf - r.start) size n
  unfolding take_frame
  take_frame_by len size n four is_len is_size room is_n =
      let enough : ltb (length r.buf - r.start) 4 ≡ false = ground arith in
      let all_there : ltb (length r.buf - r.start) size ≡ false = ground arith in
      rw (enough, is_len, is_size, all_there, is_n, take_frame)
        (ap (λ k. take_data r max_size (length r.buf - r.start) k n) (rw is_len is_size))

module _ (max_size : ℕ) (r : FrameReader) (reader : IsReader r) where
  -- The data behind a header comes out, and what is behind it stays.
  take_data_lem :
      (head bytes rest : Bytes)
      → pending r ≡ head ++ (bytes ++ rest)
      → length bytes ≤ max_size
      → (r' : FrameReader) × (take_data r max_size
            (length r.buf - r.start)
            (length head)
            (length bytes)
          ≡ (frame bytes, r'))
        × (pending r' ≡ rest)
        × IsReader r'
  unfolding take_data
  take_data_lem head bytes rest e small =
      let size : length r.buf - r.start ≡ length head + (length bytes + length rest) =
        sym (length-pending r)
        ∙ ap length e
        ∙ length-append head (bytes ++ rest)
        ∙ ap (λ k. length head + k) (length-append bytes rest) in
      let behind : drop (r.start + length head) r.buf ≡ bytes ++ rest =
        sym (drop-drop r.start (length head) r.buf)
        ∙ ap (drop (length head)) e
        ∙ drop-append_self head (bytes ++ rest) in
      let end = r.start + length head + length bytes in
      let (left, still) = consumed-pending r end (omega arith) in
      let not_large : ltb max_size (length bytes) ≡ false = ground arith in
      let whole : ltb (length r.buf - r.start) (length head + length bytes) ≡ false =
        ground arith in
      (
        consumed r end,
        rw (not_large, whole, behind, take-append_self bytes rest) refl,
        left
            ∙ sym (drop-drop (r.start + length head) (length bytes) r.buf)
            ∙ ap (drop (length bytes)) behind
            ∙ drop-append_self bytes rest,
        still,
      )

  -- A frame that `write_frame` sent is taken whole, and the bytes behind it are left.
  pub take_frame-write_frame :
      (bytes rest : Bytes)
      → pending r ≡ write_frame bytes ++ rest
      → length bytes ≤ max_size
      → max_size < 2 ^ 64
      → (r' : FrameReader) × (take_frame max_size r ≡ (frame bytes, r'))
        × (pending r' ≡ rest)
        × IsReader r'
  take_frame-write_frame bytes rest e small bound =
      let h = Header-of bytes rest (omega arith) in
      let head = h.head in
      let whole : pending r ≡ h.head ++ (bytes ++ rest) = e ∙ h.parts in
      let room : length r.buf - r.start ≡ length head + length (bytes ++ rest) =
        sym (length-pending r) ∙ ap length whole ∙ length-append head (bytes ++ rest) in
      let (r', taken, left, still) = take_data_lem head bytes rest whole small in
      (
        r',
        take_frame_by max_size r h.len (length head) (length bytes) (omega (arith, h.four))
              (rw whole h.is_len) h.is_size (omega arith) (rw whole h.is_n)
            ∙ taken,
        left,
        still,
      )

module _ {ℓ} {A : Type ℓ} where
  take-append_le : (n : ℕ) (xs ys : List A) → n ≤ length xs → take n (xs ++ ys) ≡ take n xs
  take-append_le zero xs ys h = refl
  take-append_le (suc n) [] ys h = absurd (omega arith)
  take-append_le (suc n) (x ∷ xs) ys h = ap (◌∷◌ x) (take-append_le n xs ys (omega arith))

  pub drop-append_le :
      (n : ℕ) (xs ys : List A) → n ≤ length xs → drop n (xs ++ ys) ≡ drop n xs ++ ys
  drop-append_le zero xs ys h = refl
  drop-append_le (suc n) [] ys h = absurd (omega arith)
  drop-append_le (suc n) (x ∷ xs) ys h = drop-append_le n xs ys (omega arith)

-- The data's length is read from the header alone.
data_len-append :
    (len : ℕ) (xs ys : Bytes)
    → (if len == minus_one then 12 else 4) ≤ length xs
    → data_len len (xs ++ ys) ≡ data_len len xs
unfolding data_len
data_len-append len xs ys h = elim (Bool-cases (len == minus_one)) [
  | inr short ↦ rw short refl
  | inl long ↦
      let room : 12 ≤ length xs = rw long at h in
      rw
        (
          long,
          drop-append_le 4 xs ys (omega arith),
          take-append_le 8 (drop 4 xs) ys (omega (arith, length-drop 4 xs)),
        )
        refl
]

module _ (max_size : ℕ) (r : FrameReader) where
  take_frame-few : length r.buf - r.start < 4 → take_frame max_size r ≡ (waiting, r)
  unfolding take_frame
  take_frame-few h = let few : ltb (length r.buf - r.start) 4 ≡ true = ground arith in rw few refl

  take_frame-short_header :
      (len size : ℕ)
      → 4 ≤ length r.buf - r.start
      → from_be 0 (take 4 (pending r)) ≡ len
      → (if len == minus_one then 12 else 4) ≡ size
      → length r.buf - r.start < size
      → take_frame max_size r ≡ (waiting, r)
  unfolding take_frame
  take_frame-short_header len size four is_len is_size few =
      let enough : ltb (length r.buf - r.start) 4 ≡ false = ground arith in
      let short : ltb (length r.buf - r.start) size ≡ true = ground arith in
      rw (enough, is_len, is_size, short) refl

  take_data-short :
      (available size n : ℕ)
      → n ≤ max_size
      → available < size + n
      → take_data r max_size available size n ≡ (waiting, r)
  unfolding take_data
  take_data-short available size n small few = ground arith

  -- Part of a frame waits for the rest, and nothing of it is lost.
  pub take_frame_partial :
      (bytes more rest : Bytes)
      → pending r ++ more ≡ write_frame bytes ++ rest
      → length (pending r) < length (write_frame bytes)
      → length bytes ≤ max_size
      → max_size < 2 ^ 64
      → take_frame max_size r ≡ (waiting, r)
  take_frame_partial bytes more rest e part small bound =
      let h = Header-of bytes rest (omega arith) in
      let whole : pending r ++ more ≡ h.head ++ (bytes ++ rest) = e ∙ h.parts in
      let available = length-pending r in
      let sizes : length (write_frame bytes) + length rest
          ≡ length h.head + length bytes + length rest =
        sym (length-append (write_frame bytes) rest)
        ∙ ap length h.parts
        ∙ length-append h.head (bytes ++ rest)
        ∙ omega (arith, length-append bytes rest) in
      elim (Bool-cases (ltb (length r.buf - r.start) 4)) [
        | inl few ↦ take_frame-few (ground arith)
        | inr four ↦
            let is_len : from_be 0 (take 4 (pending r)) ≡ h.len =
              ap (from_be 0) (
                sym (take-append_le 4 (pending r) more (ground (arith, available)))
                ∙ ap (take 4) whole)
              ∙ h.is_len in
            elim (Bool-cases (ltb (length r.buf - r.start) (length h.head))) [
              | inl short ↦
                  take_frame-short_header h.len (length h.head) (ground arith) is_len h.is_size
                    (ground arith)
              | inr long ↦
                  let is_n : data_len h.len (pending r) ≡ some (length bytes) =
                    sym (
                      data_len-append h.len (pending r) more
                        (rw h.is_size (ground (arith, available))))
                    ∙ ap (data_len h.len) whole
                    ∙ h.is_n in
                  take_frame_by max_size r h.len (length h.head) (length bytes) (ground arith)
                    is_len h.is_size (ground arith) is_n
                  ∙ take_data-short (length r.buf - r.start) (length h.head) (length bytes) small
                      (omega (arith, available, sizes))
            ]
      ]
