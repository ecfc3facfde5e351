-- ===== src/Rnguard/Frame.antt =====
-- src/bin/rnguard.rs: the length-prefixed frames of the RPC stream, and the buffered reader of them.
pub mod Header
pub mod Take
pub mod Stream
use reticulum_router.Prelude.{
  length, take, drop, is_empty, All, length-append, take-append_self, drop-append_self, length-drop,
  length-take, any-append, all-append, all-reverse, length-map, any, all, ℕ, zero, suc, ◌+◌, ◌-◌,
  ◌*◌, ◌/◌, ◌%◌, ◌^◌, ◌≤◌, ◌<◌, String, ◌≡◌, refl, sym, ap, ◌∙◌, subst, ◌≢◌, ◌↔◌, ◌⊎◌, inl, inr,
  Bool, true, false, not, ◌&&◌, ◌||◌, Option, none, some, List, [], ◌∷◌, ◌++◌, map, reverse, filter,
  arith, ltb, leb, ◌==◌, if◌then◌else◌, ==_iff, ==_refl, Bool-cases, Option-cases, and_true_left,
  and_true_right,
}
use reticulum_router.Text.{Bytes}

-- The value of big-endian bytes.
unfoldable pub from_be : ℕ → Bytes → ℕ
from_be acc [] = acc
from_be acc (b ∷ bs) = from_be (acc * 256 + b) bs

abbrev pub be32 : ℕ → Bytes
be32 n = n / 16777216 % 256 ∷ n / 65536 % 256 ∷ n / 256 % 256 ∷ n % 256 ∷ []

abbrev pub be64 : ℕ → Bytes
be64 n = be32 (n / 4294967296) ++ be32 n

abbrev pub i32_max : ℕ
i32_max = 0x7FFFFFFF

-- The pattern of the 32-bit -1.
abbrev pub minus_one : ℕ
minus_one = 0xFFFFFFFF

-- What `write_frame` sends: the header and the data.
unfoldable pub frame_header : ℕ → Bytes
frame_header len = if leb len i32_max then be32 len else be32 minus_one ++ be64 len

unfoldable pub write_frame : Bytes → Bytes
write_frame bytes = frame_header (length bytes) ++ bytes

pub record FrameReader : Type 0 where
  pub buf : Bytes
  pub start : ℕ

abbrev pub new : FrameReader
new = record { buf = []; start = 0 }

-- The bytes that are read and not yet consumed.
abbrev pub pending : FrameReader → Bytes
pending r = drop r.start r.buf

pub data Taken : Type 0 where
  waiting invalid too_large : Taken
  frame : Bytes → Taken

-- The length of the data, or `none` where the header is invalid.
unfoldable pub data_len : ℕ → Bytes → Option ℕ
data_len len bytes =
    if len == minus_one
    then some (from_be 0 (take 8 (drop 4 bytes)))
    else if ltb i32_max len
    then none
    else some len

-- A reader that has consumed up to a position: an empty rest is dropped, and a long consumed part.
unfoldable pub consumed : FrameReader → ℕ → FrameReader
consumed r start =
    if ltb 0 start && start == length r.buf
    then record { buf = []; start = 0 }
    else if ltb (64 * 1024) start
    then record { buf = drop start r.buf; start = 0 }
    else record r { start = start }

unfoldable pub take_data : FrameReader → ℕ → ℕ → ℕ → ℕ → Taken × FrameReader
take_data r max_size available header_len len =
    if ltb max_size len
    then (too_large, r)
    else if ltb available (header_len + len)
    then (waiting, r)
    else let from = r.start + header_len in
      (frame (take len (drop from r.buf)), consumed r (from + len))

unfoldable pub take_frame : ℕ → FrameReader → Taken × FrameReader
take_frame max_size r =
    let available = length r.buf - r.start in
    if ltb available 4
    then (waiting, r)
    else let len = from_be 0 (take 4 (pending r)) in
      let header_len = if len == minus_one then 12 else 4 in
      if ltb available header_len then (waiting, r) else elim (data_len len (pending r)) [
        | none ↦ (invalid, r)
        | some n ↦ take_data r max_size available header_len n
      ]

-- What a read of the socket gives.
pub data Read : Type 0 where
  closed timed_out failed : Read
  chunk : Bytes → Read

unfoldable pub compact : FrameReader → FrameReader
compact r = if ltb 0 r.start then record { buf = drop r.start r.buf; start = 0 } else r

-- `Some(true)` for bytes read, `Some(false)` for a time-out with an empty buffer, `None` for an
-- error, which ends the subscription.
unfoldable pub fill : Read → FrameReader → Option Bool × FrameReader
fill closed r = (none, compact r)
fill (chunk bytes) r = (some true, record (compact r) { buf = (compact r).buf ++ bytes })
fill timed_out r = (if is_empty (compact r).buf then some false else none, compact r)
fill failed r = (none, compact r)

-- `next_frame` on the reads that the socket gives: a frame, a time-out (`waiting`) or an error, with
-- the reads that are left; `none` where the reads are used up.
pub data Next : Type 0 where
  got : Bytes → Next
  idle broken : Next

abbrev pub NextResult : Type 0
NextResult = Option (Next × List Read × FrameReader)

-- The end of a round of the loop: a frame or an error, or the read that follows.
abbrev pub on_taken : Taken × FrameReader → List Read → (FrameReader → NextResult) → NextResult
on_taken (waiting, r) events go = go r
on_taken (invalid, r) events go = some (broken, events, r)
on_taken (too_large, r) events go = some (broken, events, r)
on_taken (frame f, r) events go = some (got f, events, r)

abbrev pub on_filled :
    Option Bool × FrameReader → List Read → (FrameReader → NextResult) → NextResult
on_filled (none, r) events go = some (broken, events, r)
on_filled (some false, r) events go = some (idle, events, r)
on_filled (some true, r) events go = go r

unfoldable pub next_frame : ℕ → List Read → FrameReader → NextResult
next_frame max_size [] r = on_taken (take_frame max_size r) [] (λ r'. none)
next_frame max_size (event ∷ events) r =
    on_taken (take_frame max_size r) (event ∷ events)
      (λ r'. on_filled (fill event r') events (next_frame max_size events))
