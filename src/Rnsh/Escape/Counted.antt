-- ===== src/Rnsh/Escape/Counted.antt =====
-- What the handler counts in line mode, and an escape that outlives its line.
use reticulum_router.Prelude.{ℕ, ◌-◌, ◌≡◌, true, none, [], ◌∷◌, arith, length, length-append}
use reticulum_router.Text.{Bytes}
use reticulum_router.Rnsh.Escape.{EscapeHandler, is_newline, process_byte, process_bytes, pop}

abbrev pub IsCounted : EscapeHandler → Type 0
IsCounted h = h.blind_write_count ≡ length h.line_buffer

length-pop : (bs : Bytes) → length (pop bs) ≡ length bs - 1
unfolding pop
length-pop [] = omega arith
length-pop (b ∷ []) = omega arith
length-pop (b ∷ c ∷ bs) = omega (arith, length-pop (c ∷ bs))

-- The count of the bytes written ahead is the length of the line that is held, whatever is typed, so
-- the subtraction at an erased character never saturates.
pub process_byte-IsCounted :
    (h : EscapeHandler) (c : ℕ) → IsCounted h → IsCounted (process_byte h c).2
unfolding process_byte
process_byte-IsCounted h c e =
    ground (arith, length-pop h.line_buffer, length-append h.line_buffer (c ∷ []))

-- A newline does not end an escape sequence: after an escape character at the start of a line, a
-- newline and a full stop disconnect, and nothing that was typed in the read is sent.
pub newline_keeps_escape :
    (h : EscapeHandler) (newline : ℕ) (rest : Bytes)
    → h.pre_newline ≡ true
    → is_newline newline ≡ true
    → process_bytes h (b'~' ∷ newline ∷ b'.' ∷ rest) ≡ none
unfolding process_bytes process_byte
newline_keeps_escape h newline rest e n = ground (arith, e, n)
