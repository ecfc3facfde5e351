-- ===== src/Rnsh/Escape.antt =====
-- src/bin/rnsh.rs: the escape sequences of the initiator's terminal.
pub mod Quote
pub mod Counted
use reticulum_router.Prelude.{
  ℕ, zero, suc, ◌+◌, ◌-◌, Bool, true, false, not, ◌&&◌, ◌||◌, Option, none, some, List, [], ◌∷◌,
  ◌++◌, length, is_empty, any, ◌==◌, if◌then◌else◌,
}
use reticulum_router.Text.{Bytes, codes}

pub data EscapeAction : Type 0 where
  disconnect help line_mode_enabled line_mode_disabled : EscapeAction

pub record EscapeHandler : Type 0 where
  pub pre_newline : Bool
  pub esc_active : Bool
  pub line_mode : Bool
  pub line_buffer : Bytes
  pub blind_write_count : ℕ

abbrev pub default : EscapeHandler
default = record {
  pre_newline = false;
  esc_active = false;
  line_mode = false;
  line_buffer = [];
  blind_write_count = 0;
}

-- The action, the bytes that are added to the output, and the handler after.
abbrev pub Processed : Type 0
Processed = Option EscapeAction × Bytes × EscapeHandler

abbrev pub is_newline : ℕ → Bool
is_newline c = c == 13 || c == 10

abbrev pub is_erase : ℕ → Bool
is_erase c = c == 0x08 || c == 0x7f

-- The control characters that flush the line.
abbrev pub is_flush : ℕ → Bool
is_flush c =
    c == 0x01
    || c == 0x03
    || c == 0x04
    || c == 0x05
    || c == 0x0c
    || c == 0x11
    || c == 0x13
    || c == 0x15
    || c == 0x19
    || c == 9
    || c == 0x1a
    || c == 0x1b

-- `Vec::pop`
unfoldable pub pop : Bytes → Bytes
pop [] = []
pop (b ∷ []) = []
pop (b ∷ c ∷ bs) = b ∷ pop (c ∷ bs)

abbrev pub erasure : Bytes
erasure = 0x08 ∷ 32 ∷ 0x08 ∷ []

unfoldable pub erasures : ℕ → Bytes
erasures zero = []
erasures (suc n) = erasure ++ erasures n

abbrev pub flush_line : EscapeHandler → Bytes × EscapeHandler
flush_line h = if is_empty h.line_buffer then ([], h) else (
  h.line_buffer ++ erasures h.blind_write_count,
  record h { line_buffer = []; blind_write_count = 0 },
)

-- The byte after the escape character.
abbrev pub escape_byte : ℕ → EscapeHandler → Processed
escape_byte c h =
    if c == b'.'
    then (some disconnect, [], h)
    else if c == b'?'
    then (some help, [], h)
    else if c == b'L'
    then (
      some (if not h.line_mode then line_mode_enabled else line_mode_disabled),
      [],
      record h { line_mode = not h.line_mode },
    )
    else if c == b'~'
    then (none, b'~' ∷ [], h)
    else (none, b'~' ∷ c ∷ [], h)

abbrev pub erase_byte : EscapeHandler → Processed
erase_byte h = if is_empty h.line_buffer then (none, [], h) else (
  none,
  erasure,
  record h { line_buffer = pop h.line_buffer; blind_write_count = h.blind_write_count - 1 },
)

abbrev pub flush_byte : ℕ → EscapeHandler → Processed
flush_byte c h =
    let (out, h') = flush_line (record h { line_buffer = h.line_buffer ++ c ∷ [] }) in
    (none, out, h')

-- A byte in line mode.
abbrev pub line_byte : ℕ → EscapeHandler → Processed
line_byte c h = if is_erase c then erase_byte h else if is_flush c then flush_byte c h else (
  none,
  c ∷ [],
  record h { line_buffer = h.line_buffer ++ c ∷ []; blind_write_count = h.blind_write_count + 1 },
)

unfoldable pub process_byte : EscapeHandler → ℕ → Processed
process_byte h c =
    if is_newline c
    then (none, c ∷ [], record h { pre_newline = true; line_buffer = []; blind_write_count = 0 })
    else if h.pre_newline && c == b'~'
    then (none, [], record h { pre_newline = false; esc_active = true })
    else if h.esc_active
    then escape_byte c (record h { esc_active = false; pre_newline = false })
    else let h' = record h { pre_newline = false } in
      if h.line_mode then line_byte c h' else (none, c ∷ [], h')

abbrev pub is_disconnect : Option EscapeAction → Bool
is_disconnect (some disconnect) = true
is_disconnect _ = false

abbrev pub push_front : Bytes → Option (Bytes × EscapeHandler) → Option (Bytes × EscapeHandler)
push_front out none = none
push_front out (some (rest, h)) = some (out ++ rest, h)

abbrev pub carry :
    Processed → (EscapeHandler → Option (Bytes × EscapeHandler)) → Option (Bytes × EscapeHandler)
carry (action, out, h) rest = elim (is_disconnect action) [
  | true ↦ none
  | false ↦ push_front out (rest h)
]

-- The bytes of one read of the terminal: what is sent, or `none` where the user disconnects. The
-- messages of the other actions are printed on this side.
unfoldable pub process_bytes : EscapeHandler → Bytes → Option (Bytes × EscapeHandler)
process_bytes h [] = some ([], h)
process_bytes h (c ∷ bytes) = carry (process_byte h c) λ h'. process_bytes h' bytes
