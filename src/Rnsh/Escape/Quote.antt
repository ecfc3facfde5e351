-- ===== src/Rnsh/Escape/Quote.antt =====
-- Any text can be sent, by doubling the escape character where it begins a line.
use reticulum_router.Prelude.{
  ℕ, ◌≡◌, refl, ap, ◌∙◌, inl, inr, Bool, true, false, ◌&&◌, none, some, [], ◌∷◌, ◌==◌,
  if◌then◌else◌, arith, Bool-cases, and_true_right,
}
use reticulum_router.Text.{Bytes}
use reticulum_router.Rnsh.Escape.{
  EscapeHandler, is_newline, process_byte, process_bytes, push_front,
}

-- The text with the escape character doubled at the start of each line; the flag says whether the
-- text begins one.
unfoldable pub quote : Bool → Bytes → Bytes
quote start [] = []
quote start (c ∷ s) =
    let after = quote false s in
    let below = quote true s in
    if is_newline c then c ∷ below else if start && c == b'~' then c ∷ c ∷ after else c ∷ after

-- Not in an escape sequence and not in line mode.
pub record IsPlain (h : EscapeHandler) : Type 0 where
  pub idle : h.esc_active ≡ false
  pub direct : h.line_mode ≡ false

process_bytes-cons :
    (h h' : EscapeHandler) (c : ℕ) (out s : Bytes)
    → process_byte h c ≡ (none, out, h')
    → process_bytes h (c ∷ s) ≡ push_front out (process_bytes h' s)
unfolding process_bytes
process_bytes-cons h h' c out s e = rw (e, process_bytes) refl

step_newline :
    (h : EscapeHandler) (c : ℕ)
    → is_newline c ≡ true
    → process_byte h c
      ≡ (none, c ∷ [], record h { pre_newline = true; line_buffer = []; blind_write_count = 0 })
unfolding process_byte
step_newline h c n = rw (n, process_byte) refl

step_tilde :
    (h : EscapeHandler) (c : ℕ)
    → is_newline c ≡ false
    → (h.pre_newline && c == b'~') ≡ true
    → process_byte h c ≡ (none, [], record h { pre_newline = false; esc_active = true })
unfolding process_byte
step_tilde h c n t = rw (n, t, process_byte) refl

step_escaped_tilde :
    (h : EscapeHandler) (c : ℕ)
    → (c == b'~') ≡ true
    → process_byte (record h { pre_newline = false; esc_active = true }) c
      ≡ (none, c ∷ [], record h { pre_newline = false; esc_active = false })
unfolding process_byte
step_escaped_tilde h c t = let same : c ≡ b'~' = ground arith in rw same refl

step_plain :
    (h : EscapeHandler) (c : ℕ)
    → IsPlain h
    → is_newline c ≡ false
    → (h.pre_newline && c == b'~') ≡ false
    → process_byte h c ≡ (none, c ∷ [], record h { pre_newline = false })
unfolding process_byte
step_plain h c p n t = simp (n, t, p.idle, p.direct)

-- Outside line mode, a text whose escape characters at the starts of lines are doubled is sent as it
-- was before the doubling, and the handler ends outside an escape sequence and outside line mode.
pub process_bytes-quote :
    (h : EscapeHandler) (s : Bytes)
    → IsPlain h
    → (h' : EscapeHandler) × (process_bytes h (quote h.pre_newline s) ≡ some (s, h')) × IsPlain h'
unfolding process_bytes quote
process_bytes-quote h [] p = (h, refl, p)
process_bytes-quote h (c ∷ s) p = elim (Bool-cases (is_newline c)) [
  | inl n ↦
      let h1 = record h { pre_newline = true; line_buffer = []; blind_write_count = 0 } in
      let (h', e, p') = process_bytes-quote h1 s (record { idle = p.idle; direct = p.direct }) in
      (
        h',
        rw (n, quote)
            (process_bytes-cons h h1 c (c ∷ []) (quote true s) (step_newline h c n)
              ∙ ap (push_front (c ∷ [])) e),
        p',
      )
  | inr n ↦
      let h1 = record h { pre_newline = false } in
      elim (Bool-cases (h.pre_newline && c == b'~')) [
        | inl t ↦
            let h2 = record h { pre_newline = false; esc_active = true } in
            let h3 = record h { pre_newline = false; esc_active = false } in
            let (h', e, p') =
              process_bytes-quote h3 s (record { idle = refl; direct = p.direct }) in
            (
              h',
              rw (n, t, quote)
                  (process_bytes-cons h h2 c [] (c ∷ quote false s) (step_tilde h c n t)
                    ∙ ap (push_front []) (
                        process_bytes-cons h2 h3 c (c ∷ []) (quote false s)
                          (step_escaped_tilde h c (and_true_right h.pre_newline (c == b'~') t))
                        ∙ ap (push_front (c ∷ [])) e)),
              p',
            )
        | inr t ↦
            let (h', e, p') =
              process_bytes-quote h1 s (record { idle = p.idle; direct = p.direct }) in
            (
              h',
              rw (n, t, quote)
                  (process_bytes-cons h h1 c (c ∷ []) (quote false s) (step_plain h c p n t)
                    ∙ ap (push_front (c ∷ [])) e),
              p',
            )
      ]
]
