-- ===== src/Rngit/Perms/Creator.antt =====
-- The `.allowed` text that `create_repository` writes for the creator of a repository.
use reticulum_router.Prelude.{
  length, any-append, any, all, ℕ, ◌<◌, ◌≡◌, refl, ◌∙◌, Bool, true, false, not, none, some, List,
  [], ◌∷◌, ◌++◌, arith, ltb, ◌==◌,
}
use reticulum_router.Text.{
  Text, Bytes, codes, text_eq, is_whitespace, lower, to_lowercase, starts_with, contains_char, len,
  split_once, lines, lookup,
}
use reticulum_router.Rngit.Perms.{
  identity, Perm, AccessLists, default, perm_of, push, add_entry, decode_identity_hash,
  parse_target, parse_permission, add_line, add_lines, permissions_from_allowed_input,
}
use reticulum_router.Text.Laws.{text_eq-ne_length, length-to_lowercase, len_of_ascii}
use reticulum_router.Hex.{HexCodec, IsBytes, is_lower_hexdigit}
use reticulum_router.Text.Trim.{no_space, trim_of_no_space}
use reticulum_router.Text.Split.{split_once-append, lines_line}

-- What holds of every lowercase digit holds of every character of a text of such digits.
all_digits :
    (p : ℕ → Bool) (s : Text)
    → ((c : ℕ) → is_lower_hexdigit c ≡ true → p c ≡ true)
    → all is_lower_hexdigit s ≡ true
    → all p s ≡ true
unfolding all
all_digits p [] h k = refl
all_digits p (c ∷ s) h k = ground (arith, h c, all_digits p s h)

digit_no_space : (c : ℕ) → is_lower_hexdigit c ≡ true → not (is_whitespace c) ≡ true
unfolding is_whitespace
digit_no_space c h = ground arith

digit_ascii : (c : ℕ) → is_lower_hexdigit c ≡ true → ltb c 128 ≡ true
digit_ascii c h = ground arith

absent_digit :
    (d : ℕ) (s : Text)
    → is_lower_hexdigit d ≡ false
    → all is_lower_hexdigit s ≡ true
    → contains_char d s ≡ false
unfolding all contains_char any
absent_digit d [] h k = refl
absent_digit d (c ∷ s) h k = ground (arith, absent_digit d s h)

absent_append :
    (d : ℕ) (s t : Text)
    → contains_char d s ≡ false
    → contains_char d t ≡ false
    → contains_char d (s ++ t) ≡ false
unfolding contains_char
absent_append d s t h k = rw (any-append (λ c. c == d) s t, h, k)

-- `format!("adm:{creator_hash}\n")` of `create_repository`.
unfoldable pub creator_entry : Text → Text
creator_entry creator_hash = codes "adm:" ++ creator_hash ++ 10 ∷ []

abbrev pub admin_only : Bytes → AccessLists
admin_only h = record default { admin = identity h ∷ [] }

adm_keyword : perm_of (to_lowercase (codes "adm")) ≡ some Perm.admin
unfolding perm_of to_lowercase lower text_eq
adm_keyword = refl

module _ (hex : HexCodec) (h : Bytes) (aliases : List (Text × Text)) (is_bytes : IsBytes h)
    (hash_size : length h ≡ 16) (no_alias : lookup (hex.encode h) aliases ≡ none) where
  digits : all is_lower_hexdigit (hex.encode h) ≡ true
  digits = hex.encode_digits h

  thirty_two : length (hex.encode h) ≡ 32
  thirty_two = omega (arith, hex.length-encode h)

  encode_no_space : no_space (hex.encode h) ≡ true
  encode_no_space = all_digits (λ c. not (is_whitespace c)) (hex.encode h) digit_no_space digits

  len-encode : len (hex.encode h) ≡ 32
  len-encode =
      len_of_ascii (hex.encode h) (all_digits (λ c. ltb c 128) (hex.encode h) digit_ascii digits)
      ∙ thirty_two

  not_keyword : (k : Text) → length k < 32 → text_eq (to_lowercase (hex.encode h)) k ≡ false
  not_keyword k short =
      text_eq-ne_length _ k (omega (arith, length-to_lowercase (hex.encode h), thirty_two))

  decode_identity_hash-encode : decode_identity_hash hex (hex.encode h) ≡ some h
  unfolding decode_identity_hash
  decode_identity_hash-encode =
      rw (trim_of_no_space (hex.encode h) encode_no_space, len-encode)
        (hex.decode-encode h is_bytes)

  pub parse_target-encode : parse_target hex (hex.encode h) aliases ≡ some (identity h)
  unfolding parse_target
  parse_target-encode = rw (
    trim_of_no_space (hex.encode h) encode_no_space,
    not_keyword (codes "n") (omega arith),
    not_keyword (codes "none") (omega arith),
    not_keyword (codes "nobody") (omega arith),
    not_keyword (codes "a") (omega arith),
    not_keyword (codes "all") (omega arith),
    not_keyword (codes "everyone") (omega arith),
    no_alias,
    trim_of_no_space (hex.encode h) encode_no_space,
    decode_identity_hash-encode,
  )

  entry : Text
  entry = codes "adm:" ++ hex.encode h

  entry-no_space : no_space entry ≡ true
  unfolding entry all is_whitespace
  entry-no_space = encode_no_space

  split_entry : split_once b':' entry ≡ some (codes "adm", hex.encode h)
  unfolding entry contains_char any
  split_entry = split_once-append b':' (codes "adm") (hex.encode h) refl

  parse_permission-entry : parse_permission hex entry aliases ≡ some (Perm.admin, identity h)
  unfolding parse_permission
  parse_permission-entry =
      rw (trim_of_no_space entry entry-no_space, split_entry, adm_keyword, parse_target-encode)

  lines-creator_entry : lines (creator_entry (hex.encode h)) ≡ entry ∷ []
  unfolding creator_entry entry contains_char any
  lines-creator_entry =
      lines_line (codes "adm:" ++ hex.encode h)
        (absent_append 10 (codes "adm:") (hex.encode h) refl
          (absent_digit 10 (hex.encode h) refl digits))
        (absent_append 13 (codes "adm:") (hex.encode h) refl
          (absent_digit 13 (hex.encode h) refl digits))
        (λ e. cc)

  parse_permission_computed :
      parse_permission hex (codes "adm:" ++ hex.encode h) aliases ≡ some (Perm.admin, identity h)
  unfolding entry
  parse_permission_computed = parse_permission-entry

  -- Reading back the text that `create_repository` writes for a creator gives exactly the lists with
  -- the creator as the only admin, unless an alias is spelled like the creator's hash.
  pub permissions-creator_entry :
      permissions_from_allowed_input hex (creator_entry (hex.encode h)) aliases ≡ admin_only h
  unfolding permissions_from_allowed_input add_lines add_line
  permissions-creator_entry =
      rw (lines-creator_entry, trim_of_no_space entry entry-no_space)
        (unfold entry starts_with in
          rw parse_permission_computed (unfold add_entry push any in refl))
