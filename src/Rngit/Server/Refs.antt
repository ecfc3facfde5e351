-- ===== src/Rngit/Server/Refs.antt =====
-- Which refs and objects reach `git`.
use reticulum_router.Prelude.{
  all, ◌≤◌, ◌≡◌, refl, ap, ◌∙◌, ◌≢◌, inl, inr, true, false, not, ◌||◌, some, List, map, arith,
  Bool-cases, Option-cases,
}
use reticulum_router.Text.{Text, codes, text_eq, starts_with, len, is_ascii_hexdigit, split}
use reticulum_router.Path.{FilePath, normal, components}
use reticulum_router.Rngit.Gitutil.{san_ref, san_sha}
use reticulum_router.Rngit.Host.{Rngit}
use reticulum_router.Rngit.Access.{World}
use reticulum_router.Rngit.Git.{refs_prefix}
use reticulum_router.Rngit.Request.{is_none?, get_or_default, Value, get_str, data_str}
use reticulum_router.Rngit.Server.{push_operation, delete_in}
use mathlib.Core.Bool.{true≢false}
use reticulum_router.Rngit.Gitutil.Refs.{san_ref-components}

san_ref_same : (s : Text) {t : Text} → san_ref s ≡ some t → t ≡ s
unfolding san_ref
san_ref_same s h = ground arith

is_some-san_ref : (s : Text) → is_none? (san_ref s) ≡ false → san_ref s ≡ some s
is_some-san_ref s h = elim (Option-cases (san_ref s)) [
  | inl e ↦ absurd (true≢false (rw e at h))
  | inr (t, e) ↦ e ∙ ap some (san_ref_same s e)
]

is_some-san_sha :
    (s : Text) → is_none? (san_sha s) ≡ false → (40 ≤ len s) × (all is_ascii_hexdigit s ≡ true)
unfolding san_sha
is_some-san_sha s h = ground arith

-- A ref below `refs/` whose pieces are all ordinary names.
pub IsBelowRefs : Text → Type 0
IsBelowRefs r = (starts_with refs_prefix r ≡ true) × (components r ≡ map normal (split b'/' r))

below_refs :
    (r : Text) → (is_none? (san_ref r) || not (starts_with refs_prefix r)) ≡ false → IsBelowRefs r
unfolding IsBelowRefs
below_refs r h =
    let safe : is_none? (san_ref r) ≡ false = ground arith in
    let prefix : starts_with refs_prefix r ≡ true = ground arith in
    (prefix, (san_ref-components r (is_some-san_ref r safe) prefix).1)

module _ (self : Rngit) (repo_path : FilePath) (w : World self) where
  -- An operation of a push that changes anything names a ref below `refs/`, all of whose pieces are
  -- ordinary names, and an object by at least 40 hexadecimal digits.
  pub push_operation-ref :
      (op_map : List (Value self × Value self))
      → (push_operation self repo_path op_map w).1 ≢ w
      → (r : Text) × (s : Text) × (get_str self (codes "ref") op_map ≡ some r)
        × (get_str self (codes "sha") op_map ≡ some s)
        × IsBelowRefs r
        × (40 ≤ len s)
        × (all is_ascii_hexdigit s ≡ true)
  unfolding push_operation
  push_operation-ref op_map changed =
      elim (Bool-cases
        (text_eq (get_or_default (get_str self (codes "action") op_map)) (codes "update_ref"))) [
          | inr a ↦ absurd (changed (rw (a, push_operation) refl))
          | inl a ↦ elim (Option-cases (get_str self (codes "ref") op_map)) [
            | inl n ↦ absurd (changed (rw (a, n, push_operation) refl))
            | inr (r, e) ↦
                elim (Bool-cases (is_none? (san_ref r) || not (starts_with refs_prefix r))) [
                  | inl bad ↦ absurd (changed (rw (a, e, bad, push_operation) refl))
                  | inr good ↦ elim (Option-cases (get_str self (codes "sha") op_map)) [
                    | inl n ↦ absurd (changed (rw (a, e, good, n, push_operation) refl))
                    | inr (s, f) ↦ elim (Bool-cases (is_none? (san_sha s))) [
                      | inl bad ↦ absurd (changed (rw (a, e, good, f, bad, push_operation) refl))
                      | inr sha ↦ (
                        r,
                        s,
                        e,
                        f,
                        below_refs r good,
                        (is_some-san_sha s sha).0,
                        (is_some-san_sha s sha).1,
                      )
                    ]
                  ]
                ]
          ]
        ]

  -- A deletion that changes anything names a ref below `refs/`, all of whose pieces are ordinary.
  pub delete_in-ref :
      (request : Value self)
      → (delete_in self request repo_path w).1 ≢ w
      → (r : Text) × (data_str self (codes "ref") request ≡ some r) × IsBelowRefs r
  unfolding delete_in
  delete_in-ref request changed = elim (Option-cases (data_str self (codes "ref") request)) [
    | inl n ↦ absurd (changed (rw (n, delete_in) refl))
    | inr (r, e) ↦ elim (Bool-cases (is_none? (san_ref r) || not (starts_with refs_prefix r))) [
      | inl bad ↦ absurd (changed (rw (e, bad, delete_in) refl))
      | inr good ↦ (r, e, below_refs r good)
    ]
  ]
