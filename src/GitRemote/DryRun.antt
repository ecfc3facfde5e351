-- ===== src/GitRemote/DryRun.antt =====
-- Pushes that git only pretends, and the reading of push specs.
use reticulum_router.Prelude.{
  ◌≡◌, refl, ap, ◌∙◌, sym, Bool, true, false, not, ◌&&◌, none, some, List, [], ◌∷◌, ◌++◌, map,
  concat, All, arith,
}
use mathlib.Core.List.{append_assoc, append-nil}
use reticulum_router.Text.{Text, codes, text_eq, contains_char, starts_with, split_once}
use reticulum_router.Text.Split.{split_once-append}
use reticulum_router.Rngit.Listing.{strip_prefix}
use reticulum_router.GitRemote.Parse.{done, parse_push_spec, spec_of}
use reticulum_router.GitRemote.State.{Env, State}
use reticulum_router.GitRemote.Push.{do_push, push_one, push_all, do_push_batch}
use reticulum_router.GitRemote.Loop.{handle_option}

-- A push as git writes it.
abbrev pub Spec : Type 0
Spec = Bool × Text × Text

unfoldable pub spec_text : Spec → Text
spec_text (true, src, dst) = codes "+" ++ (src ++ b':' ∷ dst)
spec_text (false, src, dst) = src ++ b':' ∷ dst

-- The source has no colon, and where the push is not forced no plus sign before it.
abbrev pub IsSpec : Spec → Type 0
IsSpec (force, src, dst) =
    (contains_char b':' src ≡ false) × ((starts_with (codes "+") src && not force) ≡ false)

strip_prefix-plain :
    (src rest : Text)
    → starts_with (codes "+") src ≡ false
    → strip_prefix (codes "+") (src ++ b':' ∷ rest) ≡ none
unfolding strip_prefix starts_with
strip_prefix-plain [] rest h = refl
strip_prefix-plain (c ∷ src) rest h = ground (arith, h)

spec_of-parts :
    (force : Bool) (src dst : Text)
    → contains_char b':' src ≡ false
    → spec_of force (src ++ b':' ∷ dst) ≡ done (force, src, dst)
spec_of-parts force src dst a = rw (spec_of, split_once-append b':' src dst a) refl

-- A push's text is read back as its three parts.
pub parse_push_spec-spec_text : (p : Spec) → IsSpec p → parse_push_spec (spec_text p) ≡ done p
unfolding parse_push_spec spec_text strip_prefix
parse_push_spec-spec_text (true, src, dst) (a, b) = spec_of-parts true src dst a
parse_push_spec-spec_text (false, src, dst) (a, b) =
    rw (parse_push_spec, strip_prefix-plain src dst (ground (arith, b)), parse_push_spec)
      (spec_of-parts false src dst a)

module _ (env : Env) where
  abbrev pub ok_line : Spec → Text
  ok_line (force, src, dst) = codes "ok " ++ dst ++ 10 ∷ []

  -- What is written does not reach the server.
  pub record IsDry (s : State env) : Type 0 where
    pub dry : s.helper.dry_run ≡ true
    pub inside : (dir : Text) × (env.git_dir ≡ some dir)

  do_push-dry :
      (s : State env) (force : Bool) (src dst : Text)
      → IsDry s
      → do_push env force src dst s ≡ (done tt, s)
  unfolding do_push
  do_push-dry s force src dst d = rw (d.inside.1, d.dry, do_push) (ground arith)

  push_one-dry :
      (s : State env) (p : Spec)
      → IsDry s
      → IsSpec p
      → push_one env (spec_text p) s ≡ (done tt, record s { out = s.out ++ ok_line p })
  unfolding push_one
  push_one-dry s p d h =
      rw (parse_push_spec-spec_text p h, do_push-dry s p.0 p.1 p.2 d, push_one) refl

  push_all-dry :
      (batch : List Spec) (s : State env)
      → IsDry s
      → All IsSpec batch
      → push_all env (map spec_text batch) s
        ≡ (done tt, record s { out = s.out ++ concat (map ok_line batch) })
  unfolding push_all
  push_all-dry [] s d h = ap (λ t. (done tt, record s { out = t })) (sym (append-nil s.out))
  push_all-dry (p ∷ batch) s d (h, hs) =
      let s' : State env = record s { out = s.out ++ ok_line p } in
      rw (push_one-dry s p d h, push_all)
        (push_all-dry batch s' (record { dry = d.dry; inside = d.inside }) hs
          ∙ ap (λ t. (done tt, record s { out = t }))
              (append_assoc s.out (ok_line p) (concat (map ok_line batch))))

  -- After the option for a dry run, a batch of pushes changes neither the server nor the repository:
  -- the world and the helper stay as they are, and git is told that each push went well.
  pub do_push_batch-dry :
      (batch : List Spec) (s : State env)
      → ((dir : Text) × (env.git_dir ≡ some dir))
      → All IsSpec batch
      → (let s' = (handle_option env (codes "dry-run true") s).1 in
          do_push_batch env (map spec_text batch) s'
          ≡ (done tt, record s' { out = s'.out ++ concat (map ok_line batch) ++ 10 ∷ [] }))
        × ((handle_option env (codes "dry-run true") s).1.world ≡ s.world)
  unfolding do_push_batch handle_option text_eq split_once
  do_push_batch-dry batch s inside h =
      let s' = (handle_option env (codes "dry-run true") s).1 in
      (
        rw (push_all-dry batch s' (record { dry = refl; inside = inside }) h, do_push_batch) refl,
        refl,
      )
