-- ===== src/Rngit/Perms/Build.antt =====
-- Which targets an access list holds after an `.allowed` text is read.
use reticulum_router.Prelude.{
  is_empty, any-append, any, ◌≡◌, refl, ap, inl, inr, Bool, true, false, not, ◌&&◌, ◌||◌, none,
  some, List, [], ◌∷◌, arith, Bool-cases, Option-cases,
}
use reticulum_router.Text.{Text, codes, trim, starts_with, lines}
use reticulum_router.Rngit.Perms.{
  Target, nobody, everyone, identity, Perm, AccessLists, default, list_for, target_eq, push,
  add_entry, parse_permission, add_line, add_lines, permissions_from_allowed_input,
}
use reticulum_router.Text.Laws.{text_eq_refl, eq_of_text_eq}
use reticulum_router.Hex.{HexCodec}

eq_of_target_eq : (t u : Target) → target_eq t u ≡ true → t ≡ u
unfolding target_eq
eq_of_target_eq nobody nobody h = refl
eq_of_target_eq everyone everyone h = refl
eq_of_target_eq (identity g) (identity k) h = ap identity (eq_of_text_eq g k h)
eq_of_target_eq _ _ h = cc

target_eq_refl : (t : Target) → target_eq t t ≡ true
unfolding target_eq
target_eq_refl nobody = refl
target_eq_refl everyone = refl
target_eq_refl (identity g) = text_eq_refl g

-- `list.contains(&target)`
abbrev pub holds : Target → List Target → Bool
holds t = any (target_eq t)

pub holds-push :
    (t u : Target) (l : List Target) → holds t (push l u) ≡ (holds t l || target_eq t u)
unfolding push
holds-push t u l = elim (Bool-cases (holds u l)) [
  | inl old ↦ elim (Bool-cases (target_eq t u)) [
    | inl same ↦ rw (eq_of_target_eq t u same, old) old
    | inr other ↦ rw (old, other) (ground arith)
  ]
  | inr new ↦ rw (new, any-append (target_eq t) l (u ∷ [])) (unfold any in ground arith)
]

-- An entry for `q` goes on the list that answers `p`.
pub covers : Perm → Perm → Bool
covers Perm.read Perm.read = true
covers Perm.read Perm.read_write = true
covers Perm.write Perm.write = true
covers Perm.read_write Perm.read = true
covers Perm.read_write Perm.write = true
covers Perm.read_write Perm.read_write = true
covers Perm.create Perm.create = true
covers Perm.stats Perm.stats = true
covers Perm.release Perm.release = true
covers Perm.interact Perm.interact = true
covers Perm.propose Perm.propose = true
covers Perm.admin Perm.admin = true
covers _ _ = false

or_false : (a : Bool) → a ≡ (a || false)
or_false true = refl
or_false false = refl

pub holds-add_entry :
    (t u : Target) (q p : Perm) (lists : AccessLists)
    → holds t (list_for (add_entry q u lists) p)
      ≡ (holds t (list_for lists p) || covers q p && target_eq t u)
unfolding add_entry list_for covers
holds-add_entry t u Perm.read Perm.read l = holds-push t u l.read
holds-add_entry t u Perm.read Perm.read_write l = holds-push t u l.read
holds-add_entry t u Perm.write Perm.write l = holds-push t u l.write
holds-add_entry t u Perm.read_write Perm.read l = holds-push t u l.read
holds-add_entry t u Perm.read_write Perm.write l = holds-push t u l.write
holds-add_entry t u Perm.read_write Perm.read_write l = holds-push t u l.read
holds-add_entry t u Perm.create Perm.create l = holds-push t u l.create
holds-add_entry t u Perm.stats Perm.stats l = holds-push t u l.stats
holds-add_entry t u Perm.release Perm.release l = holds-push t u l.release
holds-add_entry t u Perm.interact Perm.interact l = holds-push t u l.interact
holds-add_entry t u Perm.propose Perm.propose l = holds-push t u l.propose
holds-add_entry t u Perm.admin Perm.admin l = holds-push t u l.admin
holds-add_entry t u q p l = or_false _

module _ (hex : HexCodec) (aliases : List (Text × Text)) where
  -- A line that is no comment and is a valid entry for the target, on the list that answers `p`.
  pub line_grants : Perm → Target → Text → Bool
  line_grants p t line =
      not (is_empty (trim line))
      && not (starts_with (codes "#") (trim line))
      && elim (parse_permission hex (trim line) aliases) [
        | none ↦ false
        | some (q, u) ↦ covers q p && target_eq t u
      ]

  holds-add_line :
      (p : Perm) (t : Target) (line : Text) (lists : AccessLists)
      → holds t (list_for (add_line hex aliases line lists) p)
        ≡ (holds t (list_for lists p) || line_grants p t line)
  unfolding add_line line_grants
  holds-add_line p t line lists = elim (Option-cases (parse_permission hex (trim line) aliases)) [
    | inl e ↦ ground arith
    | inr ((q, u), e) ↦ ground (arith, holds-add_entry t u q p lists)
  ]

  holds-add_lines :
      (p : Perm) (t : Target) (ls : List Text) (lists : AccessLists)
      → holds t (list_for (add_lines hex aliases ls lists) p)
        ≡ (holds t (list_for lists p) || any (line_grants p t) ls)
  unfolding add_lines any
  holds-add_lines p t [] lists = or_false _
  holds-add_lines p t (line ∷ ls) lists = ground (
    arith,
    holds-add_lines p t ls (add_line hex aliases line lists),
    holds-add_line p t line lists,
  )

  list_for-default : (p : Perm) → list_for default p ≡ []
  unfolding list_for
  list_for-default Perm.read = refl
  list_for-default _ = refl

  -- A target is on the list that answers a permission exactly when some line of the text that is
  -- neither blank nor a comment is a valid entry that names the target and covers the permission.
  pub holds-permissions_from_allowed_input :
      (p : Perm) (t : Target) (input : Text)
      → any (target_eq t) (list_for (permissions_from_allowed_input hex input aliases) p)
        ≡ any (line_grants p t) (lines input)
  unfolding permissions_from_allowed_input
  holds-permissions_from_allowed_input p t input =
      rw (holds-add_lines p t (lines input) default, list_for-default p) (unfold any in refl)
