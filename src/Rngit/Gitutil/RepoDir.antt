-- ===== src/Rngit/Gitutil/RepoDir.antt =====
-- The directory of a repository stays inside its group's directory.
use reticulum_router.Prelude.{
  ◌≡◌, refl, ap, ◌∙◌, inl, inr, true, false, none, some, List, [], ◌∷◌, ◌++◌, arith, if◌then◌else◌,
  Bool-cases,
}
use reticulum_router.Text.{Text, text_eq, split}
use reticulum_router.Path.{
  FilePath, Component, root_dir, cur_dir, parent_dir, normal, parts, relative, is_absolute,
  components, join, component_eq, is_prefix, path_starts_with, path_eq,
}
use reticulum_router.Text.Laws.{text_eq_refl}
use reticulum_router.Rngit.Gitutil.{is_single_normal, is_plain_component, repo_dir}
use reticulum_router.Path.Join.{components-join_parts}

single_normal-eq :
    (l : List Component) → is_single_normal l ≡ true → (c : Text) × (l ≡ normal c ∷ [])
unfolding is_single_normal
single_normal-eq (normal c ∷ []) h = (c, refl)
single_normal-eq (normal c ∷ d ∷ l) h = cc
single_normal-eq _ h = cc

plain-not-absolute : (r : Text) → is_plain_component r ≡ true → is_absolute r ≡ false
unfolding is_plain_component components is_single_normal
plain-not-absolute r h = ground arith

relative-eq-parts : (l : List Text) → is_single_normal (relative l) ≡ true → parts l ≡ relative l
unfolding relative is_single_normal
relative-eq-parts [] h = cc
relative-eq-parts (x ∷ l) h = ground arith

plain_parts : (r : Text) → is_plain_component r ≡ true → parts (split b'/' r) ≡ components r
plain_parts r h =
    let a = plain-not-absolute r h in
    unfold components in
    rw a (relative-eq-parts (split b'/' r) (unfold is_plain_component components in rw a at h))

-- The components of a plain name joined to a base are the base's and that name.
pub components-join :
    (base r : Text)
    → is_plain_component r ≡ true
    → components (join base r) ≡ components base ++ components r
components-join [] r h =
    unfold join in
    rw (plain-not-absolute r h) (unfold components relative parts split is_absolute text_eq in refl)
components-join (c ∷ base) r h =
    components-join_parts (c ∷ base) r (plain-not-absolute r h) refl
    ∙ ap (◌++◌ (components (c ∷ base))) (plain_parts r h)

component_eq_refl : (c : Component) → component_eq c c ≡ true
unfolding component_eq
component_eq_refl root_dir = refl
component_eq_refl cur_dir = refl
component_eq_refl parent_dir = refl
component_eq_refl (normal a) = text_eq_refl a

is_prefix-append : (k l : List Component) → is_prefix k (k ++ l) ≡ true
unfolding is_prefix
is_prefix-append [] l = refl
is_prefix-append (c ∷ k) l = ground (arith, component_eq_refl c, is_prefix-append k l)

not-is_prefix_longer : (k : List Component) (c : Component) → is_prefix (k ++ c ∷ []) k ≡ false
unfolding is_prefix
not-is_prefix_longer [] c = refl
not-is_prefix_longer (d ∷ k) c = ground (arith, component_eq_refl d, not-is_prefix_longer k c)

-- The containment check behind the name check never refuses: a repository's directory exists for
-- exactly the plain names, and is the group's directory joined with the name.
pub repo_dir_lem :
    (group_path : FilePath) (repo : Text)
    → repo_dir group_path repo
      ≡ (if is_plain_component repo then some (join group_path repo) else none)
unfolding repo_dir
repo_dir_lem g r = elim (Bool-cases (is_plain_component r)) [
  | inr n ↦ rw n
  | inl p ↦ rw p (
      unfold path_eq path_starts_with in
      let (c, single) = single_normal-eq (components r) (unfold is_plain_component in p) in
      rw
        (
          components-join g r p,
          single,
          is_prefix-append (components g) (normal c ∷ []),
          not-is_prefix_longer (components g) (normal c),
        )
        refl)
]

-- Whatever name a client sends, the directory chosen for it has exactly one component more than
-- the group's directory, below it, and that component is an ordinary name (not `..`, `.` or a root).
pub repo_dir_contained :
    (group_path : FilePath) (repo : Text) {dir : FilePath}
    → repo_dir group_path repo ≡ some dir
    → (name : Text) × (components dir ≡ components group_path ++ normal name ∷ [])
repo_dir_contained g r {dir} h = elim (Bool-cases (is_plain_component r)) [
  | inr n ↦ ground (arith, repo_dir_lem g r)
  | inl p ↦
      let (c, single) = single_normal-eq (components r) (unfold is_plain_component in p) in
      let e : join g r ≡ dir = ground (arith, repo_dir_lem g r) in
      (c, rw (← e, components-join g r p, single))
]
