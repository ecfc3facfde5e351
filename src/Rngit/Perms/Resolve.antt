-- ===== src/Rngit/Perms/Resolve.antt =====
-- What a permission query answers: how repository lists and group lists combine.
use reticulum_router.Prelude.{
  is_empty, any-append, any, ◌≡◌, refl, ◌⊎◌, inl, inr, Bool, true, false, not, ◌||◌, List, [], ◌∷◌,
  arith, if◌then◌else◌, Bool-cases,
}
use reticulum_router.Text.{Bytes, text_eq}
use reticulum_router.Rngit.Perms.{
  Target, nobody, everyone, identity, is_none, is_all, Perm, AccessLists, list_for, target_eq, push,
  add_entry, is_identity, contains_identity, resolve_permission, resolve_group_permission,
}
use reticulum_router.Rngit.Perms.Build.{holds-push}
use reticulum_router.Text.Laws.{text_eq_comm}

any_of_is_empty {ℓ} : {A : Type ℓ} (p : A → Bool) (l : List A) → is_empty l ≡ true → any p l ≡ false
unfolding any
any_of_is_empty p [] h = refl
any_of_is_empty p (x ∷ l) h = cc

-- The repository's answer is its own lists' answer when the permission's list has an entry. When
-- that list is empty the repository's admins are allowed and the group's lists decide for all others.
pub resolve_permission-eq-group :
    (repo group : AccessLists) (hash : Bytes) (perm : Perm)
    → resolve_permission repo group hash perm ≡ (
        if is_empty (list_for repo perm)
        then contains_identity repo.admin hash || resolve_group_permission group hash perm
        else resolve_group_permission repo hash perm)
unfolding resolve_permission resolve_group_permission contains_identity
resolve_permission-eq-group repo group hash perm = ground (
  arith,
  any_of_is_empty is_none (list_for repo perm),
  any_of_is_empty is_all (list_for repo perm),
  any_of_is_empty (is_identity hash) (list_for repo perm),
)

-- A `nobody` entry refuses the permission to every identity, the admins too; on an empty
-- repository list a `nobody` entry of the group refuses it to all but the repository's admins.
pub resolve_permission_nobody :
    (repo group : AccessLists) (hash : Bytes) (perm : Perm)
    → (any is_none (list_for repo perm) ≡ true → resolve_permission repo group hash perm ≡ false)
      × (is_empty (list_for repo perm) ≡ true
          → any is_none (list_for group perm) ≡ true
          → resolve_permission repo group hash perm ≡ contains_identity repo.admin hash)
unfolding resolve_permission resolve_group_permission
resolve_permission_nobody repo group hash perm =
    (λ h. ground arith, λ h k. rw (resolve_permission-eq-group repo group hash perm) (ground arith))

holds-identity :
    (g : Bytes) (l : List Target) → any (target_eq (identity g)) l ≡ contains_identity l g
unfolding any contains_identity target_eq
holds-identity g [] = refl
holds-identity g (nobody ∷ l) = holds-identity g l
holds-identity g (everyone ∷ l) = holds-identity g l
holds-identity g (identity h ∷ l) = ground (arith, holds-identity g l, text_eq_comm g h)

none_of_push_identity :
    (g : Bytes) (l : List Target) → any is_none (push l (identity g)) ≡ any is_none l
unfolding push is_none any
none_of_push_identity g l = elim (Bool-cases (any (target_eq (identity g)) l)) [
  | inl e ↦ rw e
  | inr e ↦ rw (e, any-append is_none l (identity g ∷ [])) (ground arith)
]

all_of_push_identity :
    (g : Bytes) (l : List Target) → any is_all (push l (identity g)) ≡ any is_all l
unfolding push is_all any
all_of_push_identity g l = elim (Bool-cases (any (target_eq (identity g)) l)) [
  | inl e ↦ rw e
  | inr e ↦ rw (e, any-append is_all l (identity g ∷ [])) (ground arith)
]

contains_identity-push :
    (g h : Bytes) (l : List Target)
    → contains_identity (push l (identity g)) h ≡ (contains_identity l h || text_eq g h)
contains_identity-push g h l =
    rw
      (
        ← holds-identity h (push l (identity g)),
        holds-push (identity h) (identity g) l,
        holds-identity h l,
      )
      (unfold target_eq in rw (text_eq_comm h g))

push-not-empty : (l : List Target) (t : Target) → is_empty (push l t) ≡ false
unfolding push any
push-not-empty [] t = refl
push-not-empty (x ∷ l) t = ground arith

module _ (g h : Bytes) where
  -- The answer on lists where `l'` is `l` with `g` added, and the admins grew by at most `g`.
  answer-push :
      (l admins admins' : List Target) (rest : Bool)
      → (contains_identity admins' h ≡ contains_identity admins h)
        ⊎ (contains_identity admins' h ≡ (contains_identity admins h || text_eq g h))
      → (if any is_none (push l (identity g))
          then false
          else if any is_all (push l (identity g))
          then true
          else if contains_identity (push l (identity g)) h
          then true
          else if contains_identity admins' h
          then true
          else if not (is_empty (push l (identity g)))
          then false
          else rest)
        ≡ (if any is_none l
            then false
            else text_eq g h || contains_identity admins h || any is_all l || contains_identity l h)
  answer-push l admins admins' rest a = ground (
    arith,
    none_of_push_identity g l,
    all_of_push_identity g l,
    contains_identity-push g h l,
    push-not-empty l (identity g),
  )

abbrev rest_of : AccessLists → Bytes → Perm → Bool
rest_of group hash perm =
    if any is_none (list_for group perm)
    then false
    else if any is_all (list_for group perm)
    then true
    else if contains_identity (list_for group perm) hash
    then true
    else if contains_identity group.admin hash
    then true
    else false

-- Adding an identity to a repository list (the entry `perm:g`): a `nobody` on the list still
-- refuses everyone; otherwise `g`, the repository's admins and those whom the list itself named or
-- opened to all are allowed, and nobody else, so the group's lists no longer count.
pub resolve_permission-add_entry :
    (repo group : AccessLists) (g h : Bytes) (perm : Perm)
    → resolve_permission (add_entry perm (identity g) repo) group h perm ≡ (
        if any is_none (list_for repo perm)
        then false
        else text_eq g h
          || contains_identity repo.admin h
          || any is_all (list_for repo perm)
          || contains_identity (list_for repo perm) h)
unfolding resolve_permission add_entry list_for
resolve_permission-add_entry repo group g h Perm.admin =
    answer-push g h repo.admin repo.admin (push repo.admin (identity g))
      (rest_of group h Perm.admin) (inr (contains_identity-push g h repo.admin))
resolve_permission-add_entry repo group g h Perm.read =
    answer-push g h repo.read repo.admin repo.admin (rest_of group h Perm.read) (inl refl)
resolve_permission-add_entry repo group g h Perm.read_write =
    answer-push g h repo.read repo.admin repo.admin (rest_of group h Perm.read_write) (inl refl)
resolve_permission-add_entry repo group g h p =
    answer-push g h (list_for repo p) repo.admin repo.admin (rest_of group h p) (inl refl)
