-- ===== src/Rngit/Listing/Repos.antt =====
-- What the listing of repositories contains.
use reticulum_router.Prelude.{
  All, any, any-append, ◌≡◌, refl, ◌∙◌, ap, sym, ◌⊎◌, inl, inr, Bool, true, false, Option, none,
  some, List, [], ◌∷◌, ◌++◌, arith, Bool-cases, Option-cases,
}
use reticulum_router.Text.{Text, Bytes, codes, text_eq, sort, into_bytes, lookup}
use reticulum_router.Text.Sort.{IsSorted, sort-IsSorted, All-sort, any-sort}
use reticulum_router.Text.Laws.{text_eq_refl}
use reticulum_router.Path.{FilePath}
use reticulum_router.Rngit.Perms.{Perm}
use reticulum_router.Rngit.Host.{DirEntry, Rngit}
use reticulum_router.Rngit.Access.{World, resolve_perm}
use reticulum_router.Rngit.Request.{res_ok, not_found, is_none?, Value, data_str}
use mathlib.Core.Bool.{true≢false}
use reticulum_router.Rngit.Listing.{
  is_repository, readable_entries, is_other_group, readable_groups, nonempty, unknown_group,
  handle_repos, join_lines,
}

-- A line of the listing: the name of a repository that the peer may read, in a group that the
-- request does not filter out.
pub record IsReadable (self : Rngit) (w : World self) (peer : Bytes) (wanted : Option Text)
    (line : Text) : Type 0 where
  pub group : Text
  pub repo : Text
  pub named : line ≡ group ++ codes "/" ++ repo
  pub kept : is_other_group self wanted group ≡ false
  pub reads : resolve_perm self w peer group repo Perm.read ≡ true

All-append : {A : Type 0} (P : A → Type 0) (xs ys : List A) → All P xs → All P ys → All P (xs ++ ys)
All-append P [] ys h k = k
All-append P (x ∷ xs) ys (p, h) k = (p, All-append P xs ys h k)

module _ (self : Rngit) (w : World self) (peer : Bytes) (wanted : Option Text) where
  readable_entries-IsReadable :
      (group : Text) (entries : List DirEntry)
      → is_other_group self wanted group ≡ false
      → All (IsReadable self w peer wanted) (readable_entries self w peer group entries)
  unfolding readable_entries
  readable_entries-IsReadable group [] k = tt
  readable_entries-IsReadable group (entry ∷ entries) k =
      let rest = readable_entries-IsReadable group entries k in
      elim (Bool-cases (self.host.is_dir w entry.path)) [
        | inr d ↦ rw (d, readable_entries) rest
        | inl d ↦ elim (Option-cases entry.name) [
          | inl n ↦ rw (d, n, readable_entries) rest
          | inr (name, n) ↦ elim (Bool-cases (is_repository self.host w entry.path)) [
            | inr r ↦ rw (d, n, r, readable_entries) rest
            | inl r ↦ elim (Bool-cases (resolve_perm self w peer group name Perm.read)) [
              | inr p ↦ rw (d, n, r, p, readable_entries) rest
              | inl p ↦
                  rw (d, n, r, p, readable_entries)
                    (record { group = group; repo = name; named = refl; kept = k; reads = p }, rest)
            ]
          ]
        ]
      ]

  readable_groups-IsReadable :
      (groups : List (Text × FilePath))
      → All (IsReadable self w peer wanted) (readable_groups self w peer wanted groups)
  unfolding readable_groups
  readable_groups-IsReadable [] = tt
  readable_groups-IsReadable ((group, path) ∷ groups) =
      let rest = readable_groups-IsReadable groups in
      elim (Bool-cases (is_other_group self wanted group)) [
        | inl o ↦ rw (o, readable_groups) rest
        | inr o ↦ elim (Option-cases (self.host.read_dir w path)) [
          | inl e ↦ rw (o, e, readable_groups) rest
          | inr (entries, e) ↦
              rw (o, e, readable_groups)
                (All-append (IsReadable self w peer wanted)
                  (readable_entries self w peer group entries)
                  (readable_groups self w peer wanted groups)
                  (readable_entries-IsReadable group entries o) rest)
        ]
      ]

module _ (self : Rngit) (w : World self) (peer : Bytes) where
  readable_entries_more :
      (p : Text → Bool) (group : Text) (entry : DirEntry) (entries : List DirEntry)
      → any p (readable_entries self w peer group entries) ≡ true
      → any p (readable_entries self w peer group (entry ∷ entries)) ≡ true
  unfolding readable_entries any
  readable_entries_more p group entry entries h =
      elim (Bool-cases (self.host.is_dir w entry.path)) [
        | inr d ↦ rw (d, readable_entries) h
        | inl d ↦ elim (Option-cases entry.name) [
          | inl n ↦ rw (d, n, readable_entries) h
          | inr (name, n) ↦ elim (Bool-cases (is_repository self.host w entry.path)) [
            | inr r ↦ rw (d, n, r, readable_entries) h
            | inl r ↦ elim (Bool-cases (resolve_perm self w peer group name Perm.read)) [
              | inr e ↦ rw (d, n, r, e, readable_entries) h
              | inl e ↦ rw (d, n, r, e, readable_entries) (ground (arith, h))
            ]
          ]
        ]
      ]

  -- An entry that the listing is to show.
  pub record IsShown (group name : Text) (entry : DirEntry) : Type 0 where
    pub dir : self.host.is_dir w entry.path ≡ true
    pub named : entry.name ≡ some name
    pub repository : is_repository self.host w entry.path ≡ true
    pub reads : resolve_perm self w peer group name Perm.read ≡ true

  readable_entries_complete :
      (group name : Text) (es es' : List DirEntry) (entry : DirEntry)
      → IsShown group name entry
      → any
          (text_eq (group ++ codes "/" ++ name))
          (readable_entries self w peer group (es ++ entry ∷ es'))
        ≡ true
  unfolding readable_entries any
  readable_entries_complete group name [] es' entry s =
      rw (s.dir, s.named, s.repository, s.reads, readable_entries)
        (ground (arith, text_eq_refl (group ++ codes "/" ++ name)))
  readable_entries_complete group name (e ∷ es) es' entry s =
      readable_entries_more (text_eq (group ++ codes "/" ++ name)) group e (es ++ entry ∷ es')
        (readable_entries_complete group name es es' entry s)

  readable_groups_complete :
      (wanted : Option Text) (group name : Text) (path : FilePath) (gs gs' : List (Text × FilePath))
      (es es' : List DirEntry) (entry : DirEntry)
      → is_other_group self wanted group ≡ false
      → self.host.read_dir w path ≡ some (es ++ entry ∷ es')
      → IsShown group name entry
      → any
          (text_eq (group ++ codes "/" ++ name))
          (readable_groups self w peer wanted (gs ++ (group, path) ∷ gs'))
        ≡ true
  unfolding readable_groups any
  readable_groups_complete wanted group name path [] gs' es es' entry kept read shown =
      let line = text_eq (group ++ codes "/" ++ name) in
      rw (kept, read, readable_groups)
        (any-append line (readable_entries self w peer group (es ++ entry ∷ es'))
            (readable_groups self w peer wanted gs')
          ∙ ground (arith, readable_entries_complete group name es es' entry shown))
  readable_groups_complete wanted group name path ((g, p) ∷ gs) gs' es es' entry kept read shown =
      let line = text_eq (group ++ codes "/" ++ name) in
      let ih =
        readable_groups_complete wanted group name path gs gs' es es' entry kept read shown in
      elim (Bool-cases (is_other_group self wanted g)) [
        | inl o ↦ rw (o, readable_groups) ih
        | inr o ↦ elim (Option-cases (self.host.read_dir w p)) [
          | inl e ↦ rw (o, e, readable_groups) ih
          | inr (entries, e) ↦
              rw (o, e, readable_groups)
                (any-append line (readable_entries self w peer g entries)
                    (readable_groups self w peer wanted (gs ++ (group, path) ∷ gs'))
                  ∙ ground (arith, ih))
        ]
      ]

-- The lines are sorted; each names a repository that the peer may read; and each repository that
-- stands in the directory of a configured group, and that the peer may read, is there.
pub record IsListing (self : Rngit) (w : World self) (peer : Bytes) (wanted : Option Text)
    (listed : List Text) : Type 0 where
  pub sorted : IsSorted listed
  pub sound : All (IsReadable self w peer wanted) listed
  pub complete :
      (group name : Text) (path : FilePath) (gs gs' : List (Text × FilePath))
      (es es' : List DirEntry) (entry : DirEntry)
      → self.cfg.repositories ≡ gs ++ (group, path) ∷ gs'
      → is_other_group self wanted group ≡ false
      → self.host.read_dir w path ≡ some (es ++ entry ∷ es')
      → IsShown self w peer group name entry
      → any (text_eq (group ++ codes "/" ++ name)) listed ≡ true

-- A group that a request names is not configured.
unfoldable pub IsUnknown : (self : Rngit) → Option Text → Type 0
IsUnknown self wanted = (g : Text) × (wanted ≡ some g) × (lookup g self.cfg.repositories ≡ none)

-- The request names no group, or one that is configured.
unfoldable pub IsKnown : (self : Rngit) → Option Text → Type 0
IsKnown self wanted =
    (wanted ≡ none)
    ⊎ ((g : Text) × (path : FilePath) × (wanted ≡ some g)
        × (lookup g self.cfg.repositories ≡ some path))

unknown_group-IsUnknown :
    (self : Rngit) (wanted : Option Text) → unknown_group self wanted ≡ true → IsUnknown self wanted
unfolding IsUnknown
unknown_group-IsUnknown self none u = cc
unknown_group-IsUnknown self (some g) u = elim (Option-cases (lookup g self.cfg.repositories)) [
  | inl n ↦ (g, refl, n)
  | inr (path, l) ↦ absurd (true≢false (sym u ∙ ap is_none? l))
]

unknown_group-IsKnown :
    (self : Rngit) (wanted : Option Text) → unknown_group self wanted ≡ false → IsKnown self wanted
unfolding IsKnown
unknown_group-IsKnown self none u = inl refl
unknown_group-IsKnown self (some g) u = elim (Option-cases (lookup g self.cfg.repositories)) [
  | inl n ↦ absurd (true≢false (sym (ap is_none? n) ∙ u))
  | inr (path, l) ↦ inr (g, path, refl, l)
]

-- What a peer that asks for repositories is sent: where it names a group that is not configured, that
-- there is none; and where it names no group or a configured one, a listing that is sorted, names only
-- repositories that the peer may read in the group that it asks for, and names all of those that stand
-- in the directory of a configured group.
pub handle_repos-IsListing :
    (self : Rngit) (w : World self) (peer : Bytes) (request : Value self)
    → (IsUnknown self (nonempty self (data_str self (codes "group") request))
        × (handle_repos self (some peer) request w ≡ not_found))
      ⊎ (IsKnown self (nonempty self (data_str self (codes "group") request))
          × ((listed : List Text) × (handle_repos self (some peer) request w
                ≡ res_ok ∷ into_bytes (join_lines listed))
              × IsListing self w peer
                  (nonempty self (data_str self (codes "group") request))
                  listed))
unfolding handle_repos
handle_repos-IsListing self w peer request =
    let wanted = nonempty self (data_str self (codes "group") request) in
    elim (Bool-cases (unknown_group self wanted)) [
      | inl u ↦ inl (unknown_group-IsUnknown self wanted u, rw (u, handle_repos) refl)
      | inr u ↦
          let found = readable_groups self w peer wanted self.cfg.repositories in
          inr (
            unknown_group-IsKnown self wanted u,
            (
              sort found,
              rw (u, handle_repos) refl,
              record {
                sorted = sort-IsSorted found;
                sound =
                    All-sort (IsReadable self w peer wanted) found
                      (readable_groups-IsReadable self w peer wanted self.cfg.repositories);
                complete = λ group name path gs gs' es es' entry configured kept read shown.
                    any-sort (text_eq (group ++ codes "/" ++ name)) found
                    ∙ ap
                        (λ x.
                          any (text_eq (group ++ codes "/" ++ name))
                            (readable_groups self w peer wanted x))
                        configured
                    ∙ readable_groups_complete self w peer wanted group name path gs gs' es es'
                        entry kept read shown;
              },
            ),
          )
    ]
