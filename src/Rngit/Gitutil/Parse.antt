-- ===== src/Rngit/Gitutil/Parse.antt =====
-- Which paths of requests are accepted.
use reticulum_router.Prelude.{
  ◌≡◌, ◌↔◌, ◌≤◌, refl, ◌∙◌, sym, inl, inr, true, false, none, some, ◌∷◌, ◌++◌, arith, Option-cases,
}
use reticulum_router.Text.{Text, contains_char, split_once, splitn, len}
use reticulum_router.Text.Split.{
  split_once-append, split_once_of_absent, split_once_parts, split_once_absent,
}
use reticulum_router.Rngit.Gitutil.{
  is_plain_component, check_names, two_parts, parse_request_repository_path,
}

-- A name that a request may give of a group or a repository.
pub record IsName (name : Text) : Type 0 where
  pub plain : is_plain_component name ≡ true
  pub single : contains_char b'/' name ≡ false
  pub short : len name ≤ 256

-- A path is the name of a group, a slash and the name of a repository.
pub record IsRequestPath (path group repo : Text) : Type 0 where
  pub whole : path ≡ group ++ b'/' ∷ repo
  pub group_name : IsName group
  pub repo_name : IsName repo

check_names-some :
    (group repo g r : Text)
    → check_names group repo ≡ some (g, r)
    → (group ≡ g)
      × (repo ≡ r)
      × (is_plain_component group ≡ true)
      × (is_plain_component repo ≡ true)
      × (len group ≤ 256)
      × (len repo ≤ 256)
unfolding check_names
check_names-some group repo g r e = ground (arith, e)

parse_request_repository_path-IsRequestPath :
    (path group repo : Text)
    → parse_request_repository_path path ≡ some (group, repo)
    → IsRequestPath path group repo
unfolding parse_request_repository_path two_parts splitn
parse_request_repository_path-IsRequestPath path group repo e =
    elim (Option-cases (split_once b'/' path)) [
      | inl n ↦
          let refused : parse_request_repository_path path ≡ none =
            rw (n, parse_request_repository_path, splitn) refl in
          absurd (ground (arith, refused, e))
      | inr ((g, b), s) ↦ elim (Option-cases (split_once b'/' b)) [
        | inl n ↦
            let (whole, single) = split_once_parts b'/' path s in
            let checked : parse_request_repository_path path ≡ check_names g b =
              rw (s, n, parse_request_repository_path, splitn) refl in
            let (same_g, same_b, plain_g, plain_b, short_g, short_b) =
              check_names-some g b group repo (sym checked ∙ e) in
            rw (← same_g, ← same_b)
              record {
                whole = whole;
                group_name = record { plain = plain_g; single = single; short = short_g };
                repo_name = record {
                  plain = plain_b;
                  single = split_once_absent b'/' b n;
                  short = short_b;
                };
              }
        | inr ((r, c), t) ↦
            let refused : parse_request_repository_path path ≡ none =
              rw (s, t, parse_request_repository_path, splitn) refl in
            absurd (ground (arith, refused, e))
      ]
    ]

IsRequestPath-parse_request_repository_path :
    (path group repo : Text)
    → IsRequestPath path group repo
    → parse_request_repository_path path ≡ some (group, repo)
unfolding parse_request_repository_path two_parts splitn check_names
IsRequestPath-parse_request_repository_path path group repo p =
    rw
      (
        p.whole,
        split_once-append b'/' group repo p.group_name.single,
        split_once_of_absent b'/' repo p.repo_name.single,
        p.group_name.plain,
        p.repo_name.plain,
        parse_request_repository_path,
        splitn,
        check_names,
      )
      (ground (arith, p.group_name.short, p.repo_name.short))

-- A request's path is read as a group and a repository exactly when it is the two names with one
-- slash between them, each a plain path component without a slash and of at most 256 bytes.
pub parse_request_repository_path_lem :
    (path group repo : Text)
    → (parse_request_repository_path path ≡ some (group, repo)) ↔ IsRequestPath path group repo
parse_request_repository_path_lem path group repo = (
  parse_request_repository_path-IsRequestPath path group repo,
  IsRequestPath-parse_request_repository_path path group repo,
)
