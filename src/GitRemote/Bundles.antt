-- ===== src/GitRemote/Bundles.antt =====
-- The bundles that the helper takes from what the server sends, and the URLs that name a server.
use reticulum_router.Prelude.{
  ◌+◌, ◌*◌, ◌/◌, ◌%◌, ◌≤◌, ◌≡◌, refl, ap, ◌∙◌, sym, Bool, true, false, some, List, [], ◌∷◌, ◌++◌,
  map, concat, All, any, is_empty, length, ltb, arith, length-append, drop-append_self, Bool-cases,
  inl, inr,
}
use mathlib.Core.List.{append_assoc}
use reticulum_router.Text.{Text, Bytes, contains_char}
use reticulum_router.Rngit.Fetch.{pack_metadata}
use reticulum_router.GitRemote.Parse.{
  HResult, done, failed, panicked, split_bundle, split_bundle_at,
}
use reticulum_router.GitRemote.State.{Env, State, resource, of_result, continue, lift}
use reticulum_router.GitRemote.Commands.{bundle_of, fetched}

-- A line of a header, with its end.
abbrev pub ended : Bytes → Bytes
ended line = line ++ 10 ∷ []

abbrev pub IsLine : Bytes → Type 0
IsLine line = (contains_char 10 line ≡ false) × (is_empty line ≡ false)

split_bundle_at-rest :
    (line rest : Bytes)
    → contains_char 10 line ≡ false
    → split_bundle_at false (line ++ 10 ∷ rest) ≡ split_bundle_at true rest
unfolding split_bundle_at contains_char any
split_bundle_at-rest [] rest h = refl
split_bundle_at-rest (c ∷ line) rest h = ground (arith, split_bundle_at-rest line rest)

split_bundle_at-line :
    (line rest : Bytes)
    → IsLine line
    → split_bundle_at true (line ++ 10 ∷ rest) ≡ split_bundle_at true rest
unfolding split_bundle_at contains_char any
split_bundle_at-line [] rest (h, n) = ground arith
split_bundle_at-line (c ∷ line) rest (h, n) = ground (arith, h, split_bundle_at-rest line rest)

-- The pack is what stands behind the first empty line of a bundle, whatever bytes it has.
pub split_bundle-ended :
    (header : List Bytes) (pack : Bytes)
    → All IsLine header
    → split_bundle (concat (map ended header) ++ 10 ∷ pack) ≡ some pack
unfolding split_bundle split_bundle_at
split_bundle-ended [] pack h = refl
split_bundle-ended (line ∷ header) pack (h, hs) =
    let rest = concat (map ended header) ++ 10 ∷ pack in
    ap split_bundle (
      append_assoc (ended line) (concat (map ended header)) (10 ∷ pack)
      ∙ append_assoc line (10 ∷ []) rest)
    ∙ split_bundle_at-line line rest h
    ∙ split_bundle-ended header pack hs

bundle_of-length :
    (env : Env) (packed bundle : Bytes)
    → length packed ≤ 0xFFFFFF
    → bundle_of env (
        length packed / 65536 % 256
        ∷ length packed / 256 % 256
        ∷ length packed % 256
        ∷ (packed ++ bundle))
      ≡ done bundle
unfolding bundle_of
bundle_of-length env packed bundle h =
    let n : length packed / 65536 % 256 * 65536
          + length packed / 256 % 256 * 256
          + length packed % 256
        ≡ length packed =
      omega arith in
    let room : ltb (length (packed ++ bundle)) (length packed) ≡ false =
      ground (arith, length-append packed bundle) in
    rw (bundle_of, n, room) (ap done (drop-append_self packed bundle))

bundle_of-pack_metadata :
    (env : Env) (packed metadata_prefix bundle : Bytes)
    → pack_metadata packed ≡ some metadata_prefix
    → bundle_of env (metadata_prefix ++ bundle) ≡ done bundle
unfolding pack_metadata
bundle_of-pack_metadata env packed metadata_prefix bundle h =
    elim (Bool-cases (ltb 0xFFFFFF (length packed))) [
      | inl big ↦ ground (arith, h)
      | inr small ↦
          let made : length packed / 65536 % 256
                ∷ length packed / 256 % 256
                ∷ length packed % 256
                ∷ packed
              ≡ metadata_prefix =
            ground (arith, h) in
          rw (sym made) (bundle_of-length env packed bundle (ground (arith, small)))
    ]

abbrev pub indexed : HResult Bool → HResult (Unit {0})
indexed (done b) = done tt
indexed (failed e) = failed e
indexed panicked = panicked

continue-indexed :
    {env : Env} (r : HResult Bool) (s : State env)
    → continue r (λ _. lift (done tt)) s ≡ (indexed r, s)
continue-indexed (done b) s = refl
continue-indexed (failed e) s = refl
continue-indexed panicked s = refl

-- From the resource that the server makes of its metadata and a bundle, the helper gives the bundle's
-- pack to `git index-pack`, whole and alone, and answers as that does.
pub fetched-pack_metadata :
    (env : Env) (dir : Text) (packed metadata_prefix : Bytes) (header : List Bytes) (pack : Bytes)
    (s : State env)
    → env.git_dir ≡ some dir
    → pack_metadata packed ≡ some metadata_prefix
    → All IsLine header
    → fetched env (resource (metadata_prefix ++ (concat (map ended header) ++ 10 ∷ pack))) s ≡ (
        let (r, w) = env.index_pack dir pack s.world in
        (indexed (of_result r), record s { world = w }))
fetched-pack_metadata env dir packed metadata_prefix header pack s inside p h =
    rw
      (
        bundle_of-pack_metadata env packed metadata_prefix (concat (map ended header) ++ 10 ∷ pack)
            p,
        inside,
        split_bundle-ended header pack h,
      )
      (continue-indexed (of_result (env.index_pack dir pack s.world).0)
        (record s { world = (env.index_pack dir pack s.world).1 }))
