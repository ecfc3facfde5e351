-- ===== src/GitRemote/Commands.antt =====
-- src/bin/git-remote-rns.rs: the list and fetch commands.
use reticulum_router.Prelude.{
  ℕ, zero, suc, ◌+◌, ◌*◌, Bool, none, some, List, [], ◌∷◌, ◌++◌, map, length, drop, is_empty, ltb,
  if◌then◌else◌,
}
use reticulum_router.Text.{Text, Bytes, codes, trim, lines}
use reticulum_router.Rngit.Git.{GResult, ok, err}
use reticulum_router.GitRemote.Parse.{
  HResult, done, failed, panicked, parse_server_refs, split_bundle,
}
use reticulum_router.GitRemote.State.{
  ClientResponse, bytes, resource, Env, Action, ◌>>=◌, lift, run_in, write_all, helper, set_helper,
  request,
}

abbrev pub path_list : Text
path_list = codes "/git/list"

abbrev pub path_fetch : Text
path_fetch = codes "/git/fetch"

abbrev pub path_push : Text
path_push = codes "/git/push"

abbrev pub path_delete : Text
path_delete = codes "/git/delete"

module _ (env : Env) where
  abbrev pub Value : Type 0
  Value = env.values.Value

  abbrev pub entry : Text → Value → Value × Value
  entry key v = (env.values.str key, v)

  abbrev pub repository : Text → Value × Value
  repository repo = (env.values.int 0, env.values.str repo)

  abbrev pub server_error : ℕ → Bytes → Text
  server_error code msg =
      codes "server error " ++ env.show code ++ codes ": " ++ trim (env.from_utf8_lossy msg)

  -- The bytes of an answer that is not a success; there is no slice behind the first of no bytes.
  abbrev pub error_of : Text → Bytes → {A : Type 0} → HResult A
  error_of context [] = panicked
  error_of context (code ∷ msg) = failed (context ++ server_error code msg)

  abbrev pub ok_bytes : Text → Bytes → HResult Bytes
  ok_bytes context [] = panicked
  ok_bytes context (zero ∷ body) = done body
  ok_bytes context (suc code ∷ msg) = error_of context (suc code ∷ msg)

  unfoldable pub check_ok_bytes : ClientResponse → Text → HResult (Unit {0})
  check_ok_bytes (bytes b) context = elim (ok_bytes (context ++ codes ": ") b) [
    | done body ↦ done tt
    | failed e ↦ failed e
    | panicked ↦ panicked
  ]
  check_ok_bytes (resource b) context = failed (context ++ codes ": unexpected resource response")

  unfoldable pub listed_lines : List Text → Text
  listed_lines [] = []
  listed_lines (line' ∷ ls) =
      let line = trim line' in
      let rest = listed_lines ls in if is_empty line then rest else line ++ 10 ∷ rest

  abbrev pub list_body : ClientResponse → HResult Bytes
  list_body (bytes b) = ok_bytes [] b
  list_body (resource b) = failed (codes "unexpected resource response")

  abbrev pub list_request : Text → Bool → Value
  list_request repo for_push =
      env.values.map_ (repository repo ∷ entry (codes "for_push") (env.values.bool for_push) ∷ [])

  unfoldable pub do_list : Bool → Action env (Unit {0})
  do_list for_push = do
    h ← helper
    resp ← request path_list (list_request h.repo for_push)
    body ← lift (list_body resp)
    _ ← set_helper λ h. record h { server_refs = parse_server_refs (env.from_utf8_lossy body) }
    write_all (listed_lines (lines (env.from_utf8_lossy body)) ++ 10 ∷ [])

  unfoldable pub not_blank : List Text → List Text
  not_blank [] = []
  not_blank (line ∷ ls) =
      let s = trim line in let rest = not_blank ls in if is_empty s then rest else s ∷ rest

  unfoldable pub local_have_shas : env.host.World → GResult (List Text) × env.host.World
  local_have_shas w = elim env.git_dir [
    | none ↦ (err (codes "GIT_DIR is not set"), w)
    | some dir ↦
        let (out, w') =
          env.run_git (codes "for-each-ref" ∷ codes "--format=%(objectname)" ∷ []) w in
        (elim out [ err e ↦ err e | ok text ↦ ok (not_blank (lines text)) ], w')
  ]

  abbrev pub or_default : GResult (List Text) → List Text
  or_default (ok shas) = shas
  or_default (err e) = []

  abbrev pub have_shas : Action env (List Text)
  have_shas s =
      let (r, w) = local_have_shas s.world in (done (or_default r), record s { world = w })

  abbrev pub index_bundle : Bytes → Action env (Unit {0})
  index_bundle bundle = elim env.git_dir [
    | none ↦ lift (failed (codes "GIT_DIR is not set"))
    | some dir ↦ elim (split_bundle bundle) [
      | none ↦ lift (failed (codes "invalid bundle: missing pack section"))
      | some pack ↦ do _ ← run_in (env.index_pack dir pack); lift (done tt)
    ]
  ]

  abbrev pub ref_request : Text × Text → Value
  ref_request (oid, name) = env.values.map_ (entry (codes "ref") (env.values.str name) ∷ [])

  abbrev pub fetch_request : Text → List (Text × Text) → List Text → Value
  fetch_request repo batch have = env.values.map_ (
      repository repo
      ∷ entry (codes "refs") (env.values.array (map ref_request batch))
      ∷ entry (codes "have") (env.values.array (map env.values.str have))
      ∷ [])

  -- The bundle of a resource, behind three bytes of length and the metadata.
  unfoldable pub bundle_of : Bytes → HResult Bytes
  bundle_of (a ∷ b ∷ c ∷ rest) =
      let meta_len = a * 65536 + b * 256 + c in
      if ltb (length rest) meta_len
      then failed (codes "fetch response truncated")
      else done (drop meta_len rest)
  bundle_of _ = failed (codes "fetch response too short")

  abbrev pub fetched : ClientResponse → Action env (Unit {0})
  fetched (bytes b) = do _ ← lift (ok_bytes (codes "fetch failed: ") b); lift (done tt)
  fetched (resource data') = do bundle ← lift (bundle_of data'); index_bundle bundle

  abbrev pub fetch_refs : List (Text × Text) → Action env (Unit {0})
  fetch_refs batch = do
    have ← have_shas
    h ← helper
    resp ← request path_fetch (fetch_request h.repo batch have)
    fetched resp

  unfoldable pub do_fetch : List (Text × Text) → Action env (Unit {0})
  do_fetch batch = do
    _ ← if is_empty batch then lift (done tt) else fetch_refs batch
    write_all (10 ∷ [])
