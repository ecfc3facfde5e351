-- ===== src/GitRemote/Loop.antt =====
-- src/bin/git-remote-rns.rs: the options and the loop over git's lines. The loops of the batches are
-- modes of the one loop.
use reticulum_router.Prelude.{
  ℕ, Bool, true, false, Option, none, some, List, [], ◌∷◌, ◌++◌, drop, is_empty, any, if◌then◌else◌,
}
use reticulum_router.Text.{Text, codes, text_eq, starts_with, split_once}
use reticulum_router.Rngit.Listing.{strip_prefix}
use reticulum_router.GitRemote.Parse.{HResult, done, failed, parse_fetch_line}
use reticulum_router.GitRemote.State.{Env, Action, ◌>>=◌, lift, write_all, set_helper}
use reticulum_router.GitRemote.Commands.{do_list, do_fetch}
use reticulum_router.GitRemote.Push.{do_push_batch}

-- The mode of the loop: at a command, or in a batch with what it has gathered.
pub data Mode : Type 0 where
  commands : Mode
  fetching : List (Text × Text) → Mode
  pushing : List Text → Mode

abbrev pub supported_names : List Text
supported_names =
    codes "progress"
    ∷ codes "followtags"
    ∷ codes "cloning"
    ∷ codes "update-shallow"
    ∷ codes "refetch"
    ∷ codes "force"
    ∷ codes "atomic"
    ∷ codes "push-cert"
    ∷ codes "push-option"
    ∷ []

abbrev pub or_one : Option ℕ → ℕ
or_one none = 1
or_one (some n) = n

abbrev pub name_and_value : Text → Option (Text × Text) → Text × Text
name_and_value rest none = (rest, [])
name_and_value rest (some p) = p

module _ (env : Env) where
  abbrev pub supported : Action env (Unit {0})
  supported = write_all (codes "ok" ++ 10 ∷ [])

  unfoldable pub handle_option : Text → Action env (Unit {0})
  handle_option rest =
      let (name, value) = name_and_value rest (split_once b' ' rest) in
      if text_eq name (codes "verbosity")
      then (do _ ← set_helper λ h. record h { verbosity = or_one (env.parse_u8 value) }; supported)
      else if text_eq name (codes "dry-run")
      then (do _ ← set_helper λ h. record h { dry_run = text_eq value (codes "true") }; supported)
      else if any (text_eq name) supported_names
      then supported
      else write_all (codes "unsupported" ++ 10 ∷ [])

  abbrev pub capabilities : Text
  capabilities = codes "fetch" ++ 10 ∷ (codes "push" ++ 10 ∷ (codes "option" ++ 10 ∷ 10 ∷ []))

  abbrev pub stay : Action env (Unit {0}) → Action env Mode
  stay m = do _ ← m; lift (done commands)

  -- The first line of a command. The line of a fetch is parsed whole.
  unfoldable pub command : Text → Action env Mode
  command line =
      if text_eq line (codes "capabilities")
      then stay (write_all capabilities)
      else if text_eq line (codes "list")
      then stay (do_list env false)
      else if text_eq line (codes "list for-push")
      then stay (do_list env true)
      else if starts_with (codes "option ") line
      then stay (handle_option (drop 7 line))
      else if starts_with (codes "fetch ") line
      then (do p ← lift (parse_fetch_line line); lift (done (fetching (p ∷ []))))
      else if starts_with (codes "push ") line
      then lift (done (pushing (drop 5 line ∷ [])))
      else lift (failed (codes "unknown command: " ++ line))

  unfoldable pub fetch_line : List (Text × Text) → Text → Action env Mode
  fetch_line batch l = elim (strip_prefix (codes "fetch ") l) [
    | none ↦ lift (failed (codes "unexpected line in fetch batch: " ++ l))
    | some rest ↦ do p ← lift (parse_fetch_line rest); lift (done (fetching (batch ++ (p ∷ []))))
  ]

  unfoldable pub push_line : List Text → Text → Action env Mode
  push_line batch l = elim (strip_prefix (codes "push ") l) [
    | some rest ↦ lift (done (pushing (batch ++ (rest ∷ []))))
    | none ↦
        if starts_with (codes "option ") l
        then lift (done (pushing batch))
        else lift (failed (codes "unexpected line in push batch: " ++ l))
  ]

  -- A line that is not empty, and an empty line in a batch.
  abbrev pub line_in : Mode → Text → Action env Mode
  line_in commands l = command l
  line_in (fetching batch) l = fetch_line batch l
  line_in (pushing batch) l = push_line batch l

  abbrev pub end_of : Mode → Action env Mode
  end_of commands = lift (done commands)
  end_of (fetching batch) = stay (do_fetch env batch)
  end_of (pushing batch) = stay (do_push_batch env batch)

  abbrev pub is_commands : Mode → Bool
  is_commands commands = true
  is_commands _ = false

  abbrev pub at_eof : Mode → HResult (Unit {0})
  at_eof commands = done tt
  at_eof (fetching batch) = failed (codes "unexpected EOF in fetch batch")
  at_eof (pushing batch) = failed (codes "unexpected EOF in push batch")

  -- The loop over what reading gives: lines, or `none` where it fails; the list ends at the end of the
  -- input.
  unfoldable pub run : List (Option Text) → Mode → Action env (Unit {0})
  run [] mode = lift (at_eof mode)
  run (none ∷ input) mode = lift (failed (codes "stdin"))
  run (some l ∷ input) mode = elim (is_empty l) [
    | false ↦ do mode' ← line_in mode l; run input mode'
    | true ↦ elim (is_commands mode) [
      | true ↦ lift (done tt)
      | false ↦ do mode' ← end_of mode; run input mode'
    ]
  ]
