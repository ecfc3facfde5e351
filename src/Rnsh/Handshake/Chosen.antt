-- ===== src/Rnsh/Handshake/Chosen.antt =====
-- Which command a listener runs, and whom it lets run it.
use reticulum_router.Prelude.{
  ◌≡◌, refl, true, false, Option, none, List, [], ◌∷◌, All, is_empty, arith,
}
use reticulum_router.Text.{Text, Bytes}
use reticulum_router.Rnsh.Handshake.{Args, chosen_command, auth_required, hashes, allowed_set}

-- A listener with a command of its own that disables remote commands runs its own, whatever the peer
-- asks for.
pub command_own :
    (a : Args) (shell : Text) (remote : List Text)
    → a.no_remote_cmd ≡ true
    → is_empty a.cmd ≡ false
    → chosen_command a shell remote ≡ a.cmd
unfolding chosen_command
command_own a shell remote n e = ground (arith, n, e)

-- A listener without a command of its own runs what the peer asks for, though it disables remote
-- commands.
pub command_remote :
    (a : Args) (shell : Text) (remote : List Text)
    → a.remote_cmd_as_args ≡ false
    → is_empty a.cmd ≡ true
    → is_empty remote ≡ false
    → chosen_command a shell remote ≡ remote
unfolding chosen_command
command_remote a shell remote n e r = ground (arith, n, e, r)

module _ (new_from_hex_string : Text → Option Bytes) where
  hashes-none :
      (given : List Text)
      → All (λ h. new_from_hex_string h ≡ none) given
      → hashes new_from_hex_string given ≡ []
  unfolding hashes
  hashes-none [] p = refl
  hashes-none (h ∷ hs) (e, p) = rw (e, hashes) (hashes-none hs p)

  -- Where no allowed identity that is given can be read, and no file names one, no authorization is
  -- required.
  pub auth_required-allowed_set :
      (a : Args) (given : List Text)
      → All (λ h. new_from_hex_string h ≡ none) given
      → auth_required a (allowed_set new_from_hex_string given []) ≡ false
  unfolding auth_required allowed_set
  auth_required-allowed_set a given p = rw (hashes-none given p) (ground arith)
