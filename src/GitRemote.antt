-- ===== src/GitRemote.antt =====
-- src/bin/git-remote-rns.rs: the helper that git runs for URLs of a Reticulum git server.
pub mod Parse
pub mod State
pub mod Commands
pub mod Push
pub mod Loop
pub mod Fetching
pub mod DryRun
pub mod Bundles
