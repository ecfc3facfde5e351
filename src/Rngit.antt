-- ===== src/Rngit.antt =====
-- src/bin/rngit: the git server over Reticulum.
pub mod Perms
pub mod Gitutil
pub mod Host
pub mod Git
pub mod Access
pub mod Request
pub mod Server
pub mod Listing
pub mod Fetch
pub mod Transfer
pub mod Hidden
pub mod Links
pub mod Events
