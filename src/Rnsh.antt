-- ===== src/Rnsh.antt =====
-- src/bin/rnsh.rs: the remote shell over Reticulum.
pub mod Stream
pub mod Escape
pub mod Messages
pub mod Handshake
pub mod Session
