-- ===== src/Rnid.antt =====
-- src/bin/rnid.rs: the encodings of keys and signatures.
pub mod Base32
pub mod Base256
pub mod Import
