-- ===== src/Rnguard.antt =====
-- src/bin/rnguard.rs: the watchdog that blackholes destinations which announce too often.
pub mod Tracker
pub mod Hex
pub mod Frame
pub mod Watch
