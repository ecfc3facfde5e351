-- ===== src/Tests.antt =====
-- The theorems at concrete inputs.
mod World
mod Server
mod Names
mod Watchdog
mod Watch
mod Values
mod Shell
mod Remote
mod Network
mod Identity
