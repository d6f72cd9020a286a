-- ===== src/Watcher.antt =====
-- Application, window and display capture (agent/crates/sr-agent/src/watcher).
pub mod Identity
pub mod Profiles
pub mod Redaction
pub mod Events
