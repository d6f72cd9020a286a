-- ===== src/Server/Reap.antt =====
-- The reconcile of an authoritative payload: `reap_missing_for_browser` of
-- agent/crates/sr-agent/src/server.rs.
pub mod Tables
pub mod Reported
pub mod Apart
