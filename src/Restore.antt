-- ===== src/Restore.antt =====
-- Restoring a session: agent/crates/sr-agent/src/restore, and the offers of
-- agent/crates/sr-agent/src/server.rs.
pub mod Payload
pub mod Runs
pub mod Pending
pub mod Offer
pub mod Place
pub mod Apps
pub mod Undo
pub mod Launches
