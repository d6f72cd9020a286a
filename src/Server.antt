-- ===== src/Server.antt =====
-- The agent's pipe server (agent/crates/sr-agent/src/server.rs).
pub mod Registry
pub mod State
pub mod Dispatch
pub mod Session
pub mod Push
pub mod Others
pub mod Reap
