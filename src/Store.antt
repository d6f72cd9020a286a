-- ===== src/Store.antt =====
-- The agent's database (agent/crates/sr-agent/src/store).
pub mod Row
pub mod Schema
pub mod Db
pub mod Crypto
pub mod Keys
pub mod Snapshot
pub mod Migrate
