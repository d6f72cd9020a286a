-- ===== src/Ui.antt =====
-- What the windows of the agent ask of it: agent/crates/sr-agent/src/browsers.rs and ui/.
pub mod Browsers
pub mod Settings
pub mod Review
