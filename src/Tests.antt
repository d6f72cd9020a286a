-- ===== src/Tests.antt =====
-- The theorems at concrete inputs.
pub mod Fixtures
pub mod Wire
pub mod Connections
pub mod CommandLines
pub mod Storage
pub mod Tabs
pub mod Offers
pub mod Runs
pub mod Applications
pub mod Payloads
pub mod Windows
pub mod Controls
pub mod Reviews
pub mod Openings
pub mod Relays
pub mod Starts
