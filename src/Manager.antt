-- ===== src/Manager.antt =====
-- The manager of one core: crates/nyanpasu-core-manager/src/manager.
pub mod Quarantine
pub mod Status
pub mod Effects
pub mod Fallible
pub mod Session
pub mod Prepare
pub mod Dns
pub mod Launch
pub mod Stopping
pub mod InPlace
pub mod Apply
pub mod Switching
pub mod Lifecycle
mod Sample
mod Tests
