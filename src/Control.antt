-- ===== src/Control.antt =====
-- The control plane: crates/nyanpasu-core-manager/src/control/mod.rs and control/executor.rs.
pub mod OperationId
pub mod Digest
pub mod Command
pub mod Registry
pub mod Channel
pub mod Plane
pub mod Execute
