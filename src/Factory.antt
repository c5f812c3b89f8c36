-- ===== src/Factory.antt =====
-- The factory contract, contracts/factory/src/lib.rs.
pub mod Types
pub mod Host
pub mod Admin
pub mod Policy
pub mod Limits
pub mod Creation
pub mod Contract
pub mod Guarantee
pub mod Examples
