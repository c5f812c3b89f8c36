-- ===== src/Governance/Guarantee.antt =====
-- What the single calls of contracts/governance/src/lib.rs promise.
pub mod Execution
pub mod Sweeping
pub mod Pruning
pub mod Window
pub mod Calls
pub mod Dispatch
pub mod Authorization
