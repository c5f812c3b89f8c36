-- ===== src/Governance/Inversion.antt =====
-- Each call of contracts/governance/src/lib.rs that succeeds, read backwards.
pub mod Dispatch
pub mod Execution
pub mod Cast
pub mod Voting
pub mod Proposing
pub mod Pruning
pub mod Board
