-- ===== src/Governance/Preserve.antt =====
-- The invariant of contracts/governance/src/lib.rs through each call.
pub mod Board
pub mod Signers
pub mod Voting
pub mod Pruning
