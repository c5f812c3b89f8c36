-- ===== src/Governance.antt =====
-- contracts/governance/src/lib.rs: a board of signers whose proposals, once a quorum has approved
-- them and a timelock has passed, call other contracts.
pub mod Types
pub mod Host
pub mod Storage
pub mod Dispatch
pub mod Admin
pub mod Proposals
pub mod Pruning
pub mod Views
pub mod Contract
pub mod Lists
pub mod Frame
pub mod Invariant
pub mod Written
pub mod Preserve
pub mod Lifecycle
pub mod Inversion
pub mod Guarantee
pub mod Examples
