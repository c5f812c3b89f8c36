-- ===== src/Stream/Guarantee.antt =====
-- The promises of the entry points of contracts/stream/src/lib.rs, one module for each group.
pub mod Withdrawal
pub mod Cancellation
pub mod Pauses
pub mod Funding
pub mod Creation
pub mod Ttl
pub mod Delegates
pub mod Batches
pub mod BatchPayments
pub mod History
