-- ===== src/Stream/Preserve.antt =====
-- The records that the entry points of contracts/stream/src/lib.rs write, and the invariant.
pub mod Pausing
pub mod Payment
pub mod Funding
pub mod Calls
pub mod Creation
pub mod Batch
pub mod BatchTransfer
