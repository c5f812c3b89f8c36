-- ===== src/Stream.antt =====
-- The streaming contract, contracts/stream/src.
pub mod Op
pub mod Flag
pub mod Types
pub mod Error
pub mod Event
pub mod Host
pub mod Storage
pub mod Events
pub mod Lifecycle
pub mod Pausing
pub mod Recipient
pub mod Batch
pub mod Delegation
pub mod Keeper
pub mod Effect
pub mod Inversion
pub mod Invariant
pub mod Preserve
pub mod Guarantee
pub mod Contract
pub mod Accrual
pub mod Examples
