-- ===== src/Stream/Inversion.antt =====
-- The entry points of contracts/stream/src/lib.rs read backwards: what a call that succeeds has
-- checked, and what it has written.
pub mod Pausing
pub mod Payment
pub mod Funding
pub mod Delegate
pub mod Keeper
