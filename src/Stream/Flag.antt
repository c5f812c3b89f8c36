-- ===== src/Stream/Flag.antt =====
-- `types::flag` of contracts/stream/src/types.rs: the bits fixed when a stream is created.
use perpetua_contracts.Prelude.{ℕ}

abbrev pub cancellable : ℕ
cancellable = 1

abbrev pub pausable : ℕ
pausable = 2

abbrev pub transferable : ℕ
transferable = 4

abbrev pub all : ℕ
all = 7
