-- ===== src/Stream/Op.antt =====
-- `types::op` of contracts/stream/src/types.rs: the delegable operations, `1 << 0` to `1 << 5`.
use perpetua_contracts.Prelude.{ℕ}

abbrev pub withdraw : ℕ
withdraw = 1

abbrev pub cancel : ℕ
cancel = 2

abbrev pub pause : ℕ
pause = 4

abbrev pub resume : ℕ
resume = 8

abbrev pub top_up : ℕ
top_up = 16

abbrev pub transfer_recipient : ℕ
transfer_recipient = 32
