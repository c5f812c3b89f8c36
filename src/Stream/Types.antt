-- ===== src/Stream/Types.antt =====
-- contracts/stream/src/types.rs: the stored records and their flags. An address is a number, since
-- the code only compares addresses; `u64` and `u32` fields are naturals, `i128` fields integers.
use Prim.Native.Nat.{bit_and, bit_xor}
use perpetua_contracts.Prelude.{ℕ, ◌+◌, ◌*◌, Bool, true, false, Option, ◌==◌}
use perpetua_contracts.Prelude.Int.{ℤ}
use perpetua_contracts.Words.{any_bit, u32_max}
use perpetua_contracts.Stream.Flag

abbrev pub Address : Type 0
Address = ℕ

pub record DelegateGrant : Type 0 where
  pub ops : ℕ
  pub expires_at : Option ℕ

pub data StreamStatus : Type 0 where
  active paused cancelled depleted : StreamStatus

abbrev pub is_terminal : StreamStatus → Bool
is_terminal StreamStatus.active = false
is_terminal StreamStatus.paused = false
is_terminal StreamStatus.cancelled = true
is_terminal StreamStatus.depleted = true

pub record Stream : Type 0 where
  pub sender : Address
  pub recipient : Address
  pub token : Address
  pub deposited : ℤ
  pub withdrawn : ℤ
  pub start_time : ℕ
  pub end_time : ℕ
  pub cliff_time : ℕ
  pub flags : ℕ
  pub paused_at : Option ℕ
  pub paused_total : ℕ
  pub status : StreamStatus

unfoldable pub cancellable : Stream → Bool
cancellable s = any_bit s.flags Flag.cancellable

unfoldable pub pausable : Stream → Bool
pausable s = any_bit s.flags Flag.pausable

unfoldable pub transferable : Stream → Bool
transferable s = any_bit s.flags Flag.transferable

-- `flags & !flag::ALL == 0`, with `!` on 32 bits.
unfoldable pub flags_valid : ℕ → Bool
flags_valid flags = bit_and flags (bit_xor Flag.all u32_max) == 0

abbrev pub bool_bit : Bool → ℕ
bool_bit true = 1
bool_bit false = 0

-- The three terms have no bit in common, so their `|` is their sum.
unfoldable pub flags_from_parts : Bool → Bool → Bool → ℕ
flags_from_parts cancellable pausable transferable =
    bool_bit cancellable + 2 * bool_bit pausable + 4 * bool_bit transferable
