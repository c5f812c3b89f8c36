-- ===== src/Words.antt =====
-- The unsigned words of Rust: `u64` and `u32` values are naturals below these bounds, and the
-- operations on them that can leave the range.
use Prim.Native.Nat.{bit_and}
use perpetua_contracts.Prelude.{
  ℕ, ◌+◌, ◌-◌, ◌^◌, Bool, not, Option, none, some, leb, ◌==◌, if◌then◌else◌, smaller,
}

abbrev pub u64_max : ℕ
u64_max = 2 ^ 64 - 1

abbrev pub u32_max : ℕ
u32_max = 2 ^ 32 - 1

-- `saturating_sub` is `-` on ℕ.
abbrev pub u64_saturating_add : ℕ → ℕ → ℕ
u64_saturating_add a b = smaller (a + b) u64_max

abbrev pub u64_checked_add : ℕ → ℕ → Option ℕ
u64_checked_add a b = if leb (a + b) u64_max then some (a + b) else none

abbrev pub u32_checked_add : ℕ → ℕ → Option ℕ
u32_checked_add a b = if leb (a + b) u32_max then some (a + b) else none

abbrev pub u64_checked_sub : ℕ → ℕ → Option ℕ
u64_checked_sub a b = if leb b a then some (a - b) else none

abbrev pub u32_checked_sub : ℕ → ℕ → Option ℕ
u32_checked_sub a b = if leb b a then some (a - b) else none

-- `word & mask != 0`
abbrev pub any_bit : ℕ → ℕ → Bool
any_bit word mask = not (bit_and word mask == 0)
