-- ===== src/Factory/Types.antt =====
-- The data types of contracts/factory/src/lib.rs. An address and a hash are numbers, since the code
-- only compares and stores them; `u32` and `u64` fields are naturals, `i128` fields integers.
use perpetua_contracts.Prelude.{ℕ, Bool, Option}
use perpetua_contracts.Outcome.{Outcome as CallOutcome}
pub use perpetua_contracts.Outcome.{
  trap, failed, done, ◌>>=◌, ◌>>◌, refuse_if, or_failed, Outcome-cases, >>=-eq-done,
}
use perpetua_contracts.Prelude.Int.{ℤ}

abbrev pub Address : Type 0
Address = ℕ

abbrev pub WasmHash : Type 0
WasmHash = ℕ

pub record FactoryConfig : Type 0 where
  pub admin : Address
  pub stream_contract : Address
  pub stream_wasm_hash : WasmHash
  pub max_deposit : ℤ
  pub min_duration : ℕ
  pub max_duration : ℕ
  pub batch_cap_enforced : Bool
  pub creation_paused : Bool
  pub recipient_allowlist_enabled : Bool
  pub min_rate_per_second : Option ℤ
  pub max_rate_per_second : Option ℤ
  pub max_active_streams : ℕ
  pub active_streams : ℕ
  pub max_creations_per_window : ℕ
  pub rate_limit_window_ledgers : ℕ

pub record FactoryPolicy : Type 0 where
  pub stream_contract : Address
  pub stream_wasm_hash : WasmHash
  pub max_deposit : ℤ
  pub min_duration : ℕ
  pub max_duration : ℕ
  pub batch_cap_enforced : Bool
  pub creation_paused : Bool
  pub recipient_allowlist_enabled : Bool
  pub min_rate_per_second : Option ℤ
  pub max_rate_per_second : Option ℤ
  pub max_active_streams : ℕ
  pub active_streams : ℕ
  pub max_creations_per_window : ℕ
  pub rate_limit_window_ledgers : ℕ

pub record RateLimitBucket : Type 0 where
  pub window_start : ℕ
  pub creations : ℕ

pub data FactoryError : Type 0 where
  not_initialized already_initialized unauthorized allowlist_denied : FactoryError
  invalid_new_admin no_pending_admin invalid_duration token_not_allowed : FactoryError
  rate_limit_exceeded invalid_rate_limit capacity_cap_exceeded : FactoryError
  active_stream_count_underflow creation_paused deposit_cap_exceeded : FactoryError
  invalid_rate_bounds rate_below_minimum rate_above_maximum invalid_deposit invalid_cliff :
      FactoryError

-- How an entry point of the factory ends.
abbrev pub Outcome {κ} : Type κ → Type κ
Outcome Value = CallOutcome FactoryError Value
