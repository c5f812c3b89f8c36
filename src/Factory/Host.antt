-- ===== src/Factory/Host.antt =====
-- The host of contracts/factory/src/lib.rs and the factory's storage: `Env` holds the answers of
-- the host and of the stream contract for one call, `Store` the entries that the factory keeps.
use perpetua_contracts.Prelude.{ℕ, Bool, Option, some, List, ⊤, if◌then◌else◌}
use perpetua_contracts.Prelude.Int.{ℤ}
use perpetua_contracts.Factory.Types.{
  Address, FactoryConfig, RateLimitBucket, FactoryError, Outcome, done, trap, or_failed,
}

-- The terms of a stream, as `create_stream` takes them.
pub record Terms : Type 0 where
  pub sender : Address
  pub recipient : Address
  pub token : Address
  pub deposit : ℤ
  pub start_time : ℕ
  pub end_time : ℕ
  pub cliff_time : ℕ
  pub cancellable : Bool
  pub pausable : Bool
  pub transferable : Bool

pub data Event : Type 0 where
  -- current, pending
  admin_transfer_proposed : Address → Address → Event
  -- previous, new
  admin_transferred : Address → Address → Event

pub record Env : Type 0 where
  -- `current_contract_address`
  pub self : Address
  -- the all-zeros account
  pub zero_address : Address
  -- `ledger().sequence()`
  pub sequence : ℕ
  -- whether `require_auth` of this address passes in this call
  pub authorized : Address → Bool
  -- the id that `create_stream` of the stream contract at an address returns, if it does not fail
  pub created : Address → Terms → Option ℕ

-- The entries under `DataKey`: `Config` and `PendingAdmin` in the instance, the other three in
-- persistent storage.
pub record Store : Type 0 where
  pub config : Option FactoryConfig
  pub pending_admin : Option Address
  pub allowlist : Address → Bool
  pub token_allowlist : Address → Bool
  pub rate_limit : Address → Option RateLimitBucket
  -- the calls of the stream contract that have succeeded, and the events, newest first
  pub launched : List Terms
  pub events : List Event

abbrev pub require_auth : Env → Address → Outcome ⊤
require_auth env who = if env.authorized who then done tt else trap

abbrev pub set_config : FactoryConfig → Store → Store
set_config config s = record s { config = some config }

-- `load_config`; what it renews is the life of an entry, which is not part of the store.
unfoldable pub load_config : Store → Outcome FactoryConfig
load_config s = or_failed s.config FactoryError.not_initialized
