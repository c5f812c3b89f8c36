-- ===== src/Factory/Limits.antt =====
-- The creation bucket of a sender: contracts/factory/src/lib.rs.
use perpetua_contracts.Prelude.{◌-◌, Option, some, leb, get_or, if◌then◌else◌, update}
use perpetua_contracts.Words.{u32_checked_add}
use perpetua_contracts.Factory.Types.{
  Address, FactoryConfig, RateLimitBucket, FactoryError, Outcome, done, ◌>>=◌, ◌>>◌, refuse_if,
  or_failed,
}
use perpetua_contracts.Factory.Host.{Env, Store, require_auth, load_config}

-- The bucket as this ledger finds it: a window that has run out starts again.
unfoldable pub current_bucket : Env → FactoryConfig → Option RateLimitBucket → RateLimitBucket
current_bucket env config stored =
    let bucket = get_or stored (record { window_start = env.sequence; creations = 0 }) in
    if leb config.rate_limit_window_ledgers (env.sequence - bucket.window_start)
    then record { window_start = env.sequence; creations = 0 }
    else bucket

unfoldable pub record_creation_with_config : Env → Address → FactoryConfig → Store → Outcome Store
record_creation_with_config env sender config s = do
  require_auth env sender
  let bucket = current_bucket env config (s.rate_limit sender)
  refuse_if (leb config.max_creations_per_window bucket.creations) FactoryError.rate_limit_exceeded
  creations ← or_failed (u32_checked_add bucket.creations 1) FactoryError.rate_limit_exceeded
  done (record s {
    rate_limit = update s.rate_limit sender (some (record bucket { creations = creations }));
  })

unfoldable pub record_creation : Env → Address → Store → Outcome Store
record_creation env sender s = do
  config ← load_config s
  record_creation_with_config env sender config s
