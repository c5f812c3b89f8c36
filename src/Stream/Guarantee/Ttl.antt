-- ===== src/Stream/Guarantee/Ttl.antt =====
-- The lives that contracts/stream/src/storage.rs asks for.
use perpetua_contracts.Prelude.{ℕ, ◌+◌, ◌-◌, ◌*◌, ◌≤◌, ◌<◌, arith}
use perpetua_contracts.Words.{u32_max, u64_saturating_add}
use perpetua_contracts.Stream.Types.{Stream}
use perpetua_contracts.Stream.Host.{Env}
use perpetua_contracts.Stream.Storage.{
  seconds_per_ledger, ttl_buffer_seconds, min_stream_ttl_ledgers, seconds_to_ledgers, effective_end,
  ttl_target_ledgers_at, ttl_target_ledgers,
}

-- A time in seconds is turned into ledgers without falling short: the ledgers last at least that
-- long, and one ledger fewer would not, unless the count is past what 32 bits hold.
pub seconds_to_ledgers_covers :
    (seconds : ℕ)
    → seconds ≤ seconds_per_ledger * u32_max
    → (seconds ≤ seconds_to_ledgers seconds * seconds_per_ledger)
      × (seconds_to_ledgers seconds * seconds_per_ledger < seconds + seconds_per_ledger)
unfolding seconds_to_ledgers
seconds_to_ledgers_covers seconds h = (ground arith, ground arith)

uncapped_covers :
    (seconds : ℕ)
    → seconds_to_ledgers seconds < u32_max
    → seconds ≤ seconds_to_ledgers seconds * seconds_per_ledger
unfolding seconds_to_ledgers
uncapped_covers seconds h = ground arith

-- The target of a stream that the host can grant lasts until 30 days past the end of its schedule,
-- shifted by its pauses, one in progress included, and is at least the floor of 33 days of ledgers.
ttl_target_covers :
    (env : Env) (s : Stream)
    → env.max_ttl ≤ u32_max
    → ttl_target_ledgers env s < env.max_ttl
    → (min_stream_ttl_ledgers ≤ ttl_target_ledgers env s)
      × (effective_end s env.now + ttl_buffer_seconds
          ≤ env.now + ttl_target_ledgers env s * seconds_per_ledger)
unfolding ttl_target_ledgers ttl_target_ledgers_at
ttl_target_covers env s h k =
    let remaining = effective_end s env.now - env.now in
    let c = uncapped_covers (u64_saturating_add remaining ttl_buffer_seconds) in
    (ground arith, ground (arith, c))
