-- ===== src/Factory/Creation.antt =====
-- The admission of a stream and the release of its slot: contracts/factory/src/lib.rs.
use perpetua_contracts.Prelude.{
  ℕ, ◌-◌, Bool, false, not, Option, none, some, ◌∷◌, ⊤, ltb, leb, ◌==◌, ◌||◌, ◌&&◌, is_some,
  if◌then◌else◌,
}
use perpetua_contracts.Prelude.Int.{ℤ, pos, ltb_ℤ, leb_ℤ}
use perpetua_contracts.I128.{checked_div}
use perpetua_contracts.Words.{u32_max, u32_checked_add, u64_checked_sub}
use perpetua_contracts.Factory.Types.{
  Address, FactoryConfig, FactoryError, Outcome, done, trap, ◌>>=◌, ◌>>◌, refuse_if, or_failed,
}
use perpetua_contracts.Factory.Host.{Env, Store, Terms, require_auth, set_config, load_config}
use perpetua_contracts.Factory.Limits.{record_creation_with_config}

abbrev pub is_below : ℤ → Option ℤ → Bool
is_below rate none = false
is_below rate (some minimum) = ltb_ℤ rate minimum

abbrev pub is_above : ℤ → Option ℤ → Bool
is_above rate none = false
is_above rate (some maximum) = ltb_ℤ maximum rate

-- The bounds on the rate, if there are any.
unfoldable pub check_rate : FactoryConfig → ℤ → ℕ → Outcome ⊤
check_rate config deposit duration =
    if is_some config.min_rate_per_second || is_some config.max_rate_per_second
    then (do
      rate ← or_failed (checked_div deposit (pos duration)) FactoryError.invalid_duration
      refuse_if (is_below rate config.min_rate_per_second) FactoryError.rate_below_minimum
      refuse_if (is_above rate config.max_rate_per_second) FactoryError.rate_above_maximum)
    else done tt

-- Every guard of `create_stream` on its terms, in order.
unfoldable pub check_terms : FactoryConfig → Terms → Store → Outcome ⊤
check_terms config terms s = do
  refuse_if config.creation_paused FactoryError.creation_paused
  refuse_if (config.recipient_allowlist_enabled && not (s.allowlist terms.recipient))
      FactoryError.allowlist_denied
  refuse_if (leb config.max_active_streams config.active_streams) FactoryError.capacity_cap_exceeded
  refuse_if (ltb_ℤ config.max_deposit terms.deposit) FactoryError.deposit_cap_exceeded
  refuse_if (leb_ℤ terms.deposit (pos 0)) FactoryError.invalid_deposit
  duration ←
      or_failed (u64_checked_sub terms.end_time terms.start_time) FactoryError.invalid_duration
  refuse_if (ltb duration config.min_duration || ltb config.max_duration duration || duration == 0)
      FactoryError.invalid_duration
  refuse_if (ltb terms.cliff_time terms.start_time || ltb terms.end_time terms.cliff_time)
      FactoryError.invalid_cliff
  check_rate config terms.deposit duration

-- `invoke_contract`: a call that fails traps the caller.
abbrev pub invoke_create_stream : Env → Address → Terms → Store → Outcome (ℕ × Store)
invoke_create_stream env stream_contract terms s = elim (env.created stream_contract terms) [
  | none ↦ trap
  | some id ↦ done (id, record s { launched = terms ∷ s.launched })
]

-- The configuration that is written back is the one that was read first.
unfoldable pub create_stream : Env → Terms → Store → Outcome (ℕ × Store)
create_stream env terms s = do
  config ← load_config s
  check_terms config terms s
  s ←
      (if config.max_creations_per_window == u32_max
        then done s
        else record_creation_with_config env terms.sender config s)
  (id, s) ← invoke_create_stream env config.stream_contract terms s
  active ← or_failed (u32_checked_add config.active_streams 1) FactoryError.capacity_cap_exceeded
  done (id, set_config (record config { active_streams = active }) s)

unfoldable pub stream_terminated : Env → ℕ → Store → Outcome Store
stream_terminated env id s = do
  config ← load_config s
  require_auth env config.stream_contract
  refuse_if (config.active_streams == 0) FactoryError.active_stream_count_underflow
  done (set_config (record config { active_streams = config.active_streams - 1 }) s)
