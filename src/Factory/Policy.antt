-- ===== src/Factory/Policy.antt =====
-- The setters and the views of the factory's policy: contracts/factory/src/lib.rs.
use perpetua_contracts.Prelude.{
  ℕ, Bool, true, false, Option, none, some, ⊤, ltb, ◌==◌, ◌||◌, if◌then◌else◌, update,
}
use perpetua_contracts.Prelude.Int.{ℤ, pos, ltb_ℤ, leb_ℤ}
use perpetua_contracts.Words.{u64_checked_sub}
use perpetua_contracts.Factory.Types.{
  Address, WasmHash, FactoryConfig, FactoryPolicy, FactoryError, Outcome, done, trap, failed, ◌>>=◌,
  ◌>>◌, refuse_if, or_failed,
}
use perpetua_contracts.Factory.Host.{Env, Store, set_config, load_config}
use perpetua_contracts.Factory.Admin.{guard}

unfoldable pub load_policy : Store → Outcome FactoryPolicy
load_policy s = do
  config ← load_config s
  done (record {
    stream_contract = config.stream_contract;
    stream_wasm_hash = config.stream_wasm_hash;
    max_deposit = config.max_deposit;
    min_duration = config.min_duration;
    max_duration = config.max_duration;
    batch_cap_enforced = config.batch_cap_enforced;
    creation_paused = config.creation_paused;
    recipient_allowlist_enabled = config.recipient_allowlist_enabled;
    min_rate_per_second = config.min_rate_per_second;
    max_rate_per_second = config.max_rate_per_second;
    max_active_streams = config.max_active_streams;
    active_streams = config.active_streams;
    max_creations_per_window = config.max_creations_per_window;
    rate_limit_window_ledgers = config.rate_limit_window_ledgers;
  })

-- A view that fails panics.
abbrev pub or_panic : {X : Type 0} → Outcome X → Outcome X
or_panic (done x) = done x
or_panic (failed code) = trap
or_panic trap = trap

unfoldable pub get_factory_config : Store → Outcome FactoryConfig
get_factory_config s = or_panic (load_config s)

unfoldable pub is_allowlisted : Address → Store → Outcome Bool
is_allowlisted recipient s = do config ← or_panic (load_config s); done (s.allowlist recipient)

unfoldable pub is_token_allowed : Address → Store → Outcome Bool
is_token_allowed token s = do config ← or_panic (load_config s); done (s.token_allowlist token)

unfoldable pub is_factory_paused : Store → Outcome Bool
is_factory_paused s = do config ← or_panic (load_config s); done config.creation_paused

unfoldable pub pending_admin : Store → Outcome (Option Address)
pending_admin s = do config ← or_panic (load_config s); done s.pending_admin

unfoldable pub validate_token : Address → Store → Outcome ⊤
validate_token token s = do
  load_config s
  if s.token_allowlist token then done tt else failed FactoryError.token_not_allowed

unfoldable pub validate_duration : ℕ → ℕ → Store → Outcome ⊤
validate_duration start_time end_time s = do
  config ← load_config s
  duration ← or_failed (u64_checked_sub end_time start_time) FactoryError.invalid_duration
  refuse_if (duration == 0 || ltb duration config.min_duration || ltb config.max_duration duration)
      FactoryError.invalid_duration

unfoldable pub set_stream_contract : Env → Address → Store → Outcome Store
set_stream_contract env stream_contract s = do
  config ← guard env s
  done (set_config (record config { stream_contract = stream_contract }) s)

unfoldable pub set_stream_wasm_hash : Env → WasmHash → Store → Outcome Store
set_stream_wasm_hash env stream_wasm_hash s = do
  config ← guard env s
  done (set_config (record config { stream_wasm_hash = stream_wasm_hash }) s)

unfoldable pub set_cap : Env → ℤ → Store → Outcome Store
set_cap env max_deposit s = do
  config ← guard env s
  refuse_if (leb_ℤ max_deposit (pos 0)) FactoryError.invalid_deposit
  done (set_config (record config { max_deposit = max_deposit }) s)

unfoldable pub set_min_duration : Env → ℕ → Store → Outcome Store
set_min_duration env min_duration s = do
  config ← guard env s
  refuse_if (ltb config.max_duration min_duration) FactoryError.invalid_duration
  done (set_config (record config { min_duration = min_duration }) s)

unfoldable pub set_max_duration : Env → ℕ → Store → Outcome Store
set_max_duration env max_duration s = do
  config ← guard env s
  refuse_if (ltb max_duration config.min_duration) FactoryError.invalid_duration
  done (set_config (record config { max_duration = max_duration }) s)

-- An entry that is added turns the allowlist on; one that is removed leaves it as it is.
unfoldable pub set_allowlist : Env → Address → Bool → Store → Outcome Store
set_allowlist env recipient allowed s = do
  config ← guard env s
  if allowed
      then done (
          set_config (record config { recipient_allowlist_enabled = true })
            (record s { allowlist = update s.allowlist recipient true }))
      else done (record s { allowlist = update s.allowlist recipient false })

unfoldable pub set_allowlist_enabled : Env → Bool → Store → Outcome Store
set_allowlist_enabled env enabled s = do
  config ← guard env s
  done (set_config (record config { recipient_allowlist_enabled = enabled }) s)

unfoldable pub set_token_allowed : Env → Address → Bool → Store → Outcome Store
set_token_allowed env token allowed s = do
  guard env s
  done (record s { token_allowlist = update s.token_allowlist token allowed })

unfoldable pub set_batch_cap_enforcement : Env → Bool → Store → Outcome Store
set_batch_cap_enforcement env enforced s = do
  config ← guard env s
  done (set_config (record config { batch_cap_enforced = enforced }) s)

unfoldable pub set_pause : Env → Bool → Store → Outcome Store
set_pause env paused s = do
  config ← guard env s
  done (set_config (record config { creation_paused = paused }) s)

unfoldable pub set_factory_paused : Env → Bool → Store → Outcome Store
unfolding set_pause
set_factory_paused env paused s = set_pause env paused s

abbrev pub is_negative : Option ℤ → Bool
is_negative none = false
is_negative (some rate) = ltb_ℤ rate (pos 0)

abbrev pub are_crossed : Option ℤ → Option ℤ → Bool
are_crossed (some minimum) (some maximum) = ltb_ℤ maximum minimum
are_crossed _ _ = false

unfoldable pub set_rate_bounds : Env → Option ℤ → Option ℤ → Store → Outcome Store
set_rate_bounds env minimum maximum s = do
  config ← guard env s
  refuse_if (is_negative minimum || is_negative maximum || are_crossed minimum maximum)
      FactoryError.invalid_rate_bounds
  done (
      set_config (record config { min_rate_per_second = minimum; max_rate_per_second = maximum }) s)

unfoldable pub set_max_active_streams : Env → ℕ → Store → Outcome Store
set_max_active_streams env max_active_streams s = do
  config ← guard env s
  done (set_config (record config { max_active_streams = max_active_streams }) s)

unfoldable pub set_rate_limit : Env → ℕ → ℕ → Store → Outcome Store
set_rate_limit env max_creations_per_window rate_limit_window_ledgers s = do
  config ← guard env s
  refuse_if (max_creations_per_window == 0 || rate_limit_window_ledgers == 0)
      FactoryError.invalid_rate_limit
  done (
      set_config
        (record config {
          max_creations_per_window = max_creations_per_window;
          rate_limit_window_ledgers = rate_limit_window_ledgers;
        })
        s)
