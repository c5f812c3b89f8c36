-- ===== src/Factory/Admin.antt =====
-- The first configuration of the factory and the hand-over of its admin:
-- contracts/factory/src/lib.rs.
use perpetua_contracts.Prelude.{ℕ, Bool, true, false, none, some, ◌∷◌, ltb, ◌==◌, ◌||◌, is_some}
use perpetua_contracts.Prelude.Int.{ℤ, pos, leb_ℤ}
use perpetua_contracts.Words.{u32_max}
use perpetua_contracts.Factory.Types.{
  Address, WasmHash, FactoryConfig, FactoryError, Outcome, done, ◌>>=◌, ◌>>◌, refuse_if, or_failed,
}
use perpetua_contracts.Factory.Host.{Env, Store, Event, require_auth, set_config, load_config}

abbrev pub default_rate_limit_window_ledgers : ℕ
default_rate_limit_window_ledgers = 17280

abbrev pub default_max_duration : ℕ
default_max_duration = 157680000

-- The configuration that `init` writes.
abbrev pub first_config : Address → Address → WasmHash → ℤ → ℕ → FactoryConfig
first_config admin stream_contract stream_wasm_hash max_deposit min_duration = record {
  admin = admin;
  stream_contract = stream_contract;
  stream_wasm_hash = stream_wasm_hash;
  max_deposit = max_deposit;
  min_duration = min_duration;
  max_duration = default_max_duration;
  batch_cap_enforced = true;
  creation_paused = false;
  recipient_allowlist_enabled = false;
  min_rate_per_second = none;
  max_rate_per_second = none;
  max_active_streams = u32_max;
  active_streams = 0;
  max_creations_per_window = u32_max;
  rate_limit_window_ledgers = default_rate_limit_window_ledgers;
}

unfoldable pub init : Env → Address → Address → WasmHash → ℤ → ℕ → Store → Outcome Store
init env admin stream_contract stream_wasm_hash max_deposit min_duration s = do
  refuse_if (is_some s.config) FactoryError.already_initialized
  require_auth env admin
  refuse_if (ltb default_max_duration min_duration) FactoryError.invalid_duration
  refuse_if (leb_ℤ max_deposit (pos 0)) FactoryError.invalid_deposit
  done (set_config (first_config admin stream_contract stream_wasm_hash max_deposit min_duration) s)

abbrev pub is_zero_address : Env → Address → Bool
is_zero_address env a = a == env.zero_address

unfoldable pub is_forbidden_admin : Env → Address → Bool
is_forbidden_admin env a = is_zero_address env a || a == env.self

-- The configuration, if the admin authorizes the call.
unfoldable pub guard : Env → Store → Outcome FactoryConfig
unfolding load_config
guard env s = do config ← load_config s; require_auth env config.admin; done config

unfoldable pub set_admin : Env → Address → Store → Outcome Store
set_admin env new_admin s = do
  config ← guard env s
  refuse_if (is_forbidden_admin env new_admin) FactoryError.invalid_new_admin
  let s = set_config (record config { admin = new_admin }) s
  done (record s { pending_admin = none })

unfoldable pub propose_admin : Env → Address → Store → Outcome Store
propose_admin env new_admin s = do
  config ← guard env s
  refuse_if (is_forbidden_admin env new_admin) FactoryError.invalid_new_admin
  done (record s {
    pending_admin = some new_admin;
    events = Event.admin_transfer_proposed config.admin new_admin ∷ s.events;
  })

unfoldable pub accept_admin : Env → Store → Outcome Store
accept_admin env s = do
  pending ← or_failed s.pending_admin FactoryError.no_pending_admin
  require_auth env pending
  config ← load_config s
  let s = set_config (record config { admin = pending }) s
  done (record s {
    pending_admin = none;
    events = Event.admin_transferred config.admin pending ∷ s.events;
  })
