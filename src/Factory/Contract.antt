-- ===== src/Factory/Contract.antt =====
-- The calls of contracts/factory/src/lib.rs that can change its storage, and the storage that
-- sequences of them reach.
pub mod Soundness
pub mod Counting
pub mod Reachability
pub mod Admission
use perpetua_contracts.Prelude.{ℕ, ◌≡◌, Bool, true, false, Option, none, [], ⊤}
use perpetua_contracts.Prelude.Int.{ℤ}
use perpetua_contracts.Factory.Types.{Address, WasmHash, FactoryConfig, Outcome, done, ◌>>=◌}
use perpetua_contracts.Factory.Host.{Env, Store, Terms}
use perpetua_contracts.Factory.Admin
use perpetua_contracts.Factory.Policy
use perpetua_contracts.Factory.Limits
use perpetua_contracts.Factory.Creation

pub data Call : Type 0 where
  init : Address → Address → WasmHash → ℤ → ℕ → Call
  set_admin propose_admin : Address → Call
  accept_admin : Call
  set_stream_contract : Address → Call
  set_stream_wasm_hash : WasmHash → Call
  set_cap : ℤ → Call
  set_min_duration set_max_duration : ℕ → Call
  set_allowlist : Address → Bool → Call
  set_allowlist_enabled : Bool → Call
  set_token_allowed : Address → Bool → Call
  set_batch_cap_enforcement set_pause set_factory_paused : Bool → Call
  set_rate_bounds : Option ℤ → Option ℤ → Call
  set_max_active_streams : ℕ → Call
  set_rate_limit : ℕ → ℕ → Call
  record_creation : Address → Call
  create_stream : Terms → Call
  stream_terminated : ℕ → Call

-- The storage after a call, its value left aside.
unfoldable pub perform : Env → Call → Store → Outcome Store
perform env (Call.init a b h d m) s = Admin.init env a b h d m s
perform env (Call.set_admin a) s = Admin.set_admin env a s
perform env (Call.propose_admin a) s = Admin.propose_admin env a s
perform env Call.accept_admin s = Admin.accept_admin env s
perform env (Call.set_stream_contract a) s = Policy.set_stream_contract env a s
perform env (Call.set_stream_wasm_hash h) s = Policy.set_stream_wasm_hash env h s
perform env (Call.set_cap d) s = Policy.set_cap env d s
perform env (Call.set_min_duration m) s = Policy.set_min_duration env m s
perform env (Call.set_max_duration m) s = Policy.set_max_duration env m s
perform env (Call.set_allowlist a b) s = Policy.set_allowlist env a b s
perform env (Call.set_allowlist_enabled b) s = Policy.set_allowlist_enabled env b s
perform env (Call.set_token_allowed a b) s = Policy.set_token_allowed env a b s
perform env (Call.set_batch_cap_enforcement b) s = Policy.set_batch_cap_enforcement env b s
perform env (Call.set_pause b) s = Policy.set_pause env b s
perform env (Call.set_factory_paused b) s = Policy.set_factory_paused env b s
perform env (Call.set_rate_bounds a b) s = Policy.set_rate_bounds env a b s
perform env (Call.set_max_active_streams n) s = Policy.set_max_active_streams env n s
perform env (Call.set_rate_limit n m) s = Policy.set_rate_limit env n m s
perform env (Call.record_creation a) s = Limits.record_creation env a s
perform env (Call.create_stream terms) s = Creation.create_stream env terms s >>= λ r. done r.1
perform env (Call.stream_terminated id) s = Creation.stream_terminated env id s

-- What the host grants every call: neither the account without a key nor the factory itself, which
-- calls itself nowhere, authorizes anything.
pub record HostRules (env : Env) : Type 0 where
  pub unsigned : env.authorized env.zero_address ≡ false
  pub silent : env.authorized env.self ≡ false
