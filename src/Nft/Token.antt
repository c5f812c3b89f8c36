-- ===== src/Nft/Token.antt =====
-- The state and the entry points of contracts/stream-nft/src/lib.rs.
use perpetua_contracts.Prelude.{
  ℕ, ◌+◌, ◌-◌, Bool, true, false, Option, none, some, ⊤, ltb, ◌==◌, is_some, get_or, if◌then◌else◌,
  update,
}
use Prim.Native.String.{String}
use perpetua_contracts.Words.{u64_max, u32_checked_add}
use perpetua_contracts.Outcome.{Outcome as CallOutcome}
use perpetua_contracts.Outcome.{trap, done, ◌>>=◌, ◌>>◌, refuse_if, or_failed, or_trap}

abbrev pub Address : Type 0
Address = ℕ

pub record Config : Type 0 where
  pub stream : Address
  pub name : String
  pub symbol : String
  pub decimals : ℕ

pub data Error : Type 0 where
  already_initialized not_initialized already_minted token_not_found : Error
  not_owner stream_rejected : Error

abbrev pub Outcome {κ} : Type κ → Type κ
Outcome Value = CallOutcome Error Value

pub record Env : Type 0 where
  -- `ledger().sequence()` and `storage().max_ttl()`, and the TTL of a new entry
  pub sequence : ℕ
  pub max_ttl : ℕ
  pub min_ttl : ℕ
  -- the TTL of an entry after `extend_ttl(threshold, extend_to)`, from its TTL before
  pub extended : ℕ → ℕ → ℕ → ℕ
  -- `env.caller()`, and whether `require_auth` of an address passes
  pub caller : Address
  pub authorized : Address → Bool
  -- what `transfer_recipient` of the contract at an address answers: nothing if it traps, and
  -- otherwise whether it is `Ok`
  pub transfer_recipient : Address → ℕ → Address → Option Bool

-- The entries under `DataKey`, with the ledgers until which they live.
pub record Store : Type 0 where
  pub config : Option Config
  pub owner : ℕ → Option Address
  pub balance : Address → Option ℕ
  pub supply : Option ℕ
  pub instance_live_until : ℕ
  pub owner_live_until : ℕ → ℕ
  pub balance_live_until : Address → ℕ

abbrev pub require_auth : Env → Address → Outcome ⊤
require_auth env who = if env.authorized who then done tt else trap

-- The ledger until which an entry lives after `extend_ttl(max_ttl, max_ttl)`.
unfoldable pub extended_to : Env → ℕ → ℕ
extended_to env until = env.sequence + env.extended (until - env.sequence) env.max_ttl env.max_ttl

-- `set` writes a new entry with the host's first TTL, and leaves the life of an old one alone.
unfoldable pub live_once_set : Env → Bool → ℕ → ℕ
live_once_set env present until = if present then until else env.sequence + env.min_ttl

abbrev pub bump_config : Env → Store → Store
bump_config env s = record s { instance_live_until = extended_to env s.instance_live_until }

abbrev pub bump_owner : Env → ℕ → Store → Store
bump_owner env id s = record s {
  owner_live_until = update s.owner_live_until id (extended_to env (s.owner_live_until id));
}

abbrev pub bump_balance : Env → Address → Store → Store
bump_balance env who s = record s {
  balance_live_until = update s.balance_live_until who (extended_to env (s.balance_live_until who));
}

abbrev pub set_owner : Env → ℕ → Address → Store → Store
set_owner env id who s = bump_owner env id (record s {
  owner = update s.owner id (some who);
  owner_live_until =
      update s.owner_live_until id
        (live_once_set env (is_some (s.owner id)) (s.owner_live_until id));
})

abbrev pub set_balance : Env → Address → ℕ → Store → Store
set_balance env who n s = bump_balance env who (record s {
  balance = update s.balance who (some n);
  balance_live_until =
      update s.balance_live_until who
        (live_once_set env (is_some (s.balance who)) (s.balance_live_until who));
})

abbrev pub get_config : Env → Store → Outcome (Config × Store)
get_config env s = do config ← or_trap s.config; done (config, bump_config env s)

unfoldable pub init : Env → Address → String → String → Store → Outcome Store
init env stream name symbol s = do
  refuse_if (is_some s.config) Error.already_initialized
  done (record s {
    config = some (record { stream = stream; name = name; symbol = symbol; decimals = 0 });
  })

unfoldable pub stream_contract : Env → Store → Outcome (Address × Store)
stream_contract env s = do (config, s) ← get_config env s; done (config.stream, s)

unfoldable pub name : Env → Store → Outcome (String × Store)
name env s = do (config, s) ← get_config env s; done (config.name, s)

unfoldable pub symbol : Env → Store → Outcome (String × Store)
symbol env s = do (config, s) ← get_config env s; done (config.symbol, s)

unfoldable pub decimals : Env → Store → Outcome (ℕ × Store)
decimals env s = do (config, s) ← get_config env s; done (config.decimals, s)

unfoldable pub owner_of : Env → ℕ → Store → Option Address × Store
owner_of env id s = (s.owner id, if is_some (s.owner id) then bump_owner env id s else s)

unfoldable pub balance_of : Env → Address → Store → ℕ × Store
balance_of env who s =
    let n = get_or (s.balance who) 0 in (n, if ltb 0 n then bump_balance env who s else s)

unfoldable pub total_supply : Store → ℕ
total_supply s = get_or s.supply 0

-- One token more for `who`: the sum is checked, and an overflow traps.
unfoldable pub credit : Env → Address → Store → Outcome Store
credit env who s = do
  n ← or_trap (u32_checked_add (get_or (s.balance who) 0) 1)
  done (set_balance env who n s)

-- One token less for `who`.
unfoldable pub debit : Env → Address → Store → Store
debit env who s =
    let n = get_or (s.balance who) 0 in
    if n == 1
    then record s { balance = update s.balance who none }
    else if ltb 1 n
    then set_balance env who (n - 1) s
    else s

unfoldable pub mint : Env → ℕ → Store → Outcome Store
mint env id s = do
  require_auth env env.caller
  refuse_if (is_some (s.owner id)) Error.already_minted
  let supply = get_or s.supply 0
  refuse_if (supply == u64_max) Error.token_not_found
  s ← credit env env.caller (set_owner env id env.caller s)
  done (record s { supply = some (supply + 1) })

-- `transfer_claim`: a call that traps traps the caller, and `Err` is an error of its own.
unfoldable pub transfer_claim : Env → Config → ℕ → Address → Outcome ⊤
transfer_claim env config id to = do
  accepted ← or_trap (env.transfer_recipient config.stream id to)
  refuse_if (if accepted then false else true) Error.stream_rejected

unfoldable pub transfer : Env → ℕ → Address → Store → Outcome Store
transfer env id to s = do
  (config, s) ← get_config env s
  from ← or_failed (s.owner id) Error.token_not_found
  require_auth env from
  transfer_claim env config id to
  credit env to (debit env from (set_owner env id to s))
