-- ===== src/Stream/Host.antt =====
-- What the Soroban host and the token contract are to the streaming contract: the environment of
-- one call (`Env` of the source, with the host's answers as functions) and the ledger state that a
-- call reads and writes. A call is a function of the state, whose writes are kept only if it succeeds.
use perpetua_contracts.Prelude.{ℕ, ◌+◌, ◌-◌, Bool, true, false, Option, List, ◌∷◌, ⊤}
use perpetua_contracts.Prelude.Int.{ℤ}
use perpetua_contracts.Stream.Error.{Error, Result, ok, err, trap}
use perpetua_contracts.Stream.Types.{Address, Stream, DelegateGrant}
use perpetua_contracts.Stream.Event.{Event}

-- A call `token.transfer(source, target, amount)`.
pub record Transfer : Type 0 where
  pub token : Address
  pub source : Address
  pub target : Address
  pub amount : ℤ

-- The results of `try_transfer`: `Ok(Ok(()))`, `Ok(Err(_))`, `Err(Ok(_))`,
-- `Err(Err(InvokeError::Contract(_)))` and `Err(Err(InvokeError::Abort))`.
pub data TransferOutcome : Type 0 where
  done unreadable typed_error contract_error aborted : TransferOutcome

-- The arguments that an address authorizes (`require_auth_for_args`); `whole_call` is
-- `require_auth`, which is about the arguments of the invocation.
pub data Payload : Type 0 where
  create_args : Address → Address → ℤ → ℕ → ℕ → ℕ → Bool → Bool → Bool → Payload
  id_args : ℕ → Payload
  amount_args : ℕ → ℤ → Payload
  withdraw_args : ℕ → Option ℤ → Payload
  address_args : ℕ → Address → Payload
  grant_args : ℕ → Address → ℕ → Option ℕ → Payload
  batch_args : List ℕ → Payload
  whole_call : Payload

pub record Env : Type 0 where
  -- `current_contract_address`
  pub self : Address
  -- `ledger().timestamp()` and `ledger().sequence()`
  pub now : ℕ
  pub sequence : ℕ
  -- `storage().max_ttl()`, and the TTL that the host gives a new entry
  pub max_ttl : ℕ
  pub min_ttl : ℕ
  -- whether an address authorizes these arguments in this invocation
  pub authorized : Address → Payload → Bool
  -- the token contract's answer, given the transfers that it has made so far
  pub try_transfer : List Transfer → Transfer → TransferOutcome
  -- the TTL of an entry after `extend_ttl(threshold, extend_to)`, from its TTL before
  pub extended : ℕ → ℕ → ℕ → ℕ

-- The readable entries of the contract's storage, with the ledger until which each lives, and the
-- transfers and events so far, newest first.
pub record World : Type 0 where
  pub next_id : Option ℕ
  pub instance_live_until : ℕ
  pub streams : ℕ → Option Stream
  pub stream_live_until : ℕ → ℕ
  pub delegates : ℕ → Address → Option DelegateGrant
  pub delegate_live_until : ℕ → Address → ℕ
  pub transfers : List Transfer
  pub events : List Event

abbrev pub trap_unless : Bool → Result ⊤
trap_unless true = ok tt
trap_unless false = trap

-- `require_auth`: the host traps if the authorization is missing.
abbrev pub require_auth : Env → Address → Payload → Result ⊤
require_auth env who args = trap_unless (env.authorized who args)

abbrev pub publish : Event → World → World
publish e w = record w { events = e ∷ w.events }

-- The ledger until which an entry lives after `extend_ttl(threshold, extend_to)`.
abbrev pub live_until : Env → ℕ → ℕ → ℕ → ℕ
live_until env until threshold extend_to =
    env.sequence + env.extended (until - env.sequence) threshold extend_to

-- `token_transfer` of contracts/stream/src/lib.rs: what the token's answer makes of the call.
abbrev pub transferred : TransferOutcome → World → Transfer → Result World
transferred TransferOutcome.done w t = ok (record w { transfers = t ∷ w.transfers })
transferred TransferOutcome.unreadable w t = err Error.token_transfer_failed
transferred TransferOutcome.typed_error w t = err Error.token_transfer_failed
transferred TransferOutcome.contract_error w t = err Error.token_transfer_failed
transferred TransferOutcome.aborted w t = err Error.token_missing

abbrev pub transfer_of : Address → Address → Address → ℤ → Transfer
transfer_of token source target amount = record {
  token = token;
  source = source;
  target = target;
  amount = amount;
}

unfoldable pub token_transfer : Env → Address → Address → Address → ℤ → World → Result World
token_transfer env token source target amount w =
    let t = transfer_of token source target amount in
    transferred (env.try_transfer w.transfers t) w t
