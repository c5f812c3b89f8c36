-- ===== src/Stream/Contract.antt =====
-- The whole interface of contracts/stream/src/lib.rs: the calls that can change the state, and the
-- states that sequences of them reach. A call that fails or traps changes nothing, so only the
-- calls that succeed are steps.
pub mod Soundness
pub mod History
pub mod Permanence
pub mod Reachability
use perpetua_contracts.Prelude.{ℕ, ◌≤◌, ◌≡◌, Bool, false, Option, List}
use perpetua_contracts.Prelude.Int.{ℤ}
use perpetua_contracts.Stream.Error.{Result, ok, ◌>>=◌}
use perpetua_contracts.Stream.Types.{Address}
use perpetua_contracts.Stream.Host.{Env, World, Payload}
use perpetua_contracts.Words.{u64_max}
use perpetua_contracts.Stream.Lifecycle
use perpetua_contracts.Stream.Pausing
use perpetua_contracts.Stream.Recipient
use perpetua_contracts.Stream.Batch
use perpetua_contracts.Stream.Batch.Preflight.{RawValue}
use perpetua_contracts.Stream.Delegation
use perpetua_contracts.Stream.Keeper

pub data Call : Type 0 where
  create_stream : Address → Address → Address → ℤ → ℕ → ℕ → ℕ → Bool → Bool → Bool → Call
  top_up : ℕ → ℤ → Call
  withdraw : ℕ → Option ℤ → Call
  batch_withdraw : Address → List RawValue → Call
  cancel pause resume : ℕ → Call
  transfer_recipient : ℕ → Address → Call
  batch_transfer_recipient : List RawValue → Address → Call
  grant_delegate : ℕ → Address → Address → ℕ → Option ℕ → Call
  revoke_delegate : ℕ → Address → Address → Call
  delegate_withdraw : ℕ → Address → Option ℤ → Call
  delegate_cancel delegate_pause delegate_resume : ℕ → Address → Call
  delegate_top_up : ℕ → Address → ℤ → Call
  delegate_transfer_recipient : ℕ → Address → Address → Call
  extend_stream_ttl : ℕ → Call
  batch_extend_ttl : List RawValue → Call

abbrev pub state_of : {A : Type 0} → Result (A × World) → Result World
state_of r = r >>= λ x. ok x.1

-- The state after a call, its value left aside.
unfoldable pub perform : Env → Call → World → Result World
perform env (Call.create_stream sender recipient token deposit a b c x y z) w =
    state_of (Lifecycle.create_stream env sender recipient token deposit a b c x y z w)
perform env (Call.top_up id amount) w = Lifecycle.top_up env id amount w
perform env (Call.withdraw id amount) w = state_of (Lifecycle.withdraw env id amount w)
perform env (Call.batch_withdraw recipient raws) w =
    state_of (Batch.batch_withdraw env recipient raws w)
perform env (Call.cancel id) w = Lifecycle.cancel env id w
perform env (Call.pause id) w = Pausing.pause env id w
perform env (Call.resume id) w = Pausing.resume env id w
perform env (Call.transfer_recipient id r) w = Recipient.transfer_recipient env id r w
perform env (Call.batch_transfer_recipient raws r) w =
    state_of (Batch.batch_transfer_recipient env raws r w)
perform env (Call.grant_delegate id grantor delegate ops expires) w =
    Delegation.grant_delegate env id grantor delegate ops expires w
perform env (Call.revoke_delegate id grantor delegate) w =
    Delegation.revoke_delegate env id grantor delegate w
perform env (Call.delegate_withdraw id delegate amount) w =
    state_of (Delegation.delegate_withdraw env id delegate amount w)
perform env (Call.delegate_cancel id delegate) w = Delegation.delegate_cancel env id delegate w
perform env (Call.delegate_pause id delegate) w = Delegation.delegate_pause env id delegate w
perform env (Call.delegate_resume id delegate) w = Delegation.delegate_resume env id delegate w
perform env (Call.delegate_top_up id delegate amount) w =
    Delegation.delegate_top_up env id delegate amount w
perform env (Call.delegate_transfer_recipient id delegate r) w =
    Delegation.delegate_transfer_recipient env id delegate r w
perform env (Call.extend_stream_ttl id) w = state_of (Keeper.extend_stream_ttl env id w)
perform env (Call.batch_extend_ttl raws) w = state_of (Keeper.batch_extend_ttl env raws w)

-- What the host grants every call: a 64-bit clock, and no authorization in the contract's own
-- name, since the contract calls itself nowhere.
pub record HostRules (env : Env) : Type 0 where
  pub clock : env.now ≤ u64_max
  pub silent : (args : Payload) → env.authorized env.self args ≡ false
