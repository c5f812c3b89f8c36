-- ===== src/Governance/Host.antt =====
-- The host of contracts/governance/src/lib.rs and its storage: `Env` holds the answers of the host
-- and of the contracts that it calls, `Store` the entries under its `DataKey`.
use perpetua_contracts.Prelude.{ℕ, ◌+◌, ◌-◌, Bool, Option, List, ◌∷◌, ⊤, if◌then◌else◌, is_some}
use perpetua_contracts.Governance.Types.{
  Address, Bytes, Proposal, CallData, QuorumInfo, Event, Invocation, EntryKey, same_key, Outcome,
  done, trap,
}

pub record Env : Type 0 where
  -- `ledger().timestamp()` and `ledger().sequence()`
  pub now : ℕ
  pub sequence : ℕ
  -- the TTL that the host gives a new entry of persistent storage
  pub min_ttl : ℕ
  -- the TTL of an entry after `extend_ttl(threshold, extend_to)`, from its TTL before
  pub extended : ℕ → ℕ → ℕ → ℕ
  -- whether `require_auth` of this address passes in this call
  pub authorized : Address → Bool
  -- `CallData::from_xdr`
  pub from_xdr : Bytes → Option CallData
  -- whether the called contract returns, after the calls made so far
  pub returns : List Invocation → Invocation → Bool

-- The instance entries, the persistent entries with the ledger until which each lives, and the
-- calls of other contracts and the events so far, newest first.
pub record Store : Type 0 where
  pub admin : Option Address
  pub signers : Option (List Address)
  pub threshold : Option ℕ
  pub grace_period : Option ℕ
  pub emergency_guardians : Option (List Address)
  pub signer_weights : Option (Address → Option ℕ)
  pub signer_generation : Option ℕ
  pub next_proposal_id : Option ℕ
  pub signer_index : Option (Address → Bool)
  pub executing : Option Bool
  pub instance_live_until : ℕ
  pub proposals : ℕ → Option Proposal
  pub quorum_reached_at : ℕ → Option QuorumInfo
  pub proposal_approval_idx : ℕ → Option (Address → Bool)
  pub live_until : EntryKey → ℕ
  pub invoked : List Invocation
  pub events : List Event

abbrev pub require_auth : Env → Address → Outcome ⊤
require_auth env who = if env.authorized who then done tt else trap

abbrev pub publish : Event → Store → Store
publish e s = record s { events = e ∷ s.events }

-- `invoke_contract`: a call that fails traps the caller. A contract that is called cannot come back
-- to this one, since the host refuses to enter a contract that is running.
abbrev pub invoke_contract : Env → Invocation → Store → Outcome Store
invoke_contract env call s =
    if env.returns s.invoked call then done (record s { invoked = call ∷ s.invoked }) else trap

-- The ledger until which an entry lives after `extend_ttl(threshold, extend_to)`.
abbrev pub extend_ttl : Env → ℕ → ℕ → ℕ → ℕ
extend_ttl env until threshold extend_to =
    env.sequence + env.extended (until - env.sequence) threshold extend_to

abbrev pub has : Store → EntryKey → Bool
has s (EntryKey.proposal id) = is_some (s.proposals id)
has s (EntryKey.quorum_reached_at id) = is_some (s.quorum_reached_at id)
has s (EntryKey.proposal_approval_idx id) = is_some (s.proposal_approval_idx id)

-- `set` writes a new entry with the host's first TTL, and leaves the life of an old one alone.
unfoldable pub live_once_set : Env → EntryKey → Store → EntryKey → ℕ
live_once_set env key s k =
    if same_key k key
    then (if has s key then s.live_until key else env.sequence + env.min_ttl)
    else s.live_until k
