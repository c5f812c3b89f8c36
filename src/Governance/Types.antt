-- ===== src/Governance/Types.antt =====
-- The data types of contracts/governance/src/lib.rs. An address and a hash are numbers, since the
-- code only compares and stores them; a `Bytes` is the list of its bytes.
use perpetua_contracts.Prelude.{ℕ, ◌==◌, Bool, true, false, List}
use perpetua_contracts.Prelude.Int.{ℤ}
use perpetua_contracts.Outcome.{Outcome as CallOutcome}
use Prim.Native.String.{String}
pub use perpetua_contracts.Outcome.{
  trap, failed, done, ◌>>=◌, ◌>>◌, refuse_if, or_failed, or_trap, Outcome-cases, >>=-eq-done,
  refuse_if-eq-done,
}

abbrev pub Address : Type 0
Address = ℕ

abbrev pub Bytes : Type 0
Bytes = List ℕ

abbrev pub WasmHash : Type 0
WasmHash = ℕ

pub data ProposalStatus : Type 0 where
  proposed approved queued executed cancelled : ProposalStatus

pub record Proposal : Type 0 where
  pub proposer : Address
  pub target : Address
  pub calldata : Bytes
  pub approvals : List Address
  pub approval_weight : ℕ
  pub created_at : ℕ
  pub eta : ℕ
  pub signer_generation : ℕ
  pub status : ProposalStatus
  pub executed : Bool
  pub cancelled : Bool

pub data GovernanceError : Type 0 where
  not_initialized already_initialized unauthorized not_a_signer proposal_not_found : GovernanceError
  already_executed quorum_not_reached timelock_not_elapsed timelock_not_met : GovernanceError
  already_approved calldata_too_large too_many_signers proposal_expired : GovernanceError
  proposal_cancelled not_proposer_or_admin invalid_threshold quorum_would_break : GovernanceError
  duplicate_signer arithmetic_overflow calldata_empty invalid_calldata : GovernanceError
  invalid_signer_generation reentrancy_guard too_many_emergency_guardians : GovernanceError
  duplicate_emergency_guardian invalid_proposal_state batch_too_large : GovernanceError

-- How an entry point of the governance contract ends.
abbrev pub Outcome {κ} : Type κ → Type κ
Outcome Value = CallOutcome GovernanceError Value

-- One entry of a batch.
pub record ExecutionCall : Type 0 where
  pub target : Address
  pub calldata : Bytes

pub data CallData : Type 0 where
  noop : CallData
  batch : List ExecutionCall → CallData
  stream_set_admin : Address → CallData
  stream_set_max_rate : ℤ → CallData
  stream_global_resume : CallData
  stream_bulk_resume_as_admin : List ℕ → CallData
  factory_set_admin : Address → CallData
  factory_set_cap : ℤ → CallData
  factory_set_min_duration : ℕ → CallData
  factory_set_allowlist : Address → Bool → CallData
  factory_set_stream_contract : Address → CallData
  factory_set_stream_wasm_hash : WasmHash → CallData

pub record QuorumInfo : Type 0 where
  pub reached_at : ℕ
  pub threshold : ℕ

pub data Event : Type 0 where
  -- id, proposer, target, time
  proposal_created : ℕ → Address → Address → ℕ → Event
  -- id, voter, count of approvals, time, their weight
  vote_cast : ℕ → Address → ℕ → ℕ → ℕ → Event
  -- id, time of the quorum, time from which it can be executed, threshold
  proposal_queued : ℕ → ℕ → ℕ → ℕ → Event
  -- id, canceller, time
  proposal_cancelled : ℕ → Address → ℕ → Event
  -- id, executor, target, calldata, time
  proposal_executed : ℕ → Address → Address → Bytes → ℕ → Event
  signer_added signer_removed : Address → Event
  -- threshold, count of signers
  quorum_config : ℕ → ℕ → Event
  -- old, new
  threshold_updated : ℕ → ℕ → Event
  admin_changed : Address → Address → Event

-- An argument of a call of another contract, as `into_val` makes it.
pub data Argument : Type 0 where
  address : Address → Argument
  amount : ℤ → Argument
  word : ℕ → Argument
  words : List ℕ → Argument
  flag : Bool → Argument
  hash : WasmHash → Argument

-- A call of another contract: `invoke_contract`.
pub record Invocation : Type 0 where
  pub target : Address
  pub function : String
  pub arguments : List Argument

-- The members of `DataKey` that stand for entries of persistent storage.
pub data EntryKey : Type 0 where
  proposal quorum_reached_at proposal_approval_idx : ℕ → EntryKey

abbrev pub same_key : EntryKey → EntryKey → Bool
same_key (EntryKey.proposal a) (EntryKey.proposal b) = a == b
same_key (EntryKey.quorum_reached_at a) (EntryKey.quorum_reached_at b) = a == b
same_key (EntryKey.proposal_approval_idx a) (EntryKey.proposal_approval_idx b) = a == b
same_key _ _ = false

abbrev pub is_terminal : ProposalStatus → Bool
is_terminal ProposalStatus.proposed = false
is_terminal ProposalStatus.approved = false
is_terminal ProposalStatus.queued = false
is_terminal ProposalStatus.executed = true
is_terminal ProposalStatus.cancelled = true
