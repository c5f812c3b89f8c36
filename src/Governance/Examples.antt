-- ===== src/Governance/Examples.antt =====
-- Runs of the governance contract on concrete storages.
pub mod Witnesses
use perpetua_contracts.Prelude.{
  ℕ, ◌/◌, ◌≡◌, ◌==◌, Bool, true, false, Option, none, some, List, [], ◌∷◌, refl, if◌then◌else◌, ltb,
}
use perpetua_contracts.Prelude.Int.{pos}
use perpetua_contracts.Governance.Types.{
  Bytes, ProposalStatus, Proposal, ExecutionCall, CallData, Outcome, done, failed, trap,
}
use perpetua_contracts.Governance.Host.{Env, Store}
use perpetua_contracts.Governance.Storage.{is_registered_signer}
use perpetua_contracts.Governance.Dispatch.{
  dispatch_call, dispatch_decoded, dispatch_entries, dispatch_operation,
}
use perpetua_contracts.Governance.Admin
use perpetua_contracts.Governance.Proposals
use perpetua_contracts.Governance.Pruning
use perpetua_contracts.Governance.Contract.{Call, perform}

abbrev pub batch : List ExecutionCall
batch = record { target = 70; calldata = 1 ∷ [] } ∷ record { target = 71; calldata = 2 ∷ [] } ∷ []

-- A toy encoding by the first byte: 1 is a call that does nothing, 2 a cap for the factory, and 3 a
-- batch of the two.
abbrev pub code_of : ℕ → Option CallData
code_of byte =
    if byte == 1
    then some CallData.noop
    else if byte == 2
    then some (CallData.factory_set_cap (pos 500))
    else if byte == 3
    then some (CallData.batch batch)
    else none

abbrev pub decode : Bytes → Option CallData
decode [] = none
decode (byte ∷ bytes) = code_of byte

-- Everyone but the account 9 signs, and every contract that is called returns.
abbrev pub at : ℕ → Env
at now = record {
  now = now;
  sequence = now / 5;
  min_ttl = 17_280;
  extended = λ ttl threshold extend_to. if ltb ttl threshold then extend_to else ttl;
  authorized = λ who. if who == 9 then false else true;
  from_xdr = decode;
  returns = λ made call. true;
}

abbrev pub blank : Store
blank = record {
  admin = none;
  signers = none;
  threshold = none;
  grace_period = none;
  emergency_guardians = none;
  signer_weights = none;
  signer_generation = none;
  next_proposal_id = none;
  signer_index = none;
  executing = none;
  instance_live_until = 0;
  proposals = λ id. none;
  quorum_reached_at = λ id. none;
  proposal_approval_idx = λ id. none;
  live_until = λ key. 0;
  invoked = [];
  events = [];
}

abbrev pub store_after : Outcome Store → Store
store_after (done s) = s
store_after (failed code) = blank
store_after trap = blank

abbrev pub setup : Call
setup = Call.init 1 (2 ∷ 3 ∷ 4 ∷ []) 2

abbrev pub ready : Store
ready = store_after (perform (at 1000) setup blank)

pub sets_up : perform (at 1000) setup blank ≡ done ready
unfolding perform Admin.init
sets_up = refl

abbrev pub proposed : Store
proposed = store_after (perform (at 1005) (Call.propose 2 70 (3 ∷ [])) ready)

pub proposes : perform (at 1005) (Call.propose 2 70 (3 ∷ [])) ready ≡ done proposed
unfolding perform Admin.init Proposals.propose is_registered_signer
proposes = refl

abbrev pub voted : Store
voted = store_after (perform (at 1010) (Call.approve 2 0) proposed)

pub votes : perform (at 1010) (Call.approve 2 0) proposed ≡ done voted
unfolding perform Admin.init Proposals.propose Proposals.approve Proposals.cast_vote
    Proposals.save_approval is_registered_signer
votes = refl

abbrev pub queued : Store
queued = store_after (perform (at 1020) (Call.approve 3 0) voted)

pub queues : perform (at 1020) (Call.approve 3 0) voted ≡ done queued
unfolding perform Admin.init Proposals.propose Proposals.approve Proposals.cast_vote
    Proposals.save_approval Proposals.save_quorum is_registered_signer
queues = refl

-- Two days after the second vote.
abbrev pub due : ℕ
due = 173_820

abbrev pub executed : Store
executed = store_after (perform (at due) (Call.execute 5 0) queued)

pub executes : perform (at due) (Call.execute 5 0) queued ≡ done executed
unfolding perform Admin.init Proposals.propose Proposals.approve Proposals.cast_vote
    Proposals.save_approval Proposals.save_quorum Proposals.execute Proposals.check_executable
    Proposals.run_proposal dispatch_call dispatch_decoded dispatch_entries dispatch_operation
    is_registered_signer
executes = refl

-- The signer 5 joins the board while the proposal is queued.
abbrev pub enlarged : Store
enlarged = store_after (perform (at 1030) (Call.add_signer 5) queued)

pub enlarges : perform (at 1030) (Call.add_signer 5) queued ≡ done enlarged
unfolding perform Admin.init Proposals.propose Proposals.approve Proposals.cast_vote
    Proposals.save_approval Proposals.save_quorum Admin.add_signer is_registered_signer
enlarges = refl

-- A time at which the proposal has expired.
abbrev pub late : ℕ
late = 3_000_000

abbrev pub swept : Store
swept = store_after (perform (at late) (Call.prune_expired_proposals 0 10) queued)

pub sweeps : Pruning.prune_expired_proposals (at late) 0 10 queued ≡ done (1, swept)
unfolding perform Admin.init Proposals.propose Proposals.approve Proposals.cast_vote
    Proposals.save_approval Proposals.save_quorum Pruning.prune_expired_proposals
    Pruning.page_length Pruning.prune_from Pruning.is_prunable Pruning.proposal_is_expired
    Pruning.remove_proposal is_registered_signer
sweeps = refl

-- The batch, carried out by itself.
abbrev pub dispatched : Store
dispatched = store_after (dispatch_call (at due) 70 (3 ∷ []) blank)

pub dispatches : dispatch_call (at due) 70 (3 ∷ []) blank ≡ done dispatched
unfolding dispatch_call dispatch_decoded dispatch_entries dispatch_operation
dispatches = refl

-- The proposal that is queued.
abbrev pub queued_proposal : Proposal
queued_proposal = record {
  proposer = 2;
  target = 70;
  calldata = 3 ∷ [];
  approvals = 2 ∷ 3 ∷ [];
  approval_weight = 2;
  created_at = 1005;
  eta = 173_820;
  signer_generation = 0;
  status = ProposalStatus.queued;
  executed = false;
  cancelled = false;
}

pub queued_found : queued.proposals 0 ≡ some queued_proposal
unfolding perform Admin.init Proposals.propose Proposals.approve Proposals.cast_vote
    Proposals.save_approval Proposals.save_quorum is_registered_signer
queued_found = refl
