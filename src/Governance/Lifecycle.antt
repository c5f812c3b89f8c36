-- ===== src/Governance/Lifecycle.antt =====
-- The life of a proposal as contracts/governance/src/lib.rs documents it: the state machine of
-- `ProposalStatus`, and what a call can do to the proposal of an id.
use perpetua_contracts.Prelude.{ℕ, ◌≤◌, ◌≡◌, true, false, none, some}
use perpetua_contracts.Governance.Types.{ProposalStatus, Proposal, is_terminal}
use perpetua_contracts.Governance.Host.{Store}
use perpetua_contracts.Governance.Storage.{get_signer_generation, read_next_proposal_id}
use perpetua_contracts.Governance.Invariant.{is_open}
use perpetua_contracts.Governance.Contract.{Call}

-- The steps of the status of the proposal `id`, each with the call that makes it.
pub data StatusStep (id : ℕ) (c : Call) (old new : ProposalStatus) : Type 0 where
  vote :
      (voter : ℕ)
      → c ≡ Call.approve voter id
      → is_open old ≡ true
      → new ≡ ProposalStatus.approved
      → StatusStep id c old new
  queue :
      (voter : ℕ)
      → c ≡ Call.approve voter id
      → is_open old ≡ true
      → new ≡ ProposalStatus.queued
      → StatusStep id c old new
  execute :
      (executor : ℕ)
      → c ≡ Call.execute executor id
      → old ≡ ProposalStatus.queued
      → new ≡ ProposalStatus.executed
      → StatusStep id c old new
  cancel :
      (caller : ℕ)
      → c ≡ Call.cancel_proposal caller id
      → is_terminal old ≡ false
      → new ≡ ProposalStatus.cancelled
      → StatusStep id c old new

-- What was proposed stays, and the status makes one step.
pub record Moves (id : ℕ) (c : Call) (p p' : Proposal) : Type 0 where
  pub step : StatusStep id c p.status p'.status
  pub same_proposer : p'.proposer ≡ p.proposer
  pub same_target : p'.target ≡ p.target
  pub same_calldata : p'.calldata ≡ p.calldata
  pub same_creation : p'.created_at ≡ p.created_at
  pub same_generation : p'.signer_generation ≡ p.signer_generation

-- What the call `c` does to the proposal `id`.
pub data Fate (id : ℕ) (c : Call) (s s' : Store) : Type 0 where
  same : s'.proposals id ≡ s.proposals id → Fate id c s s'
  moved :
      (p p' : Proposal)
      → s.proposals id ≡ some p
      → s'.proposals id ≡ some p'
      → Moves id c p p'
      → Fate id c s s'
  created :
      (p : Proposal)
      → id ≡ read_next_proposal_id s
      → s'.proposals id ≡ some p
      → p.status ≡ ProposalStatus.proposed
      → p.signer_generation ≡ get_signer_generation s
      → Fate id c s s'
  pruned :
      (p : Proposal) (start limit : ℕ)
      → c ≡ Call.prune_expired_proposals start limit
      → s.proposals id ≡ some p
      → is_terminal p.status ≡ false
      → s'.proposals id ≡ none
      → Fate id c s s'

-- What every call does to the proposals and to the numbers that tell them apart.
pub record Passes (c : Call) (s s' : Store) : Type 0 where
  pub fate : (id : ℕ) → Fate id c s s'
  pub generation : get_signer_generation s ≤ get_signer_generation s'
  pub next : read_next_proposal_id s ≤ read_next_proposal_id s'
