-- ===== src/Governance/Frame.antt =====
-- The entries of contracts/governance/src/lib.rs that a call leaves alone.
use perpetua_contracts.Prelude.{◌≡◌}
use perpetua_contracts.Governance.Host.{Store}

-- The configuration of the contract is the same.
pub record SameBoard (s s' : Store) : Type 0 where
  pub same_admin : s'.admin ≡ s.admin
  pub same_signers : s'.signers ≡ s.signers
  pub same_index : s'.signer_index ≡ s.signer_index
  pub same_threshold : s'.threshold ≡ s.threshold
  pub same_generation : s'.signer_generation ≡ s.signer_generation
  pub same_weights : s'.signer_weights ≡ s.signer_weights
  pub same_guardians : s'.emergency_guardians ≡ s.emergency_guardians
  pub same_grace : s'.grace_period ≡ s.grace_period

-- The proposals and what belongs to them are the same.
pub record SameProposals (s s' : Store) : Type 0 where
  pub same_proposals : s'.proposals ≡ s.proposals
  pub same_quorum : s'.quorum_reached_at ≡ s.quorum_reached_at
  pub same_approvals : s'.proposal_approval_idx ≡ s.proposal_approval_idx
  pub same_next : s'.next_proposal_id ≡ s.next_proposal_id
  pub same_executing : s'.executing ≡ s.executing
  pub same_invoked : s'.invoked ≡ s.invoked
