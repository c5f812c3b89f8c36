-- ===== src/Governance/Inversion/Proposing.antt =====
-- `propose` and `cancel_proposal` of contracts/governance/src/lib.rs read backwards.
use perpetua_contracts.Prelude.{
  ℕ, ◌+◌, ◌≤◌, ◌<◌, ◌≡◌, ◌⊎◌, true, false, some, arith, length, get_or, Option-cases, inl, inr,
  refl,
}
use perpetua_contracts.Words.{u32_max}
use perpetua_contracts.Governance.Types.{
  Address, Bytes, ProposalStatus, Proposal, done, is_terminal,
}
use perpetua_contracts.Governance.Host.{Env, Store}
use perpetua_contracts.Governance.Storage.{
  max_calldata_bytes, get_emergency_guardians, read_next_proposal_id, is_registered_signer,
}
use perpetua_contracts.Governance.Admin.{contains}
use perpetua_contracts.Governance.Proposals.{
  new_proposal, propose, check_open, as_cancelled, cancel_proposal,
}
use perpetua_contracts.Governance.Views.{has_signer}
use perpetua_contracts.Governance.Written.{Written}

-- A signer has proposed `p` under the next id.
pub record Proposed (env : Env) (proposer target : Address) (calldata : Bytes) (id : ℕ)
    (s s' : Store) : Type 0 where
  pub is_next : id ≡ read_next_proposal_id s
  pub advanced : (s'.next_proposal_id ≡ some (id + 1)) × (id < u32_max)
  pub signed : env.authorized proposer ≡ true
  pub registered : has_signer s.signer_index proposer ≡ true
  pub sized : (0 < length calldata) × (length calldata ≤ max_calldata_bytes)
  pub change : Written id (new_proposal env proposer target calldata s) s s'
  pub same_quorum : s'.quorum_reached_at ≡ s.quorum_reached_at
  pub same_approvals : s'.proposal_approval_idx ≡ s.proposal_approval_idx
  pub same_invoked : s'.invoked ≡ s.invoked

pub propose_inv :
    (env : Env) (proposer target : Address) (calldata : Bytes) (id : ℕ) (s s' : Store)
    → get_or s.executing false ≡ false
    → propose env proposer target calldata s ≡ done (id, s')
    → Proposed env proposer target calldata id s s'
unfolding propose is_registered_signer
propose_inv env proposer target calldata id s s' idle h = elim (Option-cases s.signer_index) [
  | inl e ↦ absurd (ground arith)
  | inr (index, e) ↦ record {
    is_next = ground arith;
    advanced = ground arith;
    signed = ground arith;
    registered = ground arith;
    sized = ground arith;
    change = record {
      same_board = ground arith;
      written = ground arith;
      next_kept = ground arith;
      other = λ j k. ground arith;
      idle = ground arith;
    };
    same_quorum = ground arith;
    same_approvals = ground arith;
    same_invoked = ground arith;
  }
]

-- Someone entitled to it has cancelled the proposal `id`.
pub record Cancelled (env : Env) (caller : Address) (id : ℕ) (s s' : Store) : Type 0 where
  pub p : Proposal
  pub found : s.proposals id ≡ some p
  pub signed : env.authorized caller ≡ true
  pub unfinished : is_terminal p.status ≡ false
  pub entitled :
      (caller ≡ p.proposer)
      ⊎ ((s.admin ≡ some caller) ⊎ (contains (get_emergency_guardians s) caller ≡ true))
  pub change : Written id (as_cancelled p) s s'
  pub same_quorum : s'.quorum_reached_at ≡ s.quorum_reached_at
  pub same_approvals : s'.proposal_approval_idx ≡ s.proposal_approval_idx
  pub same_next : s'.next_proposal_id ≡ s.next_proposal_id
  pub same_invoked : s'.invoked ≡ s.invoked

open_inv : (status : ProposalStatus) → check_open status ≡ done tt → is_terminal status ≡ false
open_inv ProposalStatus.proposed h = refl
open_inv ProposalStatus.approved h = refl
open_inv ProposalStatus.queued h = refl
open_inv ProposalStatus.executed h = cc
open_inv ProposalStatus.cancelled h = cc

cancel_finds :
    (env : Env) (caller : Address) (id : ℕ) (s s' : Store)
    → cancel_proposal env caller id s ≡ done s'
    → (p : Proposal) × (s.proposals id ≡ some p)
unfolding cancel_proposal
cancel_finds env caller id s s' h = elim (Option-cases (s.proposals id)) [
  | inl e ↦ absurd (ground arith)
  | inr found ↦ found
]

cancel_knows :
    (env : Env) (caller : Address) (id : ℕ) (s s' : Store)
    → cancel_proposal env caller id s ≡ done s'
    → (admin : Address) × (s.admin ≡ some admin)
unfolding cancel_proposal
cancel_knows env caller id s s' h = elim (Option-cases s.admin) [
  | inl e ↦ absurd (ground arith)
  | inr found ↦ found
]

pub cancel_proposal_inv :
    (env : Env) (caller : Address) (id : ℕ) (s s' : Store)
    → get_or s.executing false ≡ false
    → ((p : Proposal) → s.proposals id ≡ some p → id < read_next_proposal_id s)
    → cancel_proposal env caller id s ≡ done s'
    → Cancelled env caller id s s'
unfolding cancel_proposal
cancel_proposal_inv env caller id s s' idle old h =
    let (p, e) = cancel_finds env caller id s s' h in
    let (admin, a) = cancel_knows env caller id s s' h in
    let o = open_inv p.status in
    let below = old p e in
    record {
      p = p;
      found = e;
      signed = ground arith;
      unfinished = ground (arith, o);
      entitled = ground arith;
      change = record {
        same_board = ground arith;
        written = ground arith;
        next_kept = ground arith;
        other = λ j k. ground arith;
        idle = ground arith;
      };
      same_quorum = ground arith;
      same_approvals = ground arith;
      same_next = ground arith;
      same_invoked = ground arith;
    }
