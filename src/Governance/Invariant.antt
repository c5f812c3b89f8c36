-- ===== src/Governance/Invariant.antt =====
-- The invariant of the storage of contracts/governance/src/lib.rs, once it is set up.
use perpetua_contracts.Prelude.{
  ℕ, ◌+◌, ◌≤◌, ◌<◌, ◌≡◌, Bool, true, false, Option, none, some, List, arith, length, get_or,
}
use perpetua_contracts.Governance.Types.{Address, ProposalStatus, Proposal, QuorumInfo}
use perpetua_contracts.Governance.Host.{Store}
use perpetua_contracts.Governance.Storage.{
  governance_timelock_seconds, max_signers, no_address, get_signer_generation,
  read_next_proposal_id,
}
use perpetua_contracts.Governance.Admin.{contains, has_duplicate}
use perpetua_contracts.Governance.Views.{same_status}
use perpetua_contracts.Governance.Frame.{SameBoard, SameProposals}

-- A board of at most 20 signers, no two the same, that can reach its threshold.
pub record IsBoard (signers : List Address) (index : Address → Bool) (threshold : ℕ) : Type 0 where
  pub reachable : (0 < threshold) × (threshold ≤ length signers)
  pub few : length signers ≤ max_signers
  pub distinct : has_duplicate signers ≡ false
  pub indexed : (a : Address) → index a ≡ contains signers a

pub record HasBoard (s : Store) : Type 0 where
  pub admin : Address
  pub signers : List Address
  pub index : Address → Bool
  pub threshold : ℕ
  pub has_admin : s.admin ≡ some admin
  pub has_signers : s.signers ≡ some signers
  pub has_index : s.signer_index ≡ some index
  pub has_threshold : s.threshold ≡ some threshold
  pub board : IsBoard signers index threshold

-- The quorum that was reached for a proposal that is queued or has been executed.
pub record IsDecided (p : Proposal) (quorum : Option QuorumInfo) : Type 0 where
  pub info : QuorumInfo
  pub recorded : quorum ≡ some info
  pub enough : info.threshold ≤ p.approval_weight
  pub delayed : p.eta ≡ info.reached_at + governance_timelock_seconds
  pub later : p.created_at ≤ info.reached_at

abbrev pub is_decided : ProposalStatus → Bool
is_decided ProposalStatus.proposed = false
is_decided ProposalStatus.approved = false
is_decided ProposalStatus.queued = true
is_decided ProposalStatus.executed = true
is_decided ProposalStatus.cancelled = false

abbrev pub is_open : ProposalStatus → Bool
is_open ProposalStatus.proposed = true
is_open ProposalStatus.approved = true
is_open ProposalStatus.queued = false
is_open ProposalStatus.executed = false
is_open ProposalStatus.cancelled = false

-- A proposal, with the quorum and the approvals that are stored beside it, at the time `now`.
pub record IsSoundProposal (now : ℕ) (p : Proposal) (quorum : Option QuorumInfo)
    (approvals : Option (Address → Bool)) : Type 0 where
  pub flags :
      (p.executed ≡ same_status p.status ProposalStatus.executed)
      × (p.cancelled ≡ same_status p.status ProposalStatus.cancelled)
  pub once : has_duplicate p.approvals ≡ false
  pub indexed : (a : Address) → get_or approvals no_address a ≡ contains p.approvals a
  pub past : p.created_at ≤ now
  pub recent : (info : QuorumInfo) → quorum ≡ some info → info.reached_at ≤ now
  pub undecided : is_open p.status ≡ true → quorum ≡ none
  pub decided : is_decided p.status ≡ true → IsDecided p quorum

pub record IsSound (now : ℕ) (s : Store) : Type 0 where
  pub has_board : HasBoard s
  -- every proposal has an id below the next one, and is of this generation or an earlier one
  pub numbered :
      (id : ℕ) (p : Proposal)
      → s.proposals id ≡ some p
      → (id < read_next_proposal_id s) × (p.signer_generation ≤ get_signer_generation s)
  pub sound :
      (id : ℕ) (p : Proposal)
      → s.proposals id ≡ some p
      → IsSoundProposal now p (s.quorum_reached_at id) (s.proposal_approval_idx id)
  -- nothing is stored beside a proposal that is not there
  pub clean :
      (id : ℕ)
      → s.proposals id ≡ none
      → (s.quorum_reached_at id ≡ none) × (s.proposal_approval_idx id ≡ none)
  pub idle : get_or s.executing false ≡ false

-- A change of the board alone.
pub board_change-IsSound :
    (now : ℕ) (s s' : Store)
    → IsSound now s
    → SameProposals s s'
    → get_signer_generation s ≤ get_signer_generation s'
    → HasBoard s'
    → IsSound now s'
board_change-IsSound now s s' v f later board = record {
  has_board = board;
  numbered = λ id p e. let t = v.numbered id p (rw (← f.same_proposals) e) in ground arith;
  sound = λ id p e. rw (f.same_quorum, f.same_approvals) (v.sound id p (rw (← f.same_proposals) e));
  clean = λ id e. rw (f.same_quorum, f.same_approvals) (v.clean id (rw (← f.same_proposals) e));
  idle = rw (f.same_executing) v.idle;
}

pub SameBoard-HasBoard : (s s' : Store) → SameBoard s s' → HasBoard s → HasBoard s'
SameBoard-HasBoard s s' f b = record {
  admin = b.admin;
  signers = b.signers;
  index = b.index;
  threshold = b.threshold;
  has_admin = ground (arith, f.same_admin);
  has_signers = ground arith;
  has_index = ground arith;
  has_threshold = ground arith;
  board = b.board;
}

-- The clock moves on.
pub IsSound-later : (now later : ℕ) (s : Store) → now ≤ later → IsSound now s → IsSound later s
IsSound-later now later s h v = record {
  has_board = v.has_board;
  numbered = v.numbered;
  sound = λ id p e.
      let x = v.sound id p e in
      record {
        flags = x.flags;
        once = x.once;
        indexed = x.indexed;
        past = omega (arith, x.past);
        recent = λ info f. omega (arith, x.recent info f);
        undecided = x.undecided;
        decided = x.decided;
      };
  clean = v.clean;
  idle = v.idle;
}
