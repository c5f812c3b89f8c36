-- ===== src/Governance/Proposals.antt =====
-- The life of a proposal: `propose`, `approve`, `execute` and `cancel_proposal` of
-- contracts/governance/src/lib.rs.
use perpetua_contracts.Prelude.{
  ℕ, Bool, true, false, not, ◌&&◌, some, [], ◌∷◌, ◌++◌, ⊤, ltb, ◌==◌, get_or, if◌then◌else◌, length,
  update,
}
use perpetua_contracts.Words.{u64_checked_add}
use perpetua_contracts.Governance.Types.{
  Address, Bytes, ProposalStatus, Proposal, GovernanceError, QuorumInfo, Event, EntryKey, Outcome,
  done, failed, ◌>>=◌, ◌>>◌, refuse_if, or_failed,
}
use perpetua_contracts.Governance.Host.{Env, Store, require_auth, publish, live_once_set}
use perpetua_contracts.Governance.Storage.{
  governance_timelock_seconds, max_calldata_bytes, max_proposal_age_seconds, bump_instance,
  bump_active_entry, get_approval_index, save_approval_index, get_admin, get_emergency_guardians,
  get_threshold, get_signer_generation, get_grace_period, checked_deadline, signer_weight,
  increment_proposal_id, load_proposal, save_proposal, is_registered_signer,
}
use perpetua_contracts.Governance.Dispatch.{dispatch_call}
use perpetua_contracts.Governance.Admin.{contains}

abbrev pub new_proposal : Env → Address → Address → Bytes → Store → Proposal
new_proposal env proposer target calldata s = record {
  proposer = proposer;
  target = target;
  calldata = calldata;
  approvals = [];
  approval_weight = 0;
  created_at = env.now;
  eta = 0;
  signer_generation = get_signer_generation s;
  status = ProposalStatus.proposed;
  executed = false;
  cancelled = false;
}

unfoldable pub propose : Env → Address → Address → Bytes → Store → Outcome (ℕ × Store)
propose env proposer target calldata s = do
  require_auth env proposer
  registered ← is_registered_signer s proposer
  refuse_if (not registered) GovernanceError.not_a_signer
  refuse_if (length calldata == 0) GovernanceError.calldata_empty
  refuse_if (ltb max_calldata_bytes (length calldata)) GovernanceError.calldata_too_large
  (id, s) ← increment_proposal_id s
  let s = bump_instance env (save_proposal env id (new_proposal env proposer target calldata s) s)
  done (id, publish (Event.proposal_created id proposer target env.now) s)

-- The guard of `approve` on the status.
abbrev pub check_votable : ProposalStatus → Outcome ⊤
check_votable ProposalStatus.cancelled = failed GovernanceError.proposal_cancelled
check_votable ProposalStatus.executed = failed GovernanceError.already_executed
check_votable ProposalStatus.queued = failed GovernanceError.invalid_proposal_state
check_votable ProposalStatus.proposed = done tt
check_votable ProposalStatus.approved = done tt

abbrev pub check_age : Env → Proposal → Outcome ⊤
check_age env p = do
  limit ← checked_deadline p.created_at max_proposal_age_seconds
  refuse_if (ltb limit env.now) GovernanceError.proposal_expired

-- The proposal with one approval more.
abbrev pub with_approval : Proposal → Address → ℕ → Proposal
with_approval p approver accumulated = record p {
  approvals = p.approvals ++ approver ∷ [];
  approval_weight = accumulated;
}

-- The entries and the event that every approval writes.
unfoldable pub save_approval : Env → Address → ℕ → Proposal → (Address → Bool) → Store → Store
save_approval env approver id p index s =
    publish (Event.vote_cast id approver (length p.approvals) env.now p.approval_weight) (
      bump_instance env (
        save_approval_index env id (update index approver true) p.status
          (save_proposal env id p s)))

-- What an approval writes besides if the quorum is reached.
unfoldable pub save_quorum : Env → ℕ → ℕ → ℕ → Store → Store
save_quorum env id executable_after threshold s =
    let key = EntryKey.quorum_reached_at id in
    publish (Event.proposal_queued id env.now executable_after threshold) (
      bump_active_entry env key ProposalStatus.queued (record s {
        quorum_reached_at =
            update s.quorum_reached_at id
              (some (record { reached_at = env.now; threshold = threshold }));
        live_until = live_once_set env key s;
      }))

-- The vote on a proposal that has been read, from the guard on its status on.
unfoldable pub cast_vote : Env → Address → ℕ → Proposal → Store → Outcome Store
cast_vote env approver id p s = do
  check_votable p.status
  check_age env p
  let (index, s) = get_approval_index env id p.status s
  refuse_if (index approver) GovernanceError.already_approved
  accumulated ←
      or_failed (u64_checked_add p.approval_weight (signer_weight s approver))
        GovernanceError.arithmetic_overflow
  threshold ← get_threshold s
  if ltb accumulated threshold
      then done (
          save_approval env approver id
            (record (with_approval p approver accumulated) { status = ProposalStatus.approved })
            index s)
      else (do
        executable_after ← checked_deadline env.now governance_timelock_seconds
        done (
            save_quorum env id executable_after threshold (
              save_approval env approver id
                (record (with_approval p approver accumulated) {
                  eta = executable_after;
                  status = ProposalStatus.queued;
                })
                index s)))

unfoldable pub approve : Env → Address → ℕ → Store → Outcome Store
approve env approver id s = do
  require_auth env approver
  registered ← is_registered_signer s approver
  refuse_if (not registered) GovernanceError.not_a_signer
  (p, s) ← load_proposal env id s
  cast_vote env approver id p s

abbrev pub executable_after : QuorumInfo → Outcome ℕ
executable_after info = checked_deadline info.reached_at governance_timelock_seconds

-- The guard of `execute` on the status.
abbrev pub check_queued : ProposalStatus → Outcome ⊤
check_queued ProposalStatus.cancelled = failed GovernanceError.proposal_cancelled
check_queued ProposalStatus.executed = failed GovernanceError.already_executed
check_queued ProposalStatus.proposed = failed GovernanceError.quorum_not_reached
check_queued ProposalStatus.approved = failed GovernanceError.quorum_not_reached
check_queued ProposalStatus.queued = done tt

-- The guards of `execute` on the proposal, from its status to the end of the grace period.
unfoldable pub check_executable : Env → ℕ → Proposal → Store → Outcome ⊤
check_executable env id p s = do
  check_queued p.status
  check_age env p
  refuse_if (not (p.signer_generation == get_signer_generation s))
      GovernanceError.invalid_signer_generation
  info ← or_failed (s.quorum_reached_at id) GovernanceError.quorum_not_reached
  refuse_if (ltb p.approval_weight info.threshold) GovernanceError.quorum_not_reached
  exec_after ← executable_after info
  refuse_if (ltb env.now exec_after) GovernanceError.timelock_not_met
  refuse_if (ltb env.now p.eta) GovernanceError.timelock_not_met
  deadline ← checked_deadline exec_after (get_grace_period s)
  refuse_if (ltb deadline env.now) GovernanceError.proposal_expired

abbrev pub as_executed : Proposal → Proposal
as_executed p = record p { status = ProposalStatus.executed; executed = true }

-- From the write of the status to the event.
unfoldable pub run_proposal : Env → Address → ℕ → Proposal → Store → Outcome Store
run_proposal env executor id p s = do
  let s = bump_instance env (save_proposal env id (as_executed p) s)
  s ← dispatch_call env p.target p.calldata (record s { executing = some true })
  done (
      publish (Event.proposal_executed id executor p.target p.calldata env.now)
        (record s { executing = some false }))

unfoldable pub execute : Env → Address → ℕ → Store → Outcome Store
execute env executor id s = do
  require_auth env executor
  refuse_if (get_or s.executing false) GovernanceError.reentrancy_guard
  (p, s) ← load_proposal env id s
  check_executable env id p s
  let s = bump_active_entry env (EntryKey.quorum_reached_at id) p.status s
  run_proposal env executor id p s

-- The guard of `cancel_proposal` on the status.
abbrev pub check_open : ProposalStatus → Outcome ⊤
check_open ProposalStatus.executed = failed GovernanceError.already_executed
check_open ProposalStatus.cancelled = failed GovernanceError.proposal_cancelled
check_open ProposalStatus.proposed = done tt
check_open ProposalStatus.approved = done tt
check_open ProposalStatus.queued = done tt

abbrev pub as_cancelled : Proposal → Proposal
as_cancelled p = record p { status = ProposalStatus.cancelled; cancelled = true }

unfoldable pub cancel_proposal : Env → Address → ℕ → Store → Outcome Store
cancel_proposal env caller id s = do
  require_auth env caller
  (p, s) ← load_proposal env id s
  check_open p.status
  (admin, s) ← get_admin env s
  let is_guardian = contains (get_emergency_guardians s) caller
  refuse_if (not (caller == p.proposer) && (not (caller == admin) && not is_guardian))
      GovernanceError.not_proposer_or_admin
  let s = bump_instance env (save_proposal env id (as_cancelled p) s)
  done (publish (Event.proposal_cancelled id caller env.now) s)
