-- ===== src/Governance/Inversion/Execution.antt =====
-- `execute` of contracts/governance/src/lib.rs read backwards, and its guards as a predicate.
use perpetua_contracts.Prelude.{
  ℕ, ◌+◌, ◌≤◌, ◌≡◌, true, false, some, arith, refl, Option-cases, get_or, inl, inr, update,
}
use perpetua_contracts.Words.{u64_max}
use perpetua_contracts.Governance.Types.{
  Address, ProposalStatus, Proposal, QuorumInfo, GovernanceError, done, >>=-eq-done,
  refuse_if-eq-done, EntryKey,
}
use perpetua_contracts.Governance.Host.{Env, Store, require_auth}
use perpetua_contracts.Governance.Frame.{SameBoard}
use perpetua_contracts.Governance.Storage.{
  governance_timelock_seconds, max_proposal_age_seconds, get_signer_generation, get_grace_period,
  load_proposal, save_proposal, bump_instance, bump_active_entry,
}
use perpetua_contracts.Governance.Proposals.{
  check_executable, check_queued, as_executed, run_proposal, execute,
}
use perpetua_contracts.Governance.Dispatch.{dispatch_call}
use perpetua_contracts.Governance.Inversion.Dispatch.{dispatch_call_frames}

-- A queued proposal that the quorum `info` approved may be executed now.
pub record IsDue (env : Env) (s : Store) (p : Proposal) (info : QuorumInfo) : Type 0 where
  pub queued : p.status ≡ ProposalStatus.queued
  pub young : env.now ≤ p.created_at + max_proposal_age_seconds
  pub same_board : p.signer_generation ≡ get_signer_generation s
  pub quorum : info.threshold ≤ p.approval_weight
  pub waited : (info.reached_at + governance_timelock_seconds ≤ env.now) × (p.eta ≤ env.now)
  pub in_time : env.now ≤ info.reached_at + governance_timelock_seconds + get_grace_period s
  -- the two limits are words
  pub in_range :
      (p.created_at + max_proposal_age_seconds ≤ u64_max)
      × (info.reached_at + governance_timelock_seconds + get_grace_period s ≤ u64_max)

queued_inv :
    (status : ProposalStatus) → check_queued status ≡ done tt → status ≡ ProposalStatus.queued
queued_inv ProposalStatus.queued h = refl
queued_inv ProposalStatus.proposed h = cc
queued_inv ProposalStatus.approved h = cc
queued_inv ProposalStatus.executed h = cc
queued_inv ProposalStatus.cancelled h = cc

pub check_executable_inv :
    (env : Env) (id : ℕ) (p : Proposal) (s : Store)
    → check_executable env id p s ≡ done tt
    → (info : QuorumInfo) × (s.quorum_reached_at id ≡ some info) × IsDue env s p info
unfolding check_executable
check_executable_inv env id p s h = elim (Option-cases (s.quorum_reached_at id)) [
  | inl e ↦ absurd (ground arith)
  | inr (info, e) ↦
      let q : p.status ≡ ProposalStatus.queued = queued_inv p.status (ground arith) in
      (info, e, ground arith)
]

pub check_executable-done :
    (env : Env) (id : ℕ) (p : Proposal) (s : Store) (info : QuorumInfo)
    → s.quorum_reached_at id ≡ some info
    → IsDue env s p info
    → check_executable env id p s ≡ done tt
unfolding check_executable
check_executable-done env id p s info e due = ground arith

-- The proposal `id` has been executed.
pub record Executed (env : Env) (executor : Address) (id : ℕ) (s s' : Store) : Type 0 where
  pub p : Proposal
  pub info : QuorumInfo
  pub found : s.proposals id ≡ some p
  pub found_info : s.quorum_reached_at id ≡ some info
  pub due : IsDue env s p info
  pub signed : env.authorized executor ≡ true
  pub idle : get_or s.executing false ≡ false
  pub written : s'.proposals ≡ update s.proposals id (some (as_executed p))
  pub same_board : SameBoard s s'
  pub same_quorum : s'.quorum_reached_at ≡ s.quorum_reached_at
  pub same_approvals : s'.proposal_approval_idx ≡ s.proposal_approval_idx
  pub same_next : s'.next_proposal_id ≡ s.next_proposal_id
  pub released : s'.executing ≡ some false
  -- the dispatch that has been made, from a storage with the same calls made before
  pub before : Store
  pub after : Store
  pub same_calls : (before.invoked ≡ s.invoked) × (s'.invoked ≡ after.invoked)
  pub dispatched : dispatch_call env p.target p.calldata before ≡ done after

-- The storage in which the proposal's calls are made.
abbrev entered : Env → ℕ → Proposal → Store → Store
entered env id p s = record (bump_instance env (save_proposal env id (as_executed p) s)) {
  executing = some true;
}

-- An execution is due and happens by the book. If `execute` succeeds, the executor has signed and no
-- execution was in progress; the proposal was queued, of the present generation of the board and at
-- most 30 days old; its recorded quorum has a threshold that the weight of its approvals reaches,
-- was reached at least two days ago, and not longer ago than two days and the grace period; its eta
-- has passed. It is now stored as executed, its calldata has been dispatched to its target, and the
-- board, the quorums, the approvals, the ids and the other proposals are as they were.
pub execute_inv :
    (env : Env) (executor : Address) (id : ℕ) (s s' : Store)
    → execute env executor id s ≡ done s'
    → Executed env executor id s s'
unfolding execute run_proposal
execute_inv env executor id s s' h = elim (Option-cases (s.proposals id)) [
  | inl e ↦ absurd (ground arith)
  | inr (p, e) ↦
      let (_, signed, h1) = >>=-eq-done (require_auth env executor) _ h in
      let (idle, h2) =
        refuse_if-eq-done (get_or s.executing false) GovernanceError.reentrancy_guard _ h1 in
      let (q, loaded, h3) = >>=-eq-done (load_proposal env id s) _ h2 in
      let (_, checked, h4) = >>=-eq-done (check_executable env id q.0 q.1) _ h3 in
      let s1 = bump_active_entry env (EntryKey.quorum_reached_at id) q.0.status q.1 in
      let (s2, dispatched, h5) =
        >>=-eq-done (dispatch_call env q.0.target q.0.calldata (entered env id q.0 s1)) _ h4 in
      let frame =
        dispatch_call_frames env q.0.target q.0.calldata (entered env id q.0 s1) s2 dispatched in
      let (info, found_info, due) = check_executable_inv env id q.0 q.1 checked in
      record {
        p = q.0;
        info = info;
        found = ground arith;
        found_info = ground arith;
        due = ground arith;
        signed = ground arith;
        idle = idle;
        written = ground arith;
        same_board = ground arith;
        same_quorum = ground arith;
        same_approvals = ground arith;
        same_next = ground arith;
        released = ground arith;
        before = entered env id q.0 s1;
        after = s2;
        same_calls = ground arith;
        dispatched = dispatched;
      }
]
