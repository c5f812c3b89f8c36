-- ===== src/Governance/Guarantee/Window.antt =====
-- When a queued proposal of contracts/governance/src/lib.rs can be executed.
use perpetua_contracts.Prelude.{ℕ, ◌+◌, ◌≤◌, ◌≡◌, ◌↔◌, true, some, arith}
use perpetua_contracts.Governance.Types.{ProposalStatus, Proposal, QuorumInfo, done}
use perpetua_contracts.Governance.Host.{Env, Store}
use perpetua_contracts.Governance.Storage.{
  governance_timelock_seconds, max_proposal_age_seconds, get_signer_generation, get_grace_period,
  bump_proposal_retention,
}
use perpetua_contracts.Governance.Views.{is_executable, is_proposal_executable}
use perpetua_contracts.Governance.Invariant.{IsSound}
use perpetua_contracts.Governance.Inversion.Execution.{
  IsDue, check_executable_inv, check_executable-done,
}
use perpetua_contracts.Governance.Guarantee.Execution.{
  is_proposal_executable-checks, checks-is_proposal_executable,
}
use perpetua_contracts.Governance.Guarantee.Sweeping.{InRange}

-- The seconds at which a proposal with this quorum is open to execution.
pub record InWindow (env : Env) (s : Store) (p : Proposal) (info : QuorumInfo) : Type 0 where
  pub after_timelock : info.reached_at + governance_timelock_seconds ≤ env.now
  pub within_grace : env.now ≤ info.reached_at + governance_timelock_seconds + get_grace_period s
  pub within_age : env.now ≤ p.created_at + max_proposal_age_seconds

-- The view is true exactly if the guards of `execute` pass.
is_executable-checks :
    (env : Env) (id : ℕ) (p : Proposal) (s : Store)
    → s.proposals id ≡ some p
    → (is_executable env id s ≡ done true)
      ↔ (is_proposal_executable env id p (bump_proposal_retention env id p.status s) ≡ done true)
unfolding is_executable
is_executable-checks env id p s e = (λ h. ground arith, λ h. ground arith)

-- A queued proposal can be executed exactly in its window. In a sound storage, with the clock in
-- range, a queued proposal of the present generation has a recorded quorum, and `is_executable` is
-- true of it exactly from two days after that quorum on, until the grace period after that is over
-- or the proposal is 30 days old.
pub queued_window :
    (env : Env) (id : ℕ) (p : Proposal) (s : Store)
    → IsSound env.now s
    → InRange env s
    → s.proposals id ≡ some p
    → p.status ≡ ProposalStatus.queued
    → p.signer_generation ≡ get_signer_generation s
    → (info : QuorumInfo) × (s.quorum_reached_at id ≡ some info)
      × ((is_executable env id s ≡ done true) ↔ InWindow env s p info)
queued_window env id p s v r e q g =
    let x = v.sound id p e in
    let d = x.decided (ground arith) in
    let s0 = bump_proposal_retention env id p.status s in
    let recent = x.recent d.info d.recorded in
    (
      d.info,
      d.recorded,
      (
        λ h.
            let k =
              checks-is_proposal_executable env id p s0 ((is_executable-checks env id p s e).0 h) in
            let (info, f, due) = check_executable_inv env id p s0 k in
            let same : info ≡ d.info = ground (arith, d.recorded) in
            ground (arith, due.waited, due.in_time, due.young),
        λ w.
            let due : IsDue env s0 p d.info = record {
              queued = q;
              young = w.within_age;
              same_board = g;
              quorum = d.enough;
              waited = ground (arith, w.after_timelock, d.delayed);
              in_time = w.within_grace;
              in_range = ground (arith, r.ages, r.windows, x.past, recent);
            } in
            (is_executable-checks env id p s e).1 (
              is_proposal_executable-checks env id p s0
                (check_executable-done env id p s0 d.info d.recorded due)),
      ),
    )
