-- ===== src/Governance/Contract/Reachability.antt =====
-- The storages that calls of contracts/governance/src/lib.rs reach.
use perpetua_contracts.Prelude.{ℕ, ◌≤◌, ◌≡◌, List, arith, is_some, subst}
use perpetua_contracts.Governance.Types.{
  Address, GovernanceError, done, >>=-eq-done, refuse_if-eq-done,
}
use perpetua_contracts.Governance.Host.{Env, Store}
use perpetua_contracts.Governance.Admin
use perpetua_contracts.Governance.Proposals
use perpetua_contracts.Governance.Pruning
use perpetua_contracts.Governance.Contract.{Call, perform}
use perpetua_contracts.Governance.Invariant.{IsSound, IsSound-later}
use perpetua_contracts.Governance.Preserve.Board.{
  set_admin-IsSound, set_guardians-IsSound, set_grace_period-IsSound, set_vote_weight-IsSound,
  set_threshold-IsSound, update_threshold-IsSound,
}
use perpetua_contracts.Governance.Preserve.Signers.{
  add_signer-IsSound, remove_signer-IsSound, IsUntouched, init-IsSound,
}
use perpetua_contracts.Governance.Preserve.Voting.{
  propose-IsSound, approve-IsSound, execute-IsSound, cancel_proposal-IsSound,
}
use perpetua_contracts.Governance.Preserve.Pruning.{prune-IsSound}

pub init_again :
    (env : Env) (admin : Address) (signers : List Address) (threshold : ℕ) (s s' : Store)
    → IsSound env.now s
    → Admin.init env admin signers threshold s ≡ done s'
    → ⊥
unfolding Admin.init
init_again env admin signers threshold s s' v h =
    let a = v.has_board.has_admin in
    let (fresh, _) = refuse_if-eq-done (is_some s.admin) GovernanceError.already_initialized _ h in
    ground arith

-- Every call keeps the storage sound.
pub perform-IsSound :
    (env : Env) (c : Call) (s s' : Store)
    → IsSound env.now s
    → perform env c s ≡ done s'
    → IsSound env.now s'
unfolding perform
perform-IsSound env (Call.init a l n) s s' v h = absurd (init_again env a l n s s' v h)
perform-IsSound env (Call.set_admin a) s s' v h = set_admin-IsSound env.now env s s' v a h
perform-IsSound env (Call.set_emergency_guardians l) s s' v h =
    set_guardians-IsSound env.now env s s' v l h
perform-IsSound env (Call.set_threshold n) s s' v h = set_threshold-IsSound env.now env s s' v n h
perform-IsSound env (Call.update_threshold n) s s' v h =
    update_threshold-IsSound env.now env s s' v n h
perform-IsSound env (Call.set_vote_weight a n) s s' v h =
    set_vote_weight-IsSound env.now env s s' v a n h
perform-IsSound env (Call.add_signer a) s s' v h = add_signer-IsSound env.now env s s' v a h
perform-IsSound env (Call.remove_signer a) s s' v h = remove_signer-IsSound env.now env s s' v a h
perform-IsSound env (Call.set_grace_period n) s s' v h =
    set_grace_period-IsSound env.now env s s' v n h
perform-IsSound env (Call.propose a t d) s s' v h =
    let (r, e, k) = >>=-eq-done (Proposals.propose env a t d s) _ h in
    let same : r.1 ≡ s' = ground arith in
    subst (IsSound env.now) same (propose-IsSound env s r.1 v a t d r.0 e)
perform-IsSound env (Call.approve a id) s s' v h = approve-IsSound env s s' v a id h
perform-IsSound env (Call.execute a id) s s' v h = execute-IsSound env s s' v a id h
perform-IsSound env (Call.cancel_proposal a id) s s' v h = cancel_proposal-IsSound env s s' v a id h
perform-IsSound env (Call.prune_expired_proposals a n) s s' v h =
    let (r, e, k) = >>=-eq-done (Pruning.prune_expired_proposals env a n s) _ h in
    let same : r.1 ≡ s' = ground arith in
    subst (IsSound env.now) same (prune-IsSound env.now env a n r.0 s r.1 v e)

-- The storages that a contract reaches by calls that succeed, at times that do not go back; the
-- calls that fail leave the storage as it is.
pub data Reach : ℕ → Store → Type 0 where
  set_up :
      (env : Env) (admin : Address) (signers : List Address) (threshold : ℕ) (s s' : Store)
      → IsUntouched s
      → Admin.init env admin signers threshold s ≡ done s'
      → Reach env.now s'
  call :
      {now : ℕ} {s : Store} (env : Env) (c : Call) (s' : Store)
      → Reach now s
      → now ≤ env.now
      → perform env c s ≡ done s'
      → Reach env.now s'

-- Every storage that the contract reaches is sound: its board has at most 20 signers, no two the
-- same, and its threshold is positive and at most their number; the flags of each proposal agree
-- with its status; no signer has approved it twice, and the index has just its approvals; a
-- proposal that is queued or executed has a recorded quorum, whose threshold its weight reaches,
-- and its eta is the time of the quorum and two days.
pub reachable-IsSound : {now : ℕ} {s : Store} → Reach now s → IsSound now s
reachable-IsSound (set_up env admin signers threshold s s' u h) =
    init-IsSound env.now env admin signers threshold s s' u h
reachable-IsSound (call {now} {s} env c s' r later h) =
    perform-IsSound env c s s' (IsSound-later now env.now s later (reachable-IsSound r)) h
