-- ===== src/Governance/Contract.antt =====
-- The calls of contracts/governance/src/lib.rs that can change its storage.
pub mod History
pub mod Lifecycle
pub mod Reachability
use perpetua_contracts.Prelude.{ℕ, Option, none, List, []}
use perpetua_contracts.Governance.Types.{Address, Bytes, Outcome, done, ◌>>=◌}
use perpetua_contracts.Governance.Host.{Env, Store}
use perpetua_contracts.Governance.Admin
use perpetua_contracts.Governance.Proposals
use perpetua_contracts.Governance.Pruning

pub data Call : Type 0 where
  init : Address → List Address → ℕ → Call
  set_admin : Address → Call
  set_emergency_guardians : List Address → Call
  set_threshold update_threshold : ℕ → Call
  set_vote_weight : Address → ℕ → Call
  add_signer remove_signer : Address → Call
  set_grace_period : ℕ → Call
  propose : Address → Address → Bytes → Call
  approve execute cancel_proposal : Address → ℕ → Call
  prune_expired_proposals : ℕ → ℕ → Call

-- The storage after a call, its value left aside.
unfoldable pub perform : Env → Call → Store → Outcome Store
perform env (Call.init admin signers threshold) s = Admin.init env admin signers threshold s
perform env (Call.set_admin admin) s = Admin.set_admin env admin s
perform env (Call.set_emergency_guardians guardians) s =
    Admin.set_emergency_guardians env guardians s
perform env (Call.set_threshold threshold) s = Admin.set_threshold env threshold s
perform env (Call.update_threshold threshold) s = Admin.update_threshold env threshold s
perform env (Call.set_vote_weight signer weight) s = Admin.set_vote_weight env signer weight s
perform env (Call.add_signer signer) s = Admin.add_signer env signer s
perform env (Call.remove_signer signer) s = Admin.remove_signer env signer s
perform env (Call.set_grace_period seconds) s = Admin.set_grace_period env seconds s
perform env (Call.propose proposer target calldata) s =
    Proposals.propose env proposer target calldata s >>= λ r. done r.1
perform env (Call.approve approver id) s = Proposals.approve env approver id s
perform env (Call.execute executor id) s = Proposals.execute env executor id s
perform env (Call.cancel_proposal caller id) s = Proposals.cancel_proposal env caller id s
perform env (Call.prune_expired_proposals start limit) s =
    Pruning.prune_expired_proposals env start limit s >>= λ r. done r.1
