-- ===== src/Governance/Guarantee/Authorization.antt =====
-- Who may make which call of contracts/governance/src/lib.rs.
use perpetua_contracts.Prelude.{ℕ, ◌≡◌, ◌⊎◌, true, some, refl, inl, inr, subst, arith}
use perpetua_contracts.Governance.Types.{Address, Proposal, done, >>=-eq-done}
use perpetua_contracts.Governance.Host.{Env, Store}
use perpetua_contracts.Governance.Storage.{
  get_emergency_guardians, bump_instance, read_next_proposal_id,
}
use perpetua_contracts.Governance.Admin.{contains}
use perpetua_contracts.Governance.Proposals
use perpetua_contracts.Governance.Views.{has_signer}
use perpetua_contracts.Governance.Contract.{Call, perform}
use perpetua_contracts.Governance.Contract.Reachability.{init_again}
use perpetua_contracts.Governance.Invariant.{IsSound}
use perpetua_contracts.Governance.Preserve.Voting.{below_next}
use perpetua_contracts.Governance.Inversion.Board.{is_by_admin, admin_call_inv}
use perpetua_contracts.Governance.Inversion.Execution.{execute_inv}
use perpetua_contracts.Governance.Inversion.Voting.{Approved, approve_inv}
use perpetua_contracts.Governance.Inversion.Proposing.{propose_inv, cancel_proposal_inv}
use perpetua_contracts.Governance.Inversion.Pruning.{prune_from_inv}
use perpetua_contracts.Governance.Pruning.{page_length, prune_expired_proposals}
use perpetua_contracts.Governance.Frame.{SameBoard, SameProposals}

-- The admin of the storage signs, and the call leaves the proposals, their quorums and approvals, the
-- ids and the calls made alone.
pub record AdminSigns (env : Env) (s s' : Store) : Type 0 where
  pub admin : Address
  pub has_admin : s.admin ≡ some admin
  pub signed : env.authorized admin ≡ true
  pub kept : SameProposals s s'

-- The proposer, the admin or a guardian.
abbrev pub MayCancel : Address → ℕ → Store → Type 0
MayCancel who id s =
    (p : Proposal) × (s.proposals id ≡ some p)
    × ((who ≡ p.proposer)
        ⊎ ((s.admin ≡ some who) ⊎ (contains (get_emergency_guardians s) who ≡ true)))

-- Who signs a call, and what it leaves alone.
abbrev pub IsAuthorized : Env → Call → Store → Store → Type 0
IsAuthorized env (Call.init admin signers threshold) s s' = ⊥
IsAuthorized env (Call.propose who target calldata) s s' =
    (has_signer s.signer_index who ≡ true) × (env.authorized who ≡ true) × SameBoard s s'
IsAuthorized env (Call.approve who id) s s' =
    (has_signer s.signer_index who ≡ true) × (env.authorized who ≡ true) × SameBoard s s'
IsAuthorized env (Call.execute who id) s s' = (env.authorized who ≡ true) × SameBoard s s'
IsAuthorized env (Call.cancel_proposal who id) s s' =
    MayCancel who id s × (env.authorized who ≡ true) × SameBoard s s'
IsAuthorized env (Call.prune_expired_proposals start limit) s s' = SameBoard s s'
IsAuthorized env (Call.set_admin a) s s' = AdminSigns env s s'
IsAuthorized env (Call.set_emergency_guardians l) s s' = AdminSigns env s s'
IsAuthorized env (Call.set_threshold n) s s' = AdminSigns env s s'
IsAuthorized env (Call.update_threshold n) s s' = AdminSigns env s s'
IsAuthorized env (Call.set_vote_weight a n) s s' = AdminSigns env s s'
IsAuthorized env (Call.add_signer a) s s' = AdminSigns env s s'
IsAuthorized env (Call.remove_signer a) s s' = AdminSigns env s s'
IsAuthorized env (Call.set_grace_period n) s s' = AdminSigns env s s'

Approved-SameBoard :
    (env : Env) (approver : Address) (id : ℕ) (s s' : Store)
    → Approved env approver id s s'
    → SameBoard s s'
Approved-SameBoard env approver id s s' x = elim x.outcome [
  | inl (_, change, _) ↦ change.same_board
  | inr (_, change, _) ↦ change.same_board
]

prune-SameBoard :
    (env : Env) (start limit count : ℕ) (s s' : Store)
    → prune_expired_proposals env start limit s ≡ done (count, s')
    → SameBoard s s'
unfolding prune_expired_proposals
prune-SameBoard env start limit count s s' h =
    let s0 = bump_instance env s in
    let left = page_length start limit (read_next_proposal_id s0) in
    let swept = prune_from_inv env left start 0 count s0 s' h in
    let b = swept.same_board in
    record {
      same_admin = b.same_admin;
      same_signers = b.same_signers;
      same_index = b.same_index;
      same_threshold = b.same_threshold;
      same_generation = b.same_generation;
      same_weights = b.same_weights;
      same_guardians = b.same_guardians;
      same_grace = b.same_grace;
    }

module _ (env : Env) (s s' : Store) (v : IsSound env.now s) where
  by_admin : (c : Call) → is_by_admin c ≡ true → perform env c s ≡ done s' → AdminSigns env s s'
  by_admin c t h =
      let r = admin_call_inv env s s' c t h in
      record { admin = r.admin; has_admin = r.has_admin; signed = r.signed; kept = r.kept }

  -- In a sound storage, only the calls of the present admin change the board, and all others but
  -- pruning are signed by whom they are for. The calls of the admin, who signs them, leave the proposals, what is
  -- stored beside them and the calls made as they are. In all others the admin, the signers, the
  -- threshold, the generation, the weights, the guardians and the grace period stay as they are; of
  -- these a proposal and a vote come from a signer of the board who signs, whoever executes signs,
  -- and a proposal is cancelled by its proposer, the admin or a guardian, who signs. Pruning needs no
  -- signature, and `init` does not succeed again.
  pub governance_calls-IsAuthorized :
      (c : Call) → perform env c s ≡ done s' → IsAuthorized env c s s'
  unfolding perform
  governance_calls-IsAuthorized (Call.init a l n) h = absurd (init_again env a l n s s' v h)
  governance_calls-IsAuthorized (Call.propose a t d) h =
      let (r, e, k) = >>=-eq-done (Proposals.propose env a t d s) _ h in
      let x = propose_inv env a t d r.0 s r.1 v.idle e in
      let last : r.1 ≡ s' = ground arith in
      (x.registered, x.signed, subst (SameBoard s) last x.change.same_board)
  governance_calls-IsAuthorized (Call.approve a id) h =
      let x = approve_inv env a id s s' v.idle (below_next env.now s id v) h in
      (x.registered, x.signed, Approved-SameBoard env a id s s' x)
  governance_calls-IsAuthorized (Call.execute a id) h =
      let x = execute_inv env a id s s' h in (x.signed, x.same_board)
  governance_calls-IsAuthorized (Call.cancel_proposal a id) h =
      let x = cancel_proposal_inv env a id s s' v.idle (below_next env.now s id v) h in
      ((x.p, x.found, x.entitled), x.signed, x.change.same_board)
  governance_calls-IsAuthorized (Call.prune_expired_proposals a n) h =
      let (r, e, k) = >>=-eq-done (prune_expired_proposals env a n s) _ h in
      let last : r.1 ≡ s' = ground arith in
      subst (SameBoard s) last (prune-SameBoard env a n r.0 s r.1 e)
  governance_calls-IsAuthorized (Call.set_admin a) h = by_admin (Call.set_admin a) refl h
  governance_calls-IsAuthorized (Call.set_emergency_guardians l) h =
      by_admin (Call.set_emergency_guardians l) refl h
  governance_calls-IsAuthorized (Call.set_threshold n) h = by_admin (Call.set_threshold n) refl h
  governance_calls-IsAuthorized (Call.update_threshold n) h =
      by_admin (Call.update_threshold n) refl h
  governance_calls-IsAuthorized (Call.set_vote_weight a n) h =
      by_admin (Call.set_vote_weight a n) refl h
  governance_calls-IsAuthorized (Call.add_signer a) h = by_admin (Call.add_signer a) refl h
  governance_calls-IsAuthorized (Call.remove_signer a) h = by_admin (Call.remove_signer a) refl h
  governance_calls-IsAuthorized (Call.set_grace_period n) h =
      by_admin (Call.set_grace_period n) refl h
