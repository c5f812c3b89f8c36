-- ===== src/Governance/Contract/Lifecycle.antt =====
-- Each call of contracts/governance/src/lib.rs and the proposals.
use perpetua_contracts.Prelude.{
  ℕ, ◌+◌, ◌≡◌, ◌==◌, true, false, Option, none, some, arith, refl, Bool-cases, inl, inr, subst,
}
use perpetua_contracts.Governance.Types.{
  Address, Bytes, ProposalStatus, Proposal, done, >>=-eq-done, is_terminal,
}
use perpetua_contracts.Governance.Host.{Env, Store}
use perpetua_contracts.Governance.Storage.{bump_instance, read_next_proposal_id, signer_weight}
use perpetua_contracts.Governance.Proposals
use perpetua_contracts.Governance.Proposals.{new_proposal, as_executed, as_cancelled}
use perpetua_contracts.Governance.Pruning
use perpetua_contracts.Governance.Pruning.{is_prunable, page_length, proposal_is_expired}
use perpetua_contracts.Governance.Views.{same_status}
use perpetua_contracts.Governance.Contract.{Call, perform}
use perpetua_contracts.Governance.Invariant.{IsSound}
use perpetua_contracts.Governance.Written.{Written, written_here, written_elsewhere}
use perpetua_contracts.Governance.Lifecycle.{StatusStep, Moves, Fate, Passes}
use perpetua_contracts.Governance.Preserve.Voting.{below_next}
use perpetua_contracts.Governance.Contract.Reachability.{init_again}
use perpetua_contracts.Governance.Inversion.Execution.{execute_inv}
use perpetua_contracts.Governance.Inversion.Cast.{counted, decided}
use perpetua_contracts.Governance.Inversion.Voting.{approve_inv}
use perpetua_contracts.Governance.Inversion.Proposing.{propose_inv, cancel_proposal_inv}
use perpetua_contracts.Governance.Inversion.Pruning.{prune_from_inv}
use perpetua_contracts.Governance.Inversion.Board.{is_by_admin, admin_call_inv}

module _ (c : Call) (s s' : Store) where
  -- A call that writes one proposal.
  Written-Passes : (now id : ℕ) (p : Proposal) → Written id p s s' → Fate id c s s' → Passes c s s'
  Written-Passes now id p w here = record {
    fate = λ j. elim (Bool-cases (j == id)) [
      | inl e ↦ let same : id ≡ j = ground arith in subst (λ k. Fate k c s s') same here
      | inr away ↦ Fate.same (written_elsewhere now id p s s' w j away)
    ];
    generation = ground (arith, w.same_board.same_generation);
    next = w.next_kept.0;
  }

  moved-Passes :
      (now id : ℕ) (p p' : Proposal)
      → s.proposals id ≡ some p
      → Written id p' s s'
      → Moves id c p p'
      → Passes c s s'
  moved-Passes now id p p' e w m =
      Written-Passes now id p' w (Fate.moved p p' e (written_here now id p' s s' w) m)

  admin-Passes : (env : Env) → is_by_admin c ≡ true → perform env c s ≡ done s' → Passes c s s'
  admin-Passes env t h =
      let r = admin_call_inv env s s' c t h in
      record {
        fate = λ j. Fate.same (ground (arith, r.kept.same_proposals));
        generation = r.later;
        next = ground (arith, r.kept.same_next);
      }

module _ (env : Env) (s s' : Store) (v : IsSound env.now s) where
  propose-Passes :
      (a t : Address) (d : Bytes) (id : ℕ)
      → Proposals.propose env a t d s ≡ done (id, s')
      → Passes (Call.propose a t d) s s'
  propose-Passes a t d id h =
      let r = propose_inv env a t d id s s' v.idle h in
      let p = new_proposal env a t d s in
      Written-Passes (Call.propose a t d) s s' env.now id p r.change
        (Fate.created p r.is_next (written_here env.now id p s s' r.change) refl refl)

  execute-Passes :
      (a : Address) (id : ℕ)
      → Proposals.execute env a id s ≡ done s'
      → Passes (Call.execute a id) s s'
  execute-Passes a id h =
      let r = execute_inv env a id s s' h in
      let w : Written id (as_executed r.p) s s' = record {
        same_board = r.same_board;
        written = r.written;
        next_kept = ground (arith, r.same_next, v.numbered id r.p r.found);
        other = λ j k. ground (arith, r.same_quorum, r.same_approvals);
        idle = ground (arith, r.released);
      } in
      moved-Passes (Call.execute a id) s s' env.now id r.p (as_executed r.p) r.found w (record {
        step = StatusStep.execute a refl r.due.queued refl;
        same_proposer = refl;
        same_target = refl;
        same_calldata = refl;
        same_creation = refl;
        same_generation = refl;
      })

  cancel-Passes :
      (a : Address) (id : ℕ)
      → Proposals.cancel_proposal env a id s ≡ done s'
      → Passes (Call.cancel_proposal a id) s s'
  cancel-Passes a id h =
      let r = cancel_proposal_inv env a id s s' v.idle (below_next env.now s id v) h in
      moved-Passes (Call.cancel_proposal a id) s s' env.now id r.p (as_cancelled r.p) r.found
        r.change
        (record {
          step = StatusStep.cancel a refl r.unfinished refl;
          same_proposer = refl;
          same_target = refl;
          same_calldata = refl;
          same_creation = refl;
          same_generation = refl;
        })

  approve-Passes :
      (a : Address) (id : ℕ)
      → Proposals.approve env a id s ≡ done s'
      → Passes (Call.approve a id) s s'
  approve-Passes a id h =
      let r = approve_inv env a id s s' v.idle (below_next env.now s id v) h in
      let weight = r.p.approval_weight + signer_weight s a in
      elim (r.outcome) [
        | inl (short, w, _) ↦
            moved-Passes (Call.approve a id) s s' env.now id r.p (counted r.p a weight) r.found w
              (record {
                step = StatusStep.vote a refl r.votable refl;
                same_proposer = refl;
                same_target = refl;
                same_calldata = refl;
                same_creation = refl;
                same_generation = refl;
              })
        | inr (reached, w, _) ↦
            moved-Passes (Call.approve a id) s s' env.now id r.p (decided r.p a weight env.now)
              r.found w
              (record {
                step = StatusStep.queue a refl r.votable refl;
                same_proposer = refl;
                same_target = refl;
                same_calldata = refl;
                same_creation = refl;
                same_generation = refl;
              })
      ]

-- What is removed had not reached the end of its life.
pub prunable_inv :
    (env : Env) (id : ℕ) (q : Option Proposal) (s : Store)
    → is_prunable env id q s ≡ done true
    → (p : Proposal) × (q ≡ some p)
      × (p.executed ≡ false)
      × (p.cancelled ≡ false)
      × (proposal_is_expired env id p s ≡ done true)
unfolding is_prunable
prunable_inv env id none s h = absurd (ground arith)
prunable_inv env id (some p) s h = (p, refl, ground arith, ground arith, ground arith)

unflagged :
    (status : ProposalStatus)
    → same_status status ProposalStatus.executed ≡ false
    → same_status status ProposalStatus.cancelled ≡ false
    → is_terminal status ≡ false
unflagged ProposalStatus.proposed e c = refl
unflagged ProposalStatus.approved e c = refl
unflagged ProposalStatus.queued e c = refl
unflagged ProposalStatus.executed e c = cc
unflagged ProposalStatus.cancelled e c = cc

prune-Passes :
    (env : Env) (start limit count : ℕ) (s s' : Store)
    → IsSound env.now s
    → Pruning.prune_expired_proposals env start limit s ≡ done (count, s')
    → Passes (Call.prune_expired_proposals start limit) s s'
unfolding Pruning.prune_expired_proposals
prune-Passes env start limit count s s' v h =
    let s0 = bump_instance env s in
    let left = page_length start limit (read_next_proposal_id s0) in
    let w = prune_from_inv env left start 0 count s0 s' h in
    record {
      fate = λ j. elim (w.fate j) [
        | inr k ↦ Fate.same k.same_proposal
        | inl d ↦
            let (p, e, x, c, _) = prunable_inv env j (s.proposals j) s0 d.due in
            let f = v.sound j p e in
            Fate.pruned p start limit refl e
              (unflagged p.status (ground (arith, f.flags)) (ground (arith, f.flags))) d.no_proposal
      ];
      generation = ground (arith, w.same_board.same_generation);
      next = ground (arith, w.same_next);
    }

-- Every call obeys the state machine: in a sound storage, whatever the call, each proposal stays as
-- it is, or is the one that the call has just created under the next id, or is removed by a prune
-- before its end, or keeps its proposer, target, calldata, creation and generation while its
-- status makes a step of the machine: a vote or a quorum by `approve` of this id on an open one, an
-- execution by `execute` of this id on a queued one, a cancellation by `cancel_proposal` of this id
-- before the end. Neither the generation nor the next id goes down.
pub perform-Passes :
    (env : Env) (c : Call) (s s' : Store)
    → IsSound env.now s
    → perform env c s ≡ done s'
    → Passes c s s'
unfolding perform
perform-Passes env (Call.init a l n) s s' v h = absurd (init_again env a l n s s' v h)
perform-Passes env (Call.propose a t d) s s' v h =
    let (r, e, k) = >>=-eq-done (Proposals.propose env a t d s) _ h in
    let same : r.1 ≡ s' = ground arith in
    subst (Passes (Call.propose a t d) s) same (propose-Passes env s r.1 v a t d r.0 e)
perform-Passes env (Call.approve a id) s s' v h = approve-Passes env s s' v a id h
perform-Passes env (Call.execute a id) s s' v h = execute-Passes env s s' v a id h
perform-Passes env (Call.cancel_proposal a id) s s' v h = cancel-Passes env s s' v a id h
perform-Passes env (Call.prune_expired_proposals a n) s s' v h =
    let (r, e, k) = >>=-eq-done (Pruning.prune_expired_proposals env a n s) _ h in
    let same : r.1 ≡ s' = ground arith in
    subst (Passes (Call.prune_expired_proposals a n) s) same (prune-Passes env a n r.0 s r.1 v e)
perform-Passes env c s s' v h = admin-Passes c s s' env refl h
