-- ===== src/Governance/Preserve/Voting.antt =====
-- The calls of contracts/governance/src/lib.rs that write a proposal.
use perpetua_contracts.Prelude.{
  ℕ, ◌+◌, ◌<◌, ◌≡◌, true, false, none, some, [], ◌∷◌, ◌++◌, arith, get_or, update, inl, inr, refl,
  Option-cases,
}
use perpetua_contracts.Governance.Types.{Address, Bytes, ProposalStatus, Proposal, done}
use perpetua_contracts.Governance.Host.{Env, Store}
use perpetua_contracts.Governance.Storage.{no_address, read_next_proposal_id, signer_weight}
use perpetua_contracts.Governance.Admin.{contains, has_duplicate}
use perpetua_contracts.Governance.Proposals.{
  new_proposal, propose, approve, execute, cancel_proposal, as_executed, as_cancelled,
}
use perpetua_contracts.Governance.Views.{same_status}
use perpetua_contracts.Governance.Lists.{contains-snoc, has_duplicate-snoc}
use perpetua_contracts.Governance.Invariant.{IsSound, is_open}
use perpetua_contracts.Governance.Written.{Written, Written-IsSound}
use perpetua_contracts.Governance.Inversion.Execution.{execute_inv}
use perpetua_contracts.Governance.Inversion.Cast.{counted, decided}
use perpetua_contracts.Governance.Inversion.Voting.{Approved, approve_inv}
use perpetua_contracts.Governance.Inversion.Proposing.{propose_inv, cancel_proposal_inv}

pub below_next :
    (now : ℕ) (s : Store) (id : ℕ)
    → IsSound now s
    → (p : Proposal) → s.proposals id ≡ some p
    → id < read_next_proposal_id s
below_next now s id v p e = let t = v.numbered id p e in t.0

module _ (env : Env) (s s' : Store) (v : IsSound env.now s) where
  -- No proposal has the next id yet.
  next_is_free : s.proposals (read_next_proposal_id s) ≡ none
  next_is_free = elim (Option-cases (s.proposals (read_next_proposal_id s))) [
    | inl e ↦ e
    | inr (p, e) ↦ absurd (omega (arith, v.numbered (read_next_proposal_id s) p e))
  ]

  pub propose-IsSound :
      (proposer target : Address) (calldata : Bytes) (id : ℕ)
      → propose env proposer target calldata s ≡ done (id, s')
      → IsSound env.now s'
  propose-IsSound proposer target calldata id h =
      let r = propose_inv env proposer target calldata id s s' v.idle h in
      let (q, a) = v.clean id (rw (r.is_next) next_is_free) in
      Written-IsSound env.now id (new_proposal env proposer target calldata s) s s' r.change v
        (omega arith)
        (record {
          flags = (refl, refl);
          once = refl;
          indexed = λ b. rw (r.same_approvals, a) refl;
          past = omega arith;
          recent = λ info e. absurd (ground (arith, q, r.same_quorum));
          undecided = λ e. rw (r.same_quorum, q) refl;
          decided = λ e. cc;
        })

  pub execute-IsSound :
      (executor : Address) (id : ℕ) → execute env executor id s ≡ done s' → IsSound env.now s'
  execute-IsSound executor id h =
      let r = execute_inv env executor id s s' h in
      let x = v.sound id r.p r.found in
      let (below, older) = v.numbered id r.p r.found in
      let change : Written id (as_executed r.p) s s' = record {
        same_board = r.same_board;
        written = r.written;
        next_kept = ground (arith, r.same_next);
        other = λ j k. (rw (r.same_quorum) refl, rw (r.same_approvals) refl);
        idle = ground (arith, r.released);
      } in
      Written-IsSound env.now id (as_executed r.p) s s' change v older (record {
        flags = ground (arith, x.flags, r.due.queued);
        once = x.once;
        indexed = λ b. ground (arith, r.same_approvals, x.indexed b);
        past = x.past;
        recent = λ info e. x.recent info (ground (arith, r.same_quorum));
        undecided = λ e. cc;
        decided = λ e.
            let d = x.decided (ground (arith, r.due.queued)) in
            record {
              info = d.info;
              recorded = ground (arith, r.same_quorum, d.recorded);
              enough = d.enough;
              delayed = d.delayed;
              later = d.later;
            };
      })

  pub cancel_proposal-IsSound :
      (caller : Address) (id : ℕ) → cancel_proposal env caller id s ≡ done s' → IsSound env.now s'
  cancel_proposal-IsSound caller id h =
      let r = cancel_proposal_inv env caller id s s' v.idle (below_next env.now s id v) h in
      let x = v.sound id r.p r.found in
      let (below, older) = v.numbered id r.p r.found in
      Written-IsSound env.now id (as_cancelled r.p) s s' r.change v older (record {
        flags = ground (arith, x.flags, r.unfinished);
        once = x.once;
        indexed = λ b. ground (arith, r.same_approvals, x.indexed b);
        past = x.past;
        recent = λ info e. x.recent info (ground (arith, r.same_quorum));
        undecided = λ e. cc;
        decided = λ e. cc;
      })

  module _ (approver : Address) (id : ℕ) (r : Approved env approver id s s') where
    -- The approvals after a vote, and their index.
    approvals_once : has_duplicate (r.p.approvals ++ approver ∷ []) ≡ false
    approvals_once =
        let x = v.sound id r.p r.found in
        has_duplicate-snoc r.p.approvals approver x.once
          (ground (arith, x.indexed approver, r.first_vote))

    approvals_indexed :
        (b : Address)
        → get_or (s'.proposal_approval_idx id) no_address b
          ≡ contains (r.p.approvals ++ approver ∷ []) b
    approvals_indexed b =
        let x = v.sound id r.p r.found in
        let e : s'.proposal_approval_idx id
            ≡ some (update (get_or (s.proposal_approval_idx id) no_address) approver true) =
          rw (r.recorded.indexed) (ground arith) in
        ground (arith, x.indexed b, contains-snoc r.p.approvals approver b, e)

    flags_open : (r.p.executed ≡ false) × (r.p.cancelled ≡ false)
    flags_open = let x = v.sound id r.p r.found in open_flags r.p.status r.votable x.flags
      where
        open_flags :
            (status : ProposalStatus)
            → is_open status ≡ true
            → (r.p.executed ≡ same_status status ProposalStatus.executed)
              × (r.p.cancelled ≡ same_status status ProposalStatus.cancelled)
            → (r.p.executed ≡ false) × (r.p.cancelled ≡ false)
        open_flags ProposalStatus.proposed o f = f
        open_flags ProposalStatus.approved o f = f
        open_flags ProposalStatus.queued o f = cc
        open_flags ProposalStatus.executed o f = cc
        open_flags ProposalStatus.cancelled o f = cc

    approved-IsSound : IsSound env.now s'
    approved-IsSound =
        let x = v.sound id r.p r.found in
        let (below, older) = v.numbered id r.p r.found in
        let weight = r.p.approval_weight + signer_weight s approver in
        elim (r.outcome) [
          | inl (short, change, same) ↦
              Written-IsSound env.now id (counted r.p approver weight) s s' change v older (record {
                flags = flags_open;
                once = approvals_once;
                indexed = approvals_indexed;
                past = x.past;
                recent = λ info e. x.recent info (ground (arith, same));
                undecided = λ e. ground (arith, x.undecided r.votable, same);
                decided = λ e. cc;
              })
          | inr (reached, change, new) ↦
              Written-IsSound env.now id (decided r.p approver weight env.now) s s' change v older
                (record {
                  flags = flags_open;
                  once = approvals_once;
                  indexed = approvals_indexed;
                  past = x.past;
                  recent = λ info e. ground (arith, new);
                  undecided = λ e. cc;
                  decided = λ e. record {
                    info = record { reached_at = env.now; threshold = r.threshold };
                    recorded = rw new (ground arith);
                    enough = reached;
                    delayed = refl;
                    later = x.past;
                  };
                })
        ]

  pub approve-IsSound :
      (approver : Address) (id : ℕ) → approve env approver id s ≡ done s' → IsSound env.now s'
  approve-IsSound approver id h =
      approved-IsSound approver id
        (approve_inv env approver id s s' v.idle (below_next env.now s id v) h)
