-- ===== src/Governance/Inversion/Voting.antt =====
-- `approve` of contracts/governance/src/lib.rs read backwards.
use perpetua_contracts.Prelude.{
  ℕ, ◌+◌, ◌≤◌, ◌<◌, ◌≡◌, ◌⊎◌, true, false, some, arith, ltb, get_or, update, Option-cases,
  Bool-cases, inl, inr, refl,
}
use perpetua_contracts.Words.{u64_max}
use perpetua_contracts.Governance.Types.{Address, Proposal, done}
use perpetua_contracts.Governance.Host.{Env, Store}
use perpetua_contracts.Governance.Storage.{
  max_proposal_age_seconds, no_address, signer_weight, read_next_proposal_id, is_registered_signer,
  bump_proposal_retention,
}
use perpetua_contracts.Governance.Proposals.{cast_vote, approve}
use perpetua_contracts.Governance.Views.{has_signer}
use perpetua_contracts.Governance.Invariant.{is_open}
use perpetua_contracts.Governance.Written.{Written}
use perpetua_contracts.Governance.Inversion.Cast.{
  counted, decided, Recorded, vote_passes, short_vote, deciding_vote,
}

pub record Approved (env : Env) (approver : Address) (id : ℕ) (s s' : Store) : Type 0 where
  pub p : Proposal
  pub threshold : ℕ
  pub found : s.proposals id ≡ some p
  pub has_threshold : s.threshold ≡ some threshold
  pub signed : env.authorized approver ≡ true
  pub registered : has_signer s.signer_index approver ≡ true
  pub votable : is_open p.status ≡ true
  pub young : env.now ≤ p.created_at + max_proposal_age_seconds
  pub first_vote : get_or (s.proposal_approval_idx id) no_address approver ≡ false
  pub in_range : p.approval_weight + signer_weight s approver ≤ u64_max
  pub recorded : Recorded approver id s s'
  pub outcome :
      ((p.approval_weight + signer_weight s approver < threshold)
        × Written id (counted p approver (p.approval_weight + signer_weight s approver)) s s'
        × (s'.quorum_reached_at ≡ s.quorum_reached_at))
      ⊎ ((threshold ≤ p.approval_weight + signer_weight s approver)
          × Written id
              (decided p approver (p.approval_weight + signer_weight s approver) env.now)
              s
              s'
          × (s'.quorum_reached_at
              ≡ update s.quorum_reached_at id
                  (some (record { reached_at = env.now; threshold = threshold }))))

-- The guards of `approve` before the vote.
approve_enters :
    (env : Env) (approver : Address) (id : ℕ) (s s' : Store) (p : Proposal)
    → s.proposals id ≡ some p
    → approve env approver id s ≡ done s'
    → (env.authorized approver ≡ true)
      × (has_signer s.signer_index approver ≡ true)
      × (cast_vote env approver id p (bump_proposal_retention env id p.status s) ≡ done s')
unfolding approve is_registered_signer
approve_enters env approver id s s' p e h = elim (Option-cases s.signer_index) [
  | inl k ↦ absurd (ground arith)
  | inr (index, k) ↦ (ground arith, ground arith, ground arith)
]

needs_threshold :
    (env : Env) (approver : Address) (id : ℕ) (p : Proposal) (s s' : Store)
    → cast_vote env approver id p s ≡ done s'
    → (threshold : ℕ) × (s.threshold ≡ some threshold)
unfolding cast_vote
needs_threshold env approver id p s s' h = elim (Option-cases s.threshold) [
  | inl e ↦ absurd (ground arith)
  | inr found ↦ found
]

-- A call that goes through has met a proposal.
pub approve_finds :
    (env : Env) (approver : Address) (id : ℕ) (s s' : Store)
    → approve env approver id s ≡ done s'
    → (p : Proposal) × (s.proposals id ≡ some p)
unfolding approve is_registered_signer
approve_finds env approver id s s' h = elim (Option-cases (s.proposals id)) [
  | inl e ↦ absurd (ground arith)
  | inr found ↦ found
]

-- A vote counts once, with its weight. If `approve` succeeds outside an execution, on a proposal with
-- an id below the next one, the approver is a signer who has signed and has not approved this
-- proposal before, and the proposal is open and at most 30 days old. The approver is now in the index
-- and at the end of the approvals, and the weight has grown by that of the approver. If it is short
-- of the threshold, the proposal is approved and the quorums are as they were; if it reaches the
-- threshold, the proposal is queued with an eta in two days, and the quorum is recorded with this
-- time and this threshold. The board and the other proposals are as they were, and nothing is called.
pub approve_inv :
    (env : Env) (approver : Address) (id : ℕ) (s s' : Store)
    → get_or s.executing false ≡ false
    → ((p : Proposal) → s.proposals id ≡ some p → id < read_next_proposal_id s)
    → approve env approver id s ≡ done s'
    → Approved env approver id s s'
approve_inv env approver id s s' idle old h =
    let (p, e) = approve_finds env approver id s s' h in
    let (signed, registered, k) = approve_enters env approver id s s' p e h in
    let (threshold, t) =
      needs_threshold env approver id p (bump_proposal_retention env id p.status s) s' k in
    let (votable, young, first_vote, in_range) =
      vote_passes env approver id p.status s idle (old p e) s' p refl k threshold t in
    elim (Bool-cases (ltb (p.approval_weight + signer_weight s approver) threshold)) [
      | inl below ↦
          let (recorded, change, same) =
            short_vote env approver id p.status s idle (old p e) s' p refl k threshold t below in
          record {
            p = p;
            threshold = threshold;
            found = e;
            has_threshold = t;
            signed = signed;
            registered = registered;
            votable = votable;
            young = young;
            first_vote = first_vote;
            in_range = in_range;
            recorded = recorded;
            outcome = inl (ground arith, change, same);
          }
      | inr reached ↦
          let (recorded, change, new) =
            deciding_vote env approver id p.status s idle (old p e) s' p refl k threshold t
              reached in
          record {
            p = p;
            threshold = threshold;
            found = e;
            has_threshold = t;
            signed = signed;
            registered = registered;
            votable = votable;
            young = young;
            first_vote = first_vote;
            in_range = in_range;
            recorded = recorded;
            outcome = inr (ground arith, change, new);
          }
    ]
