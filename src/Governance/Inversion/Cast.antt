-- ===== src/Governance/Inversion/Cast.antt =====
-- `cast_vote` of contracts/governance/src/lib.rs, the part of `approve` after its first guards.
use perpetua_contracts.Prelude.{
  ℕ, ◌+◌, ◌≤◌, ◌<◌, ◌≡◌, true, false, some, arith, ltb, get_or, update, refl, ap, sym, subst,
}
use perpetua_contracts.Words.{u64_max}
use perpetua_contracts.Governance.Types.{Address, ProposalStatus, Proposal, EntryKey, done}
use perpetua_contracts.Governance.Host.{Env, Store}
use perpetua_contracts.Governance.Storage.{
  governance_timelock_seconds, max_proposal_age_seconds, no_address, signer_weight,
  read_next_proposal_id, bump_active_entry, bump_proposal_retention,
}
use perpetua_contracts.Governance.Proposals.{
  check_votable, with_approval, save_approval, save_quorum, cast_vote,
}
use perpetua_contracts.Governance.Invariant.{is_open}
use perpetua_contracts.Governance.Written.{Written}

-- The vote is counted, and is short of the threshold.
abbrev pub counted : Proposal → Address → ℕ → Proposal
counted p approver accumulated = record (with_approval p approver accumulated) {
  status = ProposalStatus.approved;
}

-- The vote is counted, and reaches the threshold at the time `now`.
abbrev pub decided : Proposal → Address → ℕ → ℕ → Proposal
decided p approver accumulated now = record (with_approval p approver accumulated) {
  eta = now + governance_timelock_seconds;
  status = ProposalStatus.queued;
}

-- The vote is in the index, and nothing has been proposed or called.
pub record Recorded (approver : Address) (id : ℕ) (s s' : Store) : Type 0 where
  pub indexed :
      s'.proposal_approval_idx
      ≡ update s.proposal_approval_idx id
          (some (update (get_or (s.proposal_approval_idx id) no_address) approver true))
  pub same_next : s'.next_proposal_id ≡ s.next_proposal_id
  pub same_invoked : s'.invoked ≡ s.invoked

votable_inv : (status : ProposalStatus) → check_votable status ≡ done tt → is_open status ≡ true
votable_inv ProposalStatus.proposed h = refl
votable_inv ProposalStatus.approved h = refl
votable_inv ProposalStatus.queued h = cc
votable_inv ProposalStatus.executed h = cc
votable_inv ProposalStatus.cancelled h = cc

-- The storage in which a vote is counted: the entries of the proposal have been renewed.
abbrev polled : Env → ℕ → ProposalStatus → Store → Store
polled env id status s =
    bump_active_entry env (EntryKey.proposal_approval_idx id) status
      (bump_proposal_retention env id status s)

module _ (env : Env) (approver : Address) (id : ℕ) (status : ProposalStatus) (s : Store)
    (idle : get_or s.executing false ≡ false) (old : id < read_next_proposal_id s) where
  save_approval-Written :
      (q : Proposal)
      → Written id q s (
          save_approval env approver id q
            (get_or (s.proposal_approval_idx id) no_address)
            (polled env id status s))
  unfolding save_approval
  save_approval-Written q = record {
    same_board = ground arith;
    written = refl;
    next_kept = ground arith;
    other = λ j k. ground arith;
    idle = idle;
  }

  save_quorum-Written :
      (q : Proposal) (eta threshold : ℕ)
      → Written id q s (
          save_quorum env id eta threshold (
            save_approval env approver id q
              (get_or (s.proposal_approval_idx id) no_address)
              (polled env id status s)))
  unfolding save_approval save_quorum
  save_quorum-Written q eta threshold = record {
    same_board = ground arith;
    written = refl;
    next_kept = ground arith;
    other = λ j k. ground arith;
    idle = idle;
  }

  module _ (s' : Store) (p : Proposal) (is_status : p.status ≡ status)
      (h : cast_vote env approver id p (bump_proposal_retention env id status s) ≡ done s') where
    pub vote_passes :
        (threshold : ℕ)
        → s.threshold ≡ some threshold
        → (is_open p.status ≡ true)
          × (env.now ≤ p.created_at + max_proposal_age_seconds)
          × (get_or (s.proposal_approval_idx id) no_address approver ≡ false)
          × (p.approval_weight + signer_weight s approver ≤ u64_max)
    unfolding cast_vote
    vote_passes threshold t = let o = votable_inv p.status in ground (arith, o)

    vote_falls_short :
        (threshold : ℕ)
        → s.threshold ≡ some threshold
        → ltb (p.approval_weight + signer_weight s approver) threshold ≡ true
        → s'
          ≡ save_approval env approver id
              (counted p approver (p.approval_weight + signer_weight s approver))
              (get_or (s.proposal_approval_idx id) no_address)
              (polled env id status s)
    unfolding cast_vote
    vote_falls_short threshold t e = ground arith

    vote_decides :
        (threshold : ℕ)
        → s.threshold ≡ some threshold
        → ltb (p.approval_weight + signer_weight s approver) threshold ≡ false
        → s'
          ≡ save_quorum env id (env.now + governance_timelock_seconds) threshold (
              save_approval env approver id
                (decided p approver (p.approval_weight + signer_weight s approver) env.now)
                (get_or (s.proposal_approval_idx id) no_address)
                (polled env id status s))
    unfolding cast_vote
    vote_decides threshold t e = ground arith

    pub short_vote :
        (threshold : ℕ)
        → s.threshold ≡ some threshold
        → ltb (p.approval_weight + signer_weight s approver) threshold ≡ true
        → Recorded approver id s s'
          × Written id (counted p approver (p.approval_weight + signer_weight s approver)) s s'
          × (s'.quorum_reached_at ≡ s.quorum_reached_at)
    unfolding save_approval
    short_vote threshold t e =
        let q = vote_falls_short threshold t e in
        (
          record {
            indexed = ap (λ (x : Store). x.proposal_approval_idx) q;
            same_next = ap (λ (x : Store). x.next_proposal_id) q;
            same_invoked = ap (λ (x : Store). x.invoked) q;
          },
          subst (Written id (counted p approver (p.approval_weight + signer_weight s approver)) s)
              (sym q)
              (save_approval-Written
                (counted p approver (p.approval_weight + signer_weight s approver))),
          ap (λ (x : Store). x.quorum_reached_at) q,
        )

    pub deciding_vote :
        (threshold : ℕ)
        → s.threshold ≡ some threshold
        → ltb (p.approval_weight + signer_weight s approver) threshold ≡ false
        → Recorded approver id s s'
          × Written id
              (decided p approver (p.approval_weight + signer_weight s approver) env.now)
              s
              s'
          × (s'.quorum_reached_at
              ≡ update s.quorum_reached_at id
                  (some (record { reached_at = env.now; threshold = threshold })))
    unfolding save_approval save_quorum
    deciding_vote threshold t e =
        let q = vote_decides threshold t e in
        (
          record {
            indexed = ap (λ (x : Store). x.proposal_approval_idx) q;
            same_next = ap (λ (x : Store). x.next_proposal_id) q;
            same_invoked = ap (λ (x : Store). x.invoked) q;
          },
          subst
              (Written id
                (decided p approver (p.approval_weight + signer_weight s approver) env.now) s)
              (sym q)
              (save_quorum-Written
                (decided p approver (p.approval_weight + signer_weight s approver) env.now)
                (env.now + governance_timelock_seconds) threshold),
          ap (λ (x : Store). x.quorum_reached_at) q,
        )
