-- ===== src/Governance/Guarantee/Pruning.antt =====
-- What `prune_expired_proposals` of contracts/governance/src/lib.rs removes, and that it ends.
use perpetua_contracts.Prelude.{
  ℕ, zero, suc, ◌+◌, ◌≤◌, ◌≡◌, ◌≢◌, true, none, some, arith, refl, length, Option-cases, inl, inr,
  smaller, larger, ap, subst,
}
use perpetua_contracts.Governance.Types.{Address, Proposal, QuorumInfo, done}
use perpetua_contracts.Governance.Host.{Env, Store}
use perpetua_contracts.Governance.Storage.{
  max_page_size, bump_instance, get_grace_period, read_next_proposal_id,
}
use perpetua_contracts.Governance.Proposals.{execute}
use perpetua_contracts.Governance.Pruning.{
  proposal_is_expired, page_length, prune_expired_proposals,
}
use perpetua_contracts.Governance.Views.{prepend, proposals_from}
use perpetua_contracts.Governance.Invariant.{IsSound}
use perpetua_contracts.Governance.Inversion.Pruning.{prune_from_inv}
use perpetua_contracts.Governance.Inversion.Execution.{IsDue, execute_inv}
use perpetua_contracts.Governance.Contract.Lifecycle.{prunable_inv}
use perpetua_contracts.Governance.Guarantee.Sweeping.{
  InRange, IsDated, prune_from_ends, prune_from_counts,
}

-- The life of the instance is no part of the proposals.
proposals_from-bump :
    (env : Env) (left start : ℕ) (s : Store)
    → proposals_from left start (bump_instance env s) ≡ proposals_from left start s
unfolding proposals_from
proposals_from-bump env zero start s = refl
proposals_from-bump env (suc left) start s =
    ap (prepend (s.proposals start)) (proposals_from-bump env left (start + 1) s)

page_length_bounds :
    (start limit total : ℕ)
    → (page_length start limit total ≤ smaller limit max_page_size)
      × (start + page_length start limit total ≤ larger start total)
unfolding page_length
page_length_bounds start limit total = (ground arith, ground arith)

-- A prune ends, and its count is right. In a sound storage, with the clock in range, it returns; it
-- counts at most the limit and at most 100; and the proposals that are stored under the ids of its
-- page are by just that count fewer than before.
pub prune_ends :
    (env : Env) (start limit : ℕ) (s : Store)
    → IsSound env.now s
    → InRange env s
    → (count : ℕ) × (s' : Store) × (prune_expired_proposals env start limit s ≡ done (count, s'))
      × (count ≤ smaller limit max_page_size)
      × (count
            + length (proposals_from (page_length start limit (read_next_proposal_id s)) start s')
          ≡ length (proposals_from (page_length start limit (read_next_proposal_id s)) start s))
unfolding prune_expired_proposals
prune_ends env start limit s v r =
    let left = page_length start limit (read_next_proposal_id s) in
    let s0 = bump_instance env s in
    let d : IsDated env s0 = record {
      in_range = record { ages = r.ages; windows = r.windows };
      created = λ id p e. let x = v.sound id p e in x.past;
      reached = λ id info e. reached_by id info e;
    } in
    let (count, s', ends, few) = prune_from_ends env left start 0 s0 d in
    let b = page_length_bounds start limit (read_next_proposal_id s) in
    let counts = prune_from_counts env left start 0 count s0 s' ends in
    let same = ap length (proposals_from-bump env left start s) in
    (count, s', ends, omega (arith, few, b), omega (arith, counts, same))
  where
    reached_by :
        (id : ℕ) (info : QuorumInfo)
        → s.quorum_reached_at id ≡ some info
        → info.reached_at ≤ env.now
    reached_by id info e = elim (Option-cases (s.proposals id)) [
      | inl gone ↦ let c = v.clean id gone in absurd (ground arith)
      | inr (p, found) ↦ let x = v.sound id p found in x.recent info e
    ]

expired_not_due :
    (env env' : Env) (id : ℕ) (p : Proposal) (info : QuorumInfo) (s t : Store)
    → proposal_is_expired env id p s ≡ done true
    → env.now ≤ env'.now
    → s.quorum_reached_at id ≡ some info
    → get_grace_period t ≤ get_grace_period s
    → IsDue env' t p info
    → ⊥
unfolding proposal_is_expired
expired_not_due env env' id p info s t x later q g due = ground arith

-- A prune takes nothing that could still be executed. If it has removed the proposal `id`, then in
-- no storage that has this proposal and its recorded quorum, at no later time and with no longer a
-- grace period, does an execution of it go through.
pub pruned_never_executes :
    (env env' : Env) (start limit count id : ℕ) (p : Proposal) (executor : Address)
    (s s' t t' : Store)
    → prune_expired_proposals env start limit s ≡ done (count, s')
    → s.proposals id ≡ some p
    → s'.proposals id ≡ none
    → env.now ≤ env'.now
    → t.proposals id ≡ some p
    → t.quorum_reached_at id ≡ s.quorum_reached_at id
    → get_grace_period t ≤ get_grace_period s
    → execute env' executor id t ≢ done t'
unfolding prune_expired_proposals
pruned_never_executes env env' start limit count id p executor s s' t t' h e gone later e' q g k =
    let s0 = bump_instance env s in
    let left = page_length start limit (read_next_proposal_id s) in
    let w = prune_from_inv env left start 0 count s0 s' h in
    let r = execute_inv env' executor id t t' k in
    elim (w.fate id) [
      | inr kept ↦ let same = kept.same_proposal in absurd (ground arith)
      | inl d ↦
          let (p0, found, _, _, x) = prunable_inv env id (s.proposals id) s0 d.due in
          let is_p : r.p ≡ p0 = ground (arith, r.found) in
          expired_not_due env env' id p0 r.info s0 t x later (ground (arith, r.found_info)) g
            (subst (λ y. IsDue env' t y r.info) is_p r.due)
    ]
