-- ===== src/Governance/Guarantee/Sweeping.antt =====
-- The loop of `prune_expired_proposals` of contracts/governance/src/lib.rs: its end and its count.
use perpetua_contracts.Prelude.{
  ℕ, zero, suc, ◌+◌, ◌≤◌, ◌<◌, ◌≡◌, Bool, true, false, Option, none, some, arith, refl, length,
  Option-cases, Bool-cases, inl, inr, if◌then◌else◌, ltb, ◌||◌, ap,
}
use perpetua_contracts.Words.{u64_max}
use perpetua_contracts.Governance.Types.{Proposal, QuorumInfo, done, >>=-eq-done}
use perpetua_contracts.Governance.Host.{Env, Store}
use perpetua_contracts.Governance.Storage.{
  governance_timelock_seconds, max_proposal_age_seconds, get_grace_period,
}
use perpetua_contracts.Governance.Pruning.{
  quorum_is_expired, proposal_is_expired, remove_proposal, is_prunable, prune_from,
}
use perpetua_contracts.Governance.Views.{prepend, proposals_from}
use perpetua_contracts.Governance.Inversion.Pruning.{Swept, swept_once, prune_from_inv}
use perpetua_contracts.Governance.Contract.Lifecycle.{prunable_inv}

-- The clock is far enough from the end of `u64` for every deadline of a proposal made by now.
pub record InRange (env : Env) (s : Store) : Type 0 where
  pub ages : env.now + max_proposal_age_seconds ≤ u64_max
  pub windows : env.now + governance_timelock_seconds + get_grace_period s ≤ u64_max

abbrev pub Dated : ℕ → Option QuorumInfo → Type 0
Dated now q = (info : QuorumInfo) → q ≡ some info → info.reached_at ≤ now

quorum_decides :
    (env : Env) (q : Option QuorumInfo) (s : Store)
    → InRange env s
    → Dated env.now q
    → (b : Bool) × (quorum_is_expired env q s ≡ done b)
quorum_decides env none s r d = (false, refl)
quorum_decides env (some info) s r d =
    let past = d info refl in
    (
      ltb (info.reached_at + governance_timelock_seconds + get_grace_period s) env.now,
      ground (arith, r.windows),
    )

-- The test of each id comes out, one way or the other.
prunable_decides :
    (env : Env) (id : ℕ) (q : Option Proposal) (s : Store)
    → InRange env s
    → ((p : Proposal) → q ≡ some p → p.created_at ≤ env.now)
    → Dated env.now (s.quorum_reached_at id)
    → (b : Bool) × (is_prunable env id q s ≡ done b)
unfolding is_prunable proposal_is_expired
prunable_decides env id none s r created d = (false, refl)
prunable_decides env id (some p) s r created d =
    let past = created p refl in
    let (b, e) = quorum_decides env (s.quorum_reached_at id) s r d in
    elim (Bool-cases (p.executed || p.cancelled)) [
      | inl over ↦ (false, ground arith)
      | inr live ↦ elim (Bool-cases (ltb (p.created_at + max_proposal_age_seconds) env.now)) [
        | inl old ↦ (true, ground (arith, r.ages))
        | inr young ↦ (b, ground (arith, r.ages))
      ]
    ]

-- What the loop relies on: it holds of the storage and of what is left of it.
pub record IsDated (env : Env) (s : Store) : Type 0 where
  pub in_range : InRange env s
  pub created : (id : ℕ) (p : Proposal) → s.proposals id ≡ some p → p.created_at ≤ env.now
  pub reached : (id : ℕ) → Dated env.now (s.quorum_reached_at id)

swept_once-IsDated :
    (env : Env) (b : Bool) (current : ℕ) (s : Store)
    → IsDated env s
    → IsDated env (swept_once b current s)
unfolding remove_proposal
swept_once-IsDated env false current s d = d
swept_once-IsDated env true current s d = record {
  in_range = record { ages = d.in_range.ages; windows = d.in_range.windows };
  created = λ id p e. ground (arith, d.created id p);
  reached = λ id info e. ground (arith, d.reached id info);
}

-- With no fuel but the number of ids left, the loop comes to its end, and removes no more than that.
pub prune_from_ends :
    (env : Env) (left current pruned : ℕ) (s : Store)
    → IsDated env s
    → (count : ℕ) × (s' : Store) × (prune_from env left current pruned s ≡ done (count, s'))
      × (count ≤ pruned + left)
unfolding prune_from
prune_from_ends env zero current pruned s d = (pruned, s, refl, omega arith)
prune_from_ends env (suc left) current pruned s d =
    let (b, e) =
      prunable_decides env current (s.proposals current) s d.in_range (d.created current)
        (d.reached current) in
    let (count, s', ends, few) =
      prune_from_ends env left (current + 1) (if b then pruned + 1 else pruned)
        (swept_once b current s) (swept_once-IsDated env b current s d) in
    (count, s', ground (arith, e, ends), ground arith)

-- The proposals of the ids that follow one that is removed are read as before.
proposals_from-remove :
    (left start current : ℕ) (s : Store)
    → current < start
    → proposals_from left start (remove_proposal current s) ≡ proposals_from left start s
unfolding proposals_from remove_proposal
proposals_from-remove zero start current s h = refl
proposals_from-remove (suc left) start current s h =
    let same : (remove_proposal current s).proposals start ≡ s.proposals start = ground arith in
    let rest = proposals_from-remove left (start + 1) current s (omega arith) in
    rw (same, rest) refl

-- The rounds that follow leave an id that has been passed alone.
passed_kept :
    (env : Env) (left current : ℕ) (s s' : Store)
    → Swept env (current + 1) left s s'
    → s'.proposals current ≡ s.proposals current
passed_kept env left current s s' w = elim (w.fate current) [
  | inl d ↦ absurd (omega (arith, d.in_page))
  | inr k ↦ k.same_proposal
]

-- The count and the proposals left, before a round and after it.
counted_round :
    (env : Env) (left current pruned count : ℕ) (s s' : Store) (b : Bool)
    → is_prunable env current (s.proposals current) s ≡ done b
    → s'.proposals current ≡ (swept_once b current s).proposals current
    → count + length (proposals_from left (current + 1) s')
      ≡ (if b then pruned + 1 else pruned)
        + length (proposals_from left (current + 1) (swept_once b current s))
    → count + length (prepend (s'.proposals current) (proposals_from left (current + 1) s'))
      ≡ pruned + length (prepend (s.proposals current) (proposals_from left (current + 1) s))
counted_round env left current pruned count s s' true e passed ih =
    let (p, found, _, _, _) = prunable_inv env current (s.proposals current) s e in
    let same = proposals_from-remove left (current + 1) current s (omega arith) in
    let gone : s'.proposals current ≡ none = unfold remove_proposal in ground arith in
    rw (found, gone) (omega (arith, ih, ap length same))
counted_round env left current pruned count s s' false e passed ih =
    elim (Option-cases (s.proposals current)) [
      | inl none_there ↦ let n : s'.proposals current ≡ none = ground arith in rw (none_there, n) ih
      | inr (p, found) ↦
          let n : s'.proposals current ≡ some p = ground arith in rw (found, n) (omega (arith, ih))
    ]

-- What the loop counts is what it removes.
pub prune_from_counts :
    (env : Env) (left current pruned count : ℕ) (s s' : Store)
    → prune_from env left current pruned s ≡ done (count, s')
    → count + length (proposals_from left current s')
      ≡ pruned + length (proposals_from left current s)
unfolding prune_from proposals_from
prune_from_counts env zero current pruned count s s' h = ground arith
prune_from_counts env (suc left) current pruned count s s' h =
    let (b, e, h1) = >>=-eq-done (is_prunable env current (s.proposals current) s) _ h in
    let passed = passed_kept env left current (swept_once b current s) s' (
      prune_from_inv env left (current + 1) (if b then pruned + 1 else pruned) count
        (swept_once b current s) s' h1) in
    let ih =
      prune_from_counts env left (current + 1) (if b then pruned + 1 else pruned) count
        (swept_once b current s) s' h1 in
    counted_round env left current pruned count s s' b e passed ih
