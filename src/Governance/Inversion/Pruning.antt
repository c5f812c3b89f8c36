-- ===== src/Governance/Inversion/Pruning.antt =====
-- The loop of `prune_expired_proposals` of contracts/governance/src/lib.rs read backwards.
use perpetua_contracts.Prelude.{
  ℕ, zero, suc, ◌+◌, ◌≤◌, ◌<◌, ◌≡◌, ◌⊎◌, inl, inr, Bool, true, false, ◌==◌, Option, none, some,
  arith, refl, update, Bool-cases, if◌then◌else◌, subst,
}
use perpetua_contracts.Governance.Types.{Proposal, QuorumInfo, done, >>=-eq-done}
use perpetua_contracts.Governance.Host.{Env, Store}
use perpetua_contracts.Governance.Pruning.{
  quorum_is_expired, proposal_is_expired, remove_proposal, is_prunable, prune_from,
}
use perpetua_contracts.Governance.Frame.{SameBoard}

-- Nothing at `j` has changed, and if it is one of the ids, it was not to be removed.
pub record Kept (env : Env) (start left j : ℕ) (s s' : Store) : Type 0 where
  pub same_proposal : s'.proposals j ≡ s.proposals j
  pub same_quorum : s'.quorum_reached_at j ≡ s.quorum_reached_at j
  pub same_approvals : s'.proposal_approval_idx j ≡ s.proposal_approval_idx j
  pub spared : start ≤ j → j < start + left → is_prunable env j (s.proposals j) s ≡ done false

-- All that is stored at `j`, one of the ids, is gone, and it was to be removed.
pub record Dropped (env : Env) (start left j : ℕ) (s s' : Store) : Type 0 where
  pub in_page : (start ≤ j) × (j < start + left)
  pub due : is_prunable env j (s.proposals j) s ≡ done true
  pub no_proposal : s'.proposals j ≡ none
  pub no_quorum : s'.quorum_reached_at j ≡ none
  pub no_approvals : s'.proposal_approval_idx j ≡ none

pub record Swept (env : Env) (start left : ℕ) (s s' : Store) : Type 0 where
  pub same_board : SameBoard s s'
  pub same_next : s'.next_proposal_id ≡ s.next_proposal_id
  pub same_executing : s'.executing ≡ s.executing
  pub same_invoked : s'.invoked ≡ s.invoked
  pub fate : (j : ℕ) → Dropped env start left j s s' ⊎ Kept env start left j s s'

is_prunable-remove :
    (env : Env) (current j : ℕ) (p : Option Proposal) (s : Store)
    → (j == current) ≡ false
    → is_prunable env j p (remove_proposal current s) ≡ is_prunable env j p s
unfolding is_prunable remove_proposal proposal_is_expired
is_prunable-remove env current j none s e = refl
is_prunable-remove env current j (some p) s e =
    let same : (update s.quorum_reached_at current none) j ≡ s.quorum_reached_at j = ground arith in
    rw (same, expired_same (s.quorum_reached_at j))
  where
    expired_same :
        (q : Option QuorumInfo)
        → quorum_is_expired env q (remove_proposal current s) ≡ quorum_is_expired env q s
    expired_same none = refl
    expired_same (some info) = refl

-- The storage after one round.
abbrev pub swept_once : Bool → ℕ → Store → Store
swept_once prunable current s = if prunable then remove_proposal current s else s

module _ (env : Env) (current j : ℕ) (s : Store) where
  round_elsewhere :
      (b : Bool)
      → (j == current) ≡ false
      → ((swept_once b current s).proposals j ≡ s.proposals j)
        × ((swept_once b current s).quorum_reached_at j ≡ s.quorum_reached_at j)
        × ((swept_once b current s).proposal_approval_idx j ≡ s.proposal_approval_idx j)
        × (is_prunable env j (s.proposals j) (swept_once b current s)
            ≡ is_prunable env j (s.proposals j) s)
  unfolding remove_proposal
  round_elsewhere true e = (
    ground arith,
    ground arith,
    ground arith,
    is_prunable-remove env current j (s.proposals j) s e,
  )
  round_elsewhere false e = (refl, refl, refl, refl)

  joined_here :
      (left : ℕ) (b : Bool) (s' : Store)
      → (j == current) ≡ true
      → is_prunable env current (s.proposals current) s ≡ done b
      → Kept env (current + 1) left j (swept_once b current s) s'
      → Dropped env current (suc left) j s s' ⊎ Kept env current (suc left) j s s'
  unfolding remove_proposal
  joined_here left true s' here e k =
      let same : current ≡ j = ground arith in
      inl (record {
        in_page = ground arith;
        due = rw (← same) e;
        no_proposal = ground (arith, k.same_proposal);
        no_quorum = ground (arith, k.same_quorum);
        no_approvals = ground (arith, k.same_approvals);
      })
  joined_here left false s' here e k =
      let same : current ≡ j = ground arith in
      inr (record {
        same_proposal = k.same_proposal;
        same_quorum = k.same_quorum;
        same_approvals = k.same_approvals;
        spared = λ l u. rw (← same) e;
      })

  -- The fate of `j` after the rounds that follow is its fate after all of them.
  joined :
      (left : ℕ) (b : Bool) (s' : Store)
      → is_prunable env current (s.proposals current) s ≡ done b
      → Dropped env (current + 1) left j (swept_once b current s) s'
        ⊎ Kept env (current + 1) left j (swept_once b current s) s'
      → Dropped env current (suc left) j s s' ⊎ Kept env current (suc left) j s s'
  unfolding remove_proposal
  joined left b s' e (inl d) =
      let away : (j == current) ≡ false = ground (arith, d.in_page) in
      let (p, _, _, same) = round_elsewhere b away in
      inl (record {
        in_page = omega (arith, d.in_page);
        due = ground (arith, d.due);
        no_proposal = d.no_proposal;
        no_quorum = d.no_quorum;
        no_approvals = d.no_approvals;
      })
  joined left b s' e (inr k) = elim (Bool-cases (j == current)) [
    | inl here ↦ joined_here left b s' here e k
    | inr away ↦
        let (p, q, a, same) = round_elsewhere b away in
        inr (record {
          same_proposal = ground (arith, k.same_proposal);
          same_quorum = ground (arith, k.same_quorum);
          same_approvals = ground (arith, k.same_approvals);
          spared = λ l u. ground (arith, k.spared);
        })
  ]

pub swept_once-SameBoard :
    (b : Bool) (current : ℕ) (s : Store) → SameBoard s (swept_once b current s)
unfolding remove_proposal
swept_once-SameBoard true current s = ground arith
swept_once-SameBoard false current s = ground arith

swept_once_frame :
    (b : Bool) (current : ℕ) (s : Store)
    → ((swept_once b current s).next_proposal_id ≡ s.next_proposal_id)
      × ((swept_once b current s).executing ≡ s.executing)
      × ((swept_once b current s).invoked ≡ s.invoked)
unfolding remove_proposal
swept_once_frame true current s = (refl, refl, refl)
swept_once_frame false current s = (refl, refl, refl)

pub prune_from_inv :
    (env : Env) (left current pruned count : ℕ) (s s' : Store)
    → prune_from env left current pruned s ≡ done (count, s')
    → Swept env current left s s'
unfolding prune_from
prune_from_inv env zero current pruned count s s' h =
    let same : s ≡ s' = ground arith in
    subst (Swept env current zero s) same (record {
      same_board = ground arith;
      same_next = refl;
      same_executing = refl;
      same_invoked = refl;
      fate = λ j. inr (record {
        same_proposal = refl;
        same_quorum = refl;
        same_approvals = refl;
        spared = λ l u. absurd (omega arith);
      });
    })
prune_from_inv env (suc left) current pruned count s s' h =
    let (b, e, h1) = >>=-eq-done (is_prunable env current (s.proposals current) s) _ h in
    let r =
      prune_from_inv env left (current + 1) (if b then pruned + 1 else pruned) count
        (swept_once b current s) s' h1 in
    let f = swept_once-SameBoard b current s in
    let g = swept_once_frame b current s in
    record {
      same_board = ground (arith, r.same_board, f);
      same_next = ground (arith, r.same_next, g);
      same_executing = ground (arith, r.same_executing, g);
      same_invoked = ground (arith, r.same_invoked, g);
      fate = λ j. joined env current j s left b s' e (r.fate j);
    }
