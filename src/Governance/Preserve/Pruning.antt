-- ===== src/Governance/Preserve/Pruning.antt =====
-- The invariant of contracts/governance/src/lib.rs through `prune_expired_proposals`.
use perpetua_contracts.Prelude.{ℕ, ◌≡◌, arith, inl, inr}
use perpetua_contracts.Governance.Types.{done}
use perpetua_contracts.Governance.Host.{Env, Store}
use perpetua_contracts.Governance.Storage.{bump_instance, read_next_proposal_id}
use perpetua_contracts.Governance.Pruning.{page_length, prune_expired_proposals}
use perpetua_contracts.Governance.Invariant.{IsSound, SameBoard-HasBoard, board_change-IsSound}
use perpetua_contracts.Governance.Inversion.Pruning.{Swept, prune_from_inv}

module _ (now : ℕ) (env : Env) (start left : ℕ) (s s' : Store) (w : Swept env start left s s') where
  pub Swept-IsSound : IsSound now s → IsSound now s'
  Swept-IsSound v = record {
    has_board = SameBoard-HasBoard s s' w.same_board v.has_board;
    numbered = λ j p e. elim (w.fate j) [
      | inl d ↦ absurd (ground (arith, d.no_proposal))
      | inr k ↦
          ground (arith, k.same_proposal, v.numbered j p, w.same_next, w.same_board.same_generation)
    ];
    sound = λ j p e. elim (w.fate j) [
      | inl d ↦ absurd (ground (arith, d.no_proposal))
      | inr k ↦ rw (k.same_quorum, k.same_approvals) (v.sound j p (ground (arith, k.same_proposal)))
    ];
    clean = λ j e. elim (w.fate j) [
      | inl d ↦ (d.no_quorum, d.no_approvals)
      | inr k ↦ ground (arith, k.same_proposal, k.same_quorum, k.same_approvals, v.clean j)
    ];
    idle = ground (arith, w.same_executing, v.idle);
  }

pub bump_instance-IsSound :
    (now : ℕ) (env : Env) (s : Store) → IsSound now s → IsSound now (bump_instance env s)
bump_instance-IsSound now env s v =
    board_change-IsSound now s (bump_instance env s) v (ground arith) (ground arith)
      (SameBoard-HasBoard s (bump_instance env s) (ground arith) v.has_board)

pub prune-IsSound :
    (now : ℕ) (env : Env) (start limit count : ℕ) (s s' : Store)
    → IsSound now s
    → prune_expired_proposals env start limit s ≡ done (count, s')
    → IsSound now s'
unfolding prune_expired_proposals
prune-IsSound now env start limit count s s' v h =
    let s0 = bump_instance env s in
    let left = page_length start limit (read_next_proposal_id s0) in
    Swept-IsSound now env start left s0 s' (prune_from_inv env left start 0 count s0 s' h)
      (bump_instance-IsSound now env s v)
