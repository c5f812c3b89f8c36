-- ===== src/Governance/Preserve/Board.antt =====
-- The calls of the admin of contracts/governance/src/lib.rs that leave the signers as they are.
use perpetua_contracts.Prelude.{ℕ, ◌≤◌, ◌<◌, ◌≡◌, some, List, arith, length}
use perpetua_contracts.Governance.Types.{Address, done}
use perpetua_contracts.Governance.Host.{Env, Store}
use perpetua_contracts.Governance.Storage.{get_signer_generation, is_registered_signer}
use perpetua_contracts.Governance.Admin.{
  set_admin, set_emergency_guardians, set_threshold, update_threshold, set_vote_weight,
  set_grace_period,
}
use perpetua_contracts.Governance.Frame.{SameProposals}
use perpetua_contracts.Governance.Invariant.{IsSound, board_change-IsSound}

module _ (now : ℕ) (env : Env) (s s' : Store) (v : IsSound now s) where
  -- The signers are the same.
  signers_kept-IsSound :
      (admin : Address) (threshold : ℕ)
      → SameProposals s s'
      → get_signer_generation s ≤ get_signer_generation s'
      → s'.admin ≡ some admin
      → s'.threshold ≡ some threshold
      → s'.signers ≡ s.signers
      → s'.signer_index ≡ s.signer_index
      → (0 < threshold) × (threshold ≤ length v.has_board.signers)
      → IsSound now s'
  signers_kept-IsSound admin threshold f g a t l i r =
      let b = v.has_board in
      board_change-IsSound now s s' v f g (record {
        admin = admin;
        signers = b.signers;
        index = b.index;
        threshold = threshold;
        has_admin = a;
        has_signers = ground (arith, b.has_signers);
        has_index = ground (arith, b.has_index);
        has_threshold = t;
        board = record {
          reachable = r;
          few = b.board.few;
          distinct = b.board.distinct;
          indexed = b.board.indexed;
        };
      })

  pub set_admin-IsSound : (admin : Address) → set_admin env admin s ≡ done s' → IsSound now s'
  unfolding set_admin
  set_admin-IsSound admin h =
      let b = v.has_board in
      signers_kept-IsSound admin b.threshold (ground arith) (ground arith) (ground arith)
        (ground arith) (ground arith) (ground arith) b.board.reachable

  pub set_guardians-IsSound :
      (guardians : List Address)
      → set_emergency_guardians env guardians s ≡ done s'
      → IsSound now s'
  unfolding set_emergency_guardians
  set_guardians-IsSound guardians h =
      let b = v.has_board in
      signers_kept-IsSound b.admin b.threshold (ground arith) (ground arith) (ground arith)
        (ground arith) (ground arith) (ground arith) b.board.reachable

  pub set_grace_period-IsSound :
      (seconds : ℕ) → set_grace_period env seconds s ≡ done s' → IsSound now s'
  unfolding set_grace_period
  set_grace_period-IsSound seconds h =
      let b = v.has_board in
      signers_kept-IsSound b.admin b.threshold (ground arith) (ground arith) (ground arith)
        (ground arith) (ground arith) (ground arith) b.board.reachable

  pub set_vote_weight-IsSound :
      (signer : Address) (weight : ℕ)
      → set_vote_weight env signer weight s ≡ done s'
      → IsSound now s'
  unfolding set_vote_weight is_registered_signer
  set_vote_weight-IsSound signer weight h =
      let b = v.has_board in
      signers_kept-IsSound b.admin b.threshold (ground arith) (ground arith) (ground arith)
        (ground arith) (ground arith) (ground arith) b.board.reachable

  pub set_threshold-IsSound :
      (threshold : ℕ) → set_threshold env threshold s ≡ done s' → IsSound now s'
  unfolding set_threshold
  set_threshold-IsSound threshold h =
      let b = v.has_board in
      signers_kept-IsSound b.admin threshold (ground arith) (ground arith) (ground arith)
        (ground arith) (ground arith) (ground arith) (ground arith)

  pub update_threshold-IsSound :
      (threshold : ℕ) → update_threshold env threshold s ≡ done s' → IsSound now s'
  unfolding update_threshold
  update_threshold-IsSound threshold h =
      let b = v.has_board in
      signers_kept-IsSound b.admin threshold (ground arith) (ground arith) (ground arith)
        (ground arith) (ground arith) (ground arith) (ground arith)
