-- ===== src/Governance/Written.antt =====
-- A call of contracts/governance/src/lib.rs that writes one proposal.
use perpetua_contracts.Prelude.{
  ℕ, ◌≤◌, ◌<◌, ◌≡◌, false, ◌==◌, some, arith, get_or, update, Bool-cases, inl, inr, subst,
}
use perpetua_contracts.Governance.Types.{Proposal}
use perpetua_contracts.Governance.Host.{Store}
use perpetua_contracts.Governance.Storage.{get_signer_generation, read_next_proposal_id}
use perpetua_contracts.Governance.Frame.{SameBoard}
use perpetua_contracts.Governance.Invariant.{IsSoundProposal, IsSound, SameBoard-HasBoard}

-- Nothing but the proposal `id`, and what is stored beside it, has been written.
pub record Written (id : ℕ) (p : Proposal) (s s' : Store) : Type 0 where
  pub same_board : SameBoard s s'
  pub written : s'.proposals ≡ update s.proposals id (some p)
  pub next_kept :
      (read_next_proposal_id s ≤ read_next_proposal_id s') × (id < read_next_proposal_id s')
  pub other :
      (j : ℕ)
      → (j == id) ≡ false
      → (s'.quorum_reached_at j ≡ s.quorum_reached_at j)
        × (s'.proposal_approval_idx j ≡ s.proposal_approval_idx j)
  pub idle : get_or s'.executing false ≡ false

module _ (now id : ℕ) (p : Proposal) (s s' : Store) (w : Written id p s s') where
  pub written_here : s'.proposals id ≡ some p
  written_here = rw (w.written) (ground arith)

  pub written_elsewhere : (j : ℕ) → (j == id) ≡ false → s'.proposals j ≡ s.proposals j
  written_elsewhere j e = rw (w.written) (ground arith)

  pub Written-IsSound :
      IsSound now s
      → p.signer_generation ≤ get_signer_generation s
      → IsSoundProposal now p (s'.quorum_reached_at id) (s'.proposal_approval_idx id)
      → IsSound now s'
  Written-IsSound v older sound = record {
    has_board = SameBoard-HasBoard s s' w.same_board v.has_board;
    numbered = λ j q e. elim (Bool-cases (j == id)) [
      | inl here ↦ ground (arith, written_here)
      | inr away ↦ ground (arith, written_elsewhere j away, v.numbered j q)
    ];
    sound = λ j q e. elim (Bool-cases (j == id)) [
      | inl here ↦
          let is_id : id ≡ j = ground arith in
          let is_p : p ≡ q = ground (arith, written_here) in
          subst (λ k. IsSoundProposal now q (s'.quorum_reached_at k) (s'.proposal_approval_idx k))
            is_id
            (subst
              (λ r. IsSoundProposal now r (s'.quorum_reached_at id) (s'.proposal_approval_idx id))
              is_p sound)
      | inr away ↦
          let (a, b) = w.other j away in
          rw (a, b) (v.sound j q (ground (arith, written_elsewhere j away)))
    ];
    clean = λ j e. elim (Bool-cases (j == id)) [
      | inl here ↦ absurd (ground (arith, written_here))
      | inr away ↦ ground (arith, w.other j away, written_elsewhere j away, v.clean j)
    ];
    idle = w.idle;
  }
