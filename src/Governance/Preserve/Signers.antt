-- ===== src/Governance/Preserve/Signers.antt =====
-- The calls of contracts/governance/src/lib.rs that change the board of signers, and `init`.
use perpetua_contracts.Prelude.{
  ℕ, ◌<◌, ◌≡◌, ◌||◌, Bool, true, false, none, List, [], ◌∷◌, ◌++◌, arith, length, leb, ltb, ◌==◌,
  is_some, update, Bool-cases, inl, inr,
}
use perpetua_contracts.Governance.Types.{
  Address, GovernanceError, done, >>=-eq-done, refuse_if-eq-done,
}
use perpetua_contracts.Governance.Host.{Env, Store}
use perpetua_contracts.Governance.Storage.{max_signers, no_address}
use perpetua_contracts.Governance.Admin.{
  remove_first, index_signers, init, add_signer, remove_signer, remove_registered,
}
use perpetua_contracts.Governance.Lists.{
  length-snoc, contains-snoc, has_duplicate-snoc, contains-remove_first, has_duplicate-remove_first,
  length-remove_first, index_signers_inv,
}
use perpetua_contracts.Governance.Invariant.{IsBoard, IsSound, board_change-IsSound}

added-IsBoard :
    (signers : List Address) (index : Address → Bool) (threshold : ℕ) (a : Address)
    → IsBoard signers index threshold
    → index a ≡ false
    → leb max_signers (length signers) ≡ false
    → IsBoard (signers ++ a ∷ []) (update index a true) threshold
added-IsBoard signers index threshold a b new few = record {
  reachable = omega (arith, b.reachable, length-snoc signers a);
  few = ground (arith, length-snoc signers a);
  distinct = has_duplicate-snoc signers a b.distinct (ground (arith, b.indexed a));
  indexed = λ c. ground (arith, contains-snoc signers a c, b.indexed c);
}

removed-IsBoard :
    (signers : List Address) (index : Address → Bool) (threshold : ℕ) (a : Address)
    → IsBoard signers index threshold
    → index a ≡ true
    → threshold < length signers
    → IsBoard (remove_first signers a) (update index a false) threshold
removed-IsBoard signers index threshold a b old more =
    let l = length-remove_first signers a (ground (arith, b.indexed a)) in
    record {
      reachable = omega (arith, b.reachable, l);
      few = omega (arith, b.few, l);
      distinct = has_duplicate-remove_first signers a b.distinct;
      indexed = λ c. ground (arith, contains-remove_first signers a c b.distinct, b.indexed c);
    }

module _ (now : ℕ) (env : Env) (s s' : Store) (v : IsSound now s) (signer : Address) where
  pub add_signer-IsSound : add_signer env signer s ≡ done s' → IsSound now s'
  unfolding add_signer
  add_signer-IsSound h =
      let b = v.has_board in
      board_change-IsSound now s s' v (ground arith) (ground arith) (record {
        admin = b.admin;
        signers = b.signers ++ signer ∷ [];
        index = update b.index signer true;
        threshold = b.threshold;
        has_admin = ground arith;
        has_signers = ground arith;
        has_index = ground arith;
        has_threshold = ground arith;
        board =
            added-IsBoard b.signers b.index b.threshold signer b.board (ground arith)
              (ground arith);
      })

  removed-IsSound :
      v.has_board.index signer ≡ true → remove_signer env signer s ≡ done s' → IsSound now s'
  unfolding remove_signer remove_registered
  removed-IsSound old h =
      let b = v.has_board in
      board_change-IsSound now s s' v (ground arith) (ground arith) (record {
        admin = b.admin;
        signers = remove_first b.signers signer;
        index = update b.index signer false;
        threshold = b.threshold;
        has_admin = ground arith;
        has_signers = ground arith;
        has_index = ground arith;
        has_threshold = ground arith;
        board = removed-IsBoard b.signers b.index b.threshold signer b.board old (ground arith);
      })

  absent-IsSound :
      v.has_board.index signer ≡ false → remove_signer env signer s ≡ done s' → IsSound now s'
  unfolding remove_signer
  absent-IsSound absent h =
      let b = v.has_board in
      board_change-IsSound now s s' v (ground arith) (ground arith) (record {
        admin = b.admin;
        signers = b.signers;
        index = b.index;
        threshold = b.threshold;
        has_admin = ground arith;
        has_signers = ground arith;
        has_index = ground arith;
        has_threshold = ground arith;
        board = b.board;
      })

  pub remove_signer-IsSound : remove_signer env signer s ≡ done s' → IsSound now s'
  remove_signer-IsSound h = elim (Bool-cases (v.has_board.index signer)) [
    | inl old ↦ removed-IsSound old h
    | inr absent ↦ absent-IsSound absent h
  ]

-- No entry has been written yet, whatever the life of the instance.
pub record IsUntouched (s : Store) : Type 0 where
  pub no_admin : s.admin ≡ none
  pub no_executing : s.executing ≡ none
  pub no_proposal : (id : ℕ) → s.proposals id ≡ none
  pub no_quorum : (id : ℕ) → s.quorum_reached_at id ≡ none
  pub no_approval : (id : ℕ) → s.proposal_approval_idx id ≡ none

pub init-IsSound :
    (now : ℕ) (env : Env) (admin : Address) (signers : List Address) (threshold : ℕ) (s s' : Store)
    → IsUntouched s
    → init env admin signers threshold s ≡ done s'
    → IsSound now s'
unfolding init
init-IsSound now env admin signers threshold s s' u h =
    let (_, h1) = refuse_if-eq-done (is_some s.admin) GovernanceError.already_initialized _ h in
    let (few, h2) =
      refuse_if-eq-done (ltb max_signers (length signers)) GovernanceError.too_many_signers _ h1 in
    let (reachable, h3) =
      refuse_if-eq-done (threshold == 0 || ltb (length signers) threshold)
        GovernanceError.invalid_threshold _ h2 in
    let (index, e, h4) = >>=-eq-done (index_signers signers no_address) _ h3 in
    let (distinct, has, _) = index_signers_inv signers no_address index e in
    record {
      has_board = record {
        admin = admin;
        signers = signers;
        index = index;
        threshold = threshold;
        has_admin = ground arith;
        has_signers = ground arith;
        has_index = ground arith;
        has_threshold = ground arith;
        board = record {
          reachable = ground arith;
          few = ground arith;
          distinct = distinct;
          indexed = λ a. has a;
        };
      };
      numbered = λ id p f. absurd (ground (arith, u.no_proposal id));
      sound = λ id p f. absurd (ground (arith, u.no_proposal id));
      clean = λ id f. (ground (arith, u.no_quorum id), ground (arith, u.no_approval id));
      idle = ground arith;
    }
