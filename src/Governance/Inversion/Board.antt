-- ===== src/Governance/Inversion/Board.antt =====
-- The calls of the admin of contracts/governance/src/lib.rs read backwards.
use perpetua_contracts.Prelude.{◌≤◌, ◌≡◌, Bool, true, false, some, arith, Option-cases, inl, inr}
use perpetua_contracts.Governance.Types.{Address, Outcome, done, ◌>>=◌, >>=-eq-done}
use perpetua_contracts.Governance.Host.{Env, Store}
use perpetua_contracts.Governance.Storage.{get_signer_generation, is_registered_signer}
use perpetua_contracts.Governance.Admin
use perpetua_contracts.Governance.Admin.{admin_signs, remove_registered}
use perpetua_contracts.Governance.Frame.{SameProposals}
use perpetua_contracts.Governance.Contract.{Call, perform}

-- The admin has signed, and the proposals are as they were.
pub record ByAdmin (env : Env) (s s' : Store) : Type 0 where
  pub admin : Address
  pub has_admin : s.admin ≡ some admin
  pub signed : env.authorized admin ≡ true
  pub kept : SameProposals s s'
  pub later : get_signer_generation s ≤ get_signer_generation s'

abbrev pub is_by_admin : Call → Bool
is_by_admin (Call.set_admin a) = true
is_by_admin (Call.set_emergency_guardians l) = true
is_by_admin (Call.set_threshold n) = true
is_by_admin (Call.update_threshold n) = true
is_by_admin (Call.set_vote_weight a n) = true
is_by_admin (Call.add_signer a) = true
is_by_admin (Call.remove_signer a) = true
is_by_admin (Call.set_grace_period n) = true
is_by_admin (Call.init a l n) = false
is_by_admin (Call.propose a t d) = false
is_by_admin (Call.approve a id) = false
is_by_admin (Call.execute a id) = false
is_by_admin (Call.cancel_proposal a id) = false
is_by_admin (Call.prune_expired_proposals a n) = false

admin_signs_inv :
    (env : Env) (s : Store) (r : Address × Store)
    → admin_signs env s ≡ done r
    → (s.admin ≡ some r.0) × (env.authorized r.0 ≡ true)
admin_signs_inv env s r h = elim (Option-cases s.admin) [
  | inl e ↦ absurd (ground arith)
  | inr (a, e) ↦ (ground arith, ground arith)
]

module _ (env : Env) (s s' : Store) where
  by_admin :
      (next : Address × Store → Outcome Store)
      → (admin_signs env s >>= next) ≡ done s'
      → SameProposals s s'
      → get_signer_generation s ≤ get_signer_generation s'
      → ByAdmin env s s'
  by_admin next h kept later =
      let (r, e, _) = >>=-eq-done (admin_signs env s) next h in
      let (a, signed) = admin_signs_inv env s r e in
      record { admin = r.0; has_admin = a; signed = signed; kept = kept; later = later }

  pub admin_call_inv :
      (c : Call) → is_by_admin c ≡ true → perform env c s ≡ done s' → ByAdmin env s s'
  unfolding perform Admin.set_admin Admin.set_emergency_guardians Admin.set_threshold
      Admin.update_threshold Admin.set_vote_weight Admin.add_signer Admin.remove_signer
      Admin.set_grace_period remove_registered is_registered_signer
  admin_call_inv (Call.set_admin a) t h = by_admin _ h (ground arith) (ground arith)
  admin_call_inv (Call.set_emergency_guardians l) t h = by_admin _ h (ground arith) (ground arith)
  admin_call_inv (Call.set_threshold n) t h = by_admin _ h (ground arith) (ground arith)
  admin_call_inv (Call.update_threshold n) t h = by_admin _ h (ground arith) (ground arith)
  admin_call_inv (Call.set_vote_weight a n) t h = by_admin _ h (ground arith) (ground arith)
  admin_call_inv (Call.add_signer a) t h = by_admin _ h (ground arith) (ground arith)
  admin_call_inv (Call.remove_signer a) t h = by_admin _ h (ground arith) (ground arith)
  admin_call_inv (Call.set_grace_period n) t h = by_admin _ h (ground arith) (ground arith)
  admin_call_inv (Call.init a l n) t h = cc
  admin_call_inv (Call.propose a d e) t h = cc
  admin_call_inv (Call.approve a id) t h = cc
  admin_call_inv (Call.execute a id) t h = cc
  admin_call_inv (Call.cancel_proposal a id) t h = cc
  admin_call_inv (Call.prune_expired_proposals a n) t h = cc
