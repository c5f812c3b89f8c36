-- ===== src/Governance/Admin.antt =====
-- The entry points of contracts/governance/src/lib.rs that set the contract up and that its admin
-- calls: the board of signers, the threshold, the weights, the guardians and the grace period.
use perpetua_contracts.Prelude.{
  ℕ, Bool, true, false, not, ◌||◌, Option, none, some, List, [], ◌∷◌, ◌++◌, ltb, leb, ◌==◌, is_some,
  get_or, if◌then◌else◌, length, update,
}
use perpetua_contracts.Governance.Types.{
  Address, GovernanceError, Event, Outcome, done, ◌>>=◌, ◌>>◌, refuse_if, or_trap,
}
use perpetua_contracts.Words.{u32_checked_sub}
use perpetua_contracts.Governance.Host.{Env, Store, require_auth, publish}
use perpetua_contracts.Governance.Storage.{
  max_signers, bump_instance, no_address, get_admin, get_signers, get_signer_index,
  save_signer_index, get_threshold, bump_signer_generation, is_registered_signer,
}

-- The loop of `init` over the signers, which stops at one that the index has.
abbrev pub index_signers : List Address → (Address → Bool) → Outcome (Address → Bool)
index_signers [] index = done index
index_signers (s ∷ signers) index = do
  refuse_if (index s) GovernanceError.duplicate_signer
  index_signers signers (update index s true)

unfoldable pub init : Env → Address → List Address → ℕ → Store → Outcome Store
init env admin signers threshold s = do
  refuse_if (is_some s.admin) GovernanceError.already_initialized
  refuse_if (ltb max_signers (length signers)) GovernanceError.too_many_signers
  refuse_if (threshold == 0 || ltb (length signers) threshold) GovernanceError.invalid_threshold
  signer_index ← index_signers signers no_address
  done (
      bump_instance env (record s {
        admin = some admin;
        signers = some signers;
        signer_index = some signer_index;
        threshold = some threshold;
        signer_generation = some 0;
        next_proposal_id = some 0;
      }))

-- `get_admin(&env)?.require_auth()`
abbrev pub admin_signs : Env → Store → Outcome (Address × Store)
admin_signs env s = do (admin, s) ← get_admin env s; require_auth env admin; done (admin, s)

unfoldable pub set_admin : Env → Address → Store → Outcome Store
set_admin env new_admin s = do
  (old_admin, s) ← admin_signs env s
  done (
      publish (Event.admin_changed old_admin new_admin)
        (bump_instance env (record s { admin = some new_admin })))

abbrev pub contains : List Address → Address → Bool
contains [] who = false
contains (a ∷ list) who = a == who || contains list who

-- The two loops of `set_emergency_guardians` over the pairs of guardians.
abbrev pub has_duplicate : List Address → Bool
has_duplicate [] = false
has_duplicate (guardian ∷ guardians) = contains guardians guardian || has_duplicate guardians

unfoldable pub set_emergency_guardians : Env → List Address → Store → Outcome Store
set_emergency_guardians env guardians s = do
  (admin, s) ← admin_signs env s
  refuse_if (ltb max_signers (length guardians)) GovernanceError.too_many_emergency_guardians
  refuse_if (has_duplicate guardians) GovernanceError.duplicate_emergency_guardian
  done (bump_instance env (record s { emergency_guardians = some guardians }))

unfoldable pub set_threshold : Env → ℕ → Store → Outcome Store
set_threshold env new_threshold s = do
  (admin, s) ← admin_signs env s
  signers ← get_signers s
  refuse_if (new_threshold == 0 || ltb (length signers) new_threshold)
      GovernanceError.invalid_threshold
  old_threshold ← get_threshold s
  s ← bump_signer_generation (record s { threshold = some new_threshold })
  done (publish (Event.threshold_updated old_threshold new_threshold) (bump_instance env s))

unfoldable pub update_threshold : Env → ℕ → Store → Outcome Store
update_threshold env threshold s = do
  (admin, s) ← admin_signs env s
  signers ← get_signers s
  refuse_if (threshold == 0 || ltb (length signers) threshold) GovernanceError.invalid_threshold
  s ← bump_signer_generation (record s { threshold = some threshold })
  done (publish (Event.quorum_config threshold (length signers)) (bump_instance env s))

-- No weights are an empty map.
abbrev pub no_weight : Address → Option ℕ
no_weight who = none

unfoldable pub set_vote_weight : Env → Address → ℕ → Store → Outcome Store
set_vote_weight env signer weight s = do
  (admin, s) ← admin_signs env s
  registered ← is_registered_signer s signer
  refuse_if (not registered) GovernanceError.not_a_signer
  done (
      bump_instance env (record s {
        signer_weights = some (update (get_or s.signer_weights no_weight) signer (some weight));
      }))

unfoldable pub add_signer : Env → Address → Store → Outcome Store
add_signer env signer s = do
  (admin, s) ← admin_signs env s
  signers ← get_signers s
  signer_index ← get_signer_index s
  refuse_if (signer_index signer) GovernanceError.duplicate_signer
  refuse_if (leb max_signers (length signers)) GovernanceError.too_many_signers
  let signers' = signers ++ signer ∷ []
  s ←
      bump_signer_generation
        (save_signer_index (update signer_index signer true) (record s { signers = some signers' }))
  threshold ← get_threshold s
  done (
      publish (Event.quorum_config threshold (length signers'))
        (publish (Event.signer_added signer) (bump_instance env s)))

-- The loop of `remove_signer`, which takes the first entry that is the signer out.
abbrev pub remove_first : List Address → Address → List Address
remove_first [] signer = []
remove_first (candidate ∷ signers) signer =
    if candidate == signer then signers else candidate ∷ remove_first signers signer

-- `signers.len() - 1` of an empty list is an overflow, which traps. What follows the guards.
unfoldable pub remove_registered :
    Env → Address → List Address → (Address → Bool) → ℕ → Store → Outcome Store
remove_registered env signer signers signer_index threshold s = do
  s ← bump_signer_generation (
      save_signer_index (update signer_index signer false)
        (record s { signers = some (remove_first signers signer) }))
  done (
      publish (Event.quorum_config threshold (length (remove_first signers signer)))
        (publish (Event.signer_removed signer) (bump_instance env s)))

unfoldable pub remove_signer : Env → Address → Store → Outcome Store
remove_signer env signer s = do
  (admin, s) ← admin_signs env s
  signer_index ← get_signer_index s
  if not (signer_index signer) then done s else (do
    signers ← get_signers s
    threshold ← get_threshold s
    remaining ← or_trap (u32_checked_sub (length signers) 1)
    refuse_if (ltb remaining threshold) GovernanceError.quorum_would_break
    remove_registered env signer signers signer_index threshold s)

unfoldable pub set_grace_period : Env → ℕ → Store → Outcome Store
set_grace_period env grace_period s = do
  (admin, s) ← admin_signs env s
  done (bump_instance env (record s { grace_period = some grace_period }))
