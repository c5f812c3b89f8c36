-- ===== src/Governance/Storage.antt =====
-- The storage functions of contracts/governance/src/lib.rs: the constants, the lives of entries and
-- the reads and writes that the entry points share.
use perpetua_contracts.Prelude.{
  ℕ, ◌+◌, ◌/◌, Bool, false, Option, none, some, List, [], ltb, get_or, if◌then◌else◌, update,
}
use perpetua_contracts.Words.{u32_max, u32_checked_add, u64_checked_add}
use perpetua_contracts.Governance.Types.{
  Address, ProposalStatus, Proposal, GovernanceError, EntryKey, same_key, is_terminal, Outcome,
  done, ◌>>=◌, or_failed,
}
use perpetua_contracts.Governance.Host.{Env, Store, extend_ttl, has, live_once_set}

abbrev pub governance_timelock_seconds : ℕ
governance_timelock_seconds = 172_800

abbrev pub max_signers : ℕ
max_signers = 20

abbrev pub max_calldata_bytes : ℕ
max_calldata_bytes = 4_096

abbrev pub max_batch_calls : ℕ
max_batch_calls = 5

abbrev pub max_proposal_age_seconds : ℕ
max_proposal_age_seconds = 2_592_000

abbrev pub default_grace_period_seconds : ℕ
default_grace_period_seconds = 2_419_200

abbrev pub max_page_size : ℕ
max_page_size = 100

abbrev pub instance_lifetime_threshold : ℕ
instance_lifetime_threshold = 17_280

abbrev pub instance_bump_amount : ℕ
instance_bump_amount = 120_960

abbrev pub persistent_lifetime_threshold : ℕ
persistent_lifetime_threshold = 17_280

abbrev pub seconds_per_ledger : ℕ
seconds_per_ledger = 5

abbrev pub ledgers : ℕ → ℕ
ledgers seconds =
    let count = seconds / seconds_per_ledger in if ltb u32_max count then u32_max else count

abbrev pub active_proposal_bump_amount : ℕ
active_proposal_bump_amount = ledgers (max_proposal_age_seconds + 604_800)

abbrev pub terminal_proposal_retention : ℕ
terminal_proposal_retention = ledgers 2_592_000

abbrev pub bump_instance : Env → Store → Store
bump_instance env s = record s {
  instance_live_until =
      extend_ttl env s.instance_live_until instance_lifetime_threshold instance_bump_amount;
}

-- The life of an entry that is extended if a test passes.
unfoldable pub extend_if : Env → Bool → EntryKey → ℕ → Store → EntryKey → ℕ
extend_if env test key amount s k =
    if same_key k key
    then (if test
        then extend_ttl env (s.live_until key) persistent_lifetime_threshold amount
        else s.live_until key)
    else s.live_until k

abbrev pub bump_active_entry : Env → EntryKey → ProposalStatus → Store → Store
bump_active_entry env key status s = record s {
  live_until =
      extend_if env (if is_terminal status then false else has s key) key
        active_proposal_bump_amount s;
}

abbrev pub bump_proposal_retention : Env → ℕ → ProposalStatus → Store → Store
bump_proposal_retention env id status s =
    bump_active_entry env (EntryKey.proposal_approval_idx id) status (
      bump_active_entry env (EntryKey.quorum_reached_at id) status
        (bump_active_entry env (EntryKey.proposal id) status s))

abbrev pub seal_entry : Env → EntryKey → Store → Store
seal_entry env key s = record s {
  live_until = extend_if env (has s key) key terminal_proposal_retention s;
}

abbrev pub seal_terminal_proposal : Env → ℕ → Store → Store
seal_terminal_proposal env id s =
    seal_entry env (EntryKey.proposal_approval_idx id)
      (seal_entry env (EntryKey.quorum_reached_at id) (seal_entry env (EntryKey.proposal id) s))

abbrev pub is_terminal_proposal : Option Proposal → Bool
is_terminal_proposal none = false
is_terminal_proposal (some p) = is_terminal p.status

abbrev pub proposal_is_terminal : Store → ℕ → Bool
proposal_is_terminal s id = is_terminal_proposal (s.proposals id)

abbrev pub get_signer_index : Store → Outcome (Address → Bool)
get_signer_index s = or_failed s.signer_index GovernanceError.not_initialized

abbrev pub save_signer_index : (Address → Bool) → Store → Store
save_signer_index index s = record s { signer_index = some index }

-- A missing index is an empty one.
abbrev pub no_address : Address → Bool
no_address who = false

abbrev pub get_approval_index : Env → ℕ → ProposalStatus → Store → (Address → Bool) × Store
get_approval_index env id status s = (
  get_or (s.proposal_approval_idx id) no_address,
  bump_active_entry env (EntryKey.proposal_approval_idx id) status s,
)

abbrev pub save_approval_index : Env → ℕ → (Address → Bool) → ProposalStatus → Store → Store
save_approval_index env id index status s =
    bump_active_entry env (EntryKey.proposal_approval_idx id) status (record s {
      proposal_approval_idx = update s.proposal_approval_idx id (some index);
      live_until = live_once_set env (EntryKey.proposal_approval_idx id) s;
    })

abbrev pub get_admin : Env → Store → Outcome (Address × Store)
get_admin env s = do
  admin ← or_failed s.admin GovernanceError.not_initialized
  done (admin, bump_instance env s)

abbrev pub get_signers : Store → Outcome (List Address)
get_signers s = or_failed s.signers GovernanceError.not_initialized

abbrev pub get_emergency_guardians : Store → List Address
get_emergency_guardians s = get_or s.emergency_guardians []

abbrev pub get_threshold : Store → Outcome ℕ
get_threshold s = or_failed s.threshold GovernanceError.not_initialized

abbrev pub get_signer_generation : Store → ℕ
get_signer_generation s = get_or s.signer_generation 0

abbrev pub bump_signer_generation : Store → Outcome Store
bump_signer_generation s = do
  next ← or_failed (u64_checked_add (get_signer_generation s) 1) GovernanceError.arithmetic_overflow
  done (record s { signer_generation = some next })

abbrev pub read_next_proposal_id : Store → ℕ
read_next_proposal_id s = get_or s.next_proposal_id 0

abbrev pub get_grace_period : Store → ℕ
get_grace_period s = get_or s.grace_period default_grace_period_seconds

abbrev pub checked_deadline : ℕ → ℕ → Outcome ℕ
checked_deadline start seconds =
    or_failed (u64_checked_add start seconds) GovernanceError.arithmetic_overflow

abbrev pub weight_in : Option (Address → Option ℕ) → Address → ℕ
weight_in none signer = 1
weight_in (some weights) signer = get_or (weights signer) 1

abbrev pub signer_weight : Store → Address → ℕ
signer_weight s signer = weight_in s.signer_weights signer

abbrev pub increment_proposal_id : Store → Outcome (ℕ × Store)
increment_proposal_id s = do
  let id = read_next_proposal_id s
  next ← or_failed (u32_checked_add id 1) GovernanceError.arithmetic_overflow
  done (id, record s { next_proposal_id = some next })

abbrev pub load_proposal : Env → ℕ → Store → Outcome (Proposal × Store)
load_proposal env id s = do
  p ← or_failed (s.proposals id) GovernanceError.proposal_not_found
  done (p, bump_proposal_retention env id p.status s)

-- What `save_proposal` does to the lives of the entries, once the proposal is written.
unfoldable pub sealed : Env → ℕ → ProposalStatus → Store → EntryKey → ℕ
sealed env id status s =
    (if is_terminal status then seal_terminal_proposal env id s else s).live_until

abbrev pub save_proposal : Env → ℕ → Proposal → Store → Store
save_proposal env id p s =
    let written : Store = record s {
      proposals = update s.proposals id (some p);
      live_until = live_once_set env (EntryKey.proposal id) s;
    } in
    bump_proposal_retention env id p.status
      (record written { live_until = sealed env id p.status written })

unfoldable pub is_registered_signer : Store → Address → Outcome Bool
is_registered_signer s addr = do index ← get_signer_index s; done (index addr)
