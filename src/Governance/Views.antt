-- ===== src/Governance/Views.antt =====
-- The entry points of contracts/governance/src/lib.rs that only read, or only renew the lives of
-- entries besides.
use perpetua_contracts.Prelude.{
  ℕ, zero, suc, ◌+◌, Bool, true, false, not, ◌||◌, Option, none, some, List, [], ◌∷◌, ltb, ◌==◌,
  is_some, if◌then◌else◌,
}
use perpetua_contracts.Governance.Types.{
  Address, ProposalStatus, Proposal, QuorumInfo, EntryKey, Outcome, done, failed, trap, ◌>>=◌,
}
use perpetua_contracts.Governance.Host.{Env, Store}
use perpetua_contracts.Governance.Storage.{
  governance_timelock_seconds, max_proposal_age_seconds, bump_instance, bump_active_entry,
  proposal_is_terminal, get_threshold, get_signer_generation, get_grace_period, checked_deadline,
  signer_weight, read_next_proposal_id, load_proposal,
}
use perpetua_contracts.Governance.Proposals.{executable_after}
use perpetua_contracts.Governance.Pruning.{page_length}

unfoldable pub get_proposal : Env → ℕ → Store → Outcome (Proposal × Store)
get_proposal env id s = load_proposal env id s

unfoldable pub get_proposal_eta : Env → ℕ → Store → Outcome (ℕ × Store)
get_proposal_eta env id s = do (p, s) ← load_proposal env id s; done (p.eta, s)

unfoldable pub get_proposal_status : Env → ℕ → Store → Outcome (ProposalStatus × Store)
get_proposal_status env id s = do (p, s) ← load_proposal env id s; done (p.status, s)

abbrev pub same_status : ProposalStatus → ProposalStatus → Bool
same_status ProposalStatus.proposed ProposalStatus.proposed = true
same_status ProposalStatus.approved ProposalStatus.approved = true
same_status ProposalStatus.queued ProposalStatus.queued = true
same_status ProposalStatus.executed ProposalStatus.executed = true
same_status ProposalStatus.cancelled ProposalStatus.cancelled = true
same_status _ _ = false

unfoldable pub is_proposal_in_status : Env → ℕ → ProposalStatus → Store → Outcome (Bool × Store)
is_proposal_in_status env id expected s = do
  (p, s) ← load_proposal env id s
  done (same_status p.status expected, s)

unfoldable pub vote_weight : Env → Address → Store → ℕ × Store
vote_weight env signer s = let s = bump_instance env s in (signer_weight s signer, s)

unfoldable pub grace_period : Env → Store → ℕ × Store
grace_period env s = let s = bump_instance env s in (get_grace_period s, s)

unfoldable pub proposal_count : Env → Store → ℕ × Store
proposal_count env s = let s = bump_instance env s in (read_next_proposal_id s, s)

abbrev pub or_zero : Outcome ℕ → ℕ
or_zero (done n) = n
or_zero (failed code) = 0
or_zero trap = 0

unfoldable pub quorum : Store → ℕ
quorum s = or_zero (get_threshold s)

unfoldable pub timelock_seconds : ℕ
timelock_seconds = governance_timelock_seconds

unfoldable pub get_quorum_info : Env → ℕ → Store → Option QuorumInfo × Store
get_quorum_info env id s =
    let info = s.quorum_reached_at id in
    (
      info,
      if is_some info
          then (if proposal_is_terminal s id
              then s
              else bump_active_entry env (EntryKey.quorum_reached_at id) ProposalStatus.queued s)
          else s,
    )

-- The guards of `is_executable` on the quorum: `info` is the entry that it reads.
unfoldable pub is_quorum_executable : Env → Proposal → Option QuorumInfo → Store → Outcome Bool
is_quorum_executable env p none s = done false
is_quorum_executable env p (some info) s =
    if ltb p.approval_weight info.threshold then done false else (do
      exec_after ← executable_after info
      if ltb env.now exec_after || ltb env.now p.eta then done false else (do
        deadline ← checked_deadline exec_after (get_grace_period s)
        done (if ltb deadline env.now then false else true)))

unfoldable pub is_proposal_executable : Env → ℕ → Proposal → Store → Outcome Bool
is_proposal_executable env id p s =
    if not (same_status p.status ProposalStatus.queued) then done false else (do
      limit ← checked_deadline p.created_at max_proposal_age_seconds
      if ltb limit env.now
          then done false
          else if not (p.signer_generation == get_signer_generation s)
          then done false
          else is_quorum_executable env p (s.quorum_reached_at id) s)

-- The value of the call; it renews the lives of the entries that it reads.
unfoldable pub is_executable : Env → ℕ → Store → Outcome Bool
is_executable env id s = do (p, s) ← load_proposal env id s; is_proposal_executable env id p s

abbrev pub has_signer : Option (Address → Bool) → Address → Bool
has_signer none signer = false
has_signer (some index) signer = index signer

unfoldable pub is_signer : Store → Address → Bool
is_signer s signer = has_signer s.signer_index signer

abbrev pub prepend : Option Proposal → List Proposal → List Proposal
prepend none list = list
prepend (some p) list = p ∷ list

-- The proposals of a page, oldest first.
unfoldable pub proposals_from : ℕ → ℕ → Store → List Proposal
proposals_from zero current s = []
proposals_from (suc left) current s =
    prepend (s.proposals current) (proposals_from left (current + 1) s)

-- What the loop does to the lives of the entries: a missing one has none.
unfoldable pub renew_from : Env → ℕ → ℕ → Store → Store
renew_from env zero current s = s
renew_from env (suc left) current s =
    renew_from env left (current + 1) (elim (s.proposals current) [
      | none ↦ s
      | some p ↦ bump_active_entry env (EntryKey.proposal current) p.status s
    ])

unfoldable pub get_proposals_by_id_range : Env → ℕ → ℕ → Store → List Proposal × Store
get_proposals_by_id_range env start limit s =
    let s = bump_instance env s in
    let left = page_length start limit (read_next_proposal_id s) in
    (proposals_from left start s, renew_from env left start s)
