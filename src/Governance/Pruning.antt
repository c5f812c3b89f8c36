-- ===== src/Governance/Pruning.antt =====
-- `prune_expired_proposals` of contracts/governance/src/lib.rs and the page it shares with
-- `get_proposals_by_id_range`.
use perpetua_contracts.Prelude.{
  ℕ, zero, suc, ◌+◌, ◌-◌, Bool, true, false, ◌||◌, Option, none, some, ltb, leb, ◌==◌, smaller,
  if◌then◌else◌, update,
}
use perpetua_contracts.Words.{u32_max}
use perpetua_contracts.Governance.Types.{Proposal, QuorumInfo, Outcome, done, ◌>>=◌}
use perpetua_contracts.Governance.Host.{Env, Store}
use perpetua_contracts.Governance.Storage.{
  governance_timelock_seconds, max_proposal_age_seconds, max_page_size, bump_instance,
  get_grace_period, checked_deadline, read_next_proposal_id,
}

-- The part of `proposal_is_expired` that reads the quorum.
abbrev pub quorum_is_expired : Env → Option QuorumInfo → Store → Outcome Bool
quorum_is_expired env none s = done false
quorum_is_expired env (some info) s = do
  eta ← checked_deadline info.reached_at governance_timelock_seconds
  deadline ← checked_deadline eta (get_grace_period s)
  done (ltb deadline env.now)

unfoldable pub proposal_is_expired : Env → ℕ → Proposal → Store → Outcome Bool
proposal_is_expired env id p s = do
  limit ← checked_deadline p.created_at max_proposal_age_seconds
  if ltb limit env.now then done true else quorum_is_expired env (s.quorum_reached_at id) s

unfoldable pub remove_proposal : ℕ → Store → Store
remove_proposal id s = record s {
  proposals = update s.proposals id none;
  quorum_reached_at = update s.quorum_reached_at id none;
  proposal_approval_idx = update s.proposal_approval_idx id none;
}

-- Whether the loop removes the entry that it finds at `id`.
unfoldable pub is_prunable : Env → ℕ → Option Proposal → Store → Outcome Bool
is_prunable env id none s = done false
is_prunable env id (some p) s =
    if p.executed || p.cancelled then done false else proposal_is_expired env id p s

-- The loop, by the number of ids left.
unfoldable pub prune_from : Env → ℕ → ℕ → ℕ → Store → Outcome (ℕ × Store)
prune_from env zero current pruned s = done (pruned, s)
prune_from env (suc left) current pruned s = do
  prunable ← is_prunable env current (s.proposals current) s
  prune_from env left (current + 1) (if prunable then pruned + 1 else pruned)
      (if prunable then remove_proposal current s else s)

-- The number of ids of a page: `start.saturating_add(page).min(total) - start`, or none if the
-- page starts past the last id or is empty.
unfoldable pub page_length : ℕ → ℕ → ℕ → ℕ
page_length start limit total =
    let page = smaller limit max_page_size in
    if leb total start || page == 0
    then 0
    else smaller (smaller (start + page) u32_max) total - start

unfoldable pub prune_expired_proposals : Env → ℕ → ℕ → Store → Outcome (ℕ × Store)
prune_expired_proposals env start limit s =
    let s = bump_instance env s in
    prune_from env (page_length start limit (read_next_proposal_id s)) start 0 s
