-- ===== src/Governance/Examples/Witnesses.antt =====
-- The properties of the governance contract, applied to the runs.
use perpetua_contracts.Prelude.{
  ℕ, ◌+◌, ◌≤◌, ◌<◌, ◌≡◌, ◌≢◌, ◌⊎◌, ◌↔◌, true, none, some, [], ◌∷◌, arith, refl, length, smaller,
}
use perpetua_contracts.Governance.Types.{Proposal, QuorumInfo, GovernanceError, done, failed}
use perpetua_contracts.Governance.Host.{Store}
use perpetua_contracts.Governance.Storage.{
  governance_timelock_seconds, max_page_size, max_batch_calls, get_signer_generation,
  get_grace_period, read_next_proposal_id, is_registered_signer,
}
use perpetua_contracts.Governance.Proposals.{
  execute, cancel_proposal, as_executed, run_proposal, save_approval, save_quorum, propose, approve,
  cast_vote,
}
use perpetua_contracts.Governance.Contract.{Call, perform}
use perpetua_contracts.Governance.Contract.Reachability.{Reach, reachable-IsSound}
use perpetua_contracts.Governance.Preserve.Signers.{IsUntouched}
use perpetua_contracts.Governance.Contract.Lifecycle.{perform-Passes}
use perpetua_contracts.Governance.Contract.History.{History, executed_once, board_change_voids}
use perpetua_contracts.Governance.Invariant.{IsSound, IsSound-later}
use perpetua_contracts.Governance.Lifecycle.{Passes}
use perpetua_contracts.Governance.Inversion.Execution.{Executed, execute_inv}
use perpetua_contracts.Governance.Inversion.Voting.{Approved, approve_inv}
use perpetua_contracts.Governance.Examples.{
  at, blank, ready, sets_up, proposed, proposes, voted, votes, queued, queues, due, executed,
  executes, enlarged, enlarges, late, swept, sweeps, dispatched, dispatches, batch, queued_proposal,
  queued_found,
}
use perpetua_contracts.Governance.Preserve.Voting.{below_next}
use perpetua_contracts.Words.{u64_max}
use perpetua_contracts.Governance.Admin
use perpetua_contracts.Governance.Proposals
use perpetua_contracts.Governance.Pruning.{
  prune_expired_proposals, page_length, prune_from, is_prunable, proposal_is_expired,
  remove_proposal,
}
use perpetua_contracts.Governance.Views.{is_executable, proposals_from}
use perpetua_contracts.Governance.Guarantee.Authorization.{
  IsAuthorized, governance_calls-IsAuthorized,
}
use perpetua_contracts.Governance.Guarantee.Execution.{renewed, is_executable_agrees}
use perpetua_contracts.Governance.Guarantee.Window.{InWindow, queued_window}
use perpetua_contracts.Governance.Guarantee.Pruning.{prune_ends, pruned_never_executes}
use perpetua_contracts.Governance.Dispatch.{dispatch_call}
use perpetua_contracts.Governance.Guarantee.Calls.{CarriedOut}
use perpetua_contracts.Governance.Guarantee.Dispatch.{batch_in_order}

blank-IsUntouched : IsUntouched blank
blank-IsUntouched = record {
  no_admin = refl;
  no_executing = refl;
  no_proposal = λ id. refl;
  no_quorum = λ id. refl;
  no_approval = λ id. refl;
}

init_call : Admin.init (at 1000) 1 (2 ∷ 3 ∷ 4 ∷ []) 2 blank ≡ done ready
unfolding perform
init_call = sets_up

queued_reached : Reach 1020 queued
queued_reached =
    Reach.call (at 1020) (Call.approve 3 0) queued
      (Reach.call (at 1010) (Call.approve 2 0) voted
        (Reach.call (at 1005) (Call.propose 2 70 (3 ∷ [])) proposed
          (Reach.set_up (at 1000) 1 (2 ∷ 3 ∷ 4 ∷ []) 2 blank ready blank-IsUntouched init_call)
          (omega arith) proposes)
        (omega arith) votes)
      (omega arith) queues

reachable-IsSound_example : IsSound 1020 queued
reachable-IsSound_example = reachable-IsSound queued_reached

voted-IsSound : IsSound 1020 voted
voted-IsSound = IsSound-later 1010 1020 voted (omega arith) (
    reachable-IsSound (
      Reach.call (at 1010) (Call.approve 2 0) voted
        (Reach.call (at 1005) (Call.propose 2 70 (3 ∷ [])) proposed
          (Reach.set_up (at 1000) 1 (2 ∷ 3 ∷ 4 ∷ []) 2 blank ready blank-IsUntouched init_call)
          (omega arith) proposes)
        (omega arith) votes))

queued-IsSound_at : (now : ℕ) → 1020 ≤ now → IsSound now queued
queued-IsSound_at now h = IsSound-later 1020 now queued h (reachable-IsSound queued_reached)

execute_call : execute (at due) 5 0 queued ≡ done executed
unfolding perform
execute_call = executes

execute_inv_example : Executed (at due) 5 0 queued executed
execute_inv_example = execute_inv (at due) 5 0 queued executed execute_call

perform-Passes_example : Passes (Call.approve 3 0) voted queued
perform-Passes_example =
    perform-Passes (at 1020) (Call.approve 3 0) voted queued voted-IsSound queues

governance_calls-IsAuthorized_example : IsAuthorized (at 1020) (Call.approve 3 0) voted queued
governance_calls-IsAuthorized_example =
    governance_calls-IsAuthorized (at 1020) voted queued voted-IsSound (Call.approve 3 0) queues

executed_once_example :
    ((p : Proposal) × (queued.proposals 0 ≡ some p) × (executed.proposals 0 ≡ some (as_executed p)))
    × (execute (at 200_000) 6 0 executed ≡ failed GovernanceError.already_executed)
    × (cancel_proposal (at 200_000) 6 0 executed ≡ failed GovernanceError.already_executed)
executed_once_example =
    executed_once (at due) (at 200_000) 5 6 0 due queued executed executed
      (queued-IsSound_at due (omega arith)) execute_call History.start refl

one_id : 0 < read_next_proposal_id queued
one_id = let t = reachable-IsSound_example.numbered 0 queued_proposal queued_found in t.0

board_change_voids_example : execute (at due) 5 0 enlarged ≢ done executed
board_change_voids_example =
    board_change_voids (at 1030) (at due) (Call.add_signer 5) 5 0 1030 queued enlarged enlarged
      executed (queued-IsSound_at 1030 (omega arith)) refl enlarges one_id History.start

approve_call : approve (at 1020) 3 0 voted ≡ done queued
unfolding perform
approve_call = queues

approve_inv_example : Approved (at 1020) 3 0 voted queued
approve_inv_example =
    approve_inv (at 1020) 3 0 voted queued voted-IsSound.idle
      (below_next 1020 voted 0 voted-IsSound) approve_call

is_executable_agrees_example :
    ((is_executable (at due) 0 queued ≡ done true)
      × (p : Proposal) × (queued.proposals 0 ≡ some p)
      × (execute (at due) 5 0 queued ≡ run_proposal (at due) 5 0 p (renewed (at due) 0 p queued)))
    ⊎ ((is_executable (at due) 0 queued ≢ done true)
        × (code : GovernanceError) × (execute (at due) 5 0 queued ≡ failed code))
is_executable_agrees_example =
    is_executable_agrees (at due) 5 0 queued refl reachable-IsSound_example.idle

in_range : due + governance_timelock_seconds + get_grace_period queued ≤ u64_max
unfolding perform Admin.init Proposals.propose Proposals.approve Proposals.cast_vote
    Proposals.save_approval Proposals.save_quorum is_registered_signer
in_range = omega arith

generation : queued_proposal.signer_generation ≡ get_signer_generation queued
unfolding perform Admin.init Proposals.propose Proposals.approve Proposals.cast_vote
    Proposals.save_approval Proposals.save_quorum is_registered_signer
generation = refl

queued_window_example :
    (info : QuorumInfo) × (queued.quorum_reached_at 0 ≡ some info)
    × ((is_executable (at due) 0 queued ≡ done true)
        ↔ InWindow (at due) queued queued_proposal info)
queued_window_example =
    queued_window (at due) 0 queued_proposal queued (queued-IsSound_at due (omega arith))
      (record { ages = omega arith; windows = in_range }) queued_found refl generation

in_range_late : late + governance_timelock_seconds + get_grace_period queued ≤ u64_max
unfolding perform Admin.init Proposals.propose Proposals.approve Proposals.cast_vote
    Proposals.save_approval Proposals.save_quorum is_registered_signer
in_range_late = omega arith

prune_ends_example :
    (count : ℕ) × (s' : Store) × (prune_expired_proposals (at late) 0 10 queued ≡ done (count, s'))
    × (count ≤ smaller 10 max_page_size)
    × (count + length (proposals_from (page_length 0 10 (read_next_proposal_id queued)) 0 s')
        ≡ length (proposals_from (page_length 0 10 (read_next_proposal_id queued)) 0 queued))
prune_ends_example =
    prune_ends (at late) 0 10 queued (queued-IsSound_at late (omega arith))
      (record { ages = omega arith; windows = in_range_late })

swept_away : swept.proposals 0 ≡ none
unfolding perform Admin.init Proposals.propose Proposals.approve Proposals.cast_vote
    Proposals.save_approval Proposals.save_quorum prune_expired_proposals page_length prune_from
    is_prunable proposal_is_expired remove_proposal is_registered_signer
swept_away = refl

pruned_never_executes_example : execute (at late) 5 0 queued ≢ done executed
pruned_never_executes_example =
    pruned_never_executes (at late) (at late) 0 10 1 0 queued_proposal 5 queued swept queued
      executed sweeps queued_found swept_away (omega arith) queued_found refl (omega arith)

batch_in_order_example : (dispatch_call (at due) 70 (3 ∷ []) blank ≡ done dispatched) ↔ (
    (0 < length batch)
    × (length batch ≤ max_batch_calls)
    × (dispatched ≡ record blank { invoked = dispatched.invoked })
    × CarriedOut (at due) batch blank.invoked dispatched.invoked)
batch_in_order_example = batch_in_order (at due) 70 (3 ∷ []) batch blank dispatched refl

-- Both sides of it hold here.
batch_carried : CarriedOut (at due) batch blank.invoked dispatched.invoked
batch_carried =
    let (_, _, _, carried) =
      (batch_in_order (at due) 70 (3 ∷ []) batch blank dispatched refl).0 dispatches in
    carried
