-- ===== src/Stream/Examples/Witnesses.antt =====
-- The properties of the streaming contract, applied to the runs.
use mathlib.Core.List.{Nodup}
use perpetua_contracts.Prelude.{
  ℕ, ◌&&◌, false, ◌+◌, ◌-◌, ◌≤◌, ◌<◌, ◌≡◌, ◌↔◌, inr, true, false, some, none, List, [], ◌∷◌, map,
  length, arith, refl, ltb, is_some,
}
use perpetua_contracts.Prelude.Int.{pos}
use perpetua_contracts.Words.{any_bit}
use perpetua_contracts.Stream.Op
use perpetua_contracts.Stream.Error.{ok, ◌>>=◌}
use perpetua_contracts.Stream.Types.{Stream, StreamStatus, is_terminal, cancellable}
use perpetua_contracts.Stream.Accrual.{vested, withdrawable, refundable}
use perpetua_contracts.Stream.Accrual.Invariants.{vested_monotone}
use perpetua_contracts.Stream.Host.{World, Payload}
use perpetua_contracts.Stream.Storage.{next_stream_id, stream_exists, stream_count}
use perpetua_contracts.Stream.Lifecycle.{status_eq, create_stream, withdraw, cancel}
use perpetua_contracts.Stream.Pausing.{resume}
use perpetua_contracts.Stream.Batch.Preflight.{RawValue, Payout, preflight, max_batch_size}
use perpetua_contracts.Stream.Delegation.{
  sender_ops, recipient_ops, delegate_withdraw, delegate_cancel, delegate_resume,
}
use perpetua_contracts.Stream.Delegation.Refinement.{as_delegate, waived, delegate_calls_refine}
use perpetua_contracts.Stream.Effect.{Keeps}
use perpetua_contracts.Stream.Inversion.Funding.{Created}
use perpetua_contracts.Stream.Invariant.Books.{total_owed, paid_in, paid_out}
use perpetua_contracts.Stream.Invariant.Sound.{IsSound, Keeps-IsSound}
use perpetua_contracts.Stream.Preserve.Batch.{payout_ids}
use perpetua_contracts.Stream.Guarantee.Withdrawal.{Paid, withdraw_pays, withdraw_all_succeeds}
use perpetua_contracts.Stream.Guarantee.Cancellation.{Split, cancel_splits, cancel_succeeds}
use perpetua_contracts.Stream.Guarantee.Pauses.{pause-resume_shifts}
use perpetua_contracts.Stream.Guarantee.Funding.{Extension, top_up_extends}
use perpetua_contracts.Stream.Guarantee.Creation.{create_stream_opens, create_stream_succeeds}
use perpetua_contracts.Stream.Guarantee.Delegates.{
  IsPermitted, delegate_calls-IsPermitted, grant_delegate_within_rights,
}
use perpetua_contracts.Stream.Guarantee.Batches.{preflight_accepts}
use perpetua_contracts.Stream.Guarantee.BatchPayments.{
  payments, payout_sum, AllDue, batch_withdraw_pays,
}
use perpetua_contracts.Stream.Contract.{Call}
use perpetua_contracts.Stream.Contract.History.{Lasts}
use perpetua_contracts.Stream.Guarantee.History.{perform-Lasts}
use perpetua_contracts.Stream.Contract.Soundness.{perform-IsSound}
use perpetua_contracts.Stream.Contract.Reachability.{
  deployed, Reach-IsSound, deployed-IsSound, reachable_solvent, reachable_ids, reachable_claims,
}
use perpetua_contracts.Stream.Examples.{
  env_at, rules_at, opening, opened, opening_runs, opened_reached, the_stream, stored, paid,
  settled_early, topped_up, held, resumed, batch_paid, granted, creates, withdraws, cancels,
  tops_up, pauses, resumes, batch_withdraws, grants, due_at_50, may_cancel, granting_runs,
  drawn_by_delegate, delegate_draws, IsScheduled-at_0,
}

-- The state is sound when it is reached, and later.
opened-IsSound : (t : ℕ) → t ≤ 1000 → IsSound 100 t opened
opened-IsSound t h =
    Keeps-IsSound 100 0 t opened opened (omega arith)
      (record { same_streams = refl; same_ids = refl; same_transfers = refl })
      (Reach-IsSound 100 0 opened opened_reached)

granted-IsSound : IsSound 100 50 granted
granted-IsSound =
    Keeps-IsSound 100 5 50 granted granted (omega arith)
      (record { same_streams = refl; same_ids = refl; same_transfers = refl })
      (perform-IsSound (env_at 5) (Call.grant_delegate 0 2 3 Op.withdraw none) opened granted
        (rules_at 5 (omega arith)) (opened-IsSound 5 (omega arith)) granting_runs)

reachable_solvent_example :
    paid_out 100 9 opened.transfers + total_owed 9 opened.streams (next_stream_id opened)
    ≤ paid_in 100 9 opened.transfers
reachable_solvent_example = reachable_solvent 100 0 opened 9 opened_reached

perform-IsSound_example : IsSound 100 0 opened
perform-IsSound_example =
    perform-IsSound (env_at 0) opening deployed opened (rules_at 0 (omega arith))
      (deployed-IsSound 100) opening_runs

reachable_ids_example : stream_exists opened 0 ≡ ltb 0 (stream_count opened)
reachable_ids_example = reachable_ids 100 0 opened 0 opened_reached

reachable_claims_example :
    (a b p k : ℕ) × (vested the_stream 50 ≡ ok (pos a))
    × (refundable the_stream 50 ≡ ok (pos b))
    × (the_stream.deposited ≡ pos (a + b))
    × (the_stream.withdrawn ≡ pos p)
    × (withdrawable the_stream 50 ≡ ok (pos k))
    × (p + k ≡ a)
    × (is_some the_stream.paused_at ≡ status_eq the_stream.status StreamStatus.paused)
reachable_claims_example =
    reachable_claims 100 0 50 opened 0 the_stream opened_reached stored (omega arith)

withdraw_pays_example :
    (s : Stream) × (q : ℕ) × (opened.streams 0 ≡ some s)
    × ((env_at 50).authorized s.recipient (Payload.withdraw_args 0 (some (pos 200))) ≡ true)
    × (pos 200 ≡ pos q)
    × Paid (env_at 50) 0 q opened paid
withdraw_pays_example =
    withdraw_pays (env_at 50) 0 (some (pos 200)) (pos 200) opened paid (omega arith)
      (opened-IsSound 50 (omega arith)) withdraws

withdraw_all_succeeds_example :
    (w' : World) × (withdraw (env_at 50) 0 none opened ≡ ok (pos 500, w'))
withdraw_all_succeeds_example =
    withdraw_all_succeeds (env_at 50) 0 500 the_stream opened (omega arith)
      (opened-IsSound 50 (omega arith)) stored refl due_at_50 (omega arith) refl

cancel_splits_example :
    (s : Stream) × (opened.streams 0 ≡ some s)
    × ((env_at 40).authorized s.sender (Payload.id_args 0) ≡ true)
    × (cancellable s ≡ true)
    × Split (env_at 40) 0 opened settled_early
cancel_splits_example =
    cancel_splits (env_at 40) 0 opened settled_early (opened-IsSound 40 (omega arith)) cancels

cancel_succeeds_example : (w' : World) × (cancel (env_at 40) 0 opened ≡ ok w')
cancel_succeeds_example =
    cancel_succeeds (env_at 40) 0 the_stream opened (opened-IsSound 40 (omega arith)) stored refl
      may_cancel refl (λ refund is_rest. refl)

top_up_extends_example :
    (s : Stream) × (a : ℕ) × (opened.streams 0 ≡ some s)
    × ((env_at 30).authorized s.sender (Payload.amount_args 0 (pos 500)) ≡ true)
    × (pos 500 ≡ pos a)
    × (0 < a)
    × Extension (env_at 30) 0 a s opened topped_up
top_up_extends_example =
    top_up_extends (env_at 30) 0 (pos 500) opened topped_up (opened-IsSound 30 (omega arith))
      tops_up

pause-resume_shifts_example :
    (s s'' : Stream) × (opened.streams 0 ≡ some s)
    × (resumed.streams 0 ≡ some s'')
    × (s.status ≡ StreamStatus.active)
    × (s.paused_at ≡ none)
    × (s'' ≡ record s { paused_total = s.paused_total + (70 - 30) })
    × ((t : ℕ) → vested s'' (t + (70 - 30)) ≡ vested s t)
pause-resume_shifts_example =
    pause-resume_shifts (env_at 30) (env_at 70) 0 opened held resumed (omega arith) pauses resumes

create_stream_opens_example :
    Created (env_at 0) 1 2 9 (pos 1000) 0 100 10 true true true 0 deployed opened
    × (deployed.streams 0 ≡ none)
create_stream_opens_example =
    create_stream_opens (env_at 0) 1 2 9 (pos 1000) 0 100 10 true true true 0 deployed opened
      (deployed-IsSound 100) creates

create_stream_succeeds_example :
    (w' : World) × (create_stream (env_at 0) 1 2 9 (pos 1000) 0 100 10 true true true deployed
      ≡ ok (next_stream_id deployed, w'))
unfolding next_stream_id
create_stream_succeeds_example =
    create_stream_succeeds (env_at 0) 1 2 9 1000 0 100 10 true true true deployed refl
      (ground arith) (omega arith) (omega arith) (omega arith) (omega arith) (omega arith)
      (omega arith) refl

batch_withdraw_pays_example :
    (ids : List ℕ) × (ps : List Payout) × (preflight (RawValue.u64_value 0 ∷ []) ≡ ok ids)
    × ((env_at 50).authorized 2 (Payload.batch_args ids) ≡ true)
    × (payout_ids ps ≡ ids)
    × AllDue 2 50 opened ps
    × (pos 500 ≡ pos (payout_sum ps))
    × (batch_paid.transfers ≡ payments 100 ps opened.transfers)
batch_withdraw_pays_example =
    batch_withdraw_pays (env_at 50) 2 (RawValue.u64_value 0 ∷ []) (pos 500) opened batch_paid
      (opened-IsSound 50 (omega arith)) batch_withdraws

delegate_calls_refine_example :
    (delegate_withdraw (env_at 50) 0 3 none granted ≡ (
      as_delegate (env_at 50) 0 3 Op.withdraw (Payload.withdraw_args 0 none) granted
      >>= withdraw (waived (env_at 50)) 0 none))
    × (delegate_cancel (env_at 50) 0 3 granted ≡ (
        as_delegate (env_at 50) 0 3 Op.cancel (Payload.id_args 0) granted
        >>= cancel (waived (env_at 50)) 0))
    × (delegate_resume (env_at 50) 0 3 granted ≡ (
        as_delegate (env_at 50) 0 3 Op.resume (Payload.id_args 0) granted
        >>= resume (waived (env_at 50)) 0))
delegate_calls_refine_example = delegate_calls_refine (env_at 50) 0 3 none granted

delegate_calls-IsPermitted_example :
    IsPermitted (env_at 50) granted (Call.delegate_withdraw 0 3 (some (pos 100)))
delegate_calls-IsPermitted_example =
    delegate_calls-IsPermitted (env_at 50) (Call.delegate_withdraw 0 3 (some (pos 100))) granted
      drawn_by_delegate delegate_draws

grant_delegate_within_rights_example :
    (s : Stream) × (opened.streams 0 ≡ some s)
    × (is_terminal s.status ≡ false)
    × ((env_at 5).authorized 2 (Payload.grant_args 0 3 Op.withdraw none) ≡ true)
    × ((any_bit Op.withdraw sender_ops && any_bit Op.withdraw recipient_ops) ≡ false)
    × (any_bit Op.withdraw sender_ops ≡ true → 2 ≡ s.sender)
    × (any_bit Op.withdraw recipient_ops ≡ true → 2 ≡ s.recipient)
    × (granted.delegates 0 3 ≡ some (record { ops = Op.withdraw; expires_at = none }))
    × Keeps opened granted
grant_delegate_within_rights_example =
    grant_delegate_within_rights (env_at 5) 0 2 3 Op.withdraw none opened granted grants (inr refl)

preflight_accepts_example :
    (preflight (RawValue.u64_value 0 ∷ RawValue.u64_value 7 ∷ []) ≡ ok (0 ∷ 7 ∷ [])) ↔ (
      (RawValue.u64_value 0 ∷ RawValue.u64_value 7 ∷ [] ≡ map RawValue.u64_value (0 ∷ 7 ∷ []))
      × (0 < length (RawValue.u64_value 0 ∷ RawValue.u64_value 7 ∷ []))
      × (length (RawValue.u64_value 0 ∷ RawValue.u64_value 7 ∷ []) ≤ max_batch_size)
      × Nodup {A = ℕ} (0 ∷ 7 ∷ []))
preflight_accepts_example =
    preflight_accepts (RawValue.u64_value 0 ∷ RawValue.u64_value 7 ∷ []) (0 ∷ 7 ∷ [])

vested_monotone_example :
    (a b : ℕ) × (vested the_stream 30 ≡ ok (pos a))
    × (vested the_stream 50 ≡ ok (pos b))
    × (a ≤ b)
    × (b ≤ 1000)
vested_monotone_example =
    vested_monotone the_stream 1000 0 IsScheduled-at_0 30 50 (omega arith) (omega arith)

perform-Lasts_example : Lasts granted drawn_by_delegate
perform-Lasts_example =
    perform-Lasts (env_at 50) (Call.delegate_withdraw 0 3 (some (pos 100))) granted
      drawn_by_delegate (omega arith) granted-IsSound delegate_draws
