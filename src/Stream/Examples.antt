-- ===== src/Stream/Examples.antt =====
-- Runs of the streaming contract on concrete states, on which each property is tried.

pub mod Witnesses
use perpetua_contracts.Prelude.{
  ℕ, ◌≤◌, ◌<◌, ◌≡◌, Bool, true, false, not, ◌==◌, if◌then◌else◌, ltb, larger, refl, arith, none,
  some, List, [], ◌∷◌,
}
use perpetua_contracts.Prelude.Int.{ℤ, pos, ◌+ℤ◌, ◌-ℤ◌, ◌*ℤ◌, ◌/ℤ◌}
use perpetua_contracts.I128.{checked_add, checked_sub, checked_mul, checked_div}
use perpetua_contracts.Stream.Op
use perpetua_contracts.Stream.Error.{Result, ok, err, trap}
use perpetua_contracts.Stream.Types.{
  Address, Stream, cancellable, pausable, transferable, flags_from_parts,
}
use perpetua_contracts.Stream.Accrual.{
  vested, withdrawable, refundable, elapsed, duration, stream_time, cliff_reached, pro_rata,
}
use perpetua_contracts.Stream.Accrual.WellFormed.{IsScheduled}
use perpetua_contracts.Stream.Host.{Env, World, Payload, TransferOutcome, token_transfer}
use perpetua_contracts.Stream.Storage.{
  next_stream_id, allocate_stream_id, save_stream, extend_stream, extend_instance, load_stream,
  save_delegate, load_delegate, peek_stream, ttl_target_ledgers, ttl_target_ledgers_at,
  seconds_to_ledgers, effective_end,
}
use perpetua_contracts.Stream.Events
use perpetua_contracts.Stream.Lifecycle.{
  create_stream, new_stream, withdraw, cancel, top_up, chosen_payout, requested_payout,
  apply_withdrawal, drawn, close_pause, extended_schedule,
}
use perpetua_contracts.Stream.Pausing.{pause, resume}
use perpetua_contracts.Stream.Recipient.{transfer_recipient}
use perpetua_contracts.Stream.Batch.{batch_withdraw, pay_all, pay_one}
use perpetua_contracts.Stream.Batch.Preflight.{
  RawValue, preflight, validate_batch_ids, decode_ids, reject_duplicate_ids, occurs, resolve,
}
use perpetua_contracts.Stream.Delegation.{
  grant_delegate, record_grant, delegate_withdraw, check_delegate,
}
use perpetua_contracts.Stream.Contract.{Call, perform, HostRules}
use perpetua_contracts.Stream.Contract.Reachability.{Reach, deployed}

-- The contract at address 100; everybody but the contract authorizes, and the token accepts all.
abbrev pub env_at : ℕ → Env
env_at t = record {
  self = 100;
  now = t;
  sequence = 1000;
  max_ttl = 6312000;
  min_ttl = 4096;
  authorized = λ who args. not (who == 100);
  try_transfer = λ ts t. TransferOutcome.done;
  extended = λ ttl threshold extend_to. if ltb ttl threshold then larger ttl extend_to else ttl;
}

pub rules_at : (t : ℕ) → t ≤ 1000 → HostRules (env_at t)
rules_at t h = record { clock = omega (arith, h); silent = λ args. refl }

-- The state that a call leaves, with the empty one where it fails.
abbrev pub state_after : Result World → World
state_after (ok w) = w
state_after (err e) = deployed
state_after trap = deployed

-- Address 1 streams 1000 of token 9 to address 2 in 100 seconds, with a cliff after 10.
abbrev pub opening : Call
opening = Call.create_stream 1 2 9 (pos 1000) 0 100 10 true true true

abbrev pub opened : World
opened = state_after (perform (env_at 0) opening deployed)

pub opening_runs : perform (env_at 0) opening deployed ≡ ok opened
unfolding perform create_stream allocate_stream_id next_stream_id save_stream extend_stream
    extend_instance token_transfer Events.stream_created checked_mul ◌*ℤ◌
opening_runs = refl

pub creates :
    create_stream (env_at 0) 1 2 9 (pos 1000) 0 100 10 true true true deployed ≡ ok (0, opened)
unfolding perform create_stream allocate_stream_id next_stream_id save_stream extend_stream
    extend_instance token_transfer Events.stream_created checked_mul ◌*ℤ◌
creates = refl

abbrev pub paid : World
paid = state_after (perform (env_at 50) (Call.withdraw 0 (some (pos 200))) opened)

pub withdraws : withdraw (env_at 50) 0 (some (pos 200)) opened ≡ ok (pos 200, paid)
unfolding perform create_stream allocate_stream_id next_stream_id save_stream extend_stream
    extend_instance token_transfer Events.stream_created checked_mul ◌*ℤ◌ withdraw load_stream
    vested elapsed duration stream_time cliff_reached pro_rata checked_div ◌/ℤ◌ withdrawable
    checked_sub ◌-ℤ◌ chosen_payout requested_payout apply_withdrawal drawn close_pause checked_add
    ◌+ℤ◌ Events.withdrawn
withdraws = refl

abbrev pub settled_early : World
settled_early = state_after (perform (env_at 40) (Call.cancel 0) opened)

pub cancels : cancel (env_at 40) 0 opened ≡ ok settled_early
unfolding perform create_stream allocate_stream_id next_stream_id save_stream extend_stream
    extend_instance token_transfer Events.stream_created checked_mul ◌*ℤ◌ cancel refundable
    checked_sub ◌-ℤ◌ cancellable flags_from_parts Events.cancelled load_stream vested elapsed
    duration stream_time cliff_reached pro_rata checked_div ◌/ℤ◌
cancels = refl

abbrev pub topped_up : World
topped_up = state_after (perform (env_at 30) (Call.top_up 0 (pos 500)) opened)

pub tops_up : top_up (env_at 30) 0 (pos 500) opened ≡ ok topped_up
unfolding perform create_stream allocate_stream_id next_stream_id save_stream extend_stream
    extend_instance token_transfer Events.stream_created checked_mul ◌*ℤ◌ top_up load_stream
    stream_time duration extended_schedule checked_div checked_add ◌+ℤ◌ ◌/ℤ◌ Events.topped_up
tops_up = refl

abbrev pub held : World
held = state_after (perform (env_at 30) (Call.pause 0) opened)

pub pauses : pause (env_at 30) 0 opened ≡ ok held
unfolding perform create_stream allocate_stream_id next_stream_id save_stream extend_stream
    extend_instance token_transfer Events.stream_created checked_mul ◌*ℤ◌ pause load_stream pausable
    flags_from_parts Events.paused
pauses = refl

abbrev pub resumed : World
resumed = state_after (perform (env_at 70) (Call.resume 0) held)

pub resumes : resume (env_at 70) 0 held ≡ ok resumed
unfolding perform create_stream allocate_stream_id next_stream_id save_stream extend_stream
    extend_instance token_transfer Events.stream_created checked_mul ◌*ℤ◌ pause resume load_stream
    pausable flags_from_parts Events.paused Events.resumed
resumes = refl

abbrev pub batch_paid : World
batch_paid =
    state_after (perform (env_at 50) (Call.batch_withdraw 2 (RawValue.u64_value 0 ∷ [])) opened)

pub batch_withdraws :
    batch_withdraw (env_at 50) 2 (RawValue.u64_value 0 ∷ []) opened ≡ ok (pos 500, batch_paid)
unfolding perform create_stream allocate_stream_id next_stream_id save_stream extend_stream
    extend_instance token_transfer Events.stream_created checked_mul ◌*ℤ◌ batch_withdraw preflight
    validate_batch_ids decode_ids reject_duplicate_ids occurs resolve peek_stream pay_all pay_one
    load_stream vested elapsed duration stream_time cliff_reached pro_rata checked_div ◌/ℤ◌
    withdrawable checked_sub ◌-ℤ◌ chosen_payout requested_payout apply_withdrawal drawn close_pause
    checked_add ◌+ℤ◌ Events.withdrawn
batch_withdraws = refl

abbrev pub granted : World
granted = state_after (perform (env_at 5) (Call.grant_delegate 0 2 3 Op.withdraw none) opened)

pub grants : grant_delegate (env_at 5) 0 2 3 Op.withdraw none opened ≡ ok granted
unfolding perform create_stream allocate_stream_id next_stream_id save_stream extend_stream
    extend_instance token_transfer Events.stream_created checked_mul ◌*ℤ◌ load_stream grant_delegate
    record_grant save_delegate Events.delegate_granted
grants = refl

pub granting_runs :
    perform (env_at 5) (Call.grant_delegate 0 2 3 Op.withdraw none) opened ≡ ok granted
unfolding perform create_stream allocate_stream_id next_stream_id save_stream extend_stream
    extend_instance token_transfer Events.stream_created checked_mul ◌*ℤ◌ load_stream grant_delegate
    record_grant save_delegate Events.delegate_granted
granting_runs = refl

abbrev pub drawn_by_delegate : World
drawn_by_delegate =
    state_after (perform (env_at 50) (Call.delegate_withdraw 0 3 (some (pos 100))) granted)

pub delegate_draws :
    perform (env_at 50) (Call.delegate_withdraw 0 3 (some (pos 100))) granted ≡ ok drawn_by_delegate
unfolding perform create_stream allocate_stream_id next_stream_id save_stream extend_stream
    extend_instance token_transfer Events.stream_created checked_mul ◌*ℤ◌ load_stream grant_delegate
    record_grant save_delegate Events.delegate_granted delegate_withdraw check_delegate
    load_delegate vested elapsed duration stream_time cliff_reached pro_rata checked_div ◌/ℤ◌
    withdrawable checked_sub ◌-ℤ◌ chosen_payout requested_payout apply_withdrawal drawn close_pause
    checked_add ◌+ℤ◌ Events.withdrawn
delegate_draws = refl

abbrev pub reassigned : World
reassigned = state_after (perform (env_at 6) (Call.transfer_recipient 0 4) granted)

pub reassigns : transfer_recipient (env_at 6) 0 4 granted ≡ ok reassigned
unfolding perform create_stream allocate_stream_id next_stream_id save_stream extend_stream
    extend_instance token_transfer Events.stream_created checked_mul ◌*ℤ◌ load_stream grant_delegate
    record_grant save_delegate Events.delegate_granted transfer_recipient transferable
    flags_from_parts Events.recipient_transferred
reassigns = refl

abbrev pub the_stream : Stream
the_stream = new_stream 1 2 9 (pos 1000) 0 100 10 true true true

pub stored : opened.streams 0 ≡ some the_stream
unfolding perform create_stream allocate_stream_id next_stream_id save_stream extend_stream
    extend_instance token_transfer Events.stream_created checked_mul ◌*ℤ◌
stored = refl

pub due_at_50 : withdrawable the_stream 50 ≡ ok (pos 500)
unfolding load_stream vested elapsed duration stream_time cliff_reached pro_rata checked_div ◌/ℤ◌
    withdrawable checked_sub ◌-ℤ◌ chosen_payout requested_payout apply_withdrawal drawn close_pause
    checked_add ◌+ℤ◌ Events.withdrawn checked_mul ◌*ℤ◌
due_at_50 = refl

pub may_cancel : cancellable the_stream ≡ true
unfolding cancellable flags_from_parts
may_cancel = refl

pub past_cliff_at_50 : cliff_reached the_stream 50 ≡ true
unfolding cliff_reached stream_time
past_cliff_at_50 = refl

pub running_at_50 : elapsed the_stream 50 < duration the_stream
unfolding elapsed duration stream_time
running_at_50 = omega arith

pub ended_at_120 : the_stream.end_time ≤ stream_time the_stream 120
unfolding stream_time
ended_at_120 = omega arith

pub IsScheduled-at_0 : IsScheduled the_stream 1000 0
unfolding stream_time
IsScheduled-at_0 = record {
  deposit = refl;
  fits = omega arith;
  ordered = omega arith;
  scaled = λ running. omega arith;
}

target_is_room : ttl_target_ledgers (env_at 50) the_stream < (env_at 50).max_ttl
unfolding ttl_target_ledgers ttl_target_ledgers_at seconds_to_ledgers effective_end
target_is_room = omega arith

pub opened_reached : Reach 100 0 opened
opened_reached =
    Reach.step Reach.start (env_at 0) opening opened refl (omega arith) (rules_at 0 (omega arith))
      opening_runs
