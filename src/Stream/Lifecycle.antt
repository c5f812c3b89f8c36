-- ===== src/Stream/Lifecycle.antt =====
-- The entry points of contracts/stream/src/lib.rs that create, fund, pay and cancel a stream.
use perpetua_contracts.Prelude.{
  ℕ, ◌-◌, Bool, true, false, not, ◌&&◌, ◌||◌, Option, none, some, ltb, leb, ◌==◌, if◌then◌else◌,
  larger,
}
use perpetua_contracts.Prelude.Int.{ℤ, pos, ltb_ℤ, leb_ℤ, eq_ℤ, pos_part}
use perpetua_contracts.Words.{u64_max, u64_checked_add, u64_checked_sub}
use perpetua_contracts.I128.{checked_add, checked_mul, checked_div}
use perpetua_contracts.Stream.Error.{Error, Result, ok, err, ◌>>=◌, ◌>>◌, fail_if, ok_or}
use perpetua_contracts.Stream.Types.{
  Address, Stream, StreamStatus, is_terminal, cancellable, flags_from_parts,
}
use perpetua_contracts.Stream.Accrual.{stream_time, duration, vested, withdrawable, refundable}
use perpetua_contracts.Stream.Host.{Env, World, Payload, require_auth, token_transfer}
use perpetua_contracts.Stream.Storage.{
  allocate_stream_id, load_stream, save_stream, extend_instance,
}
use perpetua_contracts.Stream.Events

abbrev pub bump_instance_ttl : Env → World → World
bump_instance_ttl env w = extend_instance env w

abbrev pub status_eq : StreamStatus → StreamStatus → Bool
status_eq StreamStatus.active StreamStatus.active = true
status_eq StreamStatus.paused StreamStatus.paused = true
status_eq StreamStatus.cancelled StreamStatus.cancelled = true
status_eq StreamStatus.depleted StreamStatus.depleted = true
status_eq _ _ = false

-- The record that `create_stream` stores.
abbrev pub new_stream : Address → Address → Address → ℤ → ℕ → ℕ → ℕ → Bool → Bool → Bool → Stream
new_stream sender recipient token deposit start_time end_time cliff_time cancellable pausable
      transferable =
    record {
      sender = sender;
      recipient = recipient;
      token = token;
      deposited = deposit;
      withdrawn = pos 0;
      start_time = start_time;
      end_time = end_time;
      cliff_time = cliff_time;
      flags = flags_from_parts cancellable pausable transferable;
      paused_at = none;
      paused_total = 0;
      status = StreamStatus.active;
    }

unfoldable pub create_stream :
    Env
    → Address
    → Address
    → Address
    → ℤ
    → ℕ
    → ℕ
    → ℕ
    → Bool
    → Bool
    → Bool
    → World
    → Result (ℕ × World)
create_stream env sender recipient token deposit start_time end_time cliff_time cancellable pausable
      transferable w =
    do
      require_auth env sender (
          Payload.create_args recipient token deposit start_time end_time cliff_time cancellable
            pausable transferable)
      fail_if (sender == recipient) Error.self_stream
      fail_if (leb_ℤ deposit (pos 0)) Error.invalid_deposit
      fail_if (leb end_time start_time) Error.invalid_time_range
      fail_if (ltb cliff_time start_time || ltb end_time cliff_time) Error.invalid_cliff
      let total_duration = end_time - start_time
      fail_if (ltb_ℤ deposit (pos total_duration)) Error.deposit_rate_too_low
      ok_or (checked_mul deposit (pos total_duration)) Error.overflow
      (id, w) ← allocate_stream_id env w
      let s =
          new_stream sender recipient token deposit start_time end_time cliff_time cancellable
            pausable transferable
      w ← token_transfer env token sender env.self deposit w
      let w = save_stream env id s w
      let w = bump_instance_ttl env w
      let w = Events.stream_created id s w
      ok (id, w)

-- The new deposit and the new end of the schedule, with every guard of `top_up` on the numbers.
unfoldable pub extended_schedule : Stream → ℤ → Result (ℤ × ℕ)
extended_schedule s amount = do
  let current_duration = pos (duration s)
  scaled ← ok_or (checked_mul amount current_duration) Error.overflow
  delta ← ok_or (checked_div scaled s.deposited) Error.overflow
  fail_if (ltb_ℤ delta (pos 0) || ltb_ℤ (pos u64_max) delta) Error.overflow
  fail_if (eq_ℤ delta (pos 0)) Error.top_up_too_small
  new_deposited ← ok_or (checked_add s.deposited amount) Error.overflow
  new_end ← ok_or (u64_checked_add s.end_time (pos_part delta)) Error.overflow
  new_duration ← ok_or (u64_checked_sub new_end s.start_time) Error.overflow
  ok_or (checked_mul new_deposited (pos new_duration)) Error.overflow
  fail_if (ltb_ℤ new_deposited (pos new_duration)) Error.deposit_rate_too_low
  ok (new_deposited, new_end)

unfoldable pub top_up : Env → ℕ → ℤ → World → Result World
top_up env id amount w = do
  (s, w) ← load_stream env id w
  require_auth env s.sender (Payload.amount_args id amount)
  fail_if (is_terminal s.status) Error.stream_terminated
  fail_if (leb_ℤ amount (pos 0)) Error.invalid_amount
  fail_if (leb s.end_time (stream_time s env.now)) Error.stream_matured
  figures ← extended_schedule s amount
  w ← token_transfer env s.token s.sender env.self amount w
  let s' : Stream = record s { deposited = figures.0; end_time = figures.1 }
  let w = save_stream env id s' w
  let w = bump_instance_ttl env w
  Events.topped_up id s' amount w

-- `apply_withdrawal` on the record: the amount is counted, and a stream that is drawn empty ends,
-- its pause closed, unless it was cancelled.
unfoldable pub close_pause : Env → Stream → Option ℕ → Result Stream
close_pause env s none = ok s
close_pause env s (some paused_at) = do
  total ← ok_or (u64_checked_add s.paused_total (env.now - paused_at)) Error.overflow
  ok (record s { paused_total = total; paused_at = none })

unfoldable pub drawn : Env → Stream → ℤ → Result Stream
unfolding close_pause
drawn env s payout = do
  total ← ok_or (checked_add s.withdrawn payout) Error.overflow
  let s : Stream = record s { withdrawn = total }
  if leb_ℤ s.deposited total && not (status_eq s.status StreamStatus.cancelled)
      then close_pause env (record s { status = StreamStatus.depleted }) s.paused_at
      else ok s

unfoldable pub apply_withdrawal : Env → ℕ → Stream → ℤ → World → Result World
apply_withdrawal env id s payout w = do
  s ← drawn env s payout
  let w = save_stream env id s w
  w ← token_transfer env s.token env.self s.recipient payout w
  Events.withdrawn id s payout w

-- The part of the available amount that is asked for: `None` is all of it.
unfoldable pub requested_payout : ℤ → Option ℤ → Result ℤ
requested_payout available none = ok available
requested_payout available (some requested) = do
  fail_if (leb_ℤ requested (pos 0)) Error.invalid_amount
  fail_if (ltb_ℤ available requested) Error.insufficient_withdrawable
  ok requested

-- The amount to pay, with the two errors of an empty claim.
unfoldable pub chosen_payout : Stream → ℤ → Option ℤ → Result ℤ
unfolding requested_payout
chosen_payout s available amount =
    if eq_ℤ available (pos 0)
    then (if is_terminal s.status
        then err Error.stream_terminated
        else err Error.nothing_to_withdraw)
    else requested_payout available amount

unfoldable pub withdraw : Env → ℕ → Option ℤ → World → Result (ℤ × World)
withdraw env id amount w = do
  (s, w) ← load_stream env id w
  require_auth env s.recipient (Payload.withdraw_args id amount)
  available ← withdrawable s env.now
  payout ← chosen_payout s available amount
  w ← apply_withdrawal env id s payout w
  let w = bump_instance_ttl env w
  ok (payout, w)

-- The record of a stream that is cancelled with `vested_now` earned at `settle_at` of its clock.
abbrev pub settled : Stream → ℤ → ℕ → Stream
settled s vested_now settle_at = record s {
  deposited = vested_now;
  end_time = settle_at;
  paused_at = none;
  status = StreamStatus.cancelled;
}

abbrev pub refund_sender : Env → Stream → ℤ → World → Result World
refund_sender env s refund w =
    if ltb_ℤ (pos 0) refund then token_transfer env s.token env.self s.sender refund w else ok w

-- The `debug_assert`s are not in a release build, and are left out.
unfoldable pub cancel : Env → ℕ → World → Result World
cancel env id w = do
  (s, w) ← load_stream env id w
  require_auth env s.sender (Payload.id_args id)
  fail_if (not (cancellable s)) Error.not_cancellable
  fail_if (is_terminal s.status) Error.stream_terminated
  vested_now ← vested s env.now
  refund ← refundable s env.now
  let s' = settled s vested_now (larger (stream_time s env.now) s.start_time)
  let w = save_stream env id s' w
  let w = bump_instance_ttl env w
  w ← refund_sender env s refund w
  ok (Events.cancelled id s' refund w)
