-- ===== src/Stream/Event.antt =====
-- The `#[contractevent]` records of contracts/stream/src/events.rs, one constructor for each, its
-- arguments in the order of the fields.
use perpetua_contracts.Prelude.{ℕ, Bool, Option}
use perpetua_contracts.Prelude.Int.{ℤ}
use perpetua_contracts.Stream.Types.{Address, StreamStatus}

pub data Event : Type 0 where
  -- stream_id, sender, recipient, token, deposited, start_time, end_time, cliff_time, cancellable,
  -- pausable, transferable
  stream_created : ℕ → Address → Address → Address → ℤ → ℕ → ℕ → ℕ → Bool → Bool → Bool → Event
  -- stream_id, recipient, amount, withdrawn, deposited, status
  withdrawn : ℕ → Address → ℤ → ℤ → ℤ → StreamStatus → Event
  -- stream_id, sender, recipient, refunded, vested, withdrawn, end_time
  cancelled : ℕ → Address → Address → ℤ → ℤ → ℤ → ℕ → Event
  -- stream_id, sender, paused_at, paused_total
  paused : ℕ → Address → ℕ → ℕ → Event
  -- stream_id, sender, paused_duration, paused_total
  resumed : ℕ → Address → ℕ → ℕ → Event
  -- stream_id, sender, amount, deposited, end_time
  topped_up : ℕ → Address → ℤ → ℤ → ℕ → Event
  -- stream_id, old_recipient, new_recipient
  recipient_transferred : ℕ → Address → Address → Event
  -- stream_id, grantor, delegate, ops, expires_at
  delegate_granted : ℕ → Address → Address → ℕ → Option ℕ → Event
  -- stream_id, grantor, delegate
  delegate_revoked : ℕ → Address → Address → Event
  -- stream_id, extended_to_ledgers
  ttl_extended : ℕ → ℕ → Event
