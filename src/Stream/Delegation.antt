-- ===== src/Stream/Delegation.antt =====
-- Grants, and the entry points of contracts/stream/src/lib.rs that a delegate calls.
pub mod Refinement
use perpetua_contracts.Prelude.{
  ℕ, ◌+◌, ◌-◌, Bool, false, not, ◌&&◌, Option, none, some, ⊤, ltb, leb, ◌==◌, if◌then◌else◌, larger,
}
use perpetua_contracts.Prelude.Int.{ℤ, pos, leb_ℤ}
use perpetua_contracts.Words.{any_bit, u64_checked_add}
use perpetua_contracts.Stream.Op
use perpetua_contracts.Stream.Error.{Error, Result, ok, err, ◌>>=◌, ◌>>◌, fail_if, ok_or}
use perpetua_contracts.Stream.Types.{
  Address, Stream, StreamStatus, DelegateGrant, is_terminal, cancellable, pausable, transferable,
}
use perpetua_contracts.Stream.Accrual.{stream_time, vested, withdrawable, refundable}
use perpetua_contracts.Stream.Host.{Env, World, Payload, require_auth, token_transfer}
use perpetua_contracts.Stream.Storage.{
  load_stream, save_stream, extend_stream, save_delegate, load_delegate, remove_delegate,
}
use perpetua_contracts.Stream.Events
use perpetua_contracts.Stream.Lifecycle.{
  bump_instance_ttl, status_eq, settled, refund_sender, chosen_payout, apply_withdrawal,
  extended_schedule,
}
use perpetua_contracts.Stream.Pausing.{frozen, thawed}
use perpetua_contracts.Stream.Recipient.{is_spent}

abbrev pub sender_ops : ℕ
sender_ops = Op.cancel + Op.pause + Op.resume + Op.top_up

abbrev pub recipient_ops : ℕ
recipient_ops = Op.withdraw + Op.transfer_recipient

-- The tail of `grant_delegate`: the grant is written over any that was there.
unfoldable pub record_grant :
    Env → ℕ → Stream → Address → Address → ℕ → Option ℕ → World → Result World
record_grant env id s grantor delegate ops expires_at w = do
  require_auth env grantor (Payload.grant_args id delegate ops expires_at)
  let w = save_delegate env id delegate (record { ops = ops; expires_at = expires_at }) w
  let w = extend_stream env id s w
  let w = bump_instance_ttl env w
  ok (Events.delegate_granted id grantor delegate ops expires_at w)

unfoldable pub grant_delegate : Env → ℕ → Address → Address → ℕ → Option ℕ → World → Result World
grant_delegate env id grantor delegate ops expires_at w = do
  (s, w) ← load_stream env id w
  fail_if (is_terminal s.status) Error.stream_terminated
  let needs_sender = any_bit ops sender_ops
  let needs_recipient = any_bit ops recipient_ops
  fail_if (needs_sender && needs_recipient) Error.unauthorized
  if needs_sender
      then fail_if (not (grantor == s.sender)) Error.unauthorized
        >> record_grant env id s grantor delegate ops expires_at w
      else if needs_recipient
      then fail_if (not (grantor == s.recipient)) Error.unauthorized
        >> record_grant env id s grantor delegate ops expires_at w
      else ok w

unfoldable pub revoke_delegate : Env → ℕ → Address → Address → World → Result World
revoke_delegate env id grantor delegate w = do
  (s, w) ← load_stream env id w
  fail_if (not (grantor == s.sender) && not (grantor == s.recipient)) Error.unauthorized
  require_auth env grantor (Payload.address_args id delegate)
  let w = remove_delegate id delegate w
  let w = extend_stream env id s w
  let w = bump_instance_ttl env w
  ok (Events.delegate_revoked id grantor delegate w)

-- Whether a grant has run out: its last second is still good.
abbrev pub is_expired : DelegateGrant → ℕ → Bool
is_expired g now = elim g.expires_at [ none ↦ false | some expires ↦ ltb expires now ]

unfoldable pub check_delegate : Env → ℕ → Address → ℕ → World → Result World
check_delegate env id caller op w = do
  let (found, w) = load_delegate env id caller w
  grant ← ok_or found Error.delegate_not_permitted
  fail_if (is_expired grant env.now) Error.delegate_expired
  fail_if (not (any_bit grant.ops op)) Error.delegate_not_permitted
  ok w

unfoldable pub delegate_withdraw : Env → ℕ → Address → Option ℤ → World → Result (ℤ × World)
delegate_withdraw env id delegate amount w = do
  require_auth env delegate (Payload.withdraw_args id amount)
  w ← check_delegate env id delegate Op.withdraw w
  (s, w) ← load_stream env id w
  available ← withdrawable s env.now
  payout ← chosen_payout s available amount
  w ← apply_withdrawal env id s payout w
  let w = bump_instance_ttl env w
  ok (payout, w)

unfoldable pub delegate_cancel : Env → ℕ → Address → World → Result World
delegate_cancel env id delegate w = do
  require_auth env delegate (Payload.id_args id)
  w ← check_delegate env id delegate Op.cancel w
  (s, w) ← load_stream env id w
  fail_if (not (cancellable s)) Error.not_cancellable
  fail_if (is_terminal s.status) Error.stream_terminated
  vested_now ← vested s env.now
  refund ← refundable s env.now
  let s' = settled s vested_now (larger (stream_time s env.now) s.start_time)
  let w = save_stream env id s' w
  let w = bump_instance_ttl env w
  w ← refund_sender env s refund w
  ok (Events.cancelled id s' refund w)

unfoldable pub delegate_pause : Env → ℕ → Address → World → Result World
delegate_pause env id delegate w = do
  require_auth env delegate (Payload.id_args id)
  w ← check_delegate env id delegate Op.pause w
  (s, w) ← load_stream env id w
  fail_if (not (pausable s)) Error.not_pausable
  fail_if (is_terminal s.status) Error.stream_terminated
  fail_if (status_eq s.status StreamStatus.paused) Error.stream_already_paused
  let s' = frozen s env.now
  let w = save_stream env id s' w
  let w = bump_instance_ttl env w
  ok (Events.paused id s' env.now w)

unfoldable pub delegate_resume : Env → ℕ → Address → World → Result World
delegate_resume env id delegate w = do
  require_auth env delegate (Payload.id_args id)
  w ← check_delegate env id delegate Op.resume w
  (s, w) ← load_stream env id w
  fail_if (is_terminal s.status) Error.stream_terminated
  paused_at ← ok_or s.paused_at Error.stream_not_paused
  fail_if (not (status_eq s.status StreamStatus.paused)) Error.stream_not_paused
  let paused_duration = env.now - paused_at
  total ← ok_or (u64_checked_add s.paused_total paused_duration) Error.overflow
  let s' = thawed s total
  let w = save_stream env id s' w
  let w = bump_instance_ttl env w
  ok (Events.resumed id s' paused_duration w)

-- The tokens are the sender's, who authorizes the call too; here the record is written first.
unfoldable pub delegate_top_up : Env → ℕ → Address → ℤ → World → Result World
delegate_top_up env id delegate amount w = do
  require_auth env delegate (Payload.amount_args id amount)
  w ← check_delegate env id delegate Op.top_up w
  (s, w) ← load_stream env id w
  fail_if (is_terminal s.status) Error.stream_terminated
  fail_if (leb_ℤ amount (pos 0)) Error.invalid_amount
  fail_if (leb s.end_time (stream_time s env.now)) Error.stream_matured
  figures ← extended_schedule s amount
  let s' : Stream = record s { deposited = figures.0; end_time = figures.1 }
  let w = save_stream env id s' w
  let w = bump_instance_ttl env w
  require_auth env s.sender Payload.whole_call
  w ← token_transfer env s.token s.sender env.self amount w
  Events.topped_up id s' amount w

unfoldable pub delegate_transfer_recipient : Env → ℕ → Address → Address → World → Result World
delegate_transfer_recipient env id delegate new_recipient w = do
  require_auth env delegate (Payload.address_args id new_recipient)
  w ← check_delegate env id delegate Op.transfer_recipient w
  (s, w) ← load_stream env id w
  fail_if (not (transferable s)) Error.not_transferable
  fail_if (is_spent s) Error.stream_terminated
  fail_if (new_recipient == s.sender) Error.self_stream
  if s.recipient == new_recipient
      then ok w
      else (let w = save_stream env id (record s { recipient = new_recipient }) w in
          let w = bump_instance_ttl env w in
          ok (Events.recipient_transferred id s.recipient new_recipient w))
