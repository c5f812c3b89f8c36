-- ===== src/Stream/Events.antt =====
-- The emission helpers of contracts/stream/src/events.rs, and its two unused checks of an event's
-- numbers. An `assert!` that fails traps.
use perpetua_contracts.Prelude.{ℕ, ◌||◌, Option, none, some, ⊤, if◌then◌else◌}
use perpetua_contracts.Prelude.Int.{ℤ, pos, ltb_ℤ, leb_ℤ, eq_ℤ}
use perpetua_contracts.I128.{checked_add}
use perpetua_contracts.Stream.Error.{Error, Result, ok, err, trap}
use perpetua_contracts.Stream.Types.{Address, Stream, cancellable, pausable, transferable}
use perpetua_contracts.Stream.Event.{Event}
use perpetua_contracts.Stream.Host.{World, publish}

unfoldable pub stream_created : ℕ → Stream → World → World
stream_created id s w =
    publish
      (Event.stream_created id s.sender s.recipient s.token s.deposited s.start_time s.end_time
        s.cliff_time (cancellable s) (pausable s) (transferable s))
      w

unfoldable pub withdrawn : ℕ → Stream → ℤ → World → Result World
withdrawn id s amount w =
    if eq_ℤ amount (pos 0)
    then ok w
    else if ltb_ℤ (pos 0) amount
    then ok (publish (Event.withdrawn id s.recipient amount s.withdrawn s.deposited s.status) w)
    else trap

unfoldable pub cancelled : ℕ → Stream → ℤ → World → World
cancelled id s refunded w =
    publish (Event.cancelled id s.sender s.recipient refunded s.deposited s.withdrawn s.end_time) w

unfoldable pub paused : ℕ → Stream → ℕ → World → World
paused id s paused_at w = publish (Event.paused id s.sender paused_at s.paused_total) w

unfoldable pub resumed : ℕ → Stream → ℕ → World → World
resumed id s paused_duration w =
    publish (Event.resumed id s.sender paused_duration s.paused_total) w

unfoldable pub topped_up : ℕ → Stream → ℤ → World → Result World
topped_up id s amount w =
    if eq_ℤ amount (pos 0)
    then ok w
    else if ltb_ℤ (pos 0) amount
    then ok (publish (Event.topped_up id s.sender amount s.deposited s.end_time) w)
    else trap

unfoldable pub recipient_transferred : ℕ → Address → Address → World → World
recipient_transferred id old_recipient new_recipient w =
    publish (Event.recipient_transferred id old_recipient new_recipient) w

unfoldable pub ttl_extended : ℕ → ℕ → World → World
ttl_extended id extended_to_ledgers w = publish (Event.ttl_extended id extended_to_ledgers) w

unfoldable pub delegate_granted : ℕ → Address → Address → ℕ → Option ℕ → World → World
delegate_granted id grantor delegate ops expires_at w =
    publish (Event.delegate_granted id grantor delegate ops expires_at) w

unfoldable pub delegate_revoked : ℕ → Address → Address → World → World
delegate_revoked id grantor delegate w = publish (Event.delegate_revoked id grantor delegate) w

unfoldable pub check_withdrawn_invariants : Stream → ℤ → Result ⊤
check_withdrawn_invariants s amount =
    if leb_ℤ amount (pos 0)
    then err Error.invalid_amount
    else if ltb_ℤ s.withdrawn amount || ltb_ℤ s.deposited s.withdrawn
    then err Error.overflow
    else ok tt

unfoldable pub check_cancelled_invariants : ℤ → ℤ → ℤ → ℤ → Result ⊤
check_cancelled_invariants pre_deposited refunded vested withdrawn =
    if ltb_ℤ refunded (pos 0) || ltb_ℤ vested withdrawn || ltb_ℤ withdrawn (pos 0)
    then err Error.invalid_amount
    else elim (checked_add refunded vested) [
      | none ↦ err Error.overflow
      | some sum ↦ if eq_ℤ sum pre_deposited then ok tt else err Error.invalid_amount
    ]
