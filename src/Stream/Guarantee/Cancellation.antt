-- ===== src/Stream/Guarantee/Cancellation.antt =====
-- `cancel` of contracts/stream/src/lib.rs, in a sound state.
use perpetua_contracts.Prelude.{
  ℕ, ◌+◌, ◌-◌, ◌≤◌, ◌≡◌, true, false, some, arith, ◌∷◌, inl, inr, larger, ltb, if◌then◌else◌, refl,
}
use perpetua_contracts.Prelude.Int.{ℤ, pos}
use perpetua_contracts.Stream.Error.{ok, Result-cases}
use perpetua_contracts.Stream.Types.{Stream, StreamStatus, is_terminal, cancellable}
use perpetua_contracts.Stream.Accrual.{vested, refundable, withdrawable, stream_time}
use perpetua_contracts.Stream.Accrual.Vesting.{earned, earned-le, vested_value}
use perpetua_contracts.Stream.Accrual.Invariants.{refundable_value}
use perpetua_contracts.Stream.Host.{
  Env, World, Payload, transfer_of, TransferOutcome, token_transfer,
}
use perpetua_contracts.Stream.Storage.{extend_stream, load_stream, save_stream, extend_instance}
use perpetua_contracts.Stream.Events
use perpetua_contracts.Stream.Lifecycle.{cancel, settled}
use perpetua_contracts.Stream.Effect.{Rewrites}
use perpetua_contracts.Stream.Inversion.Payment.{settle_inv, cancel_inv}
use perpetua_contracts.Stream.Invariant.Valid.{IsValid, advance-IsValid}
use perpetua_contracts.Stream.Invariant.Sound.{IsSound}
use perpetua_contracts.Stream.Preserve.Payment.Settled.{settled-IsValid}
use perpetua_contracts.Stream.Guarantee.Withdrawal.{claim_value, untouched}

-- A cancelled stream's claim does not change with time.
settled_claim :
    (self t u : ℕ) (s : Stream) (d p : ℕ)
    → s.status ≡ StreamStatus.cancelled
    → t ≤ u
    → IsValid self t s d p
    → withdrawable s u ≡ ok (pos (d - p))
settled_claim self t u s d p c h x =
    let y = advance-IsValid self t u s d p h x in
    let whole = y.settled c in rw whole at (claim_value self t u s d p h x)

-- The deposit of stream `id` is divided into the `earned_part`, which stays, and the
-- `unearned_part`, which goes back to the sender.
pub record Split (env : Env) (id : ℕ) (w w' : World) : Type 0 where
  pub before : Stream
  pub after : Stream
  pub earned_part : ℕ
  pub unearned_part : ℕ
  pub paid : ℕ
  pub found : w.streams id ≡ some before
  pub vested_before : vested before env.now ≡ ok (pos earned_part)
  pub divided : before.deposited ≡ pos (earned_part + unearned_part)
  pub paid_before : before.withdrawn ≡ pos paid
  pub backed : paid ≤ earned_part
  pub was_live : is_terminal before.status ≡ false
  pub ended : after.status ≡ StreamStatus.cancelled
  pub kept : after.deposited ≡ pos earned_part
  pub same_paid : after.withdrawn ≡ before.withdrawn
  pub same_recipient : after.recipient ≡ before.recipient
  pub claim_stays : (u : ℕ) → env.now ≤ u → withdrawable after u ≡ ok (pos (earned_part - paid))
  pub effect :
      Rewrites id after
        (if ltb 0 unearned_part
          then transfer_of before.token env.self before.sender (pos unearned_part) ∷ w.transfers
          else w.transfers)
        w
        w'

-- In a sound state a cancellation that succeeds is one that the sender authorized, of a live stream
-- that was created cancellable. It divides the deposit: what is vested at that second stays with the
-- stream, less what is paid already, and is withdrawable from then on at every later time; the rest goes back to the sender in one
-- transfer, which is left out when there is no rest. The stream is cancelled, and no other stream
-- changes.
pub cancel_splits :
    (env : Env) (id : ℕ) (w w' : World)
    → IsSound env.self env.now w
    → cancel env id w ≡ ok w'
    → (s : Stream) × (w.streams id ≡ some s)
      × (env.authorized s.sender (Payload.id_args id) ≡ true)
      × (cancellable s ≡ true)
      × Split env id w w'
unfolding extend_stream
cancel_splits env id w w' v h =
    let (s, e, granted, h1) = cancel_inv env id w w' h in
    let (d, p, x) = v.valid id s e in
    let (vested_now, refund, allowed, live, a, b, effect) =
      settle_inv env id s (extend_stream env id s w) w' h1 in
    let value = vested_value s d env.now env.now (omega arith) x.schedule in
    let rest = refundable_value s d env.now x.schedule env.now (omega arith) in
    let is_vested : vested_now ≡ pos (earned s d env.now) = cc in
    let is_refund : refund ≡ pos (d - earned s d env.now) = cc in
    let y = settled-IsValid env.self env.now s d p live x in
    (
      s,
      e,
      granted,
      allowed,
      record {
        before = s;
        after = settled s (pos (earned s d env.now)) (larger (stream_time s env.now) s.start_time);
        earned_part = earned s d env.now;
        unearned_part = d - earned s d env.now;
        paid = p;
        found = e;
        vested_before = value;
        divided = ground (arith, x.schedule.deposit, earned-le s d env.now);
        paid_before = x.paid;
        backed = x.backed;
        was_live = live;
        ended = refl;
        kept = refl;
        same_paid = refl;
        same_recipient = refl;
        claim_stays = λ u later. settled_claim env.self env.now u _ _ p refl later y;
        effect = untouched env id s _ _ w w' (rw (is_vested, is_refund) at effect);
      },
    )

cancel_runs :
    (env : Env) (id a b : ℕ) (s : Stream) (w : World)
    → w.streams id ≡ some s
    → env.authorized s.sender (Payload.id_args id) ≡ true
    → cancellable s ≡ true
    → is_terminal s.status ≡ false
    → vested s env.now ≡ ok (pos a)
    → refundable s env.now ≡ ok (pos b)
    → env.try_transfer w.transfers (transfer_of s.token env.self s.sender (pos b))
      ≡ TransferOutcome.done
    → (w' : World) × (cancel env id w ≡ ok w')
unfolding cancel load_stream extend_stream save_stream token_transfer extend_instance
    Events.cancelled
cancel_runs env id a b s w e granted allowed live c r accepted =
    elim (Result-cases (cancel env id w)) [ inl done ↦ done | inr failed ↦ absurd (ground arith) ]

-- A cancellation of a sound, live and cancellable stream by its sender cannot fail unless the token
-- refuses the transfer of exactly what is refundable at that second.
pub cancel_succeeds :
    (env : Env) (id : ℕ) (s : Stream) (w : World)
    → IsSound env.self env.now w
    → w.streams id ≡ some s
    → env.authorized s.sender (Payload.id_args id) ≡ true
    → cancellable s ≡ true
    → is_terminal s.status ≡ false
    → ((refund : ℤ)
        → refundable s env.now ≡ ok refund
        → env.try_transfer w.transfers (transfer_of s.token env.self s.sender refund)
          ≡ TransferOutcome.done)
    → (w' : World) × (cancel env id w ≡ ok w')
cancel_succeeds env id s w v e granted allowed live accepted =
    let (d, p, x) = v.valid id s e in
    let rest = refundable_value s d env.now x.schedule env.now (omega arith) in
    cancel_runs env id (earned s d env.now) (d - earned s d env.now) s w e granted allowed live
      (vested_value s d env.now env.now (omega arith) x.schedule) rest
      (accepted (pos (d - earned s d env.now)) rest)
