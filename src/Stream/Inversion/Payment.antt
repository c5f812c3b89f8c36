-- ===== src/Stream/Inversion/Payment.antt =====
-- `apply_withdrawal`, `withdraw` and `cancel`, read backwards.
use perpetua_contracts.Prelude.{
  ℕ, ◌≡◌, not, true, false, some, Option, List, ◌∷◌, arith, inl, inr, Option-cases, larger,
  if◌then◌else◌,
}
use perpetua_contracts.Prelude.Int.{ℤ, pos, ltb_ℤ}
use perpetua_contracts.Stream.Error.{Error, Result, ok, ◌>>=◌, ◌>>◌, fail_if, >>=-eq-ok}
use perpetua_contracts.Stream.Types.{Stream, is_terminal, cancellable}
use perpetua_contracts.Stream.Accrual.{withdrawable, vested, refundable, stream_time}
use perpetua_contracts.Stream.Host.{Env, World, Payload, Transfer, transfer_of, token_transfer}
use perpetua_contracts.Stream.Storage.{load_stream, save_stream, extend_stream, extend_instance}
use perpetua_contracts.Stream.Events
use perpetua_contracts.Stream.Lifecycle.{
  drawn, apply_withdrawal, chosen_payout, withdraw, settled, refund_sender, cancel,
  bump_instance_ttl,
}
use perpetua_contracts.Stream.Effect.{Rewrites}

pub apply_withdrawal_inv :
    (env : Env) (id : ℕ) (s : Stream) (payout : ℤ) (w w' : World)
    → apply_withdrawal env id s payout w ≡ ok w'
    → (s' : Stream) × (drawn env s payout ≡ ok s')
      × Rewrites id s' (transfer_of s'.token env.self s'.recipient payout ∷ w.transfers) w w'
unfolding apply_withdrawal save_stream token_transfer Events.withdrawn
apply_withdrawal_inv env id s payout w w' h =
    let (s', e, h') = >>=-eq-ok (drawn env s payout) _ h in (s', e, ground arith)

-- What `withdraw` and `delegate_withdraw` do once the caller is known.
abbrev pub pay_claim : Env → ℕ → Stream → Option ℤ → World → Result (ℤ × World)
pay_claim env id s amount w = do
  available ← withdrawable s env.now
  payout ← chosen_payout s available amount
  w ← apply_withdrawal env id s payout w
  let w = bump_instance_ttl env w
  ok (payout, w)

pub pay_claim_inv :
    (env : Env) (id : ℕ) (s : Stream) (amount : Option ℤ) (payout : ℤ) (w w' : World)
    → pay_claim env id s amount w ≡ ok (payout, w')
    → (s' : Stream) × (available : ℤ) × (withdrawable s env.now ≡ ok available)
      × (chosen_payout s available amount ≡ ok payout)
      × (drawn env s payout ≡ ok s')
      × Rewrites id s' (transfer_of s'.token env.self s'.recipient payout ∷ w.transfers) w w'
unfolding extend_instance
pay_claim_inv env id s amount payout w w' h =
    let (available, b, h1) = >>=-eq-ok (withdrawable s env.now) _ h in
    let (q, c, h2) = >>=-eq-ok (chosen_payout s available amount) _ h1 in
    let (w2, d, h3) = >>=-eq-ok (apply_withdrawal env id s q w) _ h2 in
    let (s', e, r) = apply_withdrawal_inv env id s q w w2 d in
    let same : q ≡ payout = ground arith in
    (s', available, b, ground arith, ground arith, ground arith)

pub withdraw_inv :
    (env : Env) (id : ℕ) (amount : Option ℤ) (payout : ℤ) (w w' : World)
    → withdraw env id amount w ≡ ok (payout, w')
    → (s : Stream) × (w.streams id ≡ some s)
      × (env.authorized s.recipient (Payload.withdraw_args id amount) ≡ true)
      × (pay_claim env id s amount (extend_stream env id s w) ≡ ok (payout, w'))
unfolding withdraw load_stream
withdraw_inv env id amount payout w w' h = elim (Option-cases (w.streams id)) [
  | inl e ↦ ground arith
  | inr (s, e) ↦ (s, e, ground arith, ground arith)
]

-- What `cancel` and `delegate_cancel` do once the caller is known.
abbrev pub settle : Env → ℕ → Stream → World → Result World
settle env id s w = do
  fail_if (not (cancellable s)) Error.not_cancellable
  fail_if (is_terminal s.status) Error.stream_terminated
  vested_now ← vested s env.now
  refund ← refundable s env.now
  let s' = settled s vested_now (larger (stream_time s env.now) s.start_time)
  let w = save_stream env id s' w
  let w = bump_instance_ttl env w
  w ← refund_sender env s refund w
  ok (Events.cancelled id s' refund w)

abbrev pub refund_log : Env → Stream → ℤ → List Transfer → List Transfer
refund_log env s refund ts =
    if ltb_ℤ (pos 0) refund then transfer_of s.token env.self s.sender refund ∷ ts else ts

pub settle_inv :
    (env : Env) (id : ℕ) (s : Stream) (w w' : World)
    → settle env id s w ≡ ok w'
    → (vested_now refund : ℤ) × (cancellable s ≡ true)
      × (is_terminal s.status ≡ false)
      × (vested s env.now ≡ ok vested_now)
      × (refundable s env.now ≡ ok refund)
      × Rewrites id
          (settled s vested_now (larger (stream_time s env.now) s.start_time))
          (refund_log env s refund w.transfers)
          w
          w'
unfolding save_stream extend_instance token_transfer Events.cancelled
settle_inv env id s w w' h =
    let (_, a, h1) = >>=-eq-ok (fail_if (not (cancellable s)) Error.not_cancellable) _ h in
    let (_, b, h2) = >>=-eq-ok (fail_if (is_terminal s.status) Error.stream_terminated) _ h1 in
    let (v, c, h3) = >>=-eq-ok (vested s env.now) _ h2 in
    let (r, d, h4) = >>=-eq-ok (refundable s env.now) _ h3 in
    (v, r, ground arith, ground arith, c, d, ground arith)

pub cancel_inv :
    (env : Env) (id : ℕ) (w w' : World)
    → cancel env id w ≡ ok w'
    → (s : Stream) × (w.streams id ≡ some s)
      × (env.authorized s.sender (Payload.id_args id) ≡ true)
      × (settle env id s (extend_stream env id s w) ≡ ok w')
unfolding cancel load_stream
cancel_inv env id w w' h = elim (Option-cases (w.streams id)) [
  | inl e ↦ ground arith
  | inr (s, e) ↦ (s, e, ground arith, ground arith)
]
