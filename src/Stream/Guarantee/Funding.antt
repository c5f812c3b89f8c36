-- ===== src/Stream/Guarantee/Funding.antt =====
-- `top_up` of contracts/stream/src/lib.rs, in a sound state.
use perpetua_contracts.Prelude.{ℕ, ◌+◌, ◌-◌, ◌*◌, ◌≤◌, ◌<◌, ◌≡◌, true, some, arith, ◌∷◌, refl}
use perpetua_contracts.Prelude.Int.{ℤ, pos, negsuc}
use perpetua_contracts.Prelude.Division.{share_lower, share_upper}
use perpetua_contracts.Words.{u64_max}
use perpetua_contracts.Stream.Error.{ok}
use perpetua_contracts.Stream.Types.{Stream}
use perpetua_contracts.Stream.Accrual.{vested}
use perpetua_contracts.Stream.Accrual.Vesting.{earned, vested_value}
use perpetua_contracts.Stream.Host.{Env, World, Payload, transfer_of}
use perpetua_contracts.Stream.Storage.{extend_stream}
use perpetua_contracts.Stream.Lifecycle.{top_up}
use perpetua_contracts.Stream.Effect.{Rewrites}
use perpetua_contracts.Stream.Inversion.Funding.{refunded, fund_inv, top_up_inv}
use perpetua_contracts.Stream.Invariant.Sound.{IsSound}
use perpetua_contracts.Stream.Preserve.Funding.{
  bought, extended_schedule_inv, earned-refunded-le, refunded-IsValid,
}
use perpetua_contracts.Stream.Guarantee.Withdrawal.{untouched}

-- A funding by `amount` of stream `id`, whose schedule gets `extra` seconds longer.
pub record Extension (env : Env) (id amount : ℕ) (s : Stream) (w w' : World) : Type 0 where
  pub after : Stream
  pub deposit : ℕ
  pub extra : ℕ
  pub earned_before : ℕ
  pub earned_after : ℕ
  pub before_deposit : s.deposited ≡ pos deposit
  pub after_deposit : after.deposited ≡ pos (deposit + amount)
  pub after_end : after.end_time ≡ s.end_time + extra
  pub end_in_range : after.end_time ≤ u64_max
  pub same_start : after.start_time ≡ s.start_time
  pub same_cliff : after.cliff_time ≡ s.cliff_time
  pub some_time : 0 < extra
  -- The seconds are those that the amount buys at the stream's rate, rounded down.
  pub extra_lower : extra * deposit ≤ amount * (s.end_time - s.start_time)
  pub extra_upper : amount * (s.end_time - s.start_time) < (extra + 1) * deposit
  pub vested_before : vested s env.now ≡ ok (pos earned_before)
  pub vested_after : vested after env.now ≡ ok (pos earned_after)
  pub no_loss : earned_before ≤ earned_after
  pub effect :
      Rewrites id after (transfer_of s.token s.sender env.self (pos amount) ∷ w.transfers) w w'

-- In a sound state a top-up that succeeds is one that the sender authorized, by a positive amount.
-- It takes the amount from the sender into the contract in one transfer, adds it to the deposit and moves the end by
-- the seconds that the amount buys at the present rate, rounded down and at least one, with the
-- new end within 64 bits. What is vested at that second does not fall, and the start and the cliff stay.
pub top_up_extends :
    (env : Env) (id : ℕ) (amount : ℤ) (w w' : World)
    → IsSound env.self env.now w
    → top_up env id amount w ≡ ok w'
    → (s : Stream) × (a : ℕ) × (w.streams id ≡ some s)
      × (env.authorized s.sender (Payload.amount_args id amount) ≡ true)
      × (amount ≡ pos a)
      × (0 < a)
      × Extension env id a s w w'
unfolding extend_stream
top_up_extends env id (negsuc a) w w' v h =
    let (s, e, granted, h1) = top_up_inv env id (negsuc a) w w' h in
    let (figures, f) = fund_inv env id s (negsuc a) (extend_stream env id s w) w' h1 in
    absurd (ground (arith, f.positive))
top_up_extends env id (pos a) w w' v h =
    let (s, e, granted, h1) = top_up_inv env id (pos a) w w' h in
    let (figures, f) = fund_inv env id s (pos a) (extend_stream env id s w) w' h1 in
    let (d, p, x) = v.valid id s e in
    let l = x.live f.live in
    let k = s.end_time - s.start_time in
    let y =
      extended_schedule_inv s d a figures x.schedule.deposit (omega (arith, l.lasts, l.rate))
        x.schedule.ordered f.extended in
    let z =
      refunded-IsValid s d a env.now figures y x.schedule.ordered f.running env.self p f.live x in
    (
      s,
      a,
      e,
      granted,
      refl,
      ground (arith, f.positive),
      record {
        after = refunded s figures;
        deposit = d;
        extra = bought d k a;
        earned_before = earned s d env.now;
        earned_after = earned (refunded s figures) (d + a) env.now;
        before_deposit = x.schedule.deposit;
        after_deposit = y.deposit;
        after_end = y.end_moved;
        end_in_range = y.in_range;
        same_start = refl;
        same_cliff = refl;
        some_time = y.some_time;
        extra_lower = share_lower (a * k) d;
        extra_upper = share_upper (a * k) d (omega (arith, l.lasts, l.rate));
        vested_before = vested_value s d env.now env.now (omega arith) x.schedule;
        vested_after =
            vested_value (refunded s figures) (d + a) env.now env.now (omega arith) z.schedule;
        no_loss = earned-refunded-le s d a env.now figures y x.schedule.ordered f.running l.lasts;
        effect = untouched env id s _ _ w w' f.effect;
      },
    )
