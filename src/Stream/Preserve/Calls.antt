-- ===== src/Stream/Preserve/Calls.antt =====
-- The calls of contracts/stream/src/lib.rs that concern one stream, and the invariant.
use perpetua_contracts.Prelude.{ℕ, ◌+◌, ◌-◌, ◌≤◌, ◌≡◌, ◌≢◌, some, Option, arith, refl}
use perpetua_contracts.Prelude.Int.{ℤ, pos, negsuc}
use perpetua_contracts.Words.{u64_max}
use perpetua_contracts.Stream.Error.{ok}
use perpetua_contracts.Stream.Types.{Address, Stream}
use perpetua_contracts.Stream.Accrual.Vesting.{earned, earned-le, vested_value}
use perpetua_contracts.Stream.Accrual.Invariants.{withdrawable_value, refundable_value}
use perpetua_contracts.Stream.Host.{Env, World}
use perpetua_contracts.Stream.Storage.{extend_stream}
use perpetua_contracts.Stream.Pausing.{pause, resume, frozen}
use perpetua_contracts.Stream.Effect.{Rewrites}
use perpetua_contracts.Stream.Inversion.Pausing.{pause_inv, resume_inv}
use perpetua_contracts.Stream.Inversion.Payment.{pay_claim, pay_claim_inv, settle, settle_inv}
use perpetua_contracts.Stream.Inversion.Funding.{Funded}
use perpetua_contracts.Stream.Invariant.Valid.{IsValid}
use perpetua_contracts.Stream.Invariant.Sound.{IsSound, Keeps-IsSound, Rewrites-IsSound}
use perpetua_contracts.Stream.Preserve.Pausing.{frozen-IsValid, thawed-IsValid, transferred-IsValid}
use perpetua_contracts.Stream.Preserve.Payment.{chosen_payout_bounds}
use perpetua_contracts.Stream.Preserve.Payment.Drawn.{drawn-DrawnRecord, drawn-Balanced}
use perpetua_contracts.Stream.Preserve.Payment.Settled.{settled-IsValid, settled-Balanced}
use perpetua_contracts.Stream.Preserve.Funding.{
  extended_schedule_inv, refunded-IsValid, refunded-Balanced,
}

module _ (env : Env) (w w' : World) (v : IsSound env.self env.now w) where
  -- A call that moves no money: the record changes and no token moves.
  pub quiet-IsSound :
      (id : ℕ) (s s' : Stream)
      → w.streams id ≡ some s
      → Rewrites id s' w.transfers w w'
      → (d p : ℕ) → s.deposited ≡ s'.deposited
      → s.withdrawn ≡ s'.withdrawn
      → s.token ≡ s'.token
      → IsValid env.self env.now s' d p
      → IsSound env.self env.now w'
  quiet-IsSound id s s' e r d p a b c x =
      Rewrites-IsSound env.self env.now env.now id s s' w.transfers w w' (omega arith) e r (d, p, x)
        (λ token. rw (a, b, c) (omega arith)) v

  pub pause-IsSound : (id : ℕ) → pause env id w ≡ ok w' → IsSound env.self env.now w'
  pause-IsSound id h =
      let (s, e, _, _, live, n, r) = pause_inv env id w w' h in
      let (d, p, x) = v.valid id s e in
      quiet-IsSound id s (frozen s env.now) e r d p refl refl refl
        (frozen-IsValid env.self env.now s d p x live n)

  pub resume-IsSound : (id : ℕ) → resume env id w ≡ ok w' → IsSound env.self env.now w'
  resume-IsSound id h =
      let (s, a, e, n, _, paused, _, r) = resume_inv env id w w' h in
      let (d, p, x) = v.valid id s e in
      quiet-IsSound id s _ e r d p refl refl refl
        (thawed-IsValid env.self env.now s d p x a n paused)

  pub transfer-IsSound :
      (id : ℕ) (r : Address) (s : Stream)
      → w.streams id ≡ some s
      → r ≢ s.sender
      → Rewrites id (record s { recipient = r }) w.transfers w w'
      → IsSound env.self env.now w'
  transfer-IsSound id r s e ne effect =
      let (d, p, x) = v.valid id s e in
      quiet-IsSound id s _ e effect d p refl refl refl
        (transferred-IsValid env.self env.now s d p x r ne)

  pub Funded-IsSound :
      (id : ℕ) (s : Stream) (amount : ℤ) (figures : ℤ × ℕ)
      → w.streams id ≡ some s
      → Funded env id s amount figures w w'
      → IsSound env.self env.now w'
  Funded-IsSound id s (pos a) figures e f =
      let (d, p, x) = v.valid id s e in
      let l = x.live f.live in
      let y =
        extended_schedule_inv s d a figures x.schedule.deposit (omega (arith, l.lasts, l.rate))
          x.schedule.ordered f.extended in
      Rewrites-IsSound env.self env.now env.now id s _ _ w w' (omega arith) e f.effect
        (
          d + a,
          p,
          refunded-IsValid s d a env.now figures y x.schedule.ordered f.running env.self p f.live x,
        )
        (refunded-Balanced env.self s d a p env.now figures w.transfers y x) v
  Funded-IsSound id s (negsuc a) figures e f = absurd (ground (arith, f.positive))

  pub claim-IsSound :
      (id : ℕ) (s : Stream) (amount : Option ℤ) (payout : ℤ)
      → env.now ≤ u64_max
      → w.streams id ≡ some s
      → pay_claim env id s amount w ≡ ok (payout, w')
      → IsSound env.self env.now w'
  claim-IsSound id s amount payout u e h =
      let (d, p, x) = v.valid id s e in
      let (s', available, a, c, r, effect) = pay_claim_inv env id s amount payout w w' h in
      let value =
        withdrawable_value s d p env.now env.now (omega arith) x.schedule x.paid
          (omega (arith, x.backed, earned-le s d env.now)) in
      let there : available ≡ pos (earned s d env.now - p) = cc in
      let (q, is_q, some_paid, fits) =
        chosen_payout_bounds s (earned s d env.now - p) amount payout (rw there at c) in
      let covered : p + q ≤ earned s d env.now = omega (arith, x.backed) in
      let after = drawn-DrawnRecord env s s' d p q x covered u (rw is_q at r) in
      Rewrites-IsSound env.self env.now env.now id s s' _ w w' (omega arith) e (rw is_q at effect)
        (d, p + q, after.still_valid) (drawn-Balanced env s s' d p q x covered u w.transfers after)
        v

  pub settle-IsSound :
      (id : ℕ) (s : Stream)
      → w.streams id ≡ some s
      → settle env id s w ≡ ok w'
      → IsSound env.self env.now w'
  settle-IsSound id s e h =
      let (d, p, x) = v.valid id s e in
      let (vested_now, refund, _, live, a, b, effect) = settle_inv env id s w w' h in
      let is_vested : vested_now ≡ pos (earned s d env.now) =
        cc (vested_value s d env.now env.now (omega arith) x.schedule) in
      let is_refund : refund ≡ pos (d - earned s d env.now) =
        cc (refundable_value s d env.now x.schedule env.now (omega arith)) in
      Rewrites-IsSound env.self env.now env.now id s _ _ w w' (omega arith) e
        (rw (is_vested, is_refund) at effect)
        (earned s d env.now, p, settled-IsValid env.self env.now s d p live x)
        (settled-Balanced env s d p w.transfers x) v

pub touch-IsSound :
    (env : Env) (id : ℕ) (s : Stream) (w : World)
    → IsSound env.self env.now w
    → IsSound env.self env.now (extend_stream env id s w)
unfolding extend_stream
touch-IsSound env id s w v =
    Keeps-IsSound env.self env.now env.now w (extend_stream env id s w) (omega arith)
      (record { same_streams = refl; same_ids = refl; same_transfers = refl }) v
