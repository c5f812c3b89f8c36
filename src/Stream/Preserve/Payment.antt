-- ===== src/Stream/Preserve/Payment.antt =====
-- The ways in which `apply_withdrawal` of contracts/stream/src/lib.rs ends.
pub mod Drawn
pub mod Settled
use perpetua_contracts.Prelude.{
  ℕ, ◌+◌, ◌-◌, ◌≤◌, ◌<◌, ◌≡◌, ◌≢◌, ◌⊎◌, inl, inr, Bool, true, false, some, none, Option,
  Option-cases, Bool-cases, ltb, ◌∙◌, arith, refl, sym, subst, List, ◌∷◌, larger,
}
use perpetua_contracts.Prelude.Int.{ℤ, pos, negsuc}
use perpetua_contracts.I128.{i128_max, checked_add-pos}
use perpetua_contracts.Words.{u64_max}
use perpetua_contracts.Stream.Error.{ok}
use perpetua_contracts.Stream.Types.{Address, Stream, StreamStatus, is_terminal}
use perpetua_contracts.Stream.Accrual.{stream_time, duration, elapsed, cliff_reached}
use perpetua_contracts.Stream.Accrual.Vesting.{earned, earned-le}
use perpetua_contracts.Stream.Host.{Env, Transfer, transfer_of}
use perpetua_contracts.Stream.Lifecycle.{
  status_eq, drawn, close_pause, chosen_payout, requested_payout, settled,
}
use perpetua_contracts.Stream.Invariant.Valid.{IsValid, earned_cong}

-- A payout that is chosen is positive and at most what is available.
pub chosen_payout_bounds :
    (s : Stream) (a : ℕ) (amount : Option ℤ) (payout : ℤ)
    → chosen_payout s (pos a) amount ≡ ok payout
    → (q : ℕ) × (payout ≡ pos q) × (0 < q) × (q ≤ a)
unfolding chosen_payout
chosen_payout_bounds s a none payout h = (a, ground arith, ground arith, omega arith)
chosen_payout_bounds s a (some (pos q)) payout h = (q, ground arith, ground arith, ground arith)
chosen_payout_bounds s a (some (negsuc q)) payout h = absurd (ground arith)

-- The record after a withdrawal that leaves the stream open, that ends it, and that ends it in a pause.
abbrev pub paid_record : Stream → ℕ → Stream
paid_record s r = record s { withdrawn = pos r }

abbrev pub ended_record : Stream → ℕ → Stream
ended_record s r = record s { withdrawn = pos r; status = StreamStatus.depleted }

abbrev pub closed_record : Stream → ℕ → ℕ → Stream
closed_record s r total = record s {
  withdrawn = pos r;
  status = StreamStatus.depleted;
  paused_total = total;
  paused_at = none;
}

-- How the withdrawal of `q` from a stream that has paid `p` of `d` ends: the stream stays as it is,
-- or is depleted, or is depleted in a pause, which is closed.
pub data Draw (env : Env) (s : Stream) (d p q : ℕ) : Type 0 where
  stays :
      drawn env s (pos q) ≡ ok (paid_record s (p + q))
      → (p + q < d) ⊎ (s.status ≡ StreamStatus.cancelled)
      → Draw env s d p q
  ends :
      drawn env s (pos q) ≡ ok (ended_record s (p + q))
      → p + q ≡ d
      → s.paused_at ≡ none
      → status_eq s.status StreamStatus.cancelled ≡ false
      → Draw env s d p q
  closes :
      (a : ℕ)
      → drawn env s (pos q) ≡ ok (closed_record s (p + q) (s.paused_total + (env.now - a)))
      → p + q ≡ d
      → s.paused_at ≡ some a
      → status_eq s.status StreamStatus.cancelled ≡ false
      → Draw env s d p q

status_cases :
    (x : StreamStatus) → (x ≡ StreamStatus.cancelled) ⊎ (status_eq x StreamStatus.cancelled ≡ false)
status_cases StreamStatus.active = inr refl
status_cases StreamStatus.paused = inr refl
status_cases StreamStatus.cancelled = inl refl
status_cases StreamStatus.depleted = inr refl

module _ (env : Env) (s : Stream) (d p q : ℕ) (v : IsValid env.self env.now s d p)
    (h : p + q ≤ earned s d env.now) where
  drawn_stays :
      (p + q < d) ⊎ (s.status ≡ StreamStatus.cancelled)
      → drawn env s (pos q) ≡ ok (paid_record s (p + q))
  unfolding drawn
  drawn_stays c = ground (
    arith,
    v.paid,
    v.schedule.deposit,
    v.schedule.fits,
    earned-le s d env.now,
    checked_add-pos p q,
  )

  drawn_spent :
      p + q ≡ d
      → status_eq s.status StreamStatus.cancelled ≡ false
      → drawn env s (pos q) ≡ close_pause env (ended_record s (p + q)) s.paused_at
  unfolding drawn
  drawn_spent e c = ground (arith, v.paid, v.schedule.deposit, v.schedule.fits, checked_add-pos p q)

  closed_value :
      (a : ℕ)
      → env.now ≤ u64_max
      → s.paused_at ≡ some a
      → close_pause env (ended_record s (p + q)) (some a)
        ≡ ok (closed_record s (p + q) (s.paused_total + (env.now - a)))
  unfolding close_pause
  closed_value a u e = ground (arith, v.counted, v.past)

  -- A withdrawal of no more than is earned never overflows.
  pub draw : env.now ≤ u64_max → Draw env s d p q
  unfolding close_pause
  draw u = elim (status_cases s.status) [
    | inl c ↦ stays (drawn_stays (inr c)) (inr c)
    | inr c ↦ elim (Bool-cases (ltb (p + q) d)) [
      | inl less ↦ stays (drawn_stays (inl (ground arith))) (inl (ground arith))
      | inr all ↦
          let whole : p + q ≡ d = ground (arith, earned-le s d env.now) in
          elim (Option-cases s.paused_at) [
            | inl e ↦ ends (drawn_spent whole c ∙ rw e refl) whole e c
            | inr (a, e) ↦ closes a (drawn_spent whole c ∙ rw e (closed_value a u e)) whole e c
          ]
    ]
  ]
