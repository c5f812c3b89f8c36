-- ===== src/Stream/Accrual/Invariants.antt =====
-- The invariants that contracts/stream/src/accrual.rs states of its arithmetic.
use perpetua_contracts.Prelude.{ℕ, ◌+◌, ◌-◌, ◌*◌, ◌≤◌, ◌<◌, ◌≡◌, true, some, arith, refl}
use perpetua_contracts.Prelude.Int.{ℤ, pos, ltb_ℤ, ◌-ℤ◌}
use perpetua_contracts.Prelude.Division.{share_lower, share_upper}
use perpetua_contracts.I128.{i128_max, checked_sub, checked_sub-pos}
use perpetua_contracts.Stream.Error.{ok}
use perpetua_contracts.Stream.Types.{Stream}
use perpetua_contracts.Stream.Accrual.{
  stream_time, duration, elapsed, cliff_reached, vested, withdrawable, refundable,
}
use perpetua_contracts.Stream.Accrual.WellFormed.{IsScheduled}
use perpetua_contracts.Stream.Accrual.Vesting.{earned, vested_value, earned-le, earned_mono}

module _ (s : Stream) (d since : ℕ) (v : IsScheduled s d since) where
  pub refundable_value : (now : ℕ) → since ≤ now → refundable s now ≡ ok (pos (d - earned s d now))
  unfolding refundable
  refundable_value now h = ground (
    arith,
    v.deposit,
    v.fits,
    vested_value s d since now h v,
    earned-le s d now,
    checked_sub-pos d (earned s d now),
  )

  -- I1 and I2, of a stream that holds a deposit of at most the largest `i128`, with a start that is
  -- not after its end, and whose deposit times its duration fits in an `i128` if it still runs at the
  -- instant `since`: from that instant on accrual does not overflow, never exceeds the deposit and
  -- never falls as time passes.
  pub vested_monotone :
      (t u : ℕ)
      → since ≤ t
      → t ≤ u
      → (a b : ℕ) × (vested s t ≡ ok (pos a)) × (vested s u ≡ ok (pos b)) × (a ≤ b) × (b ≤ d)
  vested_monotone t u h k = (
    earned s d t,
    earned s d u,
    vested_value s d since t h v,
    vested_value s d since u (omega arith) v,
    earned_mono s d t u k,
    earned-le s d u,
  )

  -- I4: at every instant the vested and the refundable amounts are defined, and add up to the deposit.
  pub vested-refundable_conserve :
      (now : ℕ)
      → since ≤ now
      → (a b : ℕ) × (vested s now ≡ ok (pos a))
        × (refundable s now ≡ ok (pos b))
        × (s.deposited ≡ pos (a + b))
  vested-refundable_conserve now h = (
    earned s d now,
    d - earned s d now,
    vested_value s d since now h v,
    refundable_value now h,
    ground (arith, v.deposit, earned-le s d now),
  )

  -- I6: from the end of the schedule on everything is vested and nothing is refundable.
  pub matured_leaves_no_dust :
      (now : ℕ)
      → since ≤ now
      → s.cliff_time ≤ s.end_time
      → s.end_time ≤ stream_time s now
      → (vested s now ≡ ok s.deposited) × (refundable s now ≡ ok (pos 0))
  unfolding cliff_reached duration elapsed
  matured_leaves_no_dust now h c e = (
    ground (arith, v.deposit, vested_value s d since now h v),
    ground (arith, refundable_value now h),
  )

  -- Between the cliff and the end the vested amount is the exact share rounded down: one unit more
  -- would exceed `deposited * elapsed / duration`.
  pub vested_rounds_down :
      (now : ℕ)
      → since ≤ now
      → cliff_reached s now ≡ true
      → elapsed s now < duration s
      → (a : ℕ) × (vested s now ≡ ok (pos a))
        × (a * duration s ≤ d * elapsed s now)
        × (d * elapsed s now < (a + 1) * duration s)
  vested_rounds_down now h c e = (
    earned s d now,
    vested_value s d since now h v,
    ground (arith, share_lower (d * elapsed s now) (duration s)),
    ground (arith, share_upper (d * elapsed s now) (duration s)),
  )

checked_sub_clamp :
    (a b : ℕ)
    → a ≤ i128_max
    → b ≤ i128_max
    → (z : ℤ) × (checked_sub (pos a) (pos b) ≡ some z)
      × ((a ≤ b) → ltb_ℤ z (pos 1) ≡ true)
      × ((b ≤ a) → z ≡ pos (a - b))
unfolding checked_sub ◌-ℤ◌
checked_sub_clamp a b h k = (pos a -ℤ pos b, ground arith, ground arith, ground arith)

pub withdrawable_value :
    (s : Stream) (d w t now : ℕ)
    → t ≤ now
    → IsScheduled s d t
    → s.withdrawn ≡ pos w
    → w ≤ d
    → withdrawable s now ≡ ok (pos (earned s d now - w))
unfolding withdrawable
withdrawable_value s d w t now h v e k = ground (
  arith,
  e,
  vested_value s d t now h v,
  earned-le s d now,
  v.fits,
  checked_sub_clamp (earned s d now) w,
)

-- While a stream is paused its clock stands still: what is vested does not depend on the time.
pub paused_accrues_nothing :
    (s : Stream) (p : ℕ) → s.paused_at ≡ some p → (t u : ℕ) → vested s t ≡ vested s u
unfolding vested cliff_reached elapsed stream_time
paused_accrues_nothing s p e t u = rw e refl
