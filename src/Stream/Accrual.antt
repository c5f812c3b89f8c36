-- ===== src/Stream/Accrual.antt =====
-- contracts/stream/src/accrual.rs: the pure arithmetic of vesting.
pub mod WellFormed
pub mod Vesting
pub mod Invariants
pub mod Reads
use perpetua_contracts.Prelude.{
  ℕ, ◌+◌, ◌-◌, ◌≡◌, Bool, true, false, not, Option, none, some, ltb, leb, ◌==◌, if◌then◌else◌,
  get_or,
}
use perpetua_contracts.Prelude.Int.{ℤ, pos, ltb_ℤ}
use perpetua_contracts.I128.{checked_mul, checked_div, checked_sub}
use perpetua_contracts.Stream.Error.{Error, Result, ok, err, ◌>>=◌, ok_or}
use perpetua_contracts.Stream.Types.{Stream}

unfoldable pub stream_time : Stream → ℕ → ℕ
stream_time s now = get_or s.paused_at now - s.paused_total

unfoldable pub duration : Stream → ℕ
duration s = s.end_time - s.start_time

unfoldable pub elapsed : Stream → ℕ → ℕ
elapsed s now =
    let clock = stream_time s now in
    (if ltb s.end_time clock then s.end_time else clock) - s.start_time

unfoldable pub cliff_reached : Stream → ℕ → Bool
cliff_reached s now = leb s.cliff_time (stream_time s now)

-- The ratio between the cliff and maturity, with its overflow guards.
unfoldable pub pro_rata : ℤ → ℕ → ℕ → Result ℤ
pro_rata deposited consumed total_duration = do
  numerator ← ok_or (checked_mul deposited (pos consumed)) Error.overflow
  raw ← ok_or (checked_div numerator (pos total_duration)) Error.overflow
  ok (if ltb_ℤ deposited raw then deposited else raw)

unfoldable pub vested : Stream → ℕ → Result ℤ
vested s now =
    if not (cliff_reached s now)
    then ok (pos 0)
    else (let total_duration = duration s in
        if total_duration == 0
        then ok s.deposited
        else (let consumed = elapsed s now in
            if leb total_duration consumed
            then ok s.deposited
            else pro_rata s.deposited consumed total_duration))

unfoldable pub withdrawable : Stream → ℕ → Result ℤ
withdrawable s now = do
  earned ← vested s now
  available ← ok_or (checked_sub earned s.withdrawn) Error.overflow
  ok (if ltb_ℤ available (pos 0) then pos 0 else available)

unfoldable pub refundable : Stream → ℕ → Result ℤ
refundable s now = do earned ← vested s now; ok_or (checked_sub s.deposited earned) Error.overflow

unfoldable pub liability : Stream → Result ℤ
liability s = ok_or (checked_sub s.deposited s.withdrawn) Error.overflow
