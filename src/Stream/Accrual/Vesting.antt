-- ===== src/Stream/Accrual/Vesting.antt =====
-- The value of `vested` of contracts/stream/src/accrual.rs, without its overflow guards.
use perpetua_contracts.Prelude.{
  ℕ, ◌-◌, ◌*◌, ◌/◌, ◌≤◌, ◌<◌, ◌≡◌, true, not, arith, leb, if◌then◌else◌,
}
use perpetua_contracts.Prelude.Int.{pos}
use native.Mathlib.Nat.{mul-le-mul_left}
use perpetua_contracts.Prelude.Division.{share-le, div_mono}
use perpetua_contracts.I128.{i128_max, checked_mul-pos, checked_div-pos}
use perpetua_contracts.Stream.Error.{ok}
use perpetua_contracts.Stream.Types.{Stream}
use perpetua_contracts.Stream.Accrual.{
  stream_time, duration, elapsed, cliff_reached, pro_rata, vested,
}
use perpetua_contracts.Stream.Accrual.WellFormed.{IsScheduled, stream_time_mono}

-- The schedule's answer as a number: what a stream with `d` has earned.
abbrev pub earned : Stream → ℕ → ℕ → ℕ
earned s d now =
    if not (cliff_reached s now)
    then 0
    else if leb (duration s) (elapsed s now)
    then d
    else d * elapsed s now / duration s

pro_rata_value :
    (d e k : ℕ) → e < k → d * k ≤ i128_max → pro_rata (pos d) e k ≡ ok (pos (d * e / k))
unfolding pro_rata
pro_rata_value d e k h fits =
    let le = mul-le-mul_left {m = e} {n = k} d (omega arith) in
    ground (arith, checked_mul-pos d e, checked_div-pos (d * e) k, share-le d e k, le)

pub elapsed-le-duration : (s : Stream) (now : ℕ) → elapsed s now ≤ duration s
unfolding elapsed duration
elapsed-le-duration s now = ground arith

elapsed_mono : (s : Stream) (t u : ℕ) → t ≤ u → elapsed s t ≤ elapsed s u
unfolding elapsed stream_time
elapsed_mono s t u h = ground arith

-- On a well formed stream the checked arithmetic never overflows: the result is the schedule's.
pub vested_value :
    (s : Stream) (d t now : ℕ)
    → t ≤ now
    → IsScheduled s d t
    → vested s now ≡ ok (pos (earned s d now))
unfolding vested duration elapsed
vested_value s d t now h v = ground (
  arith,
  v.deposit,
  v.scaled,
  stream_time_mono s t now h,
  pro_rata_value d (elapsed s now) (s.end_time - s.start_time),
)

pub earned-le : (s : Stream) (d now : ℕ) → earned s d now ≤ d
earned-le s d now =
    ground (arith, share-le d (elapsed s now) (duration s), elapsed-le-duration s now)

cliff_reached_mono :
    (s : Stream) (t u : ℕ) → t ≤ u → cliff_reached s t ≡ true → cliff_reached s u ≡ true
unfolding cliff_reached stream_time
cliff_reached_mono s t u h = ground arith

pub earned_mono : (s : Stream) (d t u : ℕ) → t ≤ u → earned s d t ≤ earned s d u
earned_mono s d t u h = ground (
  arith,
  cliff_reached_mono s t u,
  elapsed_mono s t u h,
  elapsed-le-duration s u,
  share-le d (elapsed s t) (duration s),
  mul-le-mul_left {m = elapsed s t} {n = elapsed s u} d,
  div_mono (d * elapsed s t) (d * elapsed s u) (duration s),
)
