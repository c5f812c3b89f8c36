-- ===== src/Stream/Accrual/WellFormed.antt =====
-- What contracts/stream/src/accrual.rs relies on: the schedule of a stored stream.
use perpetua_contracts.Prelude.{ℕ, ◌-◌, ◌*◌, ◌≤◌, ◌<◌, ◌≡◌, arith}
use perpetua_contracts.Prelude.Int.{pos}
use perpetua_contracts.I128.{i128_max}
use perpetua_contracts.Stream.Accrual.{stream_time}
use perpetua_contracts.Stream.Types.{Stream}

-- The schedule of a stream that holds `d`, from the instant `t` on: it does not end before it
-- starts, and while it runs every share of `d` that it computes fits. A stream that is cancelled
-- after its end gets a longer schedule, whose shares are no more computed.
pub record IsScheduled (s : Stream) (d t : ℕ) : Type 0 where
  pub deposit : s.deposited ≡ pos d
  pub fits : d ≤ i128_max
  pub ordered : s.start_time ≤ s.end_time
  pub scaled : stream_time s t < s.end_time → d * (s.end_time - s.start_time) ≤ i128_max

pub stream_time_mono : (s : Stream) (t u : ℕ) → t ≤ u → stream_time s t ≤ stream_time s u
unfolding stream_time
stream_time_mono s t u h = ground arith
