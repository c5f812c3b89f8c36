-- ===== src/Stream/Invariant/Valid.antt =====
-- The invariant of one stored stream of contracts/stream/src/types.rs at an instant.
use perpetua_contracts.Prelude.{ℕ, ◌-◌, ◌≤◌, ◌<◌, ◌≡◌, ◌≢◌, false, is_some, get_or, arith, refl}
use perpetua_contracts.Prelude.Int.{pos}
use perpetua_contracts.Stream.Types.{Address, Stream, StreamStatus, is_terminal}
use perpetua_contracts.Stream.Lifecycle.{status_eq}
use perpetua_contracts.Stream.Accrual.{stream_time, duration, elapsed, cliff_reached}
use perpetua_contracts.Stream.Accrual.WellFormed.{IsScheduled, stream_time_mono}
use perpetua_contracts.Stream.Accrual.Vesting.{earned, earned-le, earned_mono}

-- What holds of a live stream: its schedule has a length and a cliff inside it, and pays at least
-- one unit a second.
pub record IsLive (s : Stream) (d : ℕ) : Type 0 where
  pub lasts : s.start_time < s.end_time
  pub after_start : s.start_time ≤ s.cliff_time
  pub before_end : s.cliff_time ≤ s.end_time
  pub rate : s.end_time - s.start_time ≤ d

-- At the instant `t` the stream holds a deposit `d` of which `p` is paid out.
pub record IsValid (self : Address) (t : ℕ) (s : Stream) (d p : ℕ) : Type 0 where
  pub schedule : IsScheduled s d t
  pub paid : s.withdrawn ≡ pos p
  -- I1: no more is paid than is vested.
  pub backed : p ≤ earned s d t
  pub parties : s.sender ≢ s.recipient
  pub foreign : s.sender ≢ self
  -- I5: a stream has a pause in progress if and only if it is paused.
  pub coherent : is_some s.paused_at ≡ status_eq s.status StreamStatus.paused
  pub past : get_or s.paused_at 0 ≤ t
  -- The pauses so far are not longer than the time so far.
  pub counted : s.paused_total ≤ get_or s.paused_at t
  pub live : is_terminal s.status ≡ false → IsLive s d
  pub emptied : s.status ≡ StreamStatus.depleted → p ≡ d
  pub settled : s.status ≡ StreamStatus.cancelled → earned s d t ≡ d

pub advance-IsValid :
    (self t u : ℕ) (s : Stream) (d p : ℕ) → t ≤ u → IsValid self t s d p → IsValid self u s d p
advance-IsValid self t u s d p h v = record {
  schedule = record {
    deposit = v.schedule.deposit;
    fits = v.schedule.fits;
    ordered = v.schedule.ordered;
    scaled = λ b. v.schedule.scaled (omega (arith, stream_time_mono s t u h));
  };
  paid = v.paid;
  backed = omega (arith, v.backed, earned_mono s d t u h);
  parties = v.parties;
  foreign = v.foreign;
  coherent = v.coherent;
  past = omega (arith, v.past);
  counted = ground (arith, v.counted);
  live = v.live;
  emptied = v.emptied;
  settled = λ e. omega (arith, v.settled e, earned_mono s d t u h, earned-le s d u);
}

-- What is earned depends on the clock and the schedule alone.
pub earned_cong :
    (s s' : Stream) (d t : ℕ)
    → stream_time s' t ≡ stream_time s t
    → s'.start_time ≡ s.start_time
    → s'.end_time ≡ s.end_time
    → s'.cliff_time ≡ s.cliff_time
    → earned s' d t ≡ earned s d t
unfolding cliff_reached duration elapsed
earned_cong s s' d t a b c e = rw (a, b, c, e) refl

pub schedule_cong :
    (s s' : Stream) (d t : ℕ)
    → stream_time s' t ≡ stream_time s t
    → s'.deposited ≡ s.deposited
    → s'.start_time ≡ s.start_time
    → s'.end_time ≡ s.end_time
    → IsScheduled s d t
    → IsScheduled s' d t
schedule_cong s s' d t clock a b c v = record {
  deposit = rw a v.deposit;
  fits = v.fits;
  ordered = rw (b, c) v.ordered;
  scaled = rw (clock, b, c) v.scaled;
}
