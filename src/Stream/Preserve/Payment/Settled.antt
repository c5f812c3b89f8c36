-- ===== src/Stream/Preserve/Payment/Settled.antt =====
-- The record that `cancel` of contracts/stream/src/lib.rs writes.
use perpetua_contracts.Prelude.{
  ℕ, ◌-◌, ◌*◌, ◌≤◌, ◌<◌, ◌≡◌, some, false, arith, refl, larger, get_or, List,
}
use native.Mathlib.Nat.{mul-zero}
use perpetua_contracts.Prelude.Int.{pos}
use perpetua_contracts.I128.{i128_max}
use perpetua_contracts.Stream.Host.{Env, Transfer}
use perpetua_contracts.Stream.Inversion.Payment.{refund_log}
use perpetua_contracts.Stream.Invariant.Books.{paid_in, paid_out}
use perpetua_contracts.Stream.Invariant.Sound.{Balanced}
use perpetua_contracts.Stream.Types.{Stream, is_terminal}
use perpetua_contracts.Stream.Accrual.{stream_time, duration, elapsed, cliff_reached}
use perpetua_contracts.Stream.Accrual.Vesting.{earned, earned-le}
use perpetua_contracts.Stream.Lifecycle.{settled}
use perpetua_contracts.Stream.Invariant.Valid.{IsValid}

-- The record after a cancellation at `now` of a stream that holds `d`.
abbrev pub settled_record : Stream → ℕ → ℕ → Stream
settled_record s d now = settled s (pos (earned s d now)) (larger (stream_time s now) s.start_time)

-- The clock of a cancelled stream runs on, from no earlier than where it stood.
pub clock-settled-le :
    (s : Stream) (d now : ℕ)
    → get_or s.paused_at 0 ≤ now
    → stream_time s now ≤ stream_time (settled_record s d now) now
unfolding stream_time
clock-settled-le s d now h = ground arith

-- Everything that is left in a cancelled stream is vested.
pub earned-settled :
    (s : Stream) (d now : ℕ)
    → get_or s.paused_at 0 ≤ now
    → s.start_time ≤ s.cliff_time
    → earned (settled_record s d now) (earned s d now) now ≡ earned s d now
unfolding cliff_reached duration elapsed
earned-settled s d now h c = ground (arith, clock-settled-le s d now h)

-- While the new schedule has not been reached it has no length.
settled_scaled :
    (s : Stream) (d now : ℕ)
    → get_or s.paused_at 0 ≤ now
    → stream_time (settled_record s d now) now < larger (stream_time s now) s.start_time
    → earned s d now * (larger (stream_time s now) s.start_time - s.start_time) ≤ i128_max
settled_scaled s d now h k =
    let none_left : larger (stream_time s now) s.start_time - s.start_time ≡ 0 =
      ground (arith, clock-settled-le s d now h) in
    rw none_left (rw mul-zero (omega arith))

pub settled-IsValid :
    (self now : ℕ) (s : Stream) (d p : ℕ)
    → is_terminal s.status ≡ false
    → IsValid self now s d p
    → IsValid self now (settled_record s d now) (earned s d now) p
settled-IsValid self now s d p a v =
    let same = earned-settled s d now v.past ((v.live a).after_start) in
    record {
      schedule = record {
        deposit = refl;
        fits = omega (arith, v.schedule.fits, earned-le s d now);
        ordered = ground arith;
        scaled = settled_scaled s d now v.past;
      };
      paid = v.paid;
      backed = omega (arith, v.backed, same);
      parties = v.parties;
      foreign = v.foreign;
      coherent = refl;
      past = omega arith;
      counted = ground (arith, v.counted, v.past);
      live = λ b. cc;
      emptied = λ b. cc;
      settled = λ b. same;
    }

pub settled-Balanced :
    (env : Env) (s : Stream) (d p : ℕ) (ts : List Transfer)
    → IsValid env.self env.now s d p
    → Balanced env.self ts
        (refund_log env s (pos (d - earned s d env.now)) ts)
        (some s)
        (some (settled_record s d env.now))
unfolding paid_in paid_out
settled-Balanced env s d p ts v token =
    ground (arith, v.schedule.deposit, v.paid, v.backed, v.foreign, earned-le s d env.now)
