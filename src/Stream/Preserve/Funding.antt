-- ===== src/Stream/Preserve/Funding.antt =====
-- The records that `create_stream` and `top_up` of contracts/stream/src/lib.rs write.
use perpetua_contracts.Prelude.{
  ℕ, ◌+◌, ◌-◌, ◌*◌, ◌/◌, ◌≤◌, ◌<◌, ◌≡◌, ◌≢◌, ◌⊎◌, Bool, false, some, arith, refl, List, ◌∷◌,
}
use native.Mathlib.Nat.{le-mul_of_pos_right}
use perpetua_contracts.Prelude.Int.{ℤ, pos}
use perpetua_contracts.Prelude.Division.{mediant-le, share_lower}
use perpetua_contracts.Words.{u64_max}
use perpetua_contracts.I128.{i128_max, checked_mul-pos, checked_div-pos, checked_add-pos}
use perpetua_contracts.Stream.Error.{ok}
use perpetua_contracts.Stream.Types.{Address, Stream, is_terminal}
use perpetua_contracts.Stream.Accrual.{stream_time, duration, elapsed, cliff_reached}
use perpetua_contracts.Stream.Accrual.Vesting.{earned, earned-le}
use perpetua_contracts.Stream.Lifecycle.{extended_schedule, new_stream}
use perpetua_contracts.Stream.Host.{Env, World, Transfer, transfer_of}
use perpetua_contracts.Stream.Inversion.Funding.{refunded, Created}
use perpetua_contracts.Stream.Invariant.Books.{paid_in, paid_out}
use perpetua_contracts.Stream.Invariant.Sound.{Balanced}
use perpetua_contracts.Stream.Invariant.Valid.{IsValid}

-- The seconds that `a` buys at the rate of a stream that holds `d` for `k` seconds.
abbrev pub bought : ℕ → ℕ → ℕ → ℕ
bought d k a = a * k / d

-- What the guards of `top_up` on the numbers leave: the deposit grows by the amount, the end moves
-- by the seconds that it buys, at least one, and every bound holds again.
pub record Extended (s : Stream) (d a : ℕ) (figures : ℤ × ℕ) : Type 0 where
  pub deposit : figures.0 ≡ pos (d + a)
  pub end_moved : figures.1 ≡ s.end_time + bought d (s.end_time - s.start_time) a
  pub some_time : 0 < bought d (s.end_time - s.start_time) a
  pub fits : d + a ≤ i128_max
  pub scaled : (d + a) * (figures.1 - s.start_time) ≤ i128_max
  pub rate : figures.1 - s.start_time ≤ d + a
  pub in_range : figures.1 ≤ u64_max

pub extended_schedule_inv :
    (s : Stream) (d a : ℕ) (figures : ℤ × ℕ)
    → s.deposited ≡ pos d
    → 0 < d
    → s.start_time ≤ s.end_time
    → extended_schedule s (pos a) ≡ ok figures
    → Extended s d a figures
unfolding extended_schedule duration
extended_schedule_inv s d a figures e p o h =
    let k = s.end_time - s.start_time in
    let m1 = checked_mul-pos a k in
    let m2 = checked_div-pos (a * k) d p in
    let m3 = checked_add-pos d a in
    let m4 = checked_mul-pos (d + a) (s.end_time + bought d k a - s.start_time) in
    record {
      deposit = ground (arith, e, m1, m2, m3, m4);
      end_moved = ground (arith, e, m1, m2, m3, m4);
      some_time = ground (arith, e, m1, m2, m3, m4);
      fits = ground (arith, e, m1, m2, m3, m4);
      scaled = ground (arith, e, m1, m2, m3, m4);
      rate = ground (arith, e, m1, m2, m3, m4);
      in_range = ground (arith, e, m1, m2, m3, m4);
    }

module _ (s : Stream) (d a now : ℕ) (figures : ℤ × ℕ) (x : Extended s d a figures)
    (order : s.start_time ≤ s.end_time) (running : stream_time s now < s.end_time) where
  elapsed-refunded :
      (elapsed (refunded s figures) now ≡ elapsed s now)
      × (elapsed s now < duration s ⊎ (duration s ≡ 0))
      × (duration (refunded s figures) ≡ duration s + bought d (s.end_time - s.start_time) a)
  unfolding elapsed duration stream_time
  elapsed-refunded = (ground (arith, x.end_moved), ground arith, omega (arith, x.end_moved))

  -- I3 for a top-up: at the instant of the call nothing that is earned is lost.
  pub earned-refunded-le :
      s.start_time < s.end_time → earned s d now ≤ earned (refunded s figures) (d + a) now
  unfolding cliff_reached duration stream_time
  earned-refunded-le lasts =
      let k = s.end_time - s.start_time in
      ground (
        arith,
        elapsed-refunded,
        share_lower (a * k) d,
        mediant-le d a (elapsed s now) k (bought d k a),
      )

  pub refunded-IsValid :
      (self p : ℕ)
      → is_terminal s.status ≡ false
      → IsValid self now s d p
      → IsValid self now (refunded s figures) (d + a) p
  unfolding stream_time
  refunded-IsValid self p live v =
      let l = v.live live in
      record {
        schedule = record {
          deposit = x.deposit;
          fits = x.fits;
          ordered = omega (arith, x.end_moved);
          scaled = λ _. x.scaled;
        };
        paid = v.paid;
        backed = omega (arith, v.backed, earned-refunded-le l.lasts);
        parties = v.parties;
        foreign = v.foreign;
        coherent = v.coherent;
        past = v.past;
        counted = v.counted;
        live = λ _. record {
          lasts = omega (arith, x.end_moved, l.lasts);
          after_start = l.after_start;
          before_end = omega (arith, x.end_moved, l.before_end);
          rate = x.rate;
        };
        emptied = λ e. ground arith;
        settled = λ e. ground arith;
      }

pub refunded-Balanced :
    (self : Address) (s : Stream) (d a p now : ℕ) (figures : ℤ × ℕ) (ts : List Transfer)
    → Extended s d a figures
    → IsValid self now s d p
    → Balanced self ts
        (transfer_of s.token s.sender self (pos a) ∷ ts)
        (some s)
        (some (refunded s figures))
unfolding paid_in paid_out
refunded-Balanced self s d a p now figures ts x v token =
    ground (arith, x.deposit, v.schedule.deposit, v.paid, v.backed, earned-le s d now, v.foreign)

-- The record of `create_stream` is valid, for a sender that is not the contract itself.
pub new_stream-IsValid :
    (env : Env) (sender recipient token : Address) (deposit : ℤ) (a b c : ℕ) (f g h : Bool) (id : ℕ)
    (w w' : World)
    → sender ≢ env.self
    → (x : Created env sender recipient token deposit a b c f g h id w w')
    → IsValid env.self env.now (new_stream sender recipient token deposit a b c f g h) x.amount 0
new_stream-IsValid env sender recipient token deposit a b c f g h id w w' other x =
    let s = new_stream sender recipient token deposit a b c f g h in
    record {
      schedule = record {
        deposit = x.deposited;
        fits =
            omega (
              arith,
              x.scaled,
              le-mul_of_pos_right {m = b - a} x.amount (omega (arith, x.ordered)),
            );
        ordered = omega (arith, x.ordered);
        scaled = λ _. x.scaled;
      };
      paid = refl;
      backed = omega arith;
      parties = x.parties;
      foreign = other;
      coherent = refl;
      past = omega arith;
      counted = omega arith;
      live = λ _. record {
        lasts = x.ordered;
        after_start = x.after_start;
        before_end = x.before_end;
        rate = x.rate;
      };
      emptied = λ e. cc;
      settled = λ e. cc;
    }
