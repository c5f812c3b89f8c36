-- ===== src/Stream/Preserve/Pausing.antt =====
-- The records that `pause`, `resume` and `transfer_recipient` of contracts/stream/src/lib.rs write.
use perpetua_contracts.Prelude.{
  ℕ, ◌+◌, ◌-◌, ◌≤◌, ◌≡◌, ◌≢◌, false, some, none, arith, refl, sym, true,
}
use perpetua_contracts.Stream.Types.{Address, Stream, StreamStatus, is_terminal}
use perpetua_contracts.Stream.Lifecycle.{status_eq}
use perpetua_contracts.Stream.Accrual.{stream_time}
use perpetua_contracts.Stream.Accrual.Vesting.{earned}
use perpetua_contracts.Stream.Pausing.{frozen, thawed}
use perpetua_contracts.Stream.Invariant.Valid.{IsValid, earned_cong, schedule_cong}

clock_frozen :
    (s : Stream) (now : ℕ) → s.paused_at ≡ none → stream_time (frozen s now) now ≡ stream_time s now
unfolding stream_time
clock_frozen s now e = ground arith

clock_thawed :
    (s : Stream) (p now : ℕ)
    → s.paused_at ≡ some p
    → p ≤ now
    → stream_time (thawed s (s.paused_total + (now - p))) now ≡ stream_time s now
unfolding stream_time
clock_thawed s p now e h = ground arith

-- At the instant of the pause the frozen clock shows what the running one did.
pub earned-frozen :
    (s : Stream) (d now : ℕ) → s.paused_at ≡ none → earned (frozen s now) d now ≡ earned s d now
earned-frozen s d now e = earned_cong s (frozen s now) d now (clock_frozen s now e) refl refl refl

-- After a pause the clock goes on from where it stopped.
pub earned-thawed :
    (s : Stream) (d p now : ℕ)
    → s.paused_at ≡ some p
    → p ≤ now
    → earned (thawed s (s.paused_total + (now - p))) d now ≡ earned s d now
earned-thawed s d p now e h =
    earned_cong s (thawed s (s.paused_total + (now - p))) d now (clock_thawed s p now e h) refl refl
      refl

module _ (self now : ℕ) (s : Stream) (d q : ℕ) (v : IsValid self now s d q) where
  pub frozen-IsValid :
      is_terminal s.status ≡ false → s.paused_at ≡ none → IsValid self now (frozen s now) d q
  frozen-IsValid a e = record {
    schedule =
        schedule_cong s (frozen s now) d now (clock_frozen s now e) refl refl refl v.schedule;
    paid = v.paid;
    backed = omega (arith, v.backed, earned-frozen s d now e);
    parties = v.parties;
    foreign = v.foreign;
    coherent = refl;
    past = omega arith;
    counted = ground (arith, v.counted);
    live = λ _. assumption (v.live a);
    emptied = λ b. cc;
    settled = λ b. cc;
  }

  pub thawed-IsValid :
      (p : ℕ)
      → s.paused_at ≡ some p
      → status_eq s.status StreamStatus.paused ≡ true
      → IsValid self now (thawed s (s.paused_total + (now - p))) d q
  thawed-IsValid p e a =
      let same = earned-thawed s d p now e (ground (arith, v.past)) in
      record {
        schedule =
            schedule_cong s (thawed s (s.paused_total + (now - p))) d now
              (clock_thawed s p now e (ground (arith, v.past))) refl refl refl v.schedule;
        paid = v.paid;
        backed = omega (arith, v.backed, same);
        parties = v.parties;
        foreign = v.foreign;
        coherent = refl;
        past = omega arith;
        counted = ground (arith, v.counted, v.past);
        live = λ _. assumption (v.live (ground arith));
        emptied = λ b. cc;
        settled = λ b. cc;
      }

  pub transferred-IsValid :
      (r : Address) → r ≢ s.sender → IsValid self now (record s { recipient = r }) d q
  unfolding stream_time
  transferred-IsValid r h = record {
    schedule = schedule_cong s (record s { recipient = r }) d now refl refl refl refl v.schedule;
    paid = v.paid;
    backed = rw (earned_cong s (record s { recipient = r }) d now refl refl refl refl) v.backed;
    parties = λ e. h (sym e);
    foreign = v.foreign;
    coherent = v.coherent;
    past = v.past;
    counted = v.counted;
    live = λ a. assumption (v.live a);
    emptied = v.emptied;
    settled = λ a.
        rw (earned_cong s (record s { recipient = r }) d now refl refl refl refl) (v.settled a);
  }
