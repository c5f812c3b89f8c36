-- ===== src/Stream/Preserve/Payment/Drawn.antt =====
-- The record that `apply_withdrawal` of contracts/stream/src/lib.rs writes.
use perpetua_contracts.Prelude.{
  ℕ, ◌+◌, ◌-◌, ◌≤◌, ◌<◌, ◌≡◌, ◌⊎◌, some, none, arith, refl, List, ◌∷◌, ◌∙◌, subst,
}
use perpetua_contracts.Prelude.Int.{pos}
use perpetua_contracts.Words.{u64_max}
use perpetua_contracts.Stream.Error.{ok}
use perpetua_contracts.Stream.Types.{Stream, StreamStatus}
use perpetua_contracts.Stream.Accrual.{stream_time}
use perpetua_contracts.Stream.Accrual.Vesting.{earned, earned-le}
use perpetua_contracts.Stream.Host.{Env, Transfer, transfer_of}
use perpetua_contracts.Stream.Lifecycle.{drawn}
use perpetua_contracts.Stream.Invariant.Valid.{IsValid, earned_cong, schedule_cong}
use perpetua_contracts.Stream.Invariant.Books.{paid_in, paid_out}
use perpetua_contracts.Stream.Invariant.Sound.{Balanced}
use perpetua_contracts.Stream.Preserve.Payment.{
  Draw, stays, ends, closes, draw, paid_record, ended_record, closed_record,
}

clock_closed :
    (s : Stream) (r a now : ℕ)
    → s.paused_at ≡ some a
    → a ≤ now
    → stream_time (closed_record s r (s.paused_total + (now - a))) now ≡ stream_time s now
unfolding stream_time
clock_closed s r a now e h = ground arith

module _ (self now : ℕ) (s : Stream) (d p q : ℕ) (v : IsValid self now s d p)
    (h : p + q ≤ earned s d now) where
  paid-IsValid :
      (p + q < d) ⊎ (s.status ≡ StreamStatus.cancelled)
      → IsValid self now (paid_record s (p + q)) d (p + q)
  unfolding stream_time
  paid-IsValid c =
      let same = earned_cong s (paid_record s (p + q)) d now refl refl refl refl in
      record {
        schedule = schedule_cong s (paid_record s (p + q)) d now refl refl refl refl v.schedule;
        paid = refl;
        backed = omega (arith, same);
        parties = v.parties;
        foreign = v.foreign;
        coherent = v.coherent;
        past = v.past;
        counted = v.counted;
        live = λ a. assumption (v.live a);
        emptied = λ e. ground (arith, c, v.emptied e);
        settled = λ e. same ∙ v.settled e;
      }

  ended-IsValid :
      p + q ≡ d → s.paused_at ≡ none → IsValid self now (ended_record s (p + q)) d (p + q)
  unfolding stream_time
  ended-IsValid whole e =
      let same = earned_cong s (ended_record s (p + q)) d now refl refl refl refl in
      record {
        schedule = schedule_cong s (ended_record s (p + q)) d now refl refl refl refl v.schedule;
        paid = refl;
        backed = omega (arith, same);
        parties = v.parties;
        foreign = v.foreign;
        coherent = rw e refl;
        past = v.past;
        counted = v.counted;
        live = λ a. cc;
        emptied = λ a. whole;
        settled = λ a. cc;
      }

  closed-IsValid :
      (a : ℕ)
      → p + q ≡ d
      → s.paused_at ≡ some a
      → IsValid self now (closed_record s (p + q) (s.paused_total + (now - a))) d (p + q)
  closed-IsValid a whole e =
      let s' = closed_record s (p + q) (s.paused_total + (now - a)) in
      let clock = clock_closed s (p + q) a now e (ground (arith, v.past)) in
      let same = earned_cong s s' d now clock refl refl refl in
      record {
        schedule = schedule_cong s s' d now clock refl refl refl v.schedule;
        paid = refl;
        backed = omega (arith, same);
        parties = v.parties;
        foreign = v.foreign;
        coherent = refl;
        past = omega arith;
        counted = ground (arith, v.counted, v.past);
        live = λ b. cc;
        emptied = λ b. whole;
        settled = λ b. cc;
      }

-- What a withdrawal of `q` makes of a valid stream.
pub record DrawnRecord (self now : ℕ) (s s' : Stream) (d p q : ℕ) : Type 0 where
  pub still_valid : IsValid self now s' d (p + q)
  pub same_token : s'.token ≡ s.token
  pub same_recipient : s'.recipient ≡ s.recipient
  pub same_sender : s'.sender ≡ s.sender
  pub same_flags : s'.flags ≡ s.flags
  pub same_start : s'.start_time ≡ s.start_time
  pub same_end : s'.end_time ≡ s.end_time
  pub same_cliff : s'.cliff_time ≡ s.cliff_time
  pub same_deposit : s'.deposited ≡ pos d
  pub same_clock : stream_time s' now ≡ stream_time s now
  pub counted_out : s'.withdrawn ≡ pos (p + q)

module _ (env : Env) (s s' : Stream) (d p q : ℕ) (v : IsValid env.self env.now s d p)
    (h : p + q ≤ earned s d env.now) (u : env.now ≤ u64_max) where
  drawn_record :
      Draw env s d p q → drawn env s (pos q) ≡ ok s' → DrawnRecord env.self env.now s s' d p q
  unfolding stream_time
  drawn_record (stays e c) r =
      let same : paid_record s (p + q) ≡ s' = cc in
      subst (λ x. DrawnRecord env.self env.now s x d p q) same
        (record {
          still_valid = paid-IsValid env.self env.now s d p q v h c;
          same_token = refl;
          same_recipient = refl;
          same_sender = refl;
          same_flags = refl;
          same_start = refl;
          same_end = refl;
          same_cliff = refl;
          same_deposit = v.schedule.deposit;
          same_clock = refl;
          counted_out = refl;
        })
  drawn_record (ends e whole n c) r =
      let same : ended_record s (p + q) ≡ s' = cc in
      subst (λ x. DrawnRecord env.self env.now s x d p q) same
        (record {
          still_valid = ended-IsValid env.self env.now s d p q v h whole n;
          same_token = refl;
          same_recipient = refl;
          same_sender = refl;
          same_flags = refl;
          same_start = refl;
          same_end = refl;
          same_cliff = refl;
          same_deposit = v.schedule.deposit;
          same_clock = refl;
          counted_out = refl;
        })
  drawn_record (closes a e whole n c) r =
      let same : closed_record s (p + q) (s.paused_total + (env.now - a)) ≡ s' = cc in
      subst (λ x. DrawnRecord env.self env.now s x d p q) same
        (record {
          still_valid = closed-IsValid env.self env.now s d p q v h a whole n;
          same_token = refl;
          same_recipient = refl;
          same_sender = refl;
          same_flags = refl;
          same_start = refl;
          same_end = refl;
          same_cliff = refl;
          same_deposit = v.schedule.deposit;
          same_clock = clock_closed s (p + q) a env.now n (ground (arith, v.past));
          counted_out = refl;
        })

  -- Whatever `drawn` returns is such a record.
  pub drawn-DrawnRecord : drawn env s (pos q) ≡ ok s' → DrawnRecord env.self env.now s s' d p q
  drawn-DrawnRecord r = drawn_record (draw env s d p q v h u) r

  pub drawn-Balanced :
      (ts : List Transfer)
      → DrawnRecord env.self env.now s s' d p q
      → Balanced env.self ts
          (transfer_of s'.token env.self s'.recipient (pos q) ∷ ts)
          (some s)
          (some s')
  unfolding paid_in paid_out
  drawn-Balanced ts r token = ground (
    arith,
    r.same_token,
    r.same_deposit,
    r.counted_out,
    v.schedule.deposit,
    v.paid,
    earned-le s d env.now,
  )
