-- ===== src/Stream/Contract/History.antt =====
-- The earlier and the later record of a stream of contracts/stream/src/types.rs.
use perpetua_contracts.Prelude.{
  ℕ, ◌+◌, ◌-◌, ◌≤◌, ◌≡◌, inl, inr, true, false, Option, some, List, arith, refl, ◌∙◌, subst, ◌==◌,
  Bool-cases,
}
use perpetua_contracts.Prelude.Int.{ℤ, pos}
use perpetua_contracts.Words.{u64_max}
use perpetua_contracts.Stream.Error.{ok}
use perpetua_contracts.Stream.Types.{Address, Stream, is_terminal}
use perpetua_contracts.Stream.Accrual.Vesting.{earned, earned-le}
use perpetua_contracts.Stream.Accrual.Invariants.{withdrawable_value}
use perpetua_contracts.Stream.Host.{Env, World, Transfer}
use perpetua_contracts.Stream.Lifecycle.{drawn, close_pause}
use perpetua_contracts.Stream.Effect.{Rewrites, Keeps}
use perpetua_contracts.Stream.Inversion.Payment.{pay_claim, pay_claim_inv}
use perpetua_contracts.Stream.Invariant.Valid.{IsValid}
use perpetua_contracts.Stream.Invariant.Sound.{IsSound}
use perpetua_contracts.Stream.Preserve.Payment.{chosen_payout_bounds}
use perpetua_contracts.Stream.Preserve.Payment.Drawn.{drawn-DrawnRecord}

-- The later record of a stream.
pub record Continues (s s' : Stream) : Type 0 where
  pub same_sender : s'.sender ≡ s.sender
  pub same_token : s'.token ≡ s.token
  pub same_start : s'.start_time ≡ s.start_time
  pub same_cliff : s'.cliff_time ≡ s.cliff_time
  pub same_flags : s'.flags ≡ s.flags
  -- What has been paid stays paid.
  pub paid : (p : ℕ) → s.withdrawn ≡ pos p → (q : ℕ) × (s'.withdrawn ≡ pos (p + q))
  -- A stream that has ended stays ended.
  pub ended : is_terminal s.status ≡ true → is_terminal s'.status ≡ true

-- Every stream that is stored stays stored, as the same stream.
abbrev pub Lasts : World → World → Type 0
Lasts w w' =
    (i : ℕ) (s : Stream)
    → w.streams i ≡ some s
    → (s' : Stream) × (w'.streams i ≡ some s') × Continues s s'

pub Continues-refl : (s : Stream) → Continues s s
Continues-refl s = record {
  same_sender = refl;
  same_token = refl;
  same_start = refl;
  same_cliff = refl;
  same_flags = refl;
  paid = λ p e. (0, ground arith);
  ended = λ e. e;
}

pub Continues-trans : (s s' s'' : Stream) → Continues s s' → Continues s' s'' → Continues s s''
Continues-trans s s' s'' a b = record {
  same_sender = b.same_sender ∙ a.same_sender;
  same_token = b.same_token ∙ a.same_token;
  same_start = b.same_start ∙ a.same_start;
  same_cliff = b.same_cliff ∙ a.same_cliff;
  same_flags = b.same_flags ∙ a.same_flags;
  paid = λ p e. let (q, f) = a.paid p e in let (r, g) = b.paid (p + q) f in (q + r, ground arith);
  ended = λ e. b.ended (a.ended e);
}

pub Lasts-trans : (w w' w'' : World) → Lasts w w' → Lasts w' w'' → Lasts w w''
Lasts-trans w w' w'' a b i s e =
    let (s', f, x) = a i s e in let (s'', g, y) = b i s' f in (s'', g, Continues-trans s s' s'' x y)

pub Keeps-Lasts : (w w' : World) → Keeps w w' → Lasts w w'
Keeps-Lasts w w' k i s e = (s, ground (arith, k.same_streams), Continues-refl s)

pub Rewrites-Lasts :
    (id : ℕ) (s s' : Stream) (ts : List Transfer) (w w' : World)
    → w.streams id ≡ some s
    → Rewrites id s' ts w w'
    → Continues s s'
    → Lasts w w'
Rewrites-Lasts id s s' ts w w' e r c i t f = elim (Bool-cases (i == id)) [
  | inl same ↦
      let is_t : s ≡ t = ground arith in
      (s', ground (arith, r.written), subst (λ x. Continues x s') is_t c)
  | inr other ↦ (t, ground (arith, r.written), Continues-refl t)
]

drawn_ended :
    (env : Env) (s s' : Stream) (payout : ℤ)
    → drawn env s payout ≡ ok s'
    → is_terminal s.status ≡ true
    → is_terminal s'.status ≡ true
unfolding drawn close_pause
drawn_ended env s s' payout h e = ground arith

-- A withdrawal continues the stream.
pub drawn-Continues :
    (env : Env) (s s' : Stream) (d p q : ℕ)
    → IsValid env.self env.now s d p
    → p + q ≤ earned s d env.now
    → env.now ≤ u64_max
    → drawn env s (pos q) ≡ ok s'
    → Continues s s'
drawn-Continues env s s' d p q x covered u r =
    let after = drawn-DrawnRecord env s s' d p q x covered u r in
    record {
      same_sender = after.same_sender;
      same_token = after.same_token;
      same_start = after.same_start;
      same_cliff = after.same_cliff;
      same_flags = after.same_flags;
      paid = λ p' e. (q, ground (arith, after.counted_out, x.paid));
      ended = drawn_ended env s s' (pos q) r;
    }

pub claim-Lasts :
    (env : Env) (id : ℕ) (s : Stream) (amount : Option ℤ) (payout : ℤ) (w w' : World)
    → env.now ≤ u64_max
    → IsSound env.self env.now w
    → w.streams id ≡ some s
    → pay_claim env id s amount w ≡ ok (payout, w')
    → Lasts w w'
claim-Lasts env id s amount payout w w' u v e h =
    let (d, p, x) = v.valid id s e in
    let (s', available, a, c, r, effect) = pay_claim_inv env id s amount payout w w' h in
    let value =
      withdrawable_value s d p env.now env.now (omega arith) x.schedule x.paid
        (omega (arith, x.backed, earned-le s d env.now)) in
    let there : available ≡ pos (earned s d env.now - p) = cc in
    let (q, is_q, some_paid, fits) =
      chosen_payout_bounds s (earned s d env.now - p) amount payout (rw there at c) in
    let covered : p + q ≤ earned s d env.now = omega (arith, x.backed) in
    Rewrites-Lasts id s s' _ w w' e effect
      (drawn-Continues env s s' d p q x covered u (rw is_q at r))

pub renamed-Continues : (s : Stream) (r : Address) → Continues s (record s { recipient = r })
renamed-Continues s r = record {
  same_sender = refl;
  same_token = refl;
  same_start = refl;
  same_cliff = refl;
  same_flags = refl;
  paid = λ p e. (0, ground arith);
  ended = λ e. e;
}

-- A change of a live stream's schedule, pause or status.
pub live-Continues :
    (s s' : Stream)
    → is_terminal s.status ≡ false
    → s'.sender ≡ s.sender
    → s'.token ≡ s.token
    → s'.start_time ≡ s.start_time
    → s'.cliff_time ≡ s.cliff_time
    → s'.flags ≡ s.flags
    → s'.withdrawn ≡ s.withdrawn
    → Continues s s'
live-Continues s s' live a b c d e f = record {
  same_sender = a;
  same_token = b;
  same_start = c;
  same_cliff = d;
  same_flags = e;
  paid = λ p g. (0, ground arith);
  ended = λ g. absurd (ground arith);
}
