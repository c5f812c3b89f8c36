-- ===== src/Stream/Guarantee/Withdrawal.antt =====
-- `withdraw` of contracts/stream/src/lib.rs, in a sound state.
use perpetua_contracts.Prelude.{
  ℕ, ◌+◌, ◌-◌, ◌≤◌, ◌<◌, ◌≡◌, true, some, none, Option, arith, List, ◌∷◌, sym, ◌∙◌, inl, inr,
}
use perpetua_contracts.Prelude.Int.{ℤ, pos}
use perpetua_contracts.Words.{u64_max}
use perpetua_contracts.Stream.Error.{ok, Result-cases}
use perpetua_contracts.Stream.Types.{Stream}
use perpetua_contracts.Stream.Accrual.{withdrawable}
use perpetua_contracts.Stream.Accrual.Vesting.{earned, earned-le}
use perpetua_contracts.Stream.Accrual.Invariants.{withdrawable_value}
use perpetua_contracts.Stream.Host.{
  Env, World, Payload, Transfer, transfer_of, TransferOutcome, token_transfer,
}
use perpetua_contracts.Stream.Storage.{extend_stream, load_stream, save_stream, extend_instance}
use perpetua_contracts.Stream.Lifecycle.{
  withdraw, drawn, chosen_payout, requested_payout, apply_withdrawal,
}
use perpetua_contracts.Stream.Events
use perpetua_contracts.Stream.Effect.{Rewrites}
use perpetua_contracts.Stream.Inversion.Payment.{pay_claim, pay_claim_inv, withdraw_inv}
use perpetua_contracts.Stream.Invariant.Valid.{IsValid, earned_cong}
use perpetua_contracts.Stream.Invariant.Sound.{IsSound}
use perpetua_contracts.Stream.Preserve.Calls.{touch-IsSound}
use perpetua_contracts.Stream.Preserve.Payment.{chosen_payout_bounds, Draw, draw}
use perpetua_contracts.Stream.Preserve.Payment.Drawn.{drawn-DrawnRecord}

-- What is withdrawable from a valid stream.
pub claim_value :
    (self t now : ℕ) (s : Stream) (d p : ℕ)
    → t ≤ now
    → IsValid self t s d p
    → withdrawable s now ≡ ok (pos (earned s d now - p))
claim_value self t now s d p h x =
    withdrawable_value s d p t now h x.schedule x.paid (omega (arith, x.backed, earned-le s d t))

-- A payment of `q` out of the `k` that are withdrawable.
pub record Paid (env : Env) (id q : ℕ) (w w' : World) : Type 0 where
  pub before : Stream
  pub after : Stream
  pub claim : ℕ
  pub paid : ℕ
  pub found : w.streams id ≡ some before
  pub withdrawable_before : withdrawable before env.now ≡ ok (pos claim)
  pub some_paid : 0 < q
  pub covered : q ≤ claim
  pub paid_before : before.withdrawn ≡ pos paid
  pub paid_after : after.withdrawn ≡ pos (paid + q)
  pub withdrawable_after : withdrawable after env.now ≡ ok (pos (claim - q))
  pub same_deposit : after.deposited ≡ before.deposited
  pub same_recipient : after.recipient ≡ before.recipient
  pub effect :
      Rewrites id after
        (transfer_of before.token env.self before.recipient (pos q) ∷ w.transfers)
        w
        w'

pub pay_claim-Paid :
    (env : Env) (id : ℕ) (s : Stream) (amount : Option ℤ) (payout : ℤ) (w w' : World)
    → env.now ≤ u64_max
    → IsSound env.self env.now w
    → w.streams id ≡ some s
    → pay_claim env id s amount w ≡ ok (payout, w')
    → (q : ℕ) × (payout ≡ pos q) × Paid env id q w w'
pay_claim-Paid env id s amount payout w w' u v e h =
    let (d, p, x) = v.valid id s e in
    let (s', available, a, c, r, effect) = pay_claim_inv env id s amount payout w w' h in
    let value = claim_value env.self env.now env.now s d p (omega arith) x in
    let there : available ≡ pos (earned s d env.now - p) = cc in
    let (q, is_q, some_paid, fits) =
      chosen_payout_bounds s (earned s d env.now - p) amount payout (rw there at c) in
    let covered : p + q ≤ earned s d env.now = omega (arith, x.backed) in
    let after = drawn-DrawnRecord env s s' d p q x covered u (rw is_q at r) in
    let same =
      earned_cong s s' d env.now after.same_clock after.same_start after.same_end
        after.same_cliff in
    let value' =
      claim_value env.self env.now env.now s' d (p + q) (omega arith) after.still_valid in
    let remains : earned s' d env.now - (p + q) ≡ earned s d env.now - p - q =
      omega (arith, same) in
    (
      q,
      is_q,
      record {
        before = s;
        after = s';
        claim = earned s d env.now - p;
        paid = p;
        found = e;
        withdrawable_before = value;
        some_paid = some_paid;
        covered = omega (arith, covered);
        paid_before = x.paid;
        paid_after = after.counted_out;
        withdrawable_after = rw remains at value';
        same_deposit = after.same_deposit ∙ sym x.schedule.deposit;
        same_recipient = after.same_recipient;
        effect = rw (is_q, after.same_token, after.same_recipient) at effect;
      },
    )

-- Reading a stream renews its life, and changes nothing else.
pub untouched :
    (env : Env) (id : ℕ) (s s' : Stream) (ts : List Transfer) (w w' : World)
    → Rewrites id s' ts (extend_stream env id s w) w'
    → Rewrites id s' ts w w'
unfolding extend_stream
untouched env id s s' ts w w' r = record {
  written = r.written;
  same_ids = r.same_ids;
  moved = r.moved;
  same_delegates = r.same_delegates;
}

untouched-Paid :
    (env : Env) (id q : ℕ) (s : Stream) (w w' : World)
    → Paid env id q (extend_stream env id s w) w'
    → Paid env id q w w'
unfolding extend_stream
untouched-Paid env id q s w w' x = record {
  before = x.before;
  after = x.after;
  claim = x.claim;
  paid = x.paid;
  found = x.found;
  withdrawable_before = x.withdrawable_before;
  some_paid = x.some_paid;
  covered = x.covered;
  paid_before = x.paid_before;
  paid_after = x.paid_after;
  withdrawable_after = x.withdrawable_after;
  same_deposit = x.same_deposit;
  same_recipient = x.same_recipient;
  effect = untouched env id s x.after _ w w' x.effect;
}

-- In a sound state a withdrawal that succeeds is one that the recipient authorized. It pays the
-- recipient, in one transfer from the contract, a positive amount that is no more than what was
-- withdrawable; the stream counts exactly that amount, what is withdrawable falls by exactly that
-- amount, and no other stream changes.
pub withdraw_pays :
    (env : Env) (id : ℕ) (amount : Option ℤ) (payout : ℤ) (w w' : World)
    → env.now ≤ u64_max
    → IsSound env.self env.now w
    → withdraw env id amount w ≡ ok (payout, w')
    → (s : Stream) × (q : ℕ) × (w.streams id ≡ some s)
      × (env.authorized s.recipient (Payload.withdraw_args id amount) ≡ true)
      × (payout ≡ pos q)
      × Paid env id q w w'
unfolding extend_stream
withdraw_pays env id amount payout w w' u v h =
    let (s, e, granted, h1) = withdraw_inv env id amount payout w w' h in
    let (q, is_q, x) =
      pay_claim-Paid env id s amount payout (extend_stream env id s w) w' u
        (touch-IsSound env id s w v) e h1 in
    (s, q, e, granted, is_q, untouched-Paid env id q s w w' x)

Draw-succeeds :
    {env : Env} {s : Stream} {d p q : ℕ}
    → Draw env s d p q
    → (s' : Stream) × (drawn env s (pos q) ≡ ok s')
Draw-succeeds (Draw.stays e _) = (_, e)
Draw-succeeds (Draw.ends e _ _ _) = (_, e)
Draw-succeeds (Draw.closes a e _ _ _) = (_, e)

withdraw_runs :
    (env : Env) (id k : ℕ) (s s' : Stream) (w : World)
    → w.streams id ≡ some s
    → env.authorized s.recipient (Payload.withdraw_args id none) ≡ true
    → withdrawable s env.now ≡ ok (pos k)
    → 0 < k
    → drawn env s (pos k) ≡ ok s'
    → env.try_transfer w.transfers (transfer_of s'.token env.self s'.recipient (pos k))
      ≡ TransferOutcome.done
    → (w' : World) × (withdraw env id none w ≡ ok (pos k, w'))
unfolding withdraw load_stream extend_stream chosen_payout requested_payout apply_withdrawal
    save_stream token_transfer extend_instance Events.withdrawn
withdraw_runs env id k s s' w e granted c some_due r accepted =
    elim (Result-cases (withdraw env id none w)) [
      | inl ((payout, w'), done) ↦ (w', ground arith)
      | inr failed ↦ absurd (ground arith)
    ]

-- A withdrawal of all that is due cannot fail: if the stream is valid, something is withdrawable,
-- the recipient authorizes the call and the token accepts the transfer, then `withdraw` with no
-- amount returns exactly what is withdrawable.
pub withdraw_all_succeeds :
    (env : Env) (id k : ℕ) (s : Stream) (w : World)
    → env.now ≤ u64_max
    → IsSound env.self env.now w
    → w.streams id ≡ some s
    → env.authorized s.recipient (Payload.withdraw_args id none) ≡ true
    → withdrawable s env.now ≡ ok (pos k)
    → 0 < k
    → env.try_transfer w.transfers (transfer_of s.token env.self s.recipient (pos k))
      ≡ TransferOutcome.done
    → (w' : World) × (withdraw env id none w ≡ ok (pos k, w'))
withdraw_all_succeeds env id k s w u v e granted c some_due accepted =
    let (d, p, x) = v.valid id s e in
    let value = claim_value env.self env.now env.now s d p (omega arith) x in
    let is_k : k ≡ earned s d env.now - p = ground arith in
    let covered : p + k ≤ earned s d env.now = omega (arith, x.backed) in
    let (s', r) = Draw-succeeds (draw env s d p k x covered u) in
    let after = drawn-DrawnRecord env s s' d p k x covered u r in
    withdraw_runs env id k s s' w e granted c some_due r
      (rw (after.same_token, after.same_recipient) accepted)
