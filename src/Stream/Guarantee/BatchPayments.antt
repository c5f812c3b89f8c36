-- ===== src/Stream/Guarantee/BatchPayments.antt =====
-- `batch_withdraw` of contracts/stream/src/lib.rs, in a sound state.
use perpetua_contracts.Prelude.{
  ℕ, ◌+◌, ◌-◌, ◌≡◌, inl, inr, true, some, List, [], ◌∷◌, arith, refl, ⊤, if◌then◌else◌, ap,
  Bool-cases, ◌∙◌,
}
use perpetua_contracts.Prelude.Int.{ℤ, pos, eq_ℤ, pos_part}
use perpetua_contracts.I128.{checked_add-pos}
use perpetua_contracts.Stream.Error.{ok, >>=-eq-ok}
use perpetua_contracts.Stream.Types.{Address, Stream}
use perpetua_contracts.Stream.Accrual.{withdrawable}
use perpetua_contracts.Stream.Accrual.Vesting.{earned}
use perpetua_contracts.Stream.Host.{Env, World, Payload, Transfer, transfer_of}
use perpetua_contracts.Stream.Storage.{extend_stream}
use perpetua_contracts.Stream.Lifecycle.{drawn, close_pause}
use perpetua_contracts.Stream.Batch.{batch_withdraw, pay_one, pay_all}
use perpetua_contracts.Stream.Batch.Preflight.{RawValue, Payout, preflight, resolve}
use perpetua_contracts.Stream.Inversion.Payment.{apply_withdrawal_inv}
use perpetua_contracts.Stream.Inversion.Keeper.{batch_withdraw_inv}
use perpetua_contracts.Stream.Invariant.Sound.{IsSound}
use perpetua_contracts.Stream.Preserve.Batch.{payout_ids, resolve_step, resolve-IsResolved}
use perpetua_contracts.Stream.Guarantee.Withdrawal.{claim_value}

-- The transfers that the payouts of a batch add: none for a stream that has nothing due.
abbrev pub payments : Address → List Payout → List Transfer → List Transfer
payments self [] ts = ts
payments self (p ∷ ps) ts = payments self ps (
    if eq_ℤ p.payout (pos 0)
    then ts
    else transfer_of p.stream.token self p.stream.recipient p.payout ∷ ts)

abbrev pub payout_sum : List Payout → ℕ
payout_sum [] = 0
payout_sum (p ∷ ps) = pos_part p.payout + payout_sum ps

-- Each payout is, to the given recipient, all that its stream has withdrawable.
abbrev pub AllDue : Address → ℕ → World → List Payout → Type 0
AllDue recipient now w [] = ⊤
AllDue recipient now w (p ∷ ps) =
    (w.streams p.id ≡ some p.stream)
    × (p.stream.recipient ≡ recipient)
    × (withdrawable p.stream now ≡ ok p.payout)
    × AllDue recipient now w ps

drawn_keeps :
    (env : Env) (s s' : Stream) (payout : ℤ)
    → drawn env s payout ≡ ok s'
    → (s'.token ≡ s.token) × (s'.recipient ≡ s.recipient)
unfolding drawn close_pause
drawn_keeps env s s' payout h = (ground arith, ground arith)

pay_one_transfers :
    (env : Env) (p : Payout) (w w' : World)
    → pay_one env p w ≡ ok w'
    → w'.transfers ≡ payments env.self (p ∷ []) w.transfers
unfolding pay_one extend_stream
pay_one_transfers env p w w' h = elim (Bool-cases (eq_ℤ p.payout (pos 0))) [
  | inl zero_payout ↦ ground arith
  | inr some_payout ↦
      let (s', b, effect) = apply_withdrawal_inv env p.id p.stream p.payout w w' (ground arith) in
      let (same_token, same_recipient) = drawn_keeps env p.stream s' p.payout b in
      effect.moved ∙ rw (same_token, same_recipient, some_payout) refl
]

pay_all_transfers :
    (env : Env) (ps : List Payout) (w w' : World)
    → pay_all env ps w ≡ ok w'
    → w'.transfers ≡ payments env.self ps w.transfers
unfolding pay_all
pay_all_transfers env [] w w' h = ground arith
pay_all_transfers env (p ∷ ps) w w' h =
    let (w1, a, h1) = >>=-eq-ok (pay_one env p w) _ h in
    pay_all_transfers env ps w1 w' h1 ∙ ap (payments env.self ps) (pay_one_transfers env p w w1 a)

resolve_sums :
    (env : Env) (recipient : Address) (w : World) (ids : List ℕ) (n : ℕ) (ps : List Payout)
    (sum : ℤ)
    → IsSound env.self env.now w
    → resolve recipient env.now w ids (pos n) ≡ ok (ps, sum)
    → AllDue recipient env.now w ps × (sum ≡ pos (n + payout_sum ps))
unfolding resolve
resolve_sums env recipient w [] n ps sum v h =
    let none_left : ps ≡ [] = ground arith in
    let is_sum : sum ≡ pos n = ground arith in rw none_left (tt, ground arith)
resolve_sums env recipient w (id ∷ ids) n ps sum v h =
    let (s, available, total', qs, e, mine, a, b, f, is_ps) =
      resolve_step recipient env.now w id ids (pos n) ps sum h in
    let (d, p, x) = v.valid id s e in
    let k = earned s d env.now - p in
    let is_k : available ≡ pos k =
      cc (claim_value env.self env.now env.now s d p (omega arith) x) in
    let is_total : total' ≡ pos (n + k) = ground (arith, checked_add-pos n k) in
    let (due, is_sum) = resolve_sums env recipient w ids (n + k) qs sum v (rw is_total at f) in
    rw is_ps ((e, mine, a, due), rw is_k (ground (arith, is_sum)))

-- In a sound state a batch withdrawal that succeeds is one that the recipient authorized for just
-- these ids. It pays, for each id in order, all that the stream, which is the recipient's, has
-- withdrawable, and nothing else: those payouts are the transfers it adds and their sum is what it
-- returns.
pub batch_withdraw_pays :
    (env : Env) (recipient : Address) (raws : List RawValue) (total : ℤ) (w w' : World)
    → IsSound env.self env.now w
    → batch_withdraw env recipient raws w ≡ ok (total, w')
    → (ids : List ℕ) × (ps : List Payout) × (preflight raws ≡ ok ids)
      × (env.authorized recipient (Payload.batch_args ids) ≡ true)
      × (payout_ids ps ≡ ids)
      × AllDue recipient env.now w ps
      × (total ≡ pos (payout_sum ps))
      × (w'.transfers ≡ payments env.self ps w.transfers)
unfolding preflight
batch_withdraw_pays env recipient raws total w w' v h =
    let (ids, ps, w1, valid, distinct, granted, a, b, k) =
      batch_withdraw_inv env recipient raws total w w' h in
    let (due, is_sum) = resolve_sums env recipient w ids 0 ps total v a in
    let (_, same) = resolve-IsResolved recipient env.now w ids _ ps total distinct a in
    (
      ids,
      ps,
      ground arith,
      granted,
      same,
      due,
      ground (arith, is_sum),
      k.same_transfers ∙ pay_all_transfers env ps w w1 b,
    )
