-- ===== src/Stream/Contract/Permanence/Batches.antt =====
-- The batch calls of contracts/stream/src/lib.rs, and the streams that are stored before them.
use perpetua_contracts.Prelude.{
  ℕ, ◌+◌, ◌-◌, ◌≤◌, ◌≡◌, inl, inr, some, List, [], ◌∷◌, arith, refl, Bool-cases,
}
use perpetua_contracts.Prelude.Int.{pos, eq_ℤ}
use perpetua_contracts.Words.{u64_max}
use perpetua_contracts.Stream.Error.{ok, >>=-eq-ok}
use perpetua_contracts.Stream.Types.{Address, Stream}
use perpetua_contracts.Stream.Accrual.{withdrawable}
use perpetua_contracts.Stream.Accrual.Vesting.{earned, earned-le}
use perpetua_contracts.Stream.Accrual.Invariants.{withdrawable_value}
use perpetua_contracts.Stream.Host.{Env, World}
use perpetua_contracts.Stream.Storage.{extend_stream}
use perpetua_contracts.Stream.Batch.{pay_one, pay_all, transfer_one, transfer_all}
use perpetua_contracts.Stream.Batch.Preflight.{Payout}
use perpetua_contracts.Stream.Inversion.Payment.{apply_withdrawal_inv}
use perpetua_contracts.Stream.Invariant.Sound.{IsSound}
use perpetua_contracts.Stream.Preserve.Batch.{IsResolved, update-IsResolved, pay_one-IsSound}
use perpetua_contracts.Stream.Preserve.BatchTransfer.{IsPeeked, update-IsPeeked, transfer_one_inv}
use perpetua_contracts.Stream.Contract.History.{
  Lasts, Lasts-trans, Keeps-Lasts, Rewrites-Lasts, drawn-Continues, renamed-Continues,
}

pay_one-Lasts :
    (env : Env) (p : Payout) (w w' : World)
    → env.now ≤ u64_max
    → IsSound env.self env.now w
    → w.streams p.id ≡ some p.stream
    → withdrawable p.stream env.now ≡ ok p.payout
    → pay_one env p w ≡ ok w'
    → Lasts w w'
unfolding pay_one extend_stream
pay_one-Lasts env p w w' u v e a h = elim (Bool-cases (eq_ℤ p.payout (pos 0))) [
  | inl zero_payout ↦
      let same : w'.streams ≡ w.streams = ground arith in
      Keeps-Lasts w w'
        (record { same_streams = same; same_ids = ground arith; same_transfers = ground arith })
  | inr some_payout ↦
      let (d, q, x) = v.valid p.id p.stream e in
      let value =
        withdrawable_value p.stream d q env.now env.now (omega arith) x.schedule x.paid
          (omega (arith, x.backed, earned-le p.stream d env.now)) in
      let k = earned p.stream d env.now - q in
      let is_payout : p.payout ≡ pos k = cc in
      let (s', b, effect) = apply_withdrawal_inv env p.id p.stream p.payout w w' (ground arith) in
      Rewrites-Lasts p.id p.stream s' _ w w' e effect
        (drawn-Continues env p.stream s' d q k x (omega (arith, x.backed)) u (rw is_payout at b))
]

pub pay_all-Lasts :
    (env : Env) (ps : List Payout) (w w' : World)
    → env.now ≤ u64_max
    → IsSound env.self env.now w
    → IsResolved env.now w.streams ps
    → pay_all env ps w ≡ ok w'
    → Lasts w w'
unfolding pay_all
pay_all-Lasts env [] w w' u v r h =
    let same : w ≡ w' = ground arith in
    rw (← same)
      (Keeps-Lasts w w (record { same_streams = refl; same_ids = refl; same_transfers = refl }))
pay_all-Lasts env (p ∷ ps) w w' u v r h =
    let (w1, a, h1) = >>=-eq-ok (pay_one env p w) _ h in
    let (v1, change) = pay_one-IsSound env p w w1 u v r.0 r.1 a in
    let rest : IsResolved env.now w1.streams ps = elim change [
      | inl same ↦ rw same r.3
      | inr (o, written) ↦ rw written (update-IsResolved env.now p.id o w.streams ps r.2 r.3)
    ] in
    Lasts-trans w w1 w' (pay_one-Lasts env p w w1 u v r.0 r.1 a)
      (pay_all-Lasts env ps w1 w' u v1 rest h1)

pub transfer_all-Lasts :
    (env : Env) (sender r : Address) (l : List (ℕ × Stream)) (n m : ℕ) (w w' : World)
    → IsPeeked w.streams l
    → transfer_all env sender r l n w ≡ ok (m, w')
    → Lasts w w'
unfolding transfer_all
transfer_all-Lasts env sender r [] n m w w' p h =
    let same : w ≡ w' = ground arith in
    rw (← same)
      (Keeps-Lasts w w (record { same_streams = refl; same_ids = refl; same_transfers = refl }))
transfer_all-Lasts env sender r ((id, s) ∷ l) n m w w' p h =
    let (w1, a, h1) = >>=-eq-ok (transfer_one env sender r id s w) _ h in
    let (_, ne, effect) = transfer_one_inv env sender r id s w w1 a in
    let rest : IsPeeked w1.streams l =
      rw effect.written (update-IsPeeked id _ w.streams l p.1 p.2) in
    Lasts-trans w w1 w' (Rewrites-Lasts id s _ _ w w1 p.0 effect (renamed-Continues s r))
      (transfer_all-Lasts env sender r l (n + 1) m w1 w' rest h1)
