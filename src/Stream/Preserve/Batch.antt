-- ===== src/Stream/Preserve/Batch.antt =====
-- `batch_withdraw` of contracts/stream/src/lib.rs, and the invariant.
use perpetua_contracts.Prelude.{
  ℕ, ◌+◌, ◌-◌, ◌≤◌, ◌≡◌, ◌⊎◌, inl, inr, false, some, Option, arith, refl, List, [], ◌∷◌, update, ⊤,
  Bool-cases, Option-cases, ap, subst,
}
use perpetua_contracts.Prelude.Int.{ℤ, pos, eq_ℤ}
use perpetua_contracts.Words.{u64_max}
use perpetua_contracts.I128.{checked_add}
use perpetua_contracts.Stream.Error.{Error, ok, fail_if, >>=-eq-ok, Result-cases}
use perpetua_contracts.Stream.Types.{Address, Stream}
use perpetua_contracts.Stream.Accrual.{withdrawable}
use perpetua_contracts.Stream.Accrual.Vesting.{earned, earned-le}
use perpetua_contracts.Stream.Accrual.Invariants.{withdrawable_value}
use perpetua_contracts.Stream.Host.{Env, World}
use perpetua_contracts.Stream.Storage.{peek_stream, extend_stream}
use perpetua_contracts.Stream.Batch.{pay_one, pay_all}
use perpetua_contracts.Stream.Batch.Preflight.{Payout, occurs, reject_duplicate_ids, resolve}
use perpetua_contracts.Stream.Inversion.Payment.{apply_withdrawal_inv}
use perpetua_contracts.Stream.Invariant.Sound.{IsSound, Rewrites-IsSound}
use perpetua_contracts.Stream.Preserve.Calls.{touch-IsSound}
use perpetua_contracts.Stream.Preserve.Payment.Drawn.{drawn-DrawnRecord, drawn-Balanced}

abbrev pub payout_ids : List Payout → List ℕ
payout_ids [] = []
payout_ids (p ∷ ps) = p.id ∷ payout_ids ps

-- Every payout is what its stream has withdrawable, and no id comes twice.
abbrev pub IsResolved : ℕ → (ℕ → Option Stream) → List Payout → Type 0
IsResolved now f [] = ⊤
IsResolved now f (p ∷ ps) =
    (f p.id ≡ some p.stream)
    × (withdrawable p.stream now ≡ ok p.payout)
    × (occurs p.id (payout_ids ps) ≡ false)
    × IsResolved now f ps

pub update-IsResolved :
    (now i : ℕ) (o : Option Stream) (f : ℕ → Option Stream) (ps : List Payout)
    → occurs i (payout_ids ps) ≡ false
    → IsResolved now f ps
    → IsResolved now (update f i o) ps
unfolding occurs
update-IsResolved now i o f [] h r = tt
update-IsResolved now i o f (p ∷ ps) h r =
    let rest = update-IsResolved now i o f ps (ground arith) (r.3) in (ground arith, r.1, r.2, rest)

-- One round of the first loop.
pub resolve_step :
    (recipient : Address) (now : ℕ) (w : World) (id : ℕ) (ids : List ℕ) (total : ℤ)
    (ps : List Payout) (sum : ℤ)
    → resolve recipient now w (id ∷ ids) total ≡ ok (ps, sum)
    → (s : Stream) × (available total' : ℤ) × (qs : List Payout) × (w.streams id ≡ some s)
      × (s.recipient ≡ recipient)
      × (withdrawable s now ≡ ok available)
      × (checked_add total available ≡ some total')
      × (resolve recipient now w ids total' ≡ ok (qs, sum))
      × (ps ≡ record { id = id; stream = s; payout = available } ∷ qs)
unfolding resolve peek_stream
resolve_step recipient now w id ids total ps sum h = elim (Option-cases (w.streams id)) [
  | inl e ↦ absurd (ground arith)
  | inr (s, e) ↦ elim (Result-cases (withdrawable s now)) [
    | inr bad ↦ absurd (ground arith)
    | inl (available, a) ↦ elim (Option-cases (checked_add total available)) [
      | inl b ↦ absurd (ground arith)
      | inr (total', b) ↦ elim (Result-cases (resolve recipient now w ids total')) [
        | inr bad ↦ absurd (ground arith)
        | inl ((qs, sum'), c) ↦
            (s, available, total', qs, e, ground arith, a, b, ground arith, ground arith)
      ]
    ]
  ]
]

-- What the first loop collects.
pub resolve-IsResolved :
    (recipient : Address) (now : ℕ) (w : World) (ids : List ℕ) (total : ℤ) (ps : List Payout)
    (sum : ℤ)
    → reject_duplicate_ids ids ≡ ok tt
    → resolve recipient now w ids total ≡ ok (ps, sum)
    → IsResolved now w.streams ps × (payout_ids ps ≡ ids)
unfolding resolve reject_duplicate_ids
resolve-IsResolved recipient now w [] total ps sum d h =
    let none_left : ps ≡ [] = ground arith in rw none_left (tt, refl)
resolve-IsResolved recipient now w (id ∷ ids) total ps sum d h =
    let (_, once, rest) = >>=-eq-ok (fail_if (occurs id ids) Error.duplicate_stream_id) _ d in
    let (s, available, total', qs, e, _, a, _, f, is_ps) =
      resolve_step recipient now w id ids total ps sum h in
    let (r, same) = resolve-IsResolved recipient now w ids total' qs sum rest f in
    rw is_ps ((e, a, rw same (ground arith), r), ap (◌∷◌ id) same)

-- One payment of the second loop: the state stays sound, and no other stream is written.
pub pay_one-IsSound :
    (env : Env) (p : Payout) (w w' : World)
    → env.now ≤ u64_max
    → IsSound env.self env.now w
    → w.streams p.id ≡ some p.stream
    → withdrawable p.stream env.now ≡ ok p.payout
    → pay_one env p w ≡ ok w'
    → IsSound env.self env.now w'
      × ((w'.streams ≡ w.streams) ⊎ ((o : Option Stream) × (w'.streams ≡ update w.streams p.id o)))
unfolding pay_one extend_stream
pay_one-IsSound env p w w' u v e a h = elim (Bool-cases (eq_ℤ p.payout (pos 0))) [
  | inl zero_payout ↦
      let same : extend_stream env p.id p.stream w ≡ w' = ground arith in
      rw (← same) (touch-IsSound env p.id p.stream w v, inl refl)
  | inr some_payout ↦
      let (d, q, x) = v.valid p.id p.stream e in
      let value =
        withdrawable_value p.stream d q env.now env.now (omega arith) x.schedule x.paid
          (omega (arith, x.backed, earned-le p.stream d env.now)) in
      let is_payout : p.payout ≡ pos (earned p.stream d env.now - q) = cc in
      let (s', b, effect) = apply_withdrawal_inv env p.id p.stream p.payout w w' (ground arith) in
      let k = earned p.stream d env.now - q in
      let covered : q + k ≤ earned p.stream d env.now = omega (arith, x.backed) in
      let after = drawn-DrawnRecord env p.stream s' d q k x covered u (rw is_payout at b) in
      (
        Rewrites-IsSound env.self env.now env.now p.id p.stream s' _ w w' (omega arith) e
            (rw is_payout at effect) (d, q + k, after.still_valid)
            (drawn-Balanced env p.stream s' d q k x covered u w.transfers after) v,
        inr (some s', effect.written),
      )
]

pub pay_all-IsSound :
    (env : Env) (ps : List Payout) (w w' : World)
    → env.now ≤ u64_max
    → IsSound env.self env.now w
    → IsResolved env.now w.streams ps
    → pay_all env ps w ≡ ok w'
    → IsSound env.self env.now w'
unfolding pay_all
pay_all-IsSound env [] w w' u v r h =
    let same : w ≡ w' = ground arith in subst (IsSound env.self env.now) same v
pay_all-IsSound env (p ∷ ps) w w' u v r h =
    let (w1, a, h1) = >>=-eq-ok (pay_one env p w) _ h in
    let (v1, change) = pay_one-IsSound env p w w1 u v r.0 r.1 a in
    let rest : IsResolved env.now w1.streams ps = elim change [
      | inl same ↦ rw same r.3
      | inr (o, written) ↦ rw written (update-IsResolved env.now p.id o w.streams ps r.2 r.3)
    ] in
    pay_all-IsSound env ps w1 w' u v1 rest h1
