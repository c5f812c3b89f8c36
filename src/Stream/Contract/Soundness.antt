-- ===== src/Stream/Contract/Soundness.antt =====
-- The calls of contracts/stream/src/lib.rs, and the invariant.
use perpetua_contracts.Prelude.{
  ℕ, ◌≤◌, ◌≡◌, ◌≢◌, inl, inr, none, Option, arith, refl, List, subst, sym, ◌∙◌,
}
use perpetua_contracts.Prelude.Int.{ℤ}
use perpetua_contracts.Words.{u64_max}
use perpetua_contracts.Stream.Op
use perpetua_contracts.Stream.Error.{Result, ok, ◌>>=◌, >>=-eq-ok}
use perpetua_contracts.Stream.Types.{Address}
use perpetua_contracts.Stream.Host.{Env, World, Payload}
use perpetua_contracts.Stream.Storage.{extend_stream}
use perpetua_contracts.Stream.Lifecycle
use perpetua_contracts.Stream.Pausing
use perpetua_contracts.Stream.Pausing.{frozen}
use perpetua_contracts.Stream.Recipient
use perpetua_contracts.Stream.Batch
use perpetua_contracts.Stream.Batch.Preflight.{RawValue}
use perpetua_contracts.Stream.Delegation
use perpetua_contracts.Stream.Delegation.Refinement.{as_delegate, waived, delegate_calls_refine}
use perpetua_contracts.Stream.Keeper
use perpetua_contracts.Stream.Inversion.Pausing.{transfer_recipient_inv}
use perpetua_contracts.Stream.Inversion.Payment.{withdraw_inv, cancel_inv}
use perpetua_contracts.Stream.Inversion.Funding.{top_up_inv, fund_inv, create_stream_inv}
use perpetua_contracts.Stream.Inversion.Delegate.{
  as_delegate_inv, delegate_pause_inv, delegate_top_up_inv, delegate_transfer_recipient_inv,
  grant_delegate_inv, revoke_delegate_inv,
}
use perpetua_contracts.Stream.Inversion.Keeper.{
  extend_stream_ttl_inv, batch_extend_ttl_inv, batch_withdraw_inv, batch_transfer_recipient_inv,
}
use perpetua_contracts.Stream.Invariant.Sound.{IsSound, Keeps-IsSound}
use perpetua_contracts.Stream.Preserve.Calls.{
  quiet-IsSound, pause-IsSound, resume-IsSound, transfer-IsSound, Funded-IsSound, claim-IsSound,
  settle-IsSound, touch-IsSound,
}
use perpetua_contracts.Stream.Preserve.Pausing.{frozen-IsValid}
use perpetua_contracts.Stream.Preserve.Creation.{created-IsSound}
use perpetua_contracts.Stream.Preserve.Batch.{resolve-IsResolved, pay_all-IsSound}
use perpetua_contracts.Stream.Preserve.BatchTransfer.{peek_all-IsPeeked, transfer_all-IsSound}
use perpetua_contracts.Stream.Contract.{Call, state_of, perform, HostRules}

pub state_of_inv :
    {A : Type 0} (r : Result (A × World)) (w : World)
    → state_of r ≡ ok w
    → (a : A) × (r ≡ ok (a, w))
state_of_inv r w h =
    let ((a, w1), e, f) = >>=-eq-ok r _ h in
    let same : w1 ≡ w = ground arith in (a, subst (λ x. r ≡ ok (a, x)) same e)

module _ (env : Env) (u : env.now ≤ u64_max) (w w' : World) (v : IsSound env.self env.now w) where
  withdraw-IsSound :
      (id : ℕ) (amount : Option ℤ) (payout : ℤ)
      → Lifecycle.withdraw env id amount w ≡ ok (payout, w')
      → IsSound env.self env.now w'
  unfolding extend_stream
  withdraw-IsSound id amount payout h =
      let (s, e, _, h1) = withdraw_inv env id amount payout w w' h in
      claim-IsSound env (extend_stream env id s w) w' (touch-IsSound env id s w v) id s amount
        payout u e h1

  cancel-IsSound : (id : ℕ) → Lifecycle.cancel env id w ≡ ok w' → IsSound env.self env.now w'
  unfolding extend_stream
  cancel-IsSound id h =
      let (s, e, _, h1) = cancel_inv env id w w' h in
      settle-IsSound env (extend_stream env id s w) w' (touch-IsSound env id s w v) id s e h1

  top_up-IsSound :
      (id : ℕ) (amount : ℤ) → Lifecycle.top_up env id amount w ≡ ok w' → IsSound env.self env.now w'
  unfolding extend_stream
  top_up-IsSound id amount h =
      let (s, e, _, h1) = top_up_inv env id amount w w' h in
      let w1 = extend_stream env id s w in
      let (figures, f) = fund_inv env id s amount w1 w' h1 in
      Funded-IsSound env w1 w' (touch-IsSound env id s w v) id s amount figures e f

  transfer_recipient-IsSound :
      (id : ℕ) (r : Address)
      → Recipient.transfer_recipient env id r w ≡ ok w'
      → IsSound env.self env.now w'
  transfer_recipient-IsSound id r h =
      let (s, e, _, _, _, ne, _, effect) = transfer_recipient_inv env id r w w' h in
      transfer-IsSound env w w' v id r s e ne effect

  batch_withdraw-IsSound :
      (recipient : Address) (raws : List RawValue) (total : ℤ)
      → Batch.batch_withdraw env recipient raws w ≡ ok (total, w')
      → IsSound env.self env.now w'
  batch_withdraw-IsSound recipient raws total h =
      let (ids, ps, w1, _, distinct, _, a, b, k) =
        batch_withdraw_inv env recipient raws total w w' h in
      let (r, _) = resolve-IsResolved recipient env.now w ids _ ps total distinct a in
      Keeps-IsSound env.self env.now env.now w1 w' (omega arith) k
        (pay_all-IsSound env ps w w1 u v r b)

  batch_transfer-IsSound :
      (raws : List RawValue) (r : Address) (n : ℕ)
      → Batch.batch_transfer_recipient env raws r w ≡ ok (n, w')
      → IsSound env.self env.now w'
  batch_transfer-IsSound raws r n h =
      let (ids, l, sender, w1, _, distinct, a, _, b, k) =
        batch_transfer_recipient_inv env raws r n w w' h in
      let (x, _) = peek_all-IsPeeked w ids l distinct a in
      Keeps-IsSound env.self env.now env.now w1 w' (omega arith) k
        (transfer_all-IsSound env sender r l 0 n w w1 v x b)

-- A call behind the check of a grant.
pub behind-IsSound :
    {A : Type 0} (env : Env) (id : ℕ) (delegate : Address) (op : ℕ) (args : Payload)
    (f : World → Result A) (a : A) (w : World)
    → IsSound env.self env.now w
    → (as_delegate env id delegate op args w >>= f) ≡ ok a
    → (w1 : World) × IsSound env.self env.now w1 × (f w1 ≡ ok a)
behind-IsSound env id delegate op args f a w v h =
    let (w1, e, h1) = >>=-eq-ok (as_delegate env id delegate op args w) _ h in
    let (_, x) = as_delegate_inv env id delegate op args w w1 e in
    (w1, Keeps-IsSound env.self env.now env.now w w1 (omega arith) x.keeps v, h1)

module _ (env : Env) (u : env.now ≤ u64_max) (w w' : World) (v : IsSound env.self env.now w) where
  delegate_withdraw-IsSound :
      (id : ℕ) (delegate : Address) (amount : Option ℤ) (payout : ℤ)
      → Delegation.delegate_withdraw env id delegate amount w ≡ ok (payout, w')
      → IsSound env.self env.now w'
  delegate_withdraw-IsSound id delegate amount payout h =
      let (same, _, _) = delegate_calls_refine env id delegate amount w in
      let (w1, v1, h1) =
        behind-IsSound env id delegate Op.withdraw _ (Lifecycle.withdraw (waived env) id amount)
          (payout, w') w v (sym same ∙ h) in
      withdraw-IsSound (waived env) u w1 w' v1 id amount payout h1

  delegate_cancel-IsSound :
      (id : ℕ) (delegate : Address)
      → Delegation.delegate_cancel env id delegate w ≡ ok w'
      → IsSound env.self env.now w'
  delegate_cancel-IsSound id delegate h =
      let (_, same, _) = delegate_calls_refine env id delegate none w in
      let (w1, v1, h1) =
        behind-IsSound env id delegate Op.cancel _ (Lifecycle.cancel (waived env) id) w' w v
          (sym same ∙ h) in
      cancel-IsSound (waived env) u w1 w' v1 id h1

  delegate_resume-IsSound :
      (id : ℕ) (delegate : Address)
      → Delegation.delegate_resume env id delegate w ≡ ok w'
      → IsSound env.self env.now w'
  delegate_resume-IsSound id delegate h =
      let (_, _, same) = delegate_calls_refine env id delegate none w in
      let (w1, v1, h1) =
        behind-IsSound env id delegate Op.resume _ (Pausing.resume (waived env) id) w' w v
          (sym same ∙ h) in
      resume-IsSound (waived env) w1 w' v1 id h1

  delegate_pause-IsSound :
      (id : ℕ) (delegate : Address)
      → Delegation.delegate_pause env id delegate w ≡ ok w'
      → IsSound env.self env.now w'
  delegate_pause-IsSound id delegate h =
      let (w1, s, a, e, _, live, running, effect) = delegate_pause_inv env id delegate w w' h in
      let (_, x) = as_delegate_inv env id delegate Op.pause (Payload.id_args id) w w1 a in
      let v1 = Keeps-IsSound env.self env.now env.now w w1 (omega arith) x.keeps v in
      let (d, p, y) = v1.valid id s e in
      let n : s.paused_at ≡ none = ground (arith, y.coherent) in
      quiet-IsSound env w1 w' v1 id s (frozen s env.now) e effect d p refl refl refl
        (frozen-IsValid env.self env.now s d p y live n)

  delegate_top_up-IsSound :
      (id : ℕ) (delegate : Address) (amount : ℤ)
      → Delegation.delegate_top_up env id delegate amount w ≡ ok w'
      → IsSound env.self env.now w'
  delegate_top_up-IsSound id delegate amount h =
      let (w1, s, figures, a, e, _, f) = delegate_top_up_inv env id delegate amount w w' h in
      let (_, x) =
        as_delegate_inv env id delegate Op.top_up (Payload.amount_args id amount) w w1 a in
      let v1 = Keeps-IsSound env.self env.now env.now w w1 (omega arith) x.keeps v in
      Funded-IsSound env w1 w' v1 id s amount figures e f

  delegate_transfer-IsSound :
      (id : ℕ) (delegate r : Address)
      → Delegation.delegate_transfer_recipient env id delegate r w ≡ ok w'
      → IsSound env.self env.now w'
  delegate_transfer-IsSound id delegate r h =
      let (w1, s, a, e, _, _, ne, effect) =
        delegate_transfer_recipient_inv env id delegate r w w' h in
      let (_, x) =
        as_delegate_inv env id delegate Op.transfer_recipient (Payload.address_args id r) w w1 a in
      let v1 = Keeps-IsSound env.self env.now env.now w w1 (omega arith) x.keeps v in
      elim effect [
        | inl k ↦ Keeps-IsSound env.self env.now env.now w1 w' (omega arith) k v1
        | inr rewritten ↦ transfer-IsSound env w1 w' v1 id r s e ne rewritten
      ]

-- Under the host's rules, a clock of 64 bits and no authorization in the contract's own name,
-- every call that succeeds takes a sound state to a sound one: every stream valid, the ids
-- contiguous, and the pool solvent.
pub perform-IsSound :
    (env : Env) (c : Call) (w w' : World)
    → HostRules env
    → IsSound env.self env.now w
    → perform env c w ≡ ok w'
    → IsSound env.self env.now w'
unfolding perform
perform-IsSound env (Call.create_stream sender recipient token deposit a b c x y z) w w' r v h =
    let (id, e) =
      state_of_inv (Lifecycle.create_stream env sender recipient token deposit a b c x y z w) w'
        h in
    let made = create_stream_inv env sender recipient token deposit a b c x y z id w w' e in
    let other : sender ≢ env.self =
      ground
        (arith, r.silent (Payload.create_args recipient token deposit a b c x y z), made.granted) in
    created-IsSound env sender recipient token deposit a b c x y z id w w' v made other
perform-IsSound env (Call.top_up id amount) w w' r v h =
    top_up-IsSound env r.clock w w' v id amount h
perform-IsSound env (Call.withdraw id amount) w w' r v h =
    let (payout, e) = state_of_inv (Lifecycle.withdraw env id amount w) w' h in
    withdraw-IsSound env r.clock w w' v id amount payout e
perform-IsSound env (Call.batch_withdraw recipient raws) w w' r v h =
    let (total, e) = state_of_inv (Batch.batch_withdraw env recipient raws w) w' h in
    batch_withdraw-IsSound env r.clock w w' v recipient raws total e
perform-IsSound env (Call.cancel id) w w' r v h = cancel-IsSound env r.clock w w' v id h
perform-IsSound env (Call.pause id) w w' r v h = pause-IsSound env w w' v id h
perform-IsSound env (Call.resume id) w w' r v h = resume-IsSound env w w' v id h
perform-IsSound env (Call.transfer_recipient id a) w w' r v h =
    transfer_recipient-IsSound env r.clock w w' v id a h
perform-IsSound env (Call.batch_transfer_recipient raws a) w w' r v h =
    let (n, e) = state_of_inv (Batch.batch_transfer_recipient env raws a w) w' h in
    batch_transfer-IsSound env r.clock w w' v raws a n e
perform-IsSound env (Call.grant_delegate id grantor delegate ops expires) w w' r v h =
    Keeps-IsSound env.self env.now env.now w w' (omega arith)
      (grant_delegate_inv env id grantor delegate ops expires w w' h) v
perform-IsSound env (Call.revoke_delegate id grantor delegate) w w' r v h =
    Keeps-IsSound env.self env.now env.now w w' (omega arith)
      (revoke_delegate_inv env id grantor delegate w w' h) v
perform-IsSound env (Call.delegate_withdraw id delegate amount) w w' r v h =
    let (payout, e) = state_of_inv (Delegation.delegate_withdraw env id delegate amount w) w' h in
    delegate_withdraw-IsSound env r.clock w w' v id delegate amount payout e
perform-IsSound env (Call.delegate_cancel id delegate) w w' r v h =
    delegate_cancel-IsSound env r.clock w w' v id delegate h
perform-IsSound env (Call.delegate_pause id delegate) w w' r v h =
    delegate_pause-IsSound env r.clock w w' v id delegate h
perform-IsSound env (Call.delegate_resume id delegate) w w' r v h =
    delegate_resume-IsSound env r.clock w w' v id delegate h
perform-IsSound env (Call.delegate_top_up id delegate amount) w w' r v h =
    delegate_top_up-IsSound env r.clock w w' v id delegate amount h
perform-IsSound env (Call.delegate_transfer_recipient id delegate a) w w' r v h =
    delegate_transfer-IsSound env r.clock w w' v id delegate a h
perform-IsSound env (Call.extend_stream_ttl id) w w' r v h =
    let (n, e) = state_of_inv (Keeper.extend_stream_ttl env id w) w' h in
    Keeps-IsSound env.self env.now env.now w w' (omega arith)
      (extend_stream_ttl_inv env id n w w' e) v
perform-IsSound env (Call.batch_extend_ttl raws) w w' r v h =
    let (n, e) = state_of_inv (Keeper.batch_extend_ttl env raws w) w' h in
    Keeps-IsSound env.self env.now env.now w w' (omega arith)
      (batch_extend_ttl_inv env raws n w w' e) v
