-- ===== src/Stream/Guarantee/History.antt =====
-- What the calls of contracts/stream/src/lib.rs leave of a stream that is stored.
use perpetua_contracts.Prelude.{
  ℕ, ◌≤◌, ◌≡◌, inl, inr, Bool, Option, none, arith, refl, sym, ◌∙◌, Bool-cases, ◌==◌,
}
use perpetua_contracts.Prelude.Int.{ℤ}
use perpetua_contracts.Words.{u64_max}
use perpetua_contracts.Stream.Op
use perpetua_contracts.Stream.Error.{ok, ◌>>=◌}
use perpetua_contracts.Stream.Types.{Address}
use perpetua_contracts.Stream.Host.{Env, World, Payload}
use perpetua_contracts.Stream.Storage.{extend_stream}
use perpetua_contracts.Stream.Lifecycle
use perpetua_contracts.Stream.Lifecycle.{status_eq}
use perpetua_contracts.Stream.Pausing
use perpetua_contracts.Stream.Batch
use perpetua_contracts.Stream.Delegation
use perpetua_contracts.Stream.Delegation.Refinement.{waived, delegate_calls_refine}
use perpetua_contracts.Stream.Keeper
use perpetua_contracts.Stream.Inversion.Funding.{fund_inv, top_up_inv, create_stream_inv}
use perpetua_contracts.Stream.Inversion.Delegate.{
  as_delegate_inv, delegate_pause_inv, delegate_top_up_inv, delegate_transfer_recipient_inv,
  grant_delegate_inv, revoke_delegate_inv,
}
use perpetua_contracts.Stream.Inversion.Keeper.{extend_stream_ttl_inv, batch_extend_ttl_inv}
use perpetua_contracts.Stream.Invariant.Sound.{IsSound, Keeps-IsSound}
use perpetua_contracts.Stream.Preserve.Calls.{touch-IsSound}
use perpetua_contracts.Stream.Contract.{Call, perform}
use perpetua_contracts.Stream.Contract.Soundness.{state_of_inv}
use perpetua_contracts.Stream.Contract.History.{
  Lasts, Lasts-trans, Keeps-Lasts, Rewrites-Lasts, renamed-Continues, live-Continues,
  Continues-refl,
}
use perpetua_contracts.Stream.Contract.Permanence.{
  withdraw-Lasts, cancel-Lasts, Funded-Lasts, pause-Lasts, resume-Lasts, transfer-Lasts,
  batch_withdraw-Lasts, batch_transfer-Lasts, touched-Lasts,
}
use perpetua_contracts.Stream.Delegation.Refinement.{as_delegate}
use perpetua_contracts.Stream.Error.{Result, >>=-eq-ok}

behind-Lasts :
    {A : Type 0} (env : Env) (id : ℕ) (delegate : Address) (op : ℕ) (args : Payload)
    (f : World → Result A) (a : A) (w : World)
    → IsSound env.self env.now w
    → (as_delegate env id delegate op args w >>= f) ≡ ok a
    → (w1 : World) × IsSound env.self env.now w1 × Lasts w w1 × (f w1 ≡ ok a)
behind-Lasts env id delegate op args f a w v h =
    let (w1, e, h1) = >>=-eq-ok (as_delegate env id delegate op args w) _ h in
    let (_, x) = as_delegate_inv env id delegate op args w w1 e in
    (
      w1,
      Keeps-IsSound env.self env.now env.now w w1 (omega arith) x.keeps v,
      Keeps-Lasts w w1 x.keeps,
      h1,
    )

module _ (env : Env) (u : env.now ≤ u64_max) (w w' : World) (v : IsSound env.self env.now w) where
  delegate_withdraw-Lasts :
      (id : ℕ) (d : Address) (amount : Option ℤ) (payout : ℤ)
      → Delegation.delegate_withdraw env id d amount w ≡ ok (payout, w')
      → Lasts w w'
  delegate_withdraw-Lasts id d amount payout h =
      let (same, _, _) = delegate_calls_refine env id d amount w in
      let (w1, v1, l, h1) =
        behind-Lasts env id d Op.withdraw _ (Lifecycle.withdraw (waived env) id amount) (payout, w')
          w v (sym same ∙ h) in
      Lasts-trans w w1 w' l (withdraw-Lasts (waived env) u w1 w' v1 id amount payout h1)

  delegate_cancel-Lasts :
      (id : ℕ) (d : Address) → Delegation.delegate_cancel env id d w ≡ ok w' → Lasts w w'
  delegate_cancel-Lasts id d h =
      let (_, same, _) = delegate_calls_refine env id d none w in
      let (w1, v1, l, h1) =
        behind-Lasts env id d Op.cancel _ (Lifecycle.cancel (waived env) id) w' w v
          (sym same ∙ h) in
      Lasts-trans w w1 w' l (cancel-Lasts (waived env) u w1 w' v1 id h1)

  delegate_resume-Lasts :
      (id : ℕ) (d : Address) → Delegation.delegate_resume env id d w ≡ ok w' → Lasts w w'
  delegate_resume-Lasts id d h =
      let (_, _, same) = delegate_calls_refine env id d none w in
      let (w1, v1, l, h1) =
        behind-Lasts env id d Op.resume _ (Pausing.resume (waived env) id) w' w v (sym same ∙ h) in
      Lasts-trans w w1 w' l (resume-Lasts (waived env) u w1 w' v1 id h1)

  delegate_pause-Lasts :
      (id : ℕ) (d : Address) → Delegation.delegate_pause env id d w ≡ ok w' → Lasts w w'
  delegate_pause-Lasts id d h =
      let (w1, s, a, e, _, live, _, effect) = delegate_pause_inv env id d w w' h in
      let (_, x) = as_delegate_inv env id d Op.pause (Payload.id_args id) w w1 a in
      Lasts-trans w w1 w' (Keeps-Lasts w w1 x.keeps) (
        Rewrites-Lasts id s _ _ w1 w' e effect
          (live-Continues s _ live refl refl refl refl refl refl))

  delegate_top_up-Lasts :
      (id : ℕ) (d : Address) (amount : ℤ)
      → Delegation.delegate_top_up env id d amount w ≡ ok w'
      → Lasts w w'
  delegate_top_up-Lasts id d amount h =
      let (w1, s, figures, a, e, _, f) = delegate_top_up_inv env id d amount w w' h in
      let (_, x) = as_delegate_inv env id d Op.top_up (Payload.amount_args id amount) w w1 a in
      let v1 = Keeps-IsSound env.self env.now env.now w w1 (omega arith) x.keeps v in
      Lasts-trans w w1 w' (Keeps-Lasts w w1 x.keeps)
        (Funded-Lasts env u w1 w' v1 id s amount figures e f)

  delegate_transfer-Lasts :
      (id : ℕ) (d r : Address)
      → Delegation.delegate_transfer_recipient env id d r w ≡ ok w'
      → Lasts w w'
  delegate_transfer-Lasts id d r h =
      let (w1, s, a, e, _, _, _, effect) = delegate_transfer_recipient_inv env id d r w w' h in
      let (_, x) =
        as_delegate_inv env id d Op.transfer_recipient (Payload.address_args id r) w w1 a in
      Lasts-trans w w1 w' (Keeps-Lasts w w1 x.keeps) (elim effect [
        | inl k ↦ Keeps-Lasts w1 w' k
        | inr rewritten ↦ Rewrites-Lasts id s _ _ w1 w' e rewritten (renamed-Continues s r)
      ])

  top_up-Lasts : (id : ℕ) (amount : ℤ) → Lifecycle.top_up env id amount w ≡ ok w' → Lasts w w'
  unfolding extend_stream
  top_up-Lasts id amount h =
      let (s, e, _, h1) = top_up_inv env id amount w w' h in
      let w1 = extend_stream env id s w in
      let (figures, f) = fund_inv env id s amount w1 w' h1 in
      touched-Lasts env id s w w'
        (Funded-Lasts env u w1 w' (touch-IsSound env id s w v) id s amount figures e f)

  create_stream-Lasts :
      (sender recipient token : Address) (deposit : ℤ) (a b c : ℕ) (x y z : Bool) (id : ℕ)
      → Lifecycle.create_stream env sender recipient token deposit a b c x y z w ≡ ok (id, w')
      → Lasts w w'
  create_stream-Lasts sender recipient token deposit a b c x y z id h i s e =
      let made = create_stream_inv env sender recipient token deposit a b c x y z id w w' h in
      let fresh : w.streams id ≡ none = v.unissued id (omega (arith, made.fresh)) in
      elim (Bool-cases (i == id)) [
        | inl same ↦ absurd (ground arith)
        | inr other ↦ (s, ground (arith, made.written), Continues-refl s)
      ]

-- No call takes anything from a stream that is stored: after a call that succeeds in a sound
-- state, at a time within 64 bits, every stream is still there with its sender, token, start,
-- cliff and flags, what has been paid from it stays paid, and one that has ended stays ended.
pub perform-Lasts :
    (env : Env) (c : Call) (w w' : World)
    → env.now ≤ u64_max
    → IsSound env.self env.now w
    → perform env c w ≡ ok w'
    → Lasts w w'
unfolding perform
perform-Lasts env (Call.create_stream sender recipient token deposit a b c x y z) w w' u v h =
    let (id, e) =
      state_of_inv (Lifecycle.create_stream env sender recipient token deposit a b c x y z w) w'
        h in
    create_stream-Lasts env u w w' v sender recipient token deposit a b c x y z id e
perform-Lasts env (Call.top_up id amount) w w' u v h = top_up-Lasts env u w w' v id amount h
perform-Lasts env (Call.withdraw id amount) w w' u v h =
    let (payout, e) = state_of_inv (Lifecycle.withdraw env id amount w) w' h in
    withdraw-Lasts env u w w' v id amount payout e
perform-Lasts env (Call.batch_withdraw recipient raws) w w' u v h =
    let (total, e) = state_of_inv (Batch.batch_withdraw env recipient raws w) w' h in
    batch_withdraw-Lasts env u w w' v recipient raws total e
perform-Lasts env (Call.cancel id) w w' u v h = cancel-Lasts env u w w' v id h
perform-Lasts env (Call.pause id) w w' u v h = pause-Lasts env u w w' v id h
perform-Lasts env (Call.resume id) w w' u v h = resume-Lasts env u w w' v id h
perform-Lasts env (Call.transfer_recipient id r) w w' u v h = transfer-Lasts env u w w' v id r h
perform-Lasts env (Call.batch_transfer_recipient raws r) w w' u v h =
    let (n, e) = state_of_inv (Batch.batch_transfer_recipient env raws r w) w' h in
    batch_transfer-Lasts env u w w' v raws r n e
perform-Lasts env (Call.grant_delegate id grantor d ops expires) w w' u v h =
    Keeps-Lasts w w' (grant_delegate_inv env id grantor d ops expires w w' h)
perform-Lasts env (Call.revoke_delegate id grantor d) w w' u v h =
    Keeps-Lasts w w' (revoke_delegate_inv env id grantor d w w' h)
perform-Lasts env (Call.delegate_withdraw id d amount) w w' u v h =
    let (payout, e) = state_of_inv (Delegation.delegate_withdraw env id d amount w) w' h in
    delegate_withdraw-Lasts env u w w' v id d amount payout e
perform-Lasts env (Call.delegate_cancel id d) w w' u v h = delegate_cancel-Lasts env u w w' v id d h
perform-Lasts env (Call.delegate_pause id d) w w' u v h = delegate_pause-Lasts env u w w' v id d h
perform-Lasts env (Call.delegate_resume id d) w w' u v h = delegate_resume-Lasts env u w w' v id d h
perform-Lasts env (Call.delegate_top_up id d amount) w w' u v h =
    delegate_top_up-Lasts env u w w' v id d amount h
perform-Lasts env (Call.delegate_transfer_recipient id d r) w w' u v h =
    delegate_transfer-Lasts env u w w' v id d r h
perform-Lasts env (Call.extend_stream_ttl id) w w' u v h =
    let (n, e) = state_of_inv (Keeper.extend_stream_ttl env id w) w' h in
    Keeps-Lasts w w' (extend_stream_ttl_inv env id n w w' e)
perform-Lasts env (Call.batch_extend_ttl raws) w w' u v h =
    let (n, e) = state_of_inv (Keeper.batch_extend_ttl env raws w) w' h in
    Keeps-Lasts w w' (batch_extend_ttl_inv env raws n w w' e)
