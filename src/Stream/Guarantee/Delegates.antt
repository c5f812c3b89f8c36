-- ===== src/Stream/Guarantee/Delegates.antt =====
-- The grants of contracts/stream/src/lib.rs and the calls of a delegate.
use perpetua_contracts.Prelude.{
  ℕ, ◌&&◌, ◌≡◌, ◌⊎◌, inl, inr, true, false, some, none, Option, arith, Option-cases, sym, ◌∙◌, ⊤,
  refl,
}
use perpetua_contracts.Words.{any_bit}
use perpetua_contracts.Stream.Op
use perpetua_contracts.Stream.Error.{Result, ok, ◌>>=◌, >>=-eq-ok}
use perpetua_contracts.Stream.Types.{Address, Stream, DelegateGrant, is_terminal}
use perpetua_contracts.Stream.Host.{Env, World, Payload}
use perpetua_contracts.Stream.Storage.{load_stream, extend_stream, extend_instance, save_delegate}
use perpetua_contracts.Stream.Events
use perpetua_contracts.Stream.Recipient.{transfer_recipient}
use perpetua_contracts.Stream.Delegation.{
  sender_ops, recipient_ops, grant_delegate, record_grant, is_expired, delegate_withdraw,
}
use perpetua_contracts.Stream.Delegation.Refinement.{as_delegate, delegate_calls_refine}
use perpetua_contracts.Stream.Effect.{Keeps}
use perpetua_contracts.Stream.Inversion.Pausing.{transfer_recipient_inv}
use perpetua_contracts.Stream.Inversion.Delegate.{
  as_delegate_inv, delegate_pause_inv, delegate_top_up_inv, delegate_transfer_recipient_inv,
  grant_delegate_inv,
}
use perpetua_contracts.Stream.Contract.{Call, perform}

-- The delegate has authorized the arguments, and holds a grant on the stream with the bit of the
-- operation that has not run out.
pub record Grants (env : Env) (w : World) (id : ℕ) (delegate : Address) (op : ℕ) (args : Payload)
    : Type 0 where
  pub signed : env.authorized delegate args ≡ true
  pub grant : DelegateGrant
  pub found : w.delegates id delegate ≡ some grant
  pub unexpired : is_expired grant env.now ≡ false
  pub covers : any_bit grant.ops op ≡ true

-- What a call of a delegate needs; the other calls need nothing here.
abbrev pub IsPermitted : Env → World → Call → Type 0
IsPermitted env w (Call.delegate_withdraw id d amount) =
    Grants env w id d Op.withdraw (Payload.withdraw_args id amount)
IsPermitted env w (Call.delegate_cancel id d) = Grants env w id d Op.cancel (Payload.id_args id)
IsPermitted env w (Call.delegate_pause id d) = Grants env w id d Op.pause (Payload.id_args id)
IsPermitted env w (Call.delegate_resume id d) = Grants env w id d Op.resume (Payload.id_args id)
IsPermitted env w (Call.delegate_top_up id d amount) =
    Grants env w id d Op.top_up (Payload.amount_args id amount)
IsPermitted env w (Call.delegate_transfer_recipient id d r) =
    Grants env w id d Op.transfer_recipient (Payload.address_args id r)
IsPermitted _ _ _ = ⊤

as_delegate-Grants :
    (env : Env) (id : ℕ) (d : Address) (op : ℕ) (args : Payload) (w w1 : World)
    → as_delegate env id d op args w ≡ ok w1
    → Grants env w id d op args
as_delegate-Grants env id d op args w w1 h =
    let (signed, x) = as_delegate_inv env id d op args w w1 h in
    record {
      signed = signed;
      grant = x.grant;
      found = x.found;
      unexpired = x.unexpired;
      covers = x.covers;
    }

behind-Grants :
    {A : Type 0} (env : Env) (id : ℕ) (d : Address) (op : ℕ) (args : Payload) (f : World → Result A)
    (m : Result A) (w : World) (a : A)
    → m ≡ (as_delegate env id d op args w >>= f)
    → m ≡ ok a
    → Grants env w id d op args
behind-Grants env id d op args f m w a same h =
    let (w1, e, _) = >>=-eq-ok (as_delegate env id d op args w) f (sym same ∙ h) in
    as_delegate-Grants env id d op args w w1 e

-- No delegate acts without a grant: a call of a delegate succeeds only if the delegate authorized
-- its arguments and holds, on that stream, a grant that covers that operation and has not run out.
pub delegate_calls-IsPermitted :
    (env : Env) (c : Call) (w w' : World) → perform env c w ≡ ok w' → IsPermitted env w c
unfolding perform
delegate_calls-IsPermitted env (Call.delegate_withdraw id d amount) w w' h =
    let (same, _, _) = delegate_calls_refine env id d amount w in
    let (a, e, _) = >>=-eq-ok (delegate_withdraw env id d amount w) _ h in
    behind-Grants env id d Op.withdraw _ _ _ w a same e
delegate_calls-IsPermitted env (Call.delegate_cancel id d) w w' h =
    let (_, same, _) = delegate_calls_refine env id d none w in
    behind-Grants env id d Op.cancel _ _ _ w w' same h
delegate_calls-IsPermitted env (Call.delegate_pause id d) w w' h =
    let (w1, _, e, _, _, _, _, _) = delegate_pause_inv env id d w w' h in
    as_delegate-Grants env id d Op.pause _ w w1 e
delegate_calls-IsPermitted env (Call.delegate_resume id d) w w' h =
    let (_, _, same) = delegate_calls_refine env id d none w in
    behind-Grants env id d Op.resume _ _ _ w w' same h
delegate_calls-IsPermitted env (Call.delegate_top_up id d amount) w w' h =
    let (w1, _, _, e, _, _, _) = delegate_top_up_inv env id d amount w w' h in
    as_delegate-Grants env id d Op.top_up _ w w1 e
delegate_calls-IsPermitted env (Call.delegate_transfer_recipient id d r) w w' h =
    let (w1, _, e, _, _, _, _, _) = delegate_transfer_recipient_inv env id d r w w' h in
    as_delegate-Grants env id d Op.transfer_recipient _ w w1 e
delegate_calls-IsPermitted _ _ _ _ _ = tt

-- Nobody grants what is not theirs: a grant with a bit of the sender's or of the recipient's
-- operations that is recorded is on a live stream and has no bits of both sides, and its grantor, who
-- authorized it, is the sender where it has a bit of the sender's and the recipient where it has one
-- of the recipient's. It is stored for the delegate as it was given, and the streams, the counter and
-- the transfers are as they were.
pub grant_delegate_within_rights :
    (env : Env) (id : ℕ) (grantor delegate : Address) (ops : ℕ) (expires : Option ℕ) (w w' : World)
    → grant_delegate env id grantor delegate ops expires w ≡ ok w'
    → any_bit ops sender_ops ≡ true ⊎ any_bit ops recipient_ops ≡ true
    → (s : Stream) × (w.streams id ≡ some s)
      × (is_terminal s.status ≡ false)
      × (env.authorized grantor (Payload.grant_args id delegate ops expires) ≡ true)
      × ((any_bit ops sender_ops && any_bit ops recipient_ops) ≡ false)
      × (any_bit ops sender_ops ≡ true → grantor ≡ s.sender)
      × (any_bit ops recipient_ops ≡ true → grantor ≡ s.recipient)
      × (w'.delegates id delegate ≡ some (record { ops = ops; expires_at = expires }))
      × Keeps w w'
unfolding grant_delegate record_grant load_stream extend_stream save_delegate extend_instance
    Events.delegate_granted
grant_delegate_within_rights env id grantor delegate ops expires w w' h some_bit =
    elim (Option-cases (w.streams id)) [
      | inl e ↦ absurd (ground arith)
      | inr (s, e) ↦ (
        s,
        e,
        ground arith,
        ground arith,
        ground arith,
        ground arith,
        ground arith,
        ground arith,
        grant_delegate_inv env id grantor delegate ops expires w w' h,
      )
    ]

-- A grant outlives the recipient who made it: changing the recipient leaves every grant on the
-- stream as it was, whoever made it.
pub transfer_keeps_grants :
    (env : Env) (id : ℕ) (new_recipient : Address) (w w' : World)
    → transfer_recipient env id new_recipient w ≡ ok w'
    → (w'.delegates ≡ w.delegates)
      × ((s : Stream) × (w'.streams id ≡ some s) × (s.recipient ≡ new_recipient))
transfer_keeps_grants env id r w w' h =
    let (s, e, _, _, _, _, _, effect) = transfer_recipient_inv env id r w w' h in
    (effect.same_delegates, (record s { recipient = r }, ground (arith, effect.written), refl))
