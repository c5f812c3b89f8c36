-- ===== src/Stream/Delegation/Refinement.antt =====
-- The calls of a delegate of contracts/stream/src/lib.rs beside the owner's.
use perpetua_contracts.Prelude.{ℕ, ◌≡◌, Bool, true, false, refl, Option}
use perpetua_contracts.Prelude.Int.{ℤ}
use perpetua_contracts.Stream.Op
use perpetua_contracts.Stream.Error.{Result, ◌>>=◌, ◌>>◌, >>=-cong}
use perpetua_contracts.Stream.Types.{Address}
use perpetua_contracts.Stream.Host.{Env, World, Payload, trap_unless, require_auth, token_transfer}
use perpetua_contracts.Stream.Storage.{
  load_stream, save_stream, extend_stream, extend_instance, ttl_target_ledgers,
  ttl_target_ledgers_at,
}
use perpetua_contracts.Stream.Lifecycle.{cancel, withdraw, apply_withdrawal, drawn, close_pause}
use perpetua_contracts.Stream.Pausing.{resume}
use perpetua_contracts.Stream.Delegation.{
  check_delegate, delegate_withdraw, delegate_cancel, delegate_resume,
}

-- The environment in which the owner's authorization is not asked for.
abbrev pub waived : Env → Env
waived env = record env { authorized = λ _ _. true }

-- The delegate authorizes its arguments, and its grant is checked and renewed.
abbrev pub as_delegate : Env → ℕ → Address → ℕ → Payload → World → Result World
as_delegate env id delegate op args w =
    require_auth env delegate args >> check_delegate env id delegate op w

behind_check :
    {A : Type 0} (granted : Bool) (checked : Result World) (f g : World → Result A)
    → ((w : World) → f w ≡ g w)
    → (trap_unless granted >> (checked >>= f)) ≡ (trap_unless granted >> checked >>= g)
behind_check true checked f g h = >>=-cong checked f g h
behind_check false checked f g h = refl

delegate_cancel-eq :
    (env : Env) (id : ℕ) (delegate : Address) (w : World)
    → delegate_cancel env id delegate w
      ≡ (as_delegate env id delegate Op.cancel (Payload.id_args id) w >>= cancel (waived env) id)
unfolding delegate_cancel cancel load_stream save_stream extend_stream extend_instance
    ttl_target_ledgers ttl_target_ledgers_at token_transfer
delegate_cancel-eq env id delegate w =
    behind_check (env.authorized delegate (Payload.id_args id))
      (check_delegate env id delegate Op.cancel w) _ _ (λ w'. refl)

delegate_resume-eq :
    (env : Env) (id : ℕ) (delegate : Address) (w : World)
    → delegate_resume env id delegate w
      ≡ (as_delegate env id delegate Op.resume (Payload.id_args id) w >>= resume (waived env) id)
unfolding delegate_resume resume load_stream save_stream extend_stream extend_instance
    ttl_target_ledgers ttl_target_ledgers_at token_transfer
delegate_resume-eq env id delegate w =
    behind_check (env.authorized delegate (Payload.id_args id))
      (check_delegate env id delegate Op.resume w) _ _ (λ w'. refl)

delegate_withdraw-eq :
    (env : Env) (id : ℕ) (delegate : Address) (amount : Option ℤ) (w : World)
    → delegate_withdraw env id delegate amount w ≡ (
        as_delegate env id delegate Op.withdraw (Payload.withdraw_args id amount) w
        >>= withdraw (waived env) id amount)
unfolding delegate_withdraw withdraw apply_withdrawal drawn close_pause load_stream save_stream
    extend_stream extend_instance ttl_target_ledgers ttl_target_ledgers_at token_transfer
delegate_withdraw-eq env id delegate amount w =
    behind_check (env.authorized delegate (Payload.withdraw_args id amount))
      (check_delegate env id delegate Op.withdraw w) _ _ (λ w'. refl)

-- A delegate's withdrawal, cancellation and resumption is, result and state alike, the call that
-- the owner would make, run after the delegate has authorized its arguments and its grant has been
-- found, unexpired and with the bit of that operation, and renewed.
pub delegate_calls_refine :
    (env : Env) (id : ℕ) (delegate : Address) (amount : Option ℤ) (w : World)
    → (delegate_withdraw env id delegate amount w ≡ (
        as_delegate env id delegate Op.withdraw (Payload.withdraw_args id amount) w
        >>= withdraw (waived env) id amount))
      × (delegate_cancel env id delegate w ≡ (
          as_delegate env id delegate Op.cancel (Payload.id_args id) w >>= cancel (waived env) id))
      × (delegate_resume env id delegate w ≡ (
          as_delegate env id delegate Op.resume (Payload.id_args id) w >>= resume (waived env) id))
delegate_calls_refine env id delegate amount w = (
  delegate_withdraw-eq env id delegate amount w,
  delegate_cancel-eq env id delegate w,
  delegate_resume-eq env id delegate w,
)
