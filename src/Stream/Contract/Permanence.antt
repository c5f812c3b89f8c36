-- ===== src/Stream/Contract/Permanence.antt =====
-- The calls of contracts/stream/src/lib.rs, and the streams that are stored before them.
pub mod Batches
use perpetua_contracts.Prelude.{
  ℕ, ◌+◌, ◌-◌, ◌≤◌, ◌≡◌, ◌≢◌, inl, inr, true, false, Option, Option-cases, none, some, List, arith,
  refl, sym, ◌∙◌, Bool-cases, ◌==◌, update,
}
use perpetua_contracts.Prelude.Int.{ℤ}
use perpetua_contracts.Words.{u64_max}
use perpetua_contracts.Stream.Op
use perpetua_contracts.Stream.Error.{ok, ◌>>=◌}
use perpetua_contracts.Stream.Types.{Address, Stream, StreamStatus, is_terminal}
use perpetua_contracts.Stream.Host.{Env, World, Payload}
use perpetua_contracts.Stream.Storage.{extend_stream}
use perpetua_contracts.Stream.Lifecycle
use perpetua_contracts.Stream.Lifecycle.{status_eq}
use perpetua_contracts.Stream.Pausing
use perpetua_contracts.Stream.Recipient
use perpetua_contracts.Stream.Batch
use perpetua_contracts.Stream.Batch.Preflight.{RawValue}
use perpetua_contracts.Stream.Delegation
use perpetua_contracts.Stream.Delegation.Refinement.{waived, delegate_calls_refine}
use perpetua_contracts.Stream.Keeper
use perpetua_contracts.Stream.Effect.{Rewrites, Keeps}
use perpetua_contracts.Stream.Inversion.Pausing.{pause_inv, resume_inv, transfer_recipient_inv}
use perpetua_contracts.Stream.Inversion.Payment.{withdraw_inv, cancel_inv, settle_inv}
use perpetua_contracts.Stream.Inversion.Funding.{Funded, fund_inv, top_up_inv, create_stream_inv}
use perpetua_contracts.Stream.Inversion.Delegate.{
  as_delegate_inv, delegate_pause_inv, delegate_top_up_inv, delegate_transfer_recipient_inv,
  grant_delegate_inv, revoke_delegate_inv,
}
use perpetua_contracts.Stream.Inversion.Keeper.{
  extend_stream_ttl_inv, batch_extend_ttl_inv, batch_withdraw_inv, batch_transfer_recipient_inv,
}
use perpetua_contracts.Stream.Invariant.Sound.{IsSound, Keeps-IsSound}
use perpetua_contracts.Stream.Preserve.Calls.{touch-IsSound}
use perpetua_contracts.Stream.Preserve.Batch.{resolve-IsResolved}
use perpetua_contracts.Stream.Preserve.BatchTransfer.{peek_all-IsPeeked}
use perpetua_contracts.Stream.Contract.{Call, perform, HostRules}
use perpetua_contracts.Stream.Contract.Soundness.{state_of_inv, behind-IsSound}
use perpetua_contracts.Stream.Contract.History.{
  Continues, Lasts, Lasts-trans, Keeps-Lasts, Rewrites-Lasts, claim-Lasts, renamed-Continues,
  live-Continues,
}
use Batches.{pay_all-Lasts, transfer_all-Lasts}

pub touched-Lasts :
    (env : Env) (id : ℕ) (s : Stream) (w w' : World)
    → Lasts (extend_stream env id s w) w'
    → Lasts w w'
unfolding extend_stream
touched-Lasts env id s w w' h = h

module _ (env : Env) (u : env.now ≤ u64_max) (w w' : World) (v : IsSound env.self env.now w) where
  pub withdraw-Lasts :
      (id : ℕ) (amount : Option ℤ) (payout : ℤ)
      → Lifecycle.withdraw env id amount w ≡ ok (payout, w')
      → Lasts w w'
  unfolding extend_stream
  withdraw-Lasts id amount payout h =
      let (s, e, _, h1) = withdraw_inv env id amount payout w w' h in
      touched-Lasts env id s w w' (
        claim-Lasts env id s amount payout (extend_stream env id s w) w' u
          (touch-IsSound env id s w v) e h1)

  pub cancel-Lasts : (id : ℕ) → Lifecycle.cancel env id w ≡ ok w' → Lasts w w'
  unfolding extend_stream
  cancel-Lasts id h =
      let (s, e, _, h1) = cancel_inv env id w w' h in
      let (_, _, _, live, _, _, effect) = settle_inv env id s (extend_stream env id s w) w' h1 in
      touched-Lasts env id s w w' (
        Rewrites-Lasts id s _ _ (extend_stream env id s w) w' e effect
          (live-Continues s _ live refl refl refl refl refl refl))

  pub Funded-Lasts :
      (id : ℕ) (s : Stream) (amount : ℤ) (figures : ℤ × ℕ)
      → w.streams id ≡ some s
      → Funded env id s amount figures w w'
      → Lasts w w'
  Funded-Lasts id s amount figures e f =
      Rewrites-Lasts id s _ _ w w' e f.effect
        (live-Continues s _ f.live refl refl refl refl refl refl)

  pub pause-Lasts : (id : ℕ) → Pausing.pause env id w ≡ ok w' → Lasts w w'
  pause-Lasts id h =
      let (s, e, _, _, live, _, effect) = pause_inv env id w w' h in
      Rewrites-Lasts id s _ _ w w' e effect (live-Continues s _ live refl refl refl refl refl refl)

  pub resume-Lasts : (id : ℕ) → Pausing.resume env id w ≡ ok w' → Lasts w w'
  resume-Lasts id h =
      let (s, p, e, _, _, paused, _, effect) = resume_inv env id w w' h in
      Rewrites-Lasts id s _ _ w w' e effect
        (live-Continues s _ (ground arith) refl refl refl refl refl refl)

  pub transfer-Lasts :
      (id : ℕ) (r : Address) → Recipient.transfer_recipient env id r w ≡ ok w' → Lasts w w'
  transfer-Lasts id r h =
      let (s, e, _, _, _, _, _, effect) = transfer_recipient_inv env id r w w' h in
      Rewrites-Lasts id s _ _ w w' e effect (renamed-Continues s r)

  pub batch_withdraw-Lasts :
      (recipient : Address) (raws : List RawValue) (total : ℤ)
      → Batch.batch_withdraw env recipient raws w ≡ ok (total, w')
      → Lasts w w'
  batch_withdraw-Lasts recipient raws total h =
      let (ids, ps, w1, _, distinct, _, a, b, k) =
        batch_withdraw_inv env recipient raws total w w' h in
      let (r, _) = resolve-IsResolved recipient env.now w ids _ ps total distinct a in
      Lasts-trans w w1 w' (pay_all-Lasts env ps w w1 u v r b) (Keeps-Lasts w1 w' k)

  pub batch_transfer-Lasts :
      (raws : List RawValue) (r : Address) (n : ℕ)
      → Batch.batch_transfer_recipient env raws r w ≡ ok (n, w')
      → Lasts w w'
  batch_transfer-Lasts raws r n h =
      let (ids, l, sender, w1, _, distinct, a, _, b, k) =
        batch_transfer_recipient_inv env raws r n w w' h in
      let (x, _) = peek_all-IsPeeked w ids l distinct a in
      Lasts-trans w w1 w' (transfer_all-Lasts env sender r l 0 n w w1 x b) (Keeps-Lasts w1 w' k)
