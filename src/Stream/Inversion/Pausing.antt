-- ===== src/Stream/Inversion/Pausing.antt =====
-- `pause`, `resume` and `transfer_recipient`, read backwards.
use perpetua_contracts.Prelude.{
  ℕ, ◌-◌, ◌+◌, ◌≤◌, ◌≡◌, ◌≢◌, true, false, some, none, arith, inl, inr, Option-cases,
}
use perpetua_contracts.Words.{u64_max}
use perpetua_contracts.Stream.Error.{ok}
use perpetua_contracts.Stream.Types.{
  Address, Stream, StreamStatus, is_terminal, pausable, transferable,
}
use perpetua_contracts.Stream.Host.{Env, World, Payload}
use perpetua_contracts.Stream.Storage.{load_stream, save_stream, extend_instance}
use perpetua_contracts.Stream.Events
use perpetua_contracts.Stream.Lifecycle.{status_eq}
use perpetua_contracts.Stream.Pausing.{frozen, thawed, pause, resume}
use perpetua_contracts.Stream.Recipient.{is_spent, transfer_recipient}
use perpetua_contracts.Stream.Effect.{Rewrites}

pub pause_inv :
    (env : Env) (id : ℕ) (w w' : World)
    → pause env id w ≡ ok w'
    → (s : Stream) × (w.streams id ≡ some s)
      × (env.authorized s.sender (Payload.id_args id) ≡ true)
      × (pausable s ≡ true)
      × (is_terminal s.status ≡ false)
      × (s.paused_at ≡ none)
      × Rewrites id (frozen s env.now) w.transfers w w'
unfolding pause load_stream save_stream extend_instance Events.paused
pause_inv env id w w' h = elim (Option-cases (w.streams id)) [
  | inl e ↦ ground arith
  | inr (s, e) ↦
      (s, ground arith, ground arith, ground arith, ground arith, ground arith, ground arith)
]

pub resume_inv :
    (env : Env) (id : ℕ) (w w' : World)
    → resume env id w ≡ ok w'
    → (s : Stream) × (p : ℕ) × (w.streams id ≡ some s)
      × (s.paused_at ≡ some p)
      × (env.authorized s.sender (Payload.id_args id) ≡ true)
      × (status_eq s.status StreamStatus.paused ≡ true)
      × (s.paused_total + (env.now - p) ≤ u64_max)
      × Rewrites id (thawed s (s.paused_total + (env.now - p))) w.transfers w w'
unfolding resume load_stream save_stream extend_instance Events.resumed
resume_inv env id w w' h = elim (Option-cases (w.streams id)) [
  | inl e ↦ ground arith
  | inr (s, e) ↦ elim (Option-cases s.paused_at) [
    | inl n ↦ ground arith
    | inr (p, e') ↦ (s, p, e, e', ground arith, ground arith, ground arith, ground arith)
  ]
]

pub transfer_recipient_inv :
    (env : Env) (id : ℕ) (new_recipient : Address) (w w' : World)
    → transfer_recipient env id new_recipient w ≡ ok w'
    → (s : Stream) × (w.streams id ≡ some s)
      × (env.authorized s.sender (Payload.address_args id new_recipient) ≡ true)
      × (transferable s ≡ true)
      × (is_spent s ≡ false)
      × (new_recipient ≢ s.sender)
      × (new_recipient ≢ s.recipient)
      × Rewrites id (record s { recipient = new_recipient }) w.transfers w w'
unfolding transfer_recipient load_stream save_stream extend_instance Events.recipient_transferred
transfer_recipient_inv env id r w w' h = elim (Option-cases (w.streams id)) [
  | inl e ↦ ground arith
  | inr (s, e) ↦
      (s, e, ground arith, ground arith, ground arith, ground arith, ground arith, ground arith)
]
