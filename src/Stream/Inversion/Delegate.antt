-- ===== src/Stream/Inversion/Delegate.antt =====
-- The check of a grant, and the entry points of a delegate that differ from the owner's, read
-- backwards.
use perpetua_contracts.Prelude.{
  ℕ, ◌≡◌, ◌≢◌, ◌⊎◌, inl, inr, true, false, some, arith, Option-cases, Option,
}
use perpetua_contracts.Prelude.Int.{ℤ}
use perpetua_contracts.Words.{any_bit}
use perpetua_contracts.Stream.Op
use perpetua_contracts.Stream.Error.{ok, >>=-eq-ok, Result-cases}
use perpetua_contracts.Stream.Types.{
  Address, Stream, StreamStatus, DelegateGrant, is_terminal, pausable, transferable,
}
use perpetua_contracts.Stream.Host.{Env, World, Payload, require_auth, token_transfer}
use perpetua_contracts.Stream.Storage.{
  load_stream, save_stream, extend_instance, load_delegate, extend_stream, save_delegate,
  remove_delegate,
}
use perpetua_contracts.Stream.Events
use perpetua_contracts.Stream.Lifecycle.{status_eq, extended_schedule}
use perpetua_contracts.Stream.Pausing.{frozen}
use perpetua_contracts.Stream.Recipient.{is_spent}
use perpetua_contracts.Stream.Delegation.{
  is_expired, check_delegate, delegate_pause, delegate_top_up, delegate_transfer_recipient,
  grant_delegate, record_grant, revoke_delegate,
}
use perpetua_contracts.Stream.Delegation.Refinement.{as_delegate}
use perpetua_contracts.Stream.Effect.{Rewrites, Keeps}
use perpetua_contracts.Stream.Inversion.Funding.{Funded}

-- The delegate holds an unexpired grant with the bit `op`, and only the life of the grant changes.
pub record Permitted (env : Env) (id : ℕ) (caller : Address) (op : ℕ) (w w' : World) : Type 0 where
  pub grant : DelegateGrant
  pub found : w.delegates id caller ≡ some grant
  pub unexpired : is_expired grant env.now ≡ false
  pub covers : any_bit grant.ops op ≡ true
  pub keeps : Keeps w w'
  pub same_delegates : w'.delegates ≡ w.delegates

pub check_delegate_inv :
    (env : Env) (id : ℕ) (caller : Address) (op : ℕ) (w w' : World)
    → check_delegate env id caller op w ≡ ok w'
    → Permitted env id caller op w w'
unfolding check_delegate load_delegate
check_delegate_inv env id caller op w w' h = elim (Option-cases (w.delegates id caller)) [
  | inl e ↦ absurd (ground arith)
  | inr (g, e) ↦ record {
    grant = g;
    found = e;
    unexpired = ground arith;
    covers = ground arith;
    keeps = record {
      same_streams = ground arith;
      same_ids = ground arith;
      same_transfers = ground arith;
    };
    same_delegates = ground arith;
  }
]

pub as_delegate_inv :
    (env : Env) (id : ℕ) (delegate : Address) (op : ℕ) (args : Payload) (w w' : World)
    → as_delegate env id delegate op args w ≡ ok w'
    → (env.authorized delegate args ≡ true) × Permitted env id delegate op w w'
as_delegate_inv env id delegate op args w w' h =
    let (_, a, h1) = >>=-eq-ok (require_auth env delegate args) _ h in
    (ground arith, check_delegate_inv env id delegate op w w' h1)

pub delegate_pause_inv :
    (env : Env) (id : ℕ) (delegate : Address) (w w' : World)
    → delegate_pause env id delegate w ≡ ok w'
    → (w1 : World) × (s : Stream) × (as_delegate env id delegate Op.pause (Payload.id_args id) w
        ≡ ok w1)
      × (w1.streams id ≡ some s)
      × (pausable s ≡ true)
      × (is_terminal s.status ≡ false)
      × (status_eq s.status StreamStatus.paused ≡ false)
      × Rewrites id (frozen s env.now) w1.transfers w1 w'
unfolding delegate_pause load_stream save_stream extend_instance Events.paused
delegate_pause_inv env id delegate w w' h =
    let (_, a, h1) = >>=-eq-ok (require_auth env delegate (Payload.id_args id)) _ h in
    let (w1, b, h2) = >>=-eq-ok (check_delegate env id delegate Op.pause w) _ h1 in
    elim (Option-cases (w1.streams id)) [
      | inl e ↦ absurd (ground arith)
      | inr (s, e) ↦
          (w1, s, ground arith, e, ground arith, ground arith, ground arith, ground arith)
    ]

pub delegate_top_up_inv :
    (env : Env) (id : ℕ) (delegate : Address) (amount : ℤ) (w w' : World)
    → delegate_top_up env id delegate amount w ≡ ok w'
    → (w1 : World) × (s : Stream) × (figures : ℤ × ℕ) × (as_delegate env id delegate Op.top_up
          (Payload.amount_args id amount)
          w
        ≡ ok w1)
      × (w1.streams id ≡ some s)
      × (env.authorized s.sender Payload.whole_call ≡ true)
      × Funded env id s amount figures w1 w'
unfolding delegate_top_up load_stream save_stream extend_instance token_transfer Events.topped_up
delegate_top_up_inv env id delegate amount w w' h =
    let (_, a, h1) = >>=-eq-ok (require_auth env delegate (Payload.amount_args id amount)) _ h in
    let (w1, b, h2) = >>=-eq-ok (check_delegate env id delegate Op.top_up w) _ h1 in
    elim (Option-cases (w1.streams id)) [
      | inl e ↦ absurd (ground arith)
      | inr (s, e) ↦ elim (Result-cases (extended_schedule s amount)) [
        | inl (figures, f) ↦ (
          w1,
          s,
          figures,
          ground arith,
          e,
          ground arith,
          record {
            live = ground arith;
            positive = ground arith;
            running = ground arith;
            extended = f;
            effect = ground arith;
          },
        )
        | inr none_left ↦ absurd (ground arith)
      ]
    ]

-- A delegate that names the present recipient changes nothing; any other becomes the recipient.
pub delegate_transfer_recipient_inv :
    (env : Env) (id : ℕ) (delegate new_recipient : Address) (w w' : World)
    → delegate_transfer_recipient env id delegate new_recipient w ≡ ok w'
    → (w1 : World) × (s : Stream) × (as_delegate env id delegate Op.transfer_recipient
          (Payload.address_args id new_recipient)
          w
        ≡ ok w1)
      × (w1.streams id ≡ some s)
      × (transferable s ≡ true)
      × (is_spent s ≡ false)
      × (new_recipient ≢ s.sender)
      × (Keeps w1 w' ⊎ Rewrites id (record s { recipient = new_recipient }) w1.transfers w1 w')
unfolding delegate_transfer_recipient load_stream save_stream extend_instance
    Events.recipient_transferred
delegate_transfer_recipient_inv env id delegate r w w' h =
    let (_, a, h1) = >>=-eq-ok (require_auth env delegate (Payload.address_args id r)) _ h in
    let (w1, b, h2) = >>=-eq-ok (check_delegate env id delegate Op.transfer_recipient w) _ h1 in
    elim (Option-cases (w1.streams id)) [
      | inl e ↦ absurd (ground arith)
      | inr (s, e) ↦
          (w1, s, ground arith, e, ground arith, ground arith, ground arith, ground arith)
    ]

pub grant_delegate_inv :
    (env : Env) (id : ℕ) (grantor delegate : Address) (ops : ℕ) (expires : Option ℕ) (w w' : World)
    → grant_delegate env id grantor delegate ops expires w ≡ ok w'
    → Keeps w w'
unfolding grant_delegate record_grant load_stream save_delegate extend_stream extend_instance
    Events.delegate_granted
grant_delegate_inv env id grantor delegate ops expires w w' h = elim (Option-cases (w.streams id)) [
  | inl e ↦ absurd (ground arith)
  | inr (s, e) ↦ record {
    same_streams = ground arith;
    same_ids = ground arith;
    same_transfers = ground arith;
  }
]

pub revoke_delegate_inv :
    (env : Env) (id : ℕ) (grantor delegate : Address) (w w' : World)
    → revoke_delegate env id grantor delegate w ≡ ok w'
    → Keeps w w'
unfolding revoke_delegate load_stream remove_delegate extend_stream extend_instance
    Events.delegate_revoked
revoke_delegate_inv env id grantor delegate w w' h = elim (Option-cases (w.streams id)) [
  | inl e ↦ absurd (ground arith)
  | inr (s, e) ↦ record {
    same_streams = ground arith;
    same_ids = ground arith;
    same_transfers = ground arith;
  }
]
