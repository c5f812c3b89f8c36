-- ===== src/Stream/Inversion/Funding.antt =====
-- `create_stream`, `top_up` and `delegate_top_up`, read backwards.
use perpetua_contracts.Prelude.{
  ℕ, ◌-◌, ◌+◌, ◌*◌, ◌≤◌, ◌<◌, ◌≡◌, ◌≢◌, Bool, true, false, some, ◌∷◌, arith, inl, inr, Option-cases,
  leb, update,
}
use perpetua_contracts.Prelude.Int.{ℤ, pos, negsuc, leb_ℤ}
use perpetua_contracts.Words.{u64_max}
use perpetua_contracts.I128.{i128_max, checked_mul-pos}
use perpetua_contracts.Stream.Error.{Error, Result, ok, ◌>>=◌, ◌>>◌, fail_if, >>=-eq-ok}
use perpetua_contracts.Stream.Types.{Address, Stream, is_terminal}
use perpetua_contracts.Stream.Accrual.{stream_time}
use perpetua_contracts.Stream.Host.{Env, World, Payload, transfer_of, token_transfer}
use perpetua_contracts.Stream.Storage.{
  allocate_stream_id, next_stream_id, load_stream, save_stream, extend_stream, extend_instance,
}
use perpetua_contracts.Stream.Events
use perpetua_contracts.Stream.Lifecycle.{
  create_stream, new_stream, extended_schedule, top_up, bump_instance_ttl,
}
use perpetua_contracts.Stream.Effect.{Rewrites}

-- The record of a stream that is funded anew.
abbrev pub refunded : Stream → ℤ × ℕ → Stream
refunded s figures = record s { deposited = figures.0; end_time = figures.1 }

-- What `top_up` does once the caller is known.
abbrev pub fund : Env → ℕ → Stream → ℤ → World → Result World
fund env id s amount w = do
  fail_if (is_terminal s.status) Error.stream_terminated
  fail_if (leb_ℤ amount (pos 0)) Error.invalid_amount
  fail_if (leb s.end_time (stream_time s env.now)) Error.stream_matured
  figures ← extended_schedule s amount
  w ← token_transfer env s.token s.sender env.self amount w
  let s' : Stream = record s { deposited = figures.0; end_time = figures.1 }
  let w = save_stream env id s' w
  let w = bump_instance_ttl env w
  Events.topped_up id s' amount w

-- What a funding that succeeds has checked and written.
pub record Funded (env : Env) (id : ℕ) (s : Stream) (amount : ℤ) (figures : ℤ × ℕ) (w w' : World)
    : Type 0 where
  pub live : is_terminal s.status ≡ false
  pub positive : leb_ℤ amount (pos 0) ≡ false
  pub running : stream_time s env.now < s.end_time
  pub extended : extended_schedule s amount ≡ ok figures
  pub effect :
      Rewrites id
        (refunded s figures)
        (transfer_of s.token s.sender env.self amount ∷ w.transfers)
        w
        w'

pub fund_inv :
    (env : Env) (id : ℕ) (s : Stream) (amount : ℤ) (w w' : World)
    → fund env id s amount w ≡ ok w'
    → (figures : ℤ × ℕ) × Funded env id s amount figures w w'
unfolding save_stream extend_instance token_transfer Events.topped_up
fund_inv env id s amount w w' h =
    let (_, a, h1) = >>=-eq-ok (fail_if (is_terminal s.status) Error.stream_terminated) _ h in
    let (_, b, h2) = >>=-eq-ok (fail_if (leb_ℤ amount (pos 0)) Error.invalid_amount) _ h1 in
    let (_, c, h3) =
      >>=-eq-ok (fail_if (leb s.end_time (stream_time s env.now)) Error.stream_matured) _ h2 in
    let (figures, d, h4) = >>=-eq-ok (extended_schedule s amount) _ h3 in
    (
      figures,
      record {
        live = ground arith;
        positive = ground arith;
        running = ground arith;
        extended = d;
        effect = ground arith;
      },
    )

pub top_up_inv :
    (env : Env) (id : ℕ) (amount : ℤ) (w w' : World)
    → top_up env id amount w ≡ ok w'
    → (s : Stream) × (w.streams id ≡ some s)
      × (env.authorized s.sender (Payload.amount_args id amount) ≡ true)
      × (fund env id s amount (extend_stream env id s w) ≡ ok w')
unfolding top_up load_stream
top_up_inv env id amount w w' h = elim (Option-cases (w.streams id)) [
  | inl e ↦ ground arith
  | inr (s, e) ↦ (s, e, ground arith, ground arith)
]

-- What a creation that succeeds has checked and written.
pub record Created (env : Env) (sender recipient token : Address) (deposit : ℤ)
    (start_time end_time cliff_time : ℕ) (cancellable pausable transferable : Bool) (id : ℕ)
    (w w' : World) : Type 0 where
  pub granted :
      env.authorized sender (
        Payload.create_args recipient token deposit start_time end_time cliff_time cancellable
          pausable transferable)
      ≡ true
  pub parties : sender ≢ recipient
  pub amount : ℕ
  pub deposited : deposit ≡ pos amount
  pub ordered : start_time < end_time
  pub after_start : start_time ≤ cliff_time
  pub before_end : cliff_time ≤ end_time
  pub rate : end_time - start_time ≤ amount
  pub scaled : amount * (end_time - start_time) ≤ i128_max
  pub fresh : id ≡ next_stream_id w
  pub in_range : id + 1 ≤ u64_max
  pub written :
      w'.streams
      ≡ update w.streams id (
          some (
            new_stream sender recipient token deposit start_time end_time cliff_time cancellable
              pausable transferable))
  pub next_ids : w'.next_id ≡ some (id + 1)
  pub moved : w'.transfers ≡ transfer_of token sender env.self deposit ∷ w.transfers
  pub same_delegates : w'.delegates ≡ w.delegates

pub create_stream_inv :
    (env : Env) (sender recipient token : Address) (deposit : ℤ) (a b c : ℕ) (x y z : Bool) (id : ℕ)
    (w w' : World)
    → create_stream env sender recipient token deposit a b c x y z w ≡ ok (id, w')
    → Created env sender recipient token deposit a b c x y z id w w'
unfolding create_stream allocate_stream_id save_stream extend_instance token_transfer
    Events.stream_created
create_stream_inv env sender recipient token (pos d) a b c x y z id w w' h = record {
  granted = ground arith;
  parties = ground arith;
  amount = d;
  deposited = ground arith;
  ordered = ground arith;
  after_start = ground arith;
  before_end = ground arith;
  rate = ground arith;
  scaled = ground (arith, checked_mul-pos d (b - a));
  fresh = ground arith;
  in_range = ground arith;
  written = ground arith;
  next_ids = ground arith;
  moved = ground arith;
  same_delegates = ground arith;
}
create_stream_inv env sender recipient token (negsuc d) a b c x y z id w w' h =
    absurd (ground arith)
