-- ===== src/Stream/Guarantee/Creation.antt =====
-- `create_stream` of contracts/stream/src/lib.rs, in a sound state.
use perpetua_contracts.Prelude.{
  ℕ, ◌+◌, ◌-◌, ◌*◌, ◌≤◌, ◌<◌, ◌≡◌, ◌≢◌, Bool, true, none, arith, inl, inr,
}
use perpetua_contracts.Prelude.Int.{ℤ, pos}
use perpetua_contracts.Words.{u64_max}
use perpetua_contracts.I128.{i128_max, checked_mul-pos}
use perpetua_contracts.Stream.Error.{ok, Result-cases}
use perpetua_contracts.Stream.Types.{Address}
use perpetua_contracts.Stream.Host.{
  Env, World, Payload, TransferOutcome, transfer_of, token_transfer,
}
use perpetua_contracts.Stream.Storage.{
  next_stream_id, allocate_stream_id, save_stream, extend_instance,
}
use perpetua_contracts.Stream.Events
use perpetua_contracts.Stream.Lifecycle.{create_stream}
use perpetua_contracts.Stream.Inversion.Funding.{Created, create_stream_inv}
use perpetua_contracts.Stream.Invariant.Sound.{IsSound}

-- A creation that succeeds in a sound state is one that the sender authorized with its terms, with
-- two different parties, an interval of at least a second, a cliff inside it, a deposit of at least one unit a second and no product
-- out of range. It stores the new stream under the next id, which no stream had before, leaves every
-- other stream and every grant, and takes the deposit from the sender in one transfer.
pub create_stream_opens :
    (env : Env) (sender recipient token : Address) (deposit : ℤ) (a b c : ℕ) (x y z : Bool) (id : ℕ)
    (w w' : World)
    → IsSound env.self env.now w
    → create_stream env sender recipient token deposit a b c x y z w ≡ ok (id, w')
    → Created env sender recipient token deposit a b c x y z id w w' × (w.streams id ≡ none)
create_stream_opens env sender recipient token deposit a b c x y z id w w' v h =
    let made = create_stream_inv env sender recipient token deposit a b c x y z id w w' h in
    (made, v.unissued id (omega (arith, made.fresh)))

-- A creation whose terms are right cannot fail unless the sender has not authorized it, the token
-- refuses the deposit or the ids are used up, and it returns the next id.
pub create_stream_succeeds :
    (env : Env) (sender recipient token : Address) (amount a b c : ℕ) (x y z : Bool) (w : World)
    → env.authorized sender (Payload.create_args recipient token (pos amount) a b c x y z) ≡ true
    → sender ≢ recipient
    → a < b
    → a ≤ c
    → c ≤ b
    → b - a ≤ amount
    → amount * (b - a) ≤ i128_max
    → next_stream_id w + 1 ≤ u64_max
    → env.try_transfer w.transfers (transfer_of token sender env.self (pos amount))
      ≡ TransferOutcome.done
    → (w' : World) × (create_stream env sender recipient token (pos amount) a b c x y z w
        ≡ ok (next_stream_id w, w'))
unfolding create_stream allocate_stream_id save_stream extend_instance token_transfer
    Events.stream_created
create_stream_succeeds env sender recipient token amount a b c x y z w g p o1 o2 o3 r m n t =
    elim (Result-cases (create_stream env sender recipient token (pos amount) a b c x y z w)) [
      | inl ((id, w'), done) ↦ (w', ground (arith, checked_mul-pos amount (b - a)))
      | inr failed ↦ absurd (ground (arith, checked_mul-pos amount (b - a)))
    ]
