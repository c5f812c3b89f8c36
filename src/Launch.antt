-- ===== src/Launch.antt =====
-- A creation through the factory, contracts/factory/src/lib.rs, with the streaming contract,
-- contracts/stream/src/lib.rs, behind it: `invoke_contract` calls the model of `create_stream`.

pub mod Examples
use perpetua_contracts.Prelude.{ℕ, ◌-◌, ◌≤◌, ◌≡◌, Option, none, some, arith, refl, inl, inr}
use perpetua_contracts.Prelude.Int.{pos}
use perpetua_contracts.Stream.Error.{Result, ok, err, trap, Result-cases}
use perpetua_contracts.Stream.Types.{Stream}
use perpetua_contracts.Stream.Host.{World}
use perpetua_contracts.Stream.Host
use perpetua_contracts.Stream.Lifecycle
use perpetua_contracts.Stream.Lifecycle.{new_stream}
use perpetua_contracts.Stream.Inversion.Funding.{Created}
use perpetua_contracts.Stream.Invariant.Sound.{IsSound}
use perpetua_contracts.Stream.Guarantee.Creation.{create_stream_opens}
use perpetua_contracts.Factory.Types.{Address, Outcome, done}
use perpetua_contracts.Factory.Host.{Env, Store, Terms}
use perpetua_contracts.Factory.Creation
use perpetua_contracts.Factory.Contract.Admission.{Admitted, admission_within_policy}

-- The call that the factory makes.
abbrev pub invoked : Host.Env → Terms → World → Result (ℕ × World)
invoked stream_env t w =
    Lifecycle.create_stream stream_env t.sender t.recipient t.token t.deposit t.start_time
      t.end_time t.cliff_time t.cancellable t.pausable t.transferable w

abbrev pub id_of : Result (ℕ × World) → Option ℕ
id_of (ok (id, w)) = some id
id_of (err e) = none
id_of trap = none

-- The environment of the factory in which the stream contract answers from the state `w`.
abbrev pub linked : Env → Host.Env → World → Env
linked env stream_env w = record env {
  created = λ stream_contract t. id_of (invoked stream_env t w);
}

pub id_of_inv :
    (r : Result (ℕ × World)) (id : ℕ) → id_of r ≡ some id → (w : World) × (r ≡ ok (id, w))
id_of_inv (ok (j, w)) id h = (w, ground arith)
id_of_inv (err e) id h = absurd (ground arith)
id_of_inv trap id h = absurd (ground arith)

-- The stream that the factory launches is a stream of the contract, and within the policy: if the
-- stream contract's state is sound, the call has stored, under an id that no stream had, a stream
-- with just these terms and their deposit moved into the contract, and the policy of the factory admits the terms.
pub launch_opens_within_policy :
    (env : Env) (stream_env : Host.Env) (t : Terms) (id : ℕ) (s s' : Store) (w : World)
    → IsSound stream_env.self stream_env.now w
    → Creation.create_stream (linked env stream_env w) t s ≡ done (id, s')
    → (w' : World) × Admitted (linked env stream_env w) t id s s'
      × Created stream_env t.sender t.recipient t.token t.deposit t.start_time t.end_time
          t.cliff_time t.cancellable t.pausable t.transferable id w w'
      × (w.streams id ≡ none)
launch_opens_within_policy env stream_env t id s s' w v h =
    let a = admission_within_policy (linked env stream_env w) t id s s' h in
    let (w', e) = id_of_inv (invoked stream_env t w) id a.created in
    let (made, fresh) =
      create_stream_opens stream_env t.sender t.recipient t.token t.deposit t.start_time t.end_time
        t.cliff_time t.cancellable t.pausable t.transferable id w w' v e in
    (w', a, made, fresh)
