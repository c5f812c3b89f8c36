-- ===== src/Launch/Examples.antt =====
-- A creation through the factory on concrete states.
use perpetua_contracts.Prelude.{ℕ, ◌≡◌, none, refl}
use perpetua_contracts.Prelude.Int.{◌*ℤ◌, ◌/ℤ◌}
use perpetua_contracts.I128.{checked_mul, checked_div}
use perpetua_contracts.Stream.Host.{World, token_transfer}
use perpetua_contracts.Stream.Storage.{
  next_stream_id, allocate_stream_id, save_stream, extend_stream, extend_instance,
}
use perpetua_contracts.Stream.Events
use perpetua_contracts.Stream.Lifecycle
use perpetua_contracts.Stream.Inversion.Funding.{Created}
use perpetua_contracts.Stream.Contract.Reachability.{deployed, deployed-IsSound}
use perpetua_contracts.Stream.Examples.{env_at}
use perpetua_contracts.Factory.Types.{Outcome, done, failed, trap}
use perpetua_contracts.Factory.Host.{Store, load_config}
use perpetua_contracts.Factory.Admin.{init}
use perpetua_contracts.Factory.Creation.{create_stream, check_terms, check_rate}
use perpetua_contracts.Factory.Contract.{perform}
use perpetua_contracts.Factory.Contract.Admission.{Admitted}
use perpetua_contracts.Factory.Examples.{env, ready, terms}
use perpetua_contracts.Launch.{linked, launch_opens_within_policy}

abbrev store_of : Outcome (ℕ × Store) → Store
store_of (done (id, s)) = s
store_of (failed code) = ready
store_of trap = ready

abbrev launched : Store
launched = store_of (create_stream (linked env (env_at 0) deployed) terms ready)

launches : create_stream (linked env (env_at 0) deployed) terms ready ≡ done (0, launched)
unfolding perform init create_stream load_config check_terms check_rate checked_div ◌/ℤ◌
    Lifecycle.create_stream allocate_stream_id next_stream_id save_stream extend_stream
    extend_instance token_transfer Events.stream_created checked_mul ◌*ℤ◌
launches = refl

launch_opens_within_policy_example :
    (w' : World) × Admitted (linked env (env_at 0) deployed) terms 0 ready launched
    × Created
        (env_at 0)
        terms.sender
        terms.recipient
        terms.token
        terms.deposit
        terms.start_time
        terms.end_time
        terms.cliff_time
        terms.cancellable
        terms.pausable
        terms.transferable
        0
        deployed
        w'
    × (deployed.streams 0 ≡ none)
launch_opens_within_policy_example =
    launch_opens_within_policy env (env_at 0) terms 0 ready launched deployed (deployed-IsSound 100)
      launches
