-- ===== src/Factory/Examples.antt =====
-- Runs of the factory on concrete storages, and its properties applied to them.
use perpetua_contracts.Prelude.{
  none, ◌+◌, ◌-◌, ◌≤◌, ◌<◌, ◌≡◌, ◌⊎◌, true, not, ◌||◌, ◌==◌, some, length, refl, arith,
}
use perpetua_contracts.Prelude.Int.{pos, ◌/ℤ◌}
use perpetua_contracts.I128.{checked_div}
use perpetua_contracts.Factory.Types.{FactoryConfig, RateLimitBucket, Outcome, done, failed, trap}
use perpetua_contracts.Factory.Host.{Env, Store, Terms, load_config}
use perpetua_contracts.Factory.Admin.{
  guard, init, set_admin, propose_admin, accept_admin, is_forbidden_admin, first_config,
}
use perpetua_contracts.Factory.Limits.{current_bucket, record_creation_with_config}
use perpetua_contracts.Factory.Creation.{create_stream, check_terms, check_rate}
use perpetua_contracts.Factory.Contract.{Call, perform, HostRules}
use perpetua_contracts.Factory.Contract.Soundness.{IsPoliced}
use perpetua_contracts.Factory.Contract.Admission.{Admitted, admission_within_policy}
use perpetua_contracts.Factory.Contract.Reachability.{Reach, deployed, reachable-IsPoliced}
use perpetua_contracts.Factory.Guarantee.{
  IsAuthorized, factory_calls-IsAuthorized, record_creation_limits,
}

-- The factory at address 50; address 0 is the account that cannot sign.
abbrev pub env : Env
env = record {
  self = 50;
  zero_address = 0;
  sequence = 1000;
  authorized = λ who. not (who == 0 || who == 50);
  created = λ stream_contract terms. some 0;
}

rules : HostRules env
rules = record { unsigned = refl; silent = refl }

abbrev pub store_after : Outcome Store → Store
store_after (done s) = s
store_after (failed code) = deployed
store_after trap = deployed

abbrev pub config : FactoryConfig
config = first_config 1 77 5 (pos 1000) 10

abbrev pub setup : Call
setup = Call.init 1 77 5 (pos 1000) 10

abbrev pub terms : Terms
terms = record {
  sender = 2;
  recipient = 3;
  token = 9;
  deposit = pos 500;
  start_time = 0;
  end_time = 100;
  cliff_time = 10;
  cancellable = true;
  pausable = true;
  transferable = true;
}

abbrev pub ready : Store
ready = store_after (perform env setup deployed)

sets_up : perform env setup deployed ≡ done ready
unfolding perform init load_config
sets_up = refl

abbrev launched : Store
launched = store_after (perform env (Call.create_stream terms) ready)

launches : create_stream env terms ready ≡ done (0, launched)
unfolding perform init load_config create_stream check_terms check_rate checked_div ◌/ℤ◌
launches = refl

abbrev nominated : Store
nominated = store_after (propose_admin env 4 ready)

nominates : propose_admin env 4 ready ≡ done nominated
unfolding perform init load_config propose_admin guard is_forbidden_admin
nominates = refl

abbrev handed_over : Store
handed_over = store_after (accept_admin env nominated)

hands_over : accept_admin env nominated ≡ done handed_over
unfolding perform init load_config propose_admin accept_admin guard is_forbidden_admin
hands_over = refl

abbrev overruled : Store
overruled = store_after (set_admin env 6 nominated)

overrules : set_admin env 6 nominated ≡ done overruled
unfolding perform init load_config propose_admin set_admin guard is_forbidden_admin
overrules = refl

abbrev recorded : Store
recorded = store_after (record_creation_with_config env 2 config ready)

records : record_creation_with_config env 2 config ready ≡ done recorded
unfolding perform init load_config record_creation_with_config current_bucket
records = refl

ready_reached : Reach 50 0 ready
ready_reached = Reach.step Reach.start env setup ready refl refl rules sets_up

reachable-IsPoliced_example : IsPoliced 50 0 (length ready.launched) config
unfolding perform init
reachable-IsPoliced_example = reachable-IsPoliced 50 0 ready config ready_reached refl

admission_within_policy_example : Admitted env terms 0 ready launched
admission_within_policy_example = admission_within_policy env terms 0 ready launched launches

factory_calls-IsAuthorized_example : IsAuthorized env deployed setup
factory_calls-IsAuthorized_example = factory_calls-IsAuthorized env setup deployed ready sets_up

record_creation_limits_example :
    (b : RateLimitBucket) × (recorded.rate_limit 2 ≡ some b)
    × (env.authorized 2 ≡ true)
    × (0 < b.creations)
    × (b.creations ≤ config.max_creations_per_window)
    × (1000 - b.window_start < config.rate_limit_window_ledgers)
    × ((b.window_start ≡ 1000)
          × (b.creations ≡ 1)
          × ((ready.rate_limit 2 ≡ none)
              ⊎ ((old : RateLimitBucket) × (ready.rate_limit 2 ≡ some old)
                  × (config.rate_limit_window_ledgers ≤ 1000 - old.window_start)))
        ⊎ ((old : RateLimitBucket) × (ready.rate_limit 2 ≡ some old)
            × (1000 - old.window_start < config.rate_limit_window_ledgers)
            × (b.window_start ≡ old.window_start)
            × (b.creations ≡ old.creations + 1)))
record_creation_limits_example =
    record_creation_limits env 2 config ready recorded (omega arith) records
