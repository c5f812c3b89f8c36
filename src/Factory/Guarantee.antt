-- ===== src/Factory/Guarantee.antt =====
-- Single calls of contracts/factory/src/lib.rs.
use perpetua_contracts.Prelude.{
  ℕ, ◌+◌, ◌-◌, ◌≤◌, ◌<◌, ◌≡◌, ◌⊎◌, inl, inr, true, none, some, ⊤, leb, arith, refl, Option-cases,
  Bool-cases,
}
use perpetua_contracts.Prelude.Int.{ℤ}
use perpetua_contracts.Factory.Types.{
  Address, FactoryConfig, RateLimitBucket, FactoryError, Outcome, done, failed, ◌>>=◌, >>=-eq-done,
}
use perpetua_contracts.Factory.Host.{Env, Store, load_config}
use perpetua_contracts.Factory.Admin.{guard, init, set_admin, propose_admin, accept_admin}
use perpetua_contracts.Factory.Policy
use perpetua_contracts.Factory.Limits.{current_bucket, record_creation_with_config, record_creation}
use perpetua_contracts.Factory.Creation
use perpetua_contracts.Factory.Contract.{Call, perform}
use perpetua_contracts.Factory.Contract.Soundness.{guard_inv}

-- The admin has authorized the call.
abbrev pub IsByAdmin : Env → Store → Type 0
IsByAdmin env s = (c : FactoryConfig) × (s.config ≡ some c) × (env.authorized c.admin ≡ true)

-- Whose authorization a call needs.
abbrev pub IsAuthorized : Env → Store → Call → Type 0
IsAuthorized env s (Call.init admin _ _ _ _) = (s.config ≡ none) × (env.authorized admin ≡ true)
IsAuthorized env s Call.accept_admin =
    (a : Address) × (s.pending_admin ≡ some a) × (env.authorized a ≡ true)
IsAuthorized env s (Call.record_creation sender) = env.authorized sender ≡ true
IsAuthorized env s (Call.create_stream terms) = ⊤
IsAuthorized env s (Call.stream_terminated _) =
    (c : FactoryConfig) × (s.config ≡ some c) × (env.authorized c.stream_contract ≡ true)
IsAuthorized env s _ = IsByAdmin env s

guarded :
    {A : Type 0} (env : Env) (s : Store) (f : FactoryConfig → Outcome A) (a : A)
    → (guard env s >>= f) ≡ done a
    → IsByAdmin env s
guarded env s f a h =
    let (c, g, _) = >>=-eq-done (guard env s) f h in let (e, ok) = guard_inv env s c g in (c, e, ok)

init_authorized :
    (env : Env) (a b k : Address) (d : ℤ) (m : ℕ) (s s' : Store)
    → init env a b k d m s ≡ done s'
    → (s.config ≡ none) × (env.authorized a ≡ true)
unfolding init
init_authorized env a b k d m s s' h = elim (Option-cases s.config) [
  | inl e ↦ (e, ground arith)
  | inr (c, e) ↦ absurd (ground arith)
]

accept_authorized :
    (env : Env) (s s' : Store)
    → accept_admin env s ≡ done s'
    → (a : Address) × (s.pending_admin ≡ some a) × (env.authorized a ≡ true)
unfolding accept_admin
accept_authorized env s s' h = elim (Option-cases s.pending_admin) [
  | inl e ↦ absurd (ground arith)
  | inr (a, e) ↦ (a, e, ground arith)
]

record_authorized :
    (env : Env) (a : Address) (s s' : Store)
    → record_creation env a s ≡ done s'
    → env.authorized a ≡ true
unfolding record_creation record_creation_with_config load_config
record_authorized env a s s' h = ground arith

terminated_authorized :
    (env : Env) (id : ℕ) (s s' : Store)
    → Creation.stream_terminated env id s ≡ done s'
    → (c : FactoryConfig) × (s.config ≡ some c) × (env.authorized c.stream_contract ≡ true)
unfolding Creation.stream_terminated load_config
terminated_authorized env id s s' h = elim (Option-cases s.config) [
  | inl e ↦ absurd (ground arith)
  | inr (c, e) ↦ (c, e, ground arith)
]

-- Nobody but the admin changes the policy: a setter and a nomination succeed only if the present
-- admin authorizes the call, the first configuration only if there is none and the new admin
-- authorizes it, a hand-over only if the nominee does, a recorded creation only if the sender does,
-- and the release of a slot only if the configured stream contract does.
pub factory_calls-IsAuthorized :
    (env : Env) (c : Call) (s s' : Store) → perform env c s ≡ done s' → IsAuthorized env s c
unfolding perform set_admin propose_admin Policy.set_cap Policy.set_stream_contract
    Policy.set_stream_wasm_hash Policy.set_min_duration Policy.set_max_duration Policy.set_allowlist
    Policy.set_allowlist_enabled Policy.set_token_allowed Policy.set_batch_cap_enforcement
    Policy.set_pause Policy.set_factory_paused Policy.set_rate_bounds Policy.set_max_active_streams
    Policy.set_rate_limit
factory_calls-IsAuthorized env (Call.init a b k d m) s s' h = init_authorized env a b k d m s s' h
factory_calls-IsAuthorized env Call.accept_admin s s' h = accept_authorized env s s' h
factory_calls-IsAuthorized env (Call.record_creation a) s s' h = record_authorized env a s s' h
factory_calls-IsAuthorized env (Call.create_stream terms) s s' h = tt
factory_calls-IsAuthorized env (Call.stream_terminated id) s s' h =
    terminated_authorized env id s s' h
factory_calls-IsAuthorized env (Call.set_admin a) s s' h = guarded env s _ s' h
factory_calls-IsAuthorized env (Call.propose_admin a) s s' h = guarded env s _ s' h
factory_calls-IsAuthorized env (Call.set_stream_contract a) s s' h = guarded env s _ s' h
factory_calls-IsAuthorized env (Call.set_stream_wasm_hash a) s s' h = guarded env s _ s' h
factory_calls-IsAuthorized env (Call.set_cap d) s s' h = guarded env s _ s' h
factory_calls-IsAuthorized env (Call.set_min_duration m) s s' h = guarded env s _ s' h
factory_calls-IsAuthorized env (Call.set_max_duration m) s s' h = guarded env s _ s' h
factory_calls-IsAuthorized env (Call.set_allowlist a b) s s' h = guarded env s _ s' h
factory_calls-IsAuthorized env (Call.set_allowlist_enabled b) s s' h = guarded env s _ s' h
factory_calls-IsAuthorized env (Call.set_token_allowed a b) s s' h = guarded env s _ s' h
factory_calls-IsAuthorized env (Call.set_batch_cap_enforcement b) s s' h = guarded env s _ s' h
factory_calls-IsAuthorized env (Call.set_pause b) s s' h = guarded env s _ s' h
factory_calls-IsAuthorized env (Call.set_factory_paused b) s s' h = guarded env s _ s' h
factory_calls-IsAuthorized env (Call.set_rate_bounds a b) s s' h = guarded env s _ s' h
factory_calls-IsAuthorized env (Call.set_max_active_streams n) s s' h = guarded env s _ s' h
factory_calls-IsAuthorized env (Call.set_rate_limit n m) s s' h = guarded env s _ s' h

-- A nomination and its acceptance hand the factory over: the old admin has authorized the first
-- call and the new one the second, the new admin is the nominee, the rest of the configuration is
-- as it was, and no nomination is left.
pub propose-accept :
    (env env' : Env) (a : Address) (s s' s'' : Store)
    → propose_admin env a s ≡ done s'
    → accept_admin env' s' ≡ done s''
    → (c : FactoryConfig) × (s.config ≡ some c)
      × (env.authorized c.admin ≡ true)
      × (env'.authorized a ≡ true)
      × (s''.config ≡ some (record c { admin = a }))
      × (s''.pending_admin ≡ none)
unfolding propose_admin accept_admin load_config
propose-accept env env' a s s' s'' h h' =
    let (c, g, h1) = >>=-eq-done (guard env s) _ h in
    let (e, ok) = guard_inv env s c g in
    let nominated : s'.pending_admin ≡ some a = ground arith in
    let same : s'.config ≡ some c = ground arith in
    (c, e, ok, ground arith, ground arith, ground arith)

-- A direct change of the admin withdraws a nomination: the nominee can accept no more.
pub set_admin-withdraws :
    (env env' : Env) (a : Address) (s s' : Store)
    → set_admin env a s ≡ done s'
    → accept_admin env' s' ≡ failed FactoryError.no_pending_admin
unfolding set_admin accept_admin
set_admin-withdraws env env' a s s' h =
    let (c, g, h1) = >>=-eq-done (guard env s) _ h in
    let cleared : s'.pending_admin ≡ none = ground arith in ground arith

-- A recorded creation stays within the limit, where the window has a positive length: the sender has
-- authorized it, and its bucket counts one more than before, and no more than the limit, in a window
-- that still runs; a new window begins, at this ledger and with this creation as its first, only if
-- the sender had no bucket or the window of its bucket had run out.
pub record_creation_limits :
    (env : Env) (sender : Address) (c : FactoryConfig) (s s' : Store)
    → 0 < c.rate_limit_window_ledgers
    → record_creation_with_config env sender c s ≡ done s'
    → (b : RateLimitBucket) × (s'.rate_limit sender ≡ some b)
      × (env.authorized sender ≡ true)
      × (0 < b.creations)
      × (b.creations ≤ c.max_creations_per_window)
      × (env.sequence - b.window_start < c.rate_limit_window_ledgers)
      × ((b.window_start ≡ env.sequence)
            × (b.creations ≡ 1)
            × ((s.rate_limit sender ≡ none)
                ⊎ ((old : RateLimitBucket) × (s.rate_limit sender ≡ some old)
                    × (c.rate_limit_window_ledgers ≤ env.sequence - old.window_start)))
          ⊎ ((old : RateLimitBucket) × (s.rate_limit sender ≡ some old)
              × (env.sequence - old.window_start < c.rate_limit_window_ledgers)
              × (b.window_start ≡ old.window_start)
              × (b.creations ≡ old.creations + 1)))
unfolding record_creation_with_config current_bucket
record_creation_limits env sender c s s' w h =
    let fresh : RateLimitBucket = record { window_start = env.sequence; creations = 1 } in
    elim (Option-cases (s.rate_limit sender)) [
      | inl e ↦ (
        fresh,
        ground arith,
        ground arith,
        ground arith,
        ground arith,
        ground arith,
        inl (refl, refl, inl e),
      )
      | inr (old, e) ↦
          elim (Bool-cases (leb c.rate_limit_window_ledgers (env.sequence - old.window_start))) [
            | inl over ↦ (
              fresh,
              ground arith,
              ground arith,
              ground arith,
              ground arith,
              ground arith,
              inl (refl, refl, inr (old, e, ground arith)),
            )
            | inr runs ↦ (
              record old { creations = old.creations + 1 },
              ground arith,
              ground arith,
              ground arith,
              ground arith,
              ground arith,
              inr (old, e, ground arith, refl, refl),
            )
          ]
    ]
