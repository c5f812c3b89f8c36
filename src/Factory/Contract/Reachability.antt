-- ===== src/Factory/Contract/Reachability.antt =====
-- The storages that calls of contracts/factory/src/lib.rs reach.
use perpetua_contracts.Prelude.{
  ℕ, suc, ◌+◌, ◌≡◌, Bool, true, false, ◌||◌, none, some, [], ltb, ◌==◌, arith, length, subst,
  update,
}
use perpetua_contracts.Prelude.Int.{pos, leb_ℤ}
use perpetua_contracts.Factory.Types.{
  Address, FactoryConfig, FactoryError, done, refuse_if, >>=-eq-done,
}
use perpetua_contracts.Factory.Host.{Env, Store, Terms, set_config}
use perpetua_contracts.Factory.Admin.{guard}
use perpetua_contracts.Factory.Policy
use perpetua_contracts.Factory.Policy.{is_negative, are_crossed}
use perpetua_contracts.Factory.Creation
use perpetua_contracts.Factory.Contract.{Call, perform, HostRules}
use perpetua_contracts.Factory.Contract.Soundness.{
  IsPoliced, IsSound, setter-IsSound, unchecked, same_config-IsSound, set_admin-IsSound,
  propose_admin-IsSound, accept_admin-IsSound, init-IsSound, guard_inv,
}
use perpetua_contracts.Factory.Contract.Counting.{
  counted-IsPoliced, record_creation-IsSound, stream_terminated-IsSound,
}
use perpetua_contracts.Factory.Contract.Admission.{Admitted, admission_within_policy}

Admitted-IsSound :
    (self nobody : Address) (env : Env) (terms : Terms) (id : ℕ) (s s' : Store)
    → Admitted env terms id s s'
    → IsSound self nobody s
    → IsSound self nobody s'
Admitted-IsSound self nobody env terms id s s' a v =
    let x = v.policed a.config a.found in
    let n = length s.launched in
    let y =
      counted-IsPoliced self nobody n (suc n) (a.config.active_streams + 1) a.config
        (omega (arith, x.counted)) a.in_range x in
    record {
      policed = λ c e.
          let same : record a.config { active_streams = a.config.active_streams + 1 } ≡ c =
            ground (arith, a.counted) in
          rw (a.launched) (subst (IsPoliced self nobody (suc n)) same y);
      pending = λ b e. v.pending b (ground (arith, a.same_pending));
    }

set_allowlist-IsSound :
    (self nobody : Address) (env : Env) (who : Address) (allowed : Bool) (s s' : Store)
    → IsSound self nobody s
    → Policy.set_allowlist env who allowed s ≡ done s'
    → IsSound self nobody s'
unfolding Policy.set_allowlist
set_allowlist-IsSound self nobody env who true s s' v h =
    let s0 : Store = record s { allowlist = update s.allowlist who true } in
    let (c, g, h1) = >>=-eq-done (guard env s) _ h in
    let (e, _) = guard_inv env s c g in
    let x = v.policed c e in
    let y : IsPoliced self nobody (length s.launched)
        (record c { recipient_allowlist_enabled = true }) =
      record {
        admin_signs = x.admin_signs;
        durations = x.durations;
        cap = x.cap;
        rates = x.rates;
        counted = x.counted;
        window = x.window;
      } in
    let same : set_config (record c { recipient_allowlist_enabled = true }) s0 ≡ s' =
      ground arith in
    subst (IsSound self nobody) same (record {
      policed = λ c' f.
          let is_c' : record c { recipient_allowlist_enabled = true } ≡ c' = ground arith in
          subst (IsPoliced self nobody (length s.launched)) is_c' y;
      pending = v.pending;
    })
set_allowlist-IsSound self nobody env who false s s' v h =
    same_config-IsSound self nobody env s s' v (ground arith) (ground arith)
      (λ a e. v.pending a (ground arith))

set_token-IsSound :
    (self nobody : Address) (env : Env) (token : Address) (allowed : Bool) (s s' : Store)
    → IsSound self nobody s
    → Policy.set_token_allowed env token allowed s ≡ done s'
    → IsSound self nobody s'
unfolding Policy.set_token_allowed
set_token-IsSound self nobody env token allowed s s' v h =
    same_config-IsSound self nobody env s s' v (ground arith) (ground arith)
      (λ a e. v.pending a (ground arith))

module _ (self nobody : Address) (env : Env) (here : env.self ≡ self)
    (key : env.zero_address ≡ nobody) (rules : HostRules env) where
  -- Every call keeps the storage sound.
  pub factory-IsSound :
      (c : Call) (s s' : Store)
      → IsSound self nobody s
      → perform env c s ≡ done s'
      → IsSound self nobody s'
  unfolding perform Policy.set_cap Policy.set_stream_contract Policy.set_stream_wasm_hash
      Policy.set_min_duration Policy.set_max_duration Policy.set_allowlist_enabled
      Policy.set_batch_cap_enforcement Policy.set_pause Policy.set_factory_paused
      Policy.set_rate_bounds Policy.set_max_active_streams Policy.set_rate_limit
  factory-IsSound (Call.init a b k d m) s s' v h =
      init-IsSound self nobody env s s' v here key a b k d m rules h
  factory-IsSound (Call.set_admin a) s s' v h =
      set_admin-IsSound self nobody env s s' v here key a h
  factory-IsSound (Call.propose_admin a) s s' v h =
      propose_admin-IsSound self nobody env s s' v here key a h
  factory-IsSound Call.accept_admin s s' v h =
      accept_admin-IsSound self nobody env s s' v here key h
  factory-IsSound (Call.set_stream_contract a) s s' v h =
      setter-IsSound self nobody env unchecked (λ c. record c { stream_contract = a }) s s'
        (λ n c e x. ground (arith, x)) v h
  factory-IsSound (Call.set_stream_wasm_hash a) s s' v h =
      setter-IsSound self nobody env unchecked (λ c. record c { stream_wasm_hash = a }) s s'
        (λ n c e x. ground (arith, x)) v h
  factory-IsSound (Call.set_cap d) s s' v h =
      setter-IsSound self nobody env (λ c. refuse_if (leb_ℤ d (pos 0)) FactoryError.invalid_deposit)
        (λ c. record c { max_deposit = d }) s s' (λ n c e x. ground (arith, x)) v h
  factory-IsSound (Call.set_min_duration m) s s' v h =
      setter-IsSound self nobody env
        (λ c. refuse_if (ltb c.max_duration m) FactoryError.invalid_duration)
        (λ c. record c { min_duration = m }) s s' (λ n c e x. ground (arith, x)) v h
  factory-IsSound (Call.set_max_duration m) s s' v h =
      setter-IsSound self nobody env
        (λ c. refuse_if (ltb m c.min_duration) FactoryError.invalid_duration)
        (λ c. record c { max_duration = m }) s s' (λ n c e x. ground (arith, x)) v h
  factory-IsSound (Call.set_allowlist a b) s s' v h =
      set_allowlist-IsSound self nobody env a b s s' v h
  factory-IsSound (Call.set_allowlist_enabled b) s s' v h =
      setter-IsSound self nobody env unchecked (λ c. record c { recipient_allowlist_enabled = b }) s
        s' (λ n c e x. ground (arith, x)) v h
  factory-IsSound (Call.set_token_allowed a b) s s' v h =
      set_token-IsSound self nobody env a b s s' v h
  factory-IsSound (Call.set_batch_cap_enforcement b) s s' v h =
      setter-IsSound self nobody env unchecked (λ c. record c { batch_cap_enforced = b }) s s'
        (λ n c e x. ground (arith, x)) v h
  factory-IsSound (Call.set_pause b) s s' v h =
      setter-IsSound self nobody env unchecked (λ c. record c { creation_paused = b }) s s'
        (λ n c e x. ground (arith, x)) v h
  factory-IsSound (Call.set_factory_paused b) s s' v h =
      setter-IsSound self nobody env unchecked (λ c. record c { creation_paused = b }) s s'
        (λ n c e x. ground (arith, x)) v h
  factory-IsSound (Call.set_rate_bounds a b) s s' v h =
      setter-IsSound self nobody env
        (λ c.
          refuse_if (is_negative a || is_negative b || are_crossed a b)
            FactoryError.invalid_rate_bounds)
        (λ c. record c { min_rate_per_second = a; max_rate_per_second = b }) s s'
        (λ n c e x. ground (arith, x)) v h
  factory-IsSound (Call.set_max_active_streams n) s s' v h =
      setter-IsSound self nobody env unchecked (λ c. record c { max_active_streams = n }) s s'
        (λ n c e x. ground (arith, x)) v h
  factory-IsSound (Call.set_rate_limit n m) s s' v h =
      setter-IsSound self nobody env
        (λ c. refuse_if (n == 0 || m == 0) FactoryError.invalid_rate_limit)
        (λ c. record c { max_creations_per_window = n; rate_limit_window_ledgers = m }) s s'
        (λ n c e x. ground (arith, x)) v h
  factory-IsSound (Call.record_creation a) s s' v h =
      record_creation-IsSound self nobody env s s' v a h
  factory-IsSound (Call.create_stream terms) s s' v h =
      let ((id, s1), e, f) = >>=-eq-done (Creation.create_stream env terms s) _ h in
      let same : s1 ≡ s' = ground arith in
      subst (IsSound self nobody) same (
        Admitted-IsSound self nobody env terms id s s1 (admission_within_policy env terms id s s1 e)
          v)
  factory-IsSound (Call.stream_terminated id) s s' v h =
      stream_terminated-IsSound self nobody env s s' v id h

-- The storage of a factory that has been deployed and not yet called.
abbrev pub deployed : Store
deployed = record {
  config = none;
  pending_admin = none;
  allowlist = λ _. false;
  token_allowlist = λ _. false;
  rate_limit = λ _. none;
  launched = [];
  events = [];
}

-- Calls of the factory at `self`, in any order and by anyone, have led to the storage.
pub data Reach (self nobody : Address) : Store → Type 0 where
  start : Reach self nobody deployed
  step :
      {s : Store} (before : Reach self nobody s) (env : Env) (c : Call) (s' : Store)
      → env.self ≡ self
      → env.zero_address ≡ nobody
      → HostRules env
      → perform env c s ≡ done s'
      → Reach self nobody s'

pub Reach-IsSound :
    (self nobody : Address) (s : Store) → Reach self nobody s → IsSound self nobody s
Reach-IsSound self nobody _ Reach.start = record {
  policed = λ c e. absurd (ground arith);
  pending = λ a e. absurd (ground arith);
}
Reach-IsSound self nobody _ (Reach.step {s} before env c s' here key rules h) =
    factory-IsSound self nobody env here key rules c s s' (Reach-IsSound self nobody s before) h

-- In every reachable storage the policy is coherent: the admin is neither the account that cannot sign nor the
-- factory itself, so its control is never burnt; the bounds on the duration are ordered, the cap
-- is positive, the bounds on the rate are not negative and not crossed, the limit on creations is
-- positive, and the slots taken are no more than the streams launched.
pub reachable-IsPoliced :
    (self nobody : Address) (s : Store) (c : FactoryConfig)
    → Reach self nobody s
    → s.config ≡ some c
    → IsPoliced self nobody (length s.launched) c
reachable-IsPoliced self nobody s c r e = let v = Reach-IsSound self nobody s r in v.policed c e
