-- ===== src/Factory/Contract/Counting.antt =====
-- The calls of contracts/factory/src/lib.rs that count creations and streams.
use perpetua_contracts.Prelude.{ℕ, ◌-◌, ◌≤◌, ◌≡◌, inl, inr, arith, length, Option-cases, subst}
use perpetua_contracts.Words.{u32_max}
use perpetua_contracts.Factory.Types.{Address, FactoryConfig, done, >>=-eq-done}
use perpetua_contracts.Factory.Host.{Env, Store, load_config}
use perpetua_contracts.Factory.Limits
use perpetua_contracts.Factory.Creation
use perpetua_contracts.Factory.Creation.{check_terms}
use perpetua_contracts.Factory.Contract.Soundness.{IsPoliced, IsSound, same_config-IsSound}

pub counted-IsPoliced :
    (self nobody : Address) (n m k : ℕ) (c : FactoryConfig)
    → k ≤ m
    → k ≤ u32_max
    → IsPoliced self nobody n c
    → IsPoliced self nobody m (record c { active_streams = k })
counted-IsPoliced self nobody n m k c h u x = record {
  admin_signs = x.admin_signs;
  durations = x.durations;
  cap = x.cap;
  rates = x.rates;
  counted = (h, u);
  window = x.window;
}

-- What a recorded creation leaves of the storage.
pub record_inv :
    (env : Env) (sender : Address) (c : FactoryConfig) (s s' : Store)
    → Limits.record_creation_with_config env sender c s ≡ done s'
    → (s'.config ≡ s.config) × (s'.launched ≡ s.launched) × (s'.pending_admin ≡ s.pending_admin)
unfolding Limits.record_creation_with_config
record_inv env sender c s s' h = (ground arith, ground arith, ground arith)

module _ (self nobody : Address) (env : Env) (s s' : Store) (v : IsSound self nobody s) where
  pub record_creation-IsSound :
      (a : Address) → Limits.record_creation env a s ≡ done s' → IsSound self nobody s'
  unfolding Limits.record_creation
  record_creation-IsSound a h =
      let (c, e, h1) = >>=-eq-done (load_config s) _ h in
      let (x, y, z) = record_inv env a c s s' h1 in
      same_config-IsSound self nobody env s s' v x y (λ b f. v.pending b (ground arith))

  pub stream_terminated-IsSound :
      (id : ℕ) → Creation.stream_terminated env id s ≡ done s' → IsSound self nobody s'
  unfolding Creation.stream_terminated load_config
  stream_terminated-IsSound id h = elim (Option-cases s.config) [
    | inl e ↦ absurd (ground arith)
    | inr (c, e) ↦
        let x = v.policed c e in
        let y =
          counted-IsPoliced self nobody (length s.launched) (length s.launched)
            (c.active_streams - 1) c (omega (arith, x.counted)) (omega (arith, x.counted)) x in
        let same : s'.launched ≡ s.launched = ground arith in
        record {
          policed = λ c' f.
              let is_c' : record c { active_streams = c.active_streams - 1 } ≡ c' = ground arith in
              rw same (subst (IsPoliced self nobody (length s.launched)) is_c' y);
          pending = λ a f. v.pending a (ground arith);
        }
  ]
