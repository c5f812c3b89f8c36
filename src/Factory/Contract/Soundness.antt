-- ===== src/Factory/Contract/Soundness.antt =====
-- The invariant of the storage of contracts/factory/src/lib.rs, its setters and its admin.
use perpetua_contracts.Prelude.{
  ℕ, ◌≤◌, ◌<◌, ◌≡◌, ◌≢◌, inl, inr, true, false, none, some, ⊤, arith, refl, length, Option-cases,
  subst,
}
use perpetua_contracts.Prelude.Int.{ℤ, pos, leb_ℤ}
use perpetua_contracts.Words.{u32_max}
use perpetua_contracts.Factory.Types.{
  Address, FactoryConfig, Outcome, done, ◌>>=◌, ◌>>◌, >>=-eq-done,
}
use perpetua_contracts.Factory.Host.{Env, Store, set_config, load_config}
use perpetua_contracts.Factory.Admin
use perpetua_contracts.Factory.Admin.{guard, is_forbidden_admin, default_max_duration}
use perpetua_contracts.Factory.Policy.{is_negative, are_crossed}
use perpetua_contracts.Factory.Contract.{HostRules}

-- The policy of a factory at `self` through which `n` streams have been launched.
pub record IsPoliced (self nobody : Address) (n : ℕ) (c : FactoryConfig) : Type 0 where
  pub admin_signs : (c.admin ≢ nobody) × (c.admin ≢ self)
  pub durations : c.min_duration ≤ c.max_duration
  pub cap : leb_ℤ c.max_deposit (pos 0) ≡ false
  pub rates :
      (is_negative c.min_rate_per_second ≡ false)
      × (is_negative c.max_rate_per_second ≡ false)
      × (are_crossed c.min_rate_per_second c.max_rate_per_second ≡ false)
  pub counted : (c.active_streams ≤ n) × (c.active_streams ≤ u32_max)
  pub window : (0 < c.max_creations_per_window) × (0 < c.rate_limit_window_ledgers)

pub record IsSound (self nobody : Address) (s : Store) : Type 0 where
  pub policed :
      (c : FactoryConfig) → s.config ≡ some c → IsPoliced self nobody (length s.launched) c
  pub pending : (a : Address) → s.pending_admin ≡ some a → (a ≢ nobody) × (a ≢ self)

pub guard_inv :
    (env : Env) (s : Store) (c : FactoryConfig)
    → guard env s ≡ done c
    → (s.config ≡ some c) × (env.authorized c.admin ≡ true)
unfolding guard load_config
guard_inv env s c h = elim (Option-cases s.config) [
  | inl e ↦ absurd (ground arith)
  | inr (c0, e) ↦ (ground arith, ground arith)
]

-- What every plain setter does.
abbrev pub setter :
    Env → (FactoryConfig → Outcome ⊤) → (FactoryConfig → FactoryConfig) → Store → Outcome Store
setter env check f s = guard env s >>= λ c. check c >> done (set_config (f c) s)

pub setter-IsSound :
    (self nobody : Address) (env : Env) (check : FactoryConfig → Outcome ⊤)
    (f : FactoryConfig → FactoryConfig) (s s' : Store)
    → ((n : ℕ) (c : FactoryConfig)
        → check c ≡ done tt
        → IsPoliced self nobody n c
        → IsPoliced self nobody n (f c))
    → IsSound self nobody s
    → setter env check f s ≡ done s'
    → IsSound self nobody s'
setter-IsSound self nobody env check f s s' keep v h =
    let (c, a, h1) = >>=-eq-done (guard env s) _ h in
    let (_, b, h2) = >>=-eq-done (check c) _ h1 in
    let (e, _) = guard_inv env s c a in
    let same : set_config (f c) s ≡ s' = ground arith in
    subst (IsSound self nobody) same (record {
      policed = λ c' e'.
          let is_c' : f c ≡ c' = ground arith in
          subst (IsPoliced self nobody (length s.launched)) is_c'
            (keep (length s.launched) c b (v.policed c e));
      pending = v.pending;
    })

-- A setter with nothing to check.
abbrev pub unchecked : FactoryConfig → Outcome ⊤
unchecked c = done tt

module _ (self nobody : Address) (env : Env) (s s' : Store) (v : IsSound self nobody s) where
  renamed-IsSound :
      (a : Address)
      → (a ≢ nobody) × (a ≢ self)
      → (c : FactoryConfig) → s.config ≡ some c
      → s'.config ≡ some (record c { admin = a })
      → s'.pending_admin ≡ none
      → s'.launched ≡ s.launched
      → IsSound self nobody s'
  renamed-IsSound a ok c e e' p l =
      let x = v.policed c e in
      let y : IsPoliced self nobody (length s.launched) (record c { admin = a }) = record {
        admin_signs = ok;
        durations = x.durations;
        cap = x.cap;
        rates = x.rates;
        counted = x.counted;
        window = x.window;
      } in
      record {
        policed = λ c' f.
            let same : record c { admin = a } ≡ c' = ground arith in
            rw l (subst (IsPoliced self nobody (length s.launched)) same y);
        pending = λ b f. absurd (ground arith);
      }

  pub same_config-IsSound :
      s'.config ≡ s.config
      → s'.launched ≡ s.launched
      → ((a : Address) → s'.pending_admin ≡ some a → (a ≢ nobody) × (a ≢ self))
      → IsSound self nobody s'
  same_config-IsSound e l p = record {
    policed = λ c f. rw l (v.policed c (ground arith));
    pending = p;
  }

  module _ (here : env.self ≡ self) (key : env.zero_address ≡ nobody) where
    allowed_admin : (a : Address) → is_forbidden_admin env a ≡ false → (a ≢ nobody) × (a ≢ self)
    unfolding is_forbidden_admin
    allowed_admin a h = (ground arith, ground arith)

    pub set_admin-IsSound :
        (a : Address) → Admin.set_admin env a s ≡ done s' → IsSound self nobody s'
    unfolding Admin.set_admin
    set_admin-IsSound a h =
        let (c, g, h1) = >>=-eq-done (guard env s) _ h in
        let (e, _) = guard_inv env s c g in
        renamed-IsSound a (allowed_admin a (ground arith)) c e (ground arith) (ground arith)
          (ground arith)

    pub propose_admin-IsSound :
        (a : Address) → Admin.propose_admin env a s ≡ done s' → IsSound self nobody s'
    unfolding Admin.propose_admin
    propose_admin-IsSound a h =
        let (c, g, h1) = >>=-eq-done (guard env s) _ h in
        let ok = allowed_admin a (ground arith) in
        same_config-IsSound (ground arith) (ground arith) (λ b e. ground (arith, ok))

    pub accept_admin-IsSound : Admin.accept_admin env s ≡ done s' → IsSound self nobody s'
    unfolding Admin.accept_admin load_config
    accept_admin-IsSound h = elim (Option-cases s.pending_admin) [
      | inl e ↦ absurd (ground arith)
      | inr (a, e) ↦ elim (Option-cases s.config) [
        | inl f ↦ absurd (ground arith)
        | inr (c, f) ↦
            renamed-IsSound a (v.pending a e) c f (ground arith) (ground arith) (ground arith)
      ]
    ]

    pub init-IsSound :
        (a b h : Address) (d : ℤ) (m : ℕ)
        → HostRules env
        → Admin.init env a b h d m s ≡ done s'
        → IsSound self nobody s'
    unfolding Admin.init
    init-IsSound a b h d m r e =
        let ok : (a ≢ nobody) × (a ≢ self) =
          (ground (arith, r.unsigned), ground (arith, r.silent)) in
        let written : s'.config ≡ some (Admin.first_config a b h d m) = ground arith in
        record {
          policed = λ c f.
              let same : Admin.first_config a b h d m ≡ c = ground arith in
              subst (IsPoliced self nobody (length s'.launched)) same (record {
                admin_signs = ok;
                durations = ground arith;
                cap = ground arith;
                rates = (refl, refl, refl);
                counted = (omega arith, omega arith);
                window = (omega arith, omega arith);
              });
          pending = λ x f. v.pending x (ground arith);
        }
