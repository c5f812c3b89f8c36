-- ===== src/Factory/Contract/Admission.antt =====
-- `create_stream` of contracts/factory/src/lib.rs, read backwards.
use perpetua_contracts.Prelude.{
  ℕ, ◌+◌, ◌-◌, ◌/◌, ◌≤◌, ◌<◌, ◌≡◌, ◌≢◌, inl, inr, ◌⊎◌, true, false, some, ◌∷◌, ◌==◌, if◌then◌else◌,
  arith, refl, Option-cases,
}
use perpetua_contracts.Prelude.Int.{ℤ, pos, negsuc, ltb_ℤ, ◌/ℤ◌}
use perpetua_contracts.I128.{checked_div}
use perpetua_contracts.Words.{u32_max}
use perpetua_contracts.Factory.Types.{FactoryConfig, Outcome, done, >>=-eq-done}
use perpetua_contracts.Factory.Host.{Env, Store, Terms, load_config}
use perpetua_contracts.Factory.Limits.{record_creation_with_config}
use perpetua_contracts.Factory.Creation.{create_stream, check_terms, check_rate, is_below, is_above}

-- The terms that a policy admits, of a stream with `amount`.
pub record Admits (s : Store) (c : FactoryConfig) (terms : Terms) (amount : ℕ) : Type 0 where
  pub running : c.creation_paused ≡ false
  pub listed : c.recipient_allowlist_enabled ≡ true → s.allowlist terms.recipient ≡ true
  pub slot : c.active_streams < c.max_active_streams
  pub deposit : terms.deposit ≡ pos amount
  pub some_deposit : 0 < amount
  pub capped : ltb_ℤ c.max_deposit (pos amount) ≡ false
  pub lasts : terms.start_time < terms.end_time
  pub not_short : c.min_duration ≤ terms.end_time - terms.start_time
  pub not_long : terms.end_time - terms.start_time ≤ c.max_duration
  pub cliff : (terms.start_time ≤ terms.cliff_time) × (terms.cliff_time ≤ terms.end_time)
  pub rates :
      (is_below (pos (amount / (terms.end_time - terms.start_time))) c.min_rate_per_second ≡ false)
      × (is_above (pos (amount / (terms.end_time - terms.start_time))) c.max_rate_per_second
          ≡ false)

check_rate_inv :
    (c : FactoryConfig) (a k : ℕ)
    → check_rate c (pos a) k ≡ done tt
    → (is_below (pos (a / k)) c.min_rate_per_second ≡ false)
      × (is_above (pos (a / k)) c.max_rate_per_second ≡ false)
unfolding check_rate checked_div ◌/ℤ◌
check_rate_inv c a k h = (ground arith, ground arith)

ℤ-cases : (z : ℤ) → ((d : ℕ) × (z ≡ pos d)) ⊎ ((d : ℕ) × (z ≡ negsuc d))
ℤ-cases (pos d) = inl (d, refl)
ℤ-cases (negsuc d) = inr (d, refl)

pub check_terms_inv :
    (c : FactoryConfig) (terms : Terms) (s : Store)
    → check_terms c terms s ≡ done tt
    → (a : ℕ) × Admits s c terms a
unfolding check_terms
check_terms_inv c terms s h = elim (ℤ-cases terms.deposit) [
  | inr (d, e) ↦ absurd (ground arith)
  | inl (d, e) ↦
      let k = terms.end_time - terms.start_time in
      (
        d,
        record {
          running = ground arith;
          listed = ground arith;
          slot = ground arith;
          deposit = e;
          some_deposit = ground arith;
          capped = ground arith;
          lasts = ground arith;
          not_short = ground arith;
          not_long = ground arith;
          cliff = (ground arith, ground arith);
          rates = ground (arith, check_rate_inv c d k);
        },
      )
]

-- A stream that has been admitted.
pub record Admitted (env : Env) (terms : Terms) (id : ℕ) (s s' : Store) : Type 0 where
  pub config : FactoryConfig
  pub amount : ℕ
  pub found : s.config ≡ some config
  pub admits : Admits s config terms amount
  -- Where the rate of creations is limited the sender has authorized this one.
  pub signed : config.max_creations_per_window ≢ u32_max → env.authorized terms.sender ≡ true
  pub created : env.created config.stream_contract terms ≡ some id
  pub launched : s'.launched ≡ terms ∷ s.launched
  pub in_range : config.active_streams + 1 ≤ u32_max
  pub counted : s'.config ≡ some (record config { active_streams = config.active_streams + 1 })
  pub same_pending : s'.pending_admin ≡ s.pending_admin

-- The part of the call that the limit on creations is.
abbrev limited : Env → Terms → FactoryConfig → Store → Outcome Store
limited env terms config s =
    if config.max_creations_per_window == u32_max
    then done s
    else record_creation_with_config env terms.sender config s

limited_inv :
    (env : Env) (terms : Terms) (c : FactoryConfig) (s s' : Store)
    → limited env terms c s ≡ done s'
    → (c.max_creations_per_window ≢ u32_max → env.authorized terms.sender ≡ true)
      × (s'.launched ≡ s.launched)
      × (s'.pending_admin ≡ s.pending_admin)
unfolding record_creation_with_config
limited_inv env terms c s s' h = (ground arith, ground arith, ground arith)

-- The factory launches a stream only within its policy: it is not paused, the recipient is on the
-- allowlist if that is enforced, a slot is free, the deposit is positive and at most the cap, the
-- duration is positive and within its bounds, the cliff lies within it and the rate, rounded down,
-- within the bounds that are set. The configured stream contract has then created the stream, and
-- just one more slot is taken.
pub admission_within_policy :
    (env : Env) (terms : Terms) (id : ℕ) (s s' : Store)
    → create_stream env terms s ≡ done (id, s')
    → Admitted env terms id s s'
unfolding create_stream load_config
admission_within_policy env terms id s s' h =
    let (c, e, h1) = >>=-eq-done (load_config s) _ h in
    let (_, a, h2) = >>=-eq-done (check_terms c terms s) _ h1 in
    let (s1, b, h3) = >>=-eq-done (limited env terms c s) _ h2 in
    let (amount, x) = check_terms_inv c terms s a in
    let (signed, l, p) = limited_inv env terms c s s1 b in
    elim (Option-cases (env.created c.stream_contract terms)) [
      | inl refused ↦ absurd (ground arith)
      | inr (id', made) ↦ record {
        config = c;
        amount = amount;
        found = ground arith;
        admits = x;
        signed = signed;
        created = ground arith;
        launched = ground arith;
        in_range = ground arith;
        counted = ground arith;
        same_pending = ground arith;
      }
    ]
