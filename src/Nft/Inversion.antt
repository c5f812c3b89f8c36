-- ===== src/Nft/Inversion.antt =====
-- The calls of contracts/stream-nft/src/lib.rs that succeed, read backwards.
use perpetua_contracts.Prelude.{
  ℕ, ◌+◌, ◌-◌, ◌≡◌, ◌≢◌, true, none, some, ◌==◌, is_some, get_or, if◌then◌else◌, update, arith, sym,
  ap, ◌∙◌, Option-cases, inl, inr,
}
use perpetua_contracts.Words.{u64_max}
use perpetua_contracts.Outcome.{done, or_failed, >>=-eq-done, refuse_if-eq-done}
use perpetua_contracts.Nft.Token.{
  Address, Env, Store, Config, Error, require_auth, bump_config, set_owner, get_config, credit,
  debit, mint, transfer, transfer_claim,
}

-- What a credit and a debit do to the balances.
record Balanced (s s' : Store) (change : Address → ℕ → ℕ) : Type 0 where
  same_owner : s'.owner ≡ s.owner
  same_supply : s'.supply ≡ s.supply
  same_config : s'.config ≡ s.config
  balances : (a : Address) → get_or (s'.balance a) 0 ≡ change a (get_or (s.balance a) 0)
  positive : ((a : Address) → s.balance a ≢ some 0) → (a : Address) → s'.balance a ≢ some 0

credit-Balanced :
    (env : Env) (who : Address) (s s' : Store)
    → credit env who s ≡ done s'
    → Balanced s s' (λ a n. if a == who then n + 1 else n)
unfolding credit
credit-Balanced env who s s' h = record {
  same_owner = ground arith;
  same_supply = ground arith;
  same_config = ground arith;
  balances = λ a. ground arith;
  positive = λ p a e. let q = p a in ground arith;
}

debit-Balanced :
    (env : Env) (who : Address) (s : Store)
    → Balanced s (debit env who s) (λ a n. if a == who then n - 1 else n)
unfolding debit
debit-Balanced env who s = record {
  same_owner = ground arith;
  same_supply = ground arith;
  same_config = ground arith;
  balances = λ a. ground arith;
  positive = λ p a e. let q = p a in ground arith;
}

-- The token `id` has been minted for the caller.
pub record Minted (env : Env) (id : ℕ) (s s' : Store) : Type 0 where
  pub signed : env.authorized env.caller ≡ true
  pub fresh : s.owner id ≡ none
  pub owned : s'.owner ≡ update s.owner id (some env.caller)
  pub supplied : s'.supply ≡ some (get_or s.supply 0 + 1)
  pub same_config : s'.config ≡ s.config
  pub balances :
      (a : Address)
      → get_or (s'.balance a) 0
        ≡ (if a == env.caller then get_or (s.balance a) 0 + 1 else get_or (s.balance a) 0)
  pub positive : ((a : Address) → s.balance a ≢ some 0) → (a : Address) → s'.balance a ≢ some 0

pub mint_inv : (env : Env) (id : ℕ) (s s' : Store) → mint env id s ≡ done s' → Minted env id s s'
unfolding mint
mint_inv env id s s' h =
    let (_, signed, h1) = >>=-eq-done (require_auth env env.caller) _ h in
    let (taken, h2) = refuse_if-eq-done (is_some (s.owner id)) Error.already_minted _ h1 in
    let (full, h3) = refuse_if-eq-done (get_or s.supply 0 == u64_max) Error.token_not_found _ h2 in
    let s1 = set_owner env id env.caller s in
    let (s2, e, h4) = >>=-eq-done (credit env env.caller s1) _ h3 in
    let b = credit-Balanced env env.caller s1 s2 e in
    let last : s' ≡ record s2 { supply = some (get_or s.supply 0 + 1) } = ground arith in
    record {
      signed = ground arith;
      fresh = ground arith;
      owned = ap (λ (x : Store). x.owner) last ∙ b.same_owner;
      supplied = ap (λ (x : Store). x.supply) last;
      same_config = ap (λ (x : Store). x.config) last ∙ b.same_config;
      balances = λ a. ap (λ (x : Store). get_or (x.balance a) 0) last ∙ b.balances a;
      positive = λ p a k. b.positive p a (ap (λ (x : Store). x.balance a) (sym last) ∙ k);
    }

-- The token `id` has gone from its owner to `to`, and the stream contract has made `to` the
-- recipient of its stream.
pub record Transferred (env : Env) (id : ℕ) (to : Address) (s s' : Store) : Type 0 where
  pub config : Config
  pub from : Address
  pub bound : s.config ≡ some config
  pub found : s.owner id ≡ some from
  pub signed : env.authorized from ≡ true
  pub accepted : env.transfer_recipient config.stream id to ≡ some true
  pub owned : s'.owner ≡ update s.owner id (some to)
  pub same_supply : s'.supply ≡ s.supply
  pub same_config : s'.config ≡ s.config
  pub balances :
      (a : Address)
      → get_or (s'.balance a) 0 ≡ (
          if a == to
          then (if a == from then get_or (s.balance a) 0 - 1 else get_or (s.balance a) 0) + 1
          else (if a == from then get_or (s.balance a) 0 - 1 else get_or (s.balance a) 0))
  pub positive : ((a : Address) → s.balance a ≢ some 0) → (a : Address) → s'.balance a ≢ some 0

claim_accepted :
    (env : Env) (c : Config) (id : ℕ) (to : Address)
    → transfer_claim env c id to ≡ done tt
    → env.transfer_recipient c.stream id to ≡ some true
unfolding transfer_claim
claim_accepted env c id to h = elim (Option-cases (env.transfer_recipient c.stream id to)) [
  | inl e ↦ absurd (ground arith)
  | inr (b, e) ↦ ground arith
]

pub transfer_inv :
    (env : Env) (id : ℕ) (to : Address) (s s' : Store)
    → transfer env id to s ≡ done s'
    → Transferred env id to s s'
unfolding transfer
transfer_inv env id to s s' h =
    let (c, got, h1) = >>=-eq-done (get_config env s) _ h in
    let (from, owned, h2) = >>=-eq-done (or_failed (c.1.owner id) Error.token_not_found) _ h1 in
    let (_, signed, h3) = >>=-eq-done (require_auth env from) _ h2 in
    let (_, claimed, h4) = >>=-eq-done (transfer_claim env c.0 id to) _ h3 in
    let (bound, same) = get_config_inv env s c got in
    let s1 = set_owner env id to c.1 in
    let d = debit-Balanced env from s1 in
    let b = credit-Balanced env to (debit env from s1) s' h4 in
    record {
      config = c.0;
      from = from;
      bound = bound;
      found = ground (arith, same);
      signed = ground arith;
      accepted = claim_accepted env c.0 id to claimed;
      owned = b.same_owner ∙ d.same_owner ∙ ap (λ (x : Store). update x.owner id (some to)) same;
      same_supply = b.same_supply ∙ d.same_supply ∙ ap (λ (x : Store). x.supply) same;
      same_config = b.same_config ∙ d.same_config ∙ ap (λ (x : Store). x.config) same;
      balances = λ a.
          let e : c.1.balance a ≡ s.balance a = ap (λ (x : Store). x.balance a) same in
          ground (arith, b.balances a, d.balances a, e);
      positive = λ p a k.
          b.positive (d.positive (λ q f. p q (ap (λ (x : Store). x.balance q) (sym same) ∙ f))) a k;
    }
  where
    get_config_inv :
        (env : Env) (s : Store) (c : Config × Store)
        → get_config env s ≡ done c
        → (s.config ≡ some c.0) × (c.1 ≡ bump_config env s)
    get_config_inv env s c got = elim (Option-cases s.config) [
      | inl e ↦ absurd (ground arith)
      | inr (k, e) ↦ (ground arith, ground arith)
    ]
