-- ===== src/Nft/Soundness.antt =====
-- The storages that calls of contracts/stream-nft/src/lib.rs reach, and their tally.
use perpetua_contracts.Prelude.{
  ℕ, ◌≡◌, true, false, Option, none, some, [], ◌∷◌, is_some, ap, ◌∙◌, arith, refl, subst,
}
use Prim.Native.String.{String}
use perpetua_contracts.Outcome.{done, refuse_if-eq-done}
use perpetua_contracts.Nft.Token.{Address, Config, Env, Store, Error, Outcome}
use perpetua_contracts.Nft.Token
use perpetua_contracts.Nft.Inversion.{Minted, mint_inv, Transferred, transfer_inv}
use perpetua_contracts.Nft.Tally.{
  listed, holding, IsTally, holding-fresh, holding-moved, holding-owner,
}

mint-IsTally : (env : Env) (id : ℕ) (s s' : Store) → IsTally s → Minted env id s s' → IsTally s'
mint-IsTally env id s s' t r =
    let new : listed t.minted id ≡ false = ground (arith, t.known id, r.fresh) in
    record {
      minted = id ∷ t.minted;
      once = ground (arith, t.once);
      known = λ j. ground (arith, t.known j, r.owned);
      counted = λ a.
          let here : s'.owner id ≡ some env.caller = ground (arith, r.owned) in
          let rest =
            ap (λ (o : ℕ → Option Address). holding o t.minted a) r.owned
            ∙ holding-fresh s.owner t.minted id (some env.caller) a new in
          ground (arith, t.counted a, r.balances a, rest, here);
      positive = r.positive t.positive;
      supplied = ground (arith, r.supplied, t.supplied);
    }

transfer-IsTally :
    (env : Env) (id : ℕ) (to : Address) (s s' : Store)
    → IsTally s
    → Transferred env id to s s'
    → IsTally s'
transfer-IsTally env id to s s' t r =
    let old : listed t.minted id ≡ true = ground (arith, t.known id, r.found) in
    record {
      minted = t.minted;
      once = t.once;
      known = λ j. ground (arith, t.known j, r.owned, old);
      counted = λ a.
          let moved = holding-moved s.owner t.minted id r.from to a t.once old r.found in
          let some_left = holding-owner s.owner t.minted id r.from old r.found in
          rw (r.owned) (ground (arith, t.counted a, r.balances a, moved, some_left));
      positive = r.positive t.positive;
      supplied = ground (arith, r.same_supply, t.supplied);
    }

-- The calls that change the storage.
pub data Call : Type 0 where
  init : Address → String → String → Call
  mint : ℕ → Call
  transfer : ℕ → Address → Call

unfoldable pub perform : Env → Call → Store → Outcome Store
perform env (Call.init stream name symbol) s = Token.init env stream name symbol s
perform env (Call.mint id) s = Token.mint env id s
perform env (Call.transfer id to) s = Token.transfer env id to s

init-IsTally :
    (env : Env) (stream : Address) (name symbol : String) (s s' : Store)
    → IsTally s
    → Token.init env stream name symbol s ≡ done s'
    → IsTally s'
unfolding Token.init
init-IsTally env stream name symbol s s' t h =
    let (new, h1) = refuse_if-eq-done (is_some s.config) Error.already_initialized _ h in
    let c : Config = record { stream = stream; name = name; symbol = symbol; decimals = 0 } in
    let same : record s { config = some c } ≡ s' = ground arith in
    subst IsTally same (record {
      minted = t.minted;
      once = t.once;
      known = t.known;
      counted = t.counted;
      positive = t.positive;
      supplied = t.supplied;
    })

pub perform-IsTally :
    (env : Env) (c : Call) (s s' : Store) → IsTally s → perform env c s ≡ done s' → IsTally s'
unfolding perform
perform-IsTally env (Call.init a n y) s s' t h = init-IsTally env a n y s s' t h
perform-IsTally env (Call.mint id) s s' t h = mint-IsTally env id s s' t (mint_inv env id s s' h)
perform-IsTally env (Call.transfer id to) s s' t h =
    transfer-IsTally env id to s s' t (transfer_inv env id to s s' h)

-- The storage of a contract that has just been deployed.
abbrev pub deployed : Store
deployed = record {
  config = none;
  owner = λ id. none;
  balance = λ who. none;
  supply = none;
  instance_live_until = 0;
  owner_live_until = λ id. 0;
  balance_live_until = λ who. 0;
}

pub data Reach : Store → Type 0 where
  start : Reach deployed
  call :
      {s : Store} (env : Env) (c : Call) (s' : Store)
      → Reach s
      → perform env c s ≡ done s'
      → Reach s'

-- In every storage that calls reach, in any order and by anyone, the books are right: there is a
-- list of the tokens that have been minted, each once; the tokens with an owner are just those; the
-- balance of an account is the number of them that it owns; and the supply is their number.
pub reachable-IsTally : {s : Store} → Reach s → IsTally s
reachable-IsTally start = record {
  minted = [];
  once = refl;
  known = λ id. refl;
  counted = λ a. refl;
  positive = λ a e. cc;
  supplied = refl;
}
reachable-IsTally (call {s} env c s' r h) = perform-IsTally env c s s' (reachable-IsTally r) h
