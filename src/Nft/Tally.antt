-- ===== src/Nft/Tally.antt =====
-- What the balances and the supply of contracts/stream-nft/src/lib.rs stand for.
use perpetua_contracts.Prelude.{
  ℕ, ◌+◌, ◌<◌, ◌≡◌, ◌≢◌, ◌||◌, Bool, true, false, Option, none, some, List, [], ◌∷◌, ◌==◌, is_some,
  get_or, if◌then◌else◌, length, update, arith, refl,
}
use perpetua_contracts.Nft.Token.{Address, Store}

abbrev pub listed : List ℕ → ℕ → Bool
listed [] id = false
listed (i ∷ ids) id = i == id || listed ids id

abbrev pub is_distinct : List ℕ → Bool
is_distinct [] = true
is_distinct (i ∷ ids) = if listed ids i then false else is_distinct ids

abbrev pub owns : Option Address → Address → ℕ
owns none a = 0
owns (some b) a = if b == a then 1 else 0

-- How many of the tokens `a` owns.
abbrev pub holding : (ℕ → Option Address) → List ℕ → Address → ℕ
holding owner [] a = 0
holding owner (i ∷ ids) a = owns (owner i) a + holding owner ids a

-- The tokens that have been minted, each once; the balance of an account is the number of them that
-- it owns, and no balance of 0 is stored; the supply is their number.
pub record IsTally (s : Store) : Type 0 where
  pub minted : List ℕ
  pub once : is_distinct minted ≡ true
  pub known : (id : ℕ) → is_some (s.owner id) ≡ listed minted id
  pub counted : (a : Address) → get_or (s.balance a) 0 ≡ holding s.owner minted a
  pub positive : (a : Address) → s.balance a ≢ some 0
  pub supplied : get_or s.supply 0 ≡ length minted

-- A token that is not in the list does not count.
pub holding-fresh :
    (owner : ℕ → Option Address) (ids : List ℕ) (id : ℕ) (o : Option Address) (a : Address)
    → listed ids id ≡ false
    → holding (update owner id o) ids a ≡ holding owner ids a
holding-fresh owner [] id o a h = refl
holding-fresh owner (i ∷ ids) id o a h = ground (arith, holding-fresh owner ids id o a)

-- A token in the list counts once for the new owner and no more for the old one.
pub holding-moved :
    (owner : ℕ → Option Address) (ids : List ℕ) (id : ℕ) (from to a : Address)
    → is_distinct ids ≡ true
    → listed ids id ≡ true
    → owner id ≡ some from
    → holding (update owner id (some to)) ids a + owns (some from) a
      ≡ holding owner ids a + owns (some to) a
holding-moved owner [] id from to a d l e = cc
holding-moved owner (i ∷ ids) id from to a d l e =
    ground (arith, holding-fresh owner ids id (some to) a, holding-moved owner ids id from to a)

-- Whoever owns a token of the list holds at least one.
pub holding-owner :
    (owner : ℕ → Option Address) (ids : List ℕ) (id : ℕ) (from : Address)
    → listed ids id ≡ true
    → owner id ≡ some from
    → 0 < holding owner ids from
holding-owner owner [] id from l e = cc
holding-owner owner (i ∷ ids) id from l e = ground (arith, holding-owner owner ids id from)
