-- ===== src/Governance/Lists.antt =====
-- The lists of addresses of contracts/governance/src/lib.rs and the maps that index them.
use perpetua_contracts.Prelude.{
  ◌+◌, ◌≡◌, Bool, true, false, ◌||◌, List, [], ◌∷◌, ◌++◌, ◌==◌, if◌then◌else◌, arith, length,
  update, refl,
}
use perpetua_contracts.Governance.Types.{Address, GovernanceError, done, refuse_if-eq-done}
use perpetua_contracts.Governance.Admin.{contains, has_duplicate, remove_first, index_signers}

pub length-snoc : (xs : List Address) (a : Address) → length (xs ++ a ∷ []) ≡ length xs + 1
length-snoc [] a = omega arith
length-snoc (x ∷ xs) a = omega (arith, length-snoc xs a)

pub contains-snoc :
    (xs : List Address) (a b : Address)
    → contains (xs ++ a ∷ []) b ≡ (if b == a then true else contains xs b)
contains-snoc [] a b = ground arith
contains-snoc (x ∷ xs) a b = ground (arith, contains-snoc xs a b)

pub has_duplicate-snoc :
    (xs : List Address) (a : Address)
    → has_duplicate xs ≡ false
    → contains xs a ≡ false
    → has_duplicate (xs ++ a ∷ []) ≡ false
has_duplicate-snoc [] a d c = refl
has_duplicate-snoc (x ∷ xs) a d c = ground (arith, contains-snoc xs a x, has_duplicate-snoc xs a)

pub contains-remove_first :
    (xs : List Address) (a b : Address)
    → has_duplicate xs ≡ false
    → contains (remove_first xs a) b ≡ (if b == a then false else contains xs b)
contains-remove_first [] a b d = ground arith
contains-remove_first (x ∷ xs) a b d = ground (arith, contains-remove_first xs a b)

pub has_duplicate-remove_first :
    (xs : List Address) (a : Address)
    → has_duplicate xs ≡ false
    → has_duplicate (remove_first xs a) ≡ false
has_duplicate-remove_first [] a d = refl
has_duplicate-remove_first (x ∷ xs) a d =
    ground (arith, has_duplicate-remove_first xs a, contains-remove_first xs a x)

pub length-remove_first :
    (xs : List Address) (a : Address)
    → contains xs a ≡ true
    → length (remove_first xs a) + 1 ≡ length xs
length-remove_first [] a c = absurd (ground arith)
length-remove_first (x ∷ xs) a c = ground (arith, length-remove_first xs a)

-- The index that the loop builds has what it had before and the list, which it has not met.
pub index_signers_inv :
    (xs : List Address) (index index' : Address → Bool)
    → index_signers xs index ≡ done index'
    → (has_duplicate xs ≡ false)
      × ((b : Address) → index' b ≡ (index b || contains xs b))
      × ((b : Address) → index b ≡ true → contains xs b ≡ false)
index_signers_inv [] index index' h = (refl, λ b. ground arith, λ b e. refl)
index_signers_inv (x ∷ xs) index index' h =
    let (new, h1) = refuse_if-eq-done (index x) GovernanceError.duplicate_signer _ h in
    let (distinct, has, apart) = index_signers_inv xs (update index x true) index' h1 in
    (ground (arith, apart x), λ b. ground (arith, has b), λ b e. ground (arith, apart b))
