-- ===== src/Outcome.antt =====
-- How a call of a contract ends: with a value, a typed error, or a trap of the host.
use perpetua_contracts.Prelude.{◌≡◌, refl, ◌⊎◌, inl, inr, Bool, true, false, Option, some, none, ⊤}

pub data Outcome {κ} (Code : Type 0) (Value : Type κ) : Type κ where
  trap : Outcome Code Value
  failed : Code → Outcome Code Value
  done : Value → Outcome Code Value

infixl 5 ◌>>=◌ ◌>>◌
abbrev pub ◌>>=◌ {κ ℓ} :
    {Code : Type 0} {X : Type κ} {Y : Type ℓ}
    → Outcome Code X
    → (X → Outcome Code Y)
    → Outcome Code Y
trap >>= next = trap
failed code >>= next = failed code
done value >>= next = next value

abbrev pub ◌>>◌ {κ ℓ} :
    {Code : Type 0} {X : Type κ} {Y : Type ℓ} → Outcome Code X → Outcome Code Y → Outcome Code Y
first >> second = first >>= λ value. second

abbrev pub refuse_if : {Code : Type 0} → Bool → Code → Outcome Code ⊤
refuse_if false code = done tt
refuse_if true code = failed code

abbrev pub or_failed {κ} : {Code : Type 0} {X : Type κ} → Option X → Code → Outcome Code X
or_failed (some x) code = done x
or_failed none code = failed code

abbrev pub or_trap {κ} : {Code : Type 0} {X : Type κ} → Option X → Outcome Code X
or_trap (some x) = done x
or_trap none = trap

module _ {κ} {Code : Type 0} {X : Type κ} where
  pub Outcome-cases :
      (o : Outcome Code X)
      → ((x : X) × (o ≡ done x)) ⊎ ((o ≡ trap) ⊎ ((code : Code) × (o ≡ failed code)))
  Outcome-cases trap = inr (inl refl)
  Outcome-cases (failed code) = inr (inr (code, refl))
  Outcome-cases (done x) = inl (x, refl)

  pub >>=-eq-done {ℓ} :
      {Y : Type ℓ} {y : Y} (first : Outcome Code X) (next : X → Outcome Code Y)
      → (first >>= next) ≡ done y
      → (value : X) × (first ≡ done value) × (next value ≡ done y)
  >>=-eq-done trap next whole = cc
  >>=-eq-done (failed code) next whole = cc
  >>=-eq-done (done value) next whole = (value, refl, whole)

-- A guard that has let the call through.
pub refuse_if-eq-done {κ} :
    {Code : Type 0} {Y : Type κ} {y : Y} (test : Bool) (code : Code) (next : ⊤ → Outcome Code Y)
    → (refuse_if test code >>= next) ≡ done y
    → (test ≡ false) × (next tt ≡ done y)
refuse_if-eq-done false code next whole = (refl, whole)
refuse_if-eq-done true code next whole = cc
