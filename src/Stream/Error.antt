-- ===== src/Stream/Error.antt =====
-- contracts/stream/src/error.rs, and how an entry point ends: with a value, with a typed error,
-- or with a trap of the host. The host undoes every write of a call that ends in either of the last two.
use perpetua_contracts.Prelude.{
  ◌≡◌, refl, ◌⊎◌, inl, inr, ℕ, Bool, true, false, Option, none, some, ⊤,
}

pub data Error : Type 0 where
  stream_not_found invalid_time_range invalid_cliff invalid_deposit : Error
  deposit_rate_too_low self_stream unauthorized not_cancellable : Error
  not_pausable not_transferable stream_not_active stream_not_paused : Error
  stream_already_paused stream_terminated stream_matured insufficient_withdrawable : Error
  nothing_to_withdraw invalid_amount batch_too_large empty_batch : Error
  duplicate_stream_id overflow top_up_too_small stream_id_exhausted : Error
  token_transfer_failed token_missing delegate_not_permitted delegate_expired : Error
  malformed_stream_id repeated_transfer invalid_top_up deposit_too_small : Error
  stream_id_overflow batch_size_exceeded : Error

-- The discriminants of the public ABI.
pub discriminant : Error → ℕ
discriminant Error.stream_not_found = 1
discriminant Error.invalid_time_range = 2
discriminant Error.invalid_cliff = 3
discriminant Error.invalid_deposit = 4
discriminant Error.deposit_rate_too_low = 5
discriminant Error.self_stream = 6
discriminant Error.unauthorized = 7
discriminant Error.not_cancellable = 8
discriminant Error.not_pausable = 9
discriminant Error.not_transferable = 10
discriminant Error.stream_not_active = 11
discriminant Error.stream_not_paused = 12
discriminant Error.stream_already_paused = 13
discriminant Error.stream_terminated = 14
discriminant Error.stream_matured = 15
discriminant Error.insufficient_withdrawable = 16
discriminant Error.nothing_to_withdraw = 17
discriminant Error.invalid_amount = 18
discriminant Error.batch_too_large = 19
discriminant Error.empty_batch = 20
discriminant Error.duplicate_stream_id = 21
discriminant Error.overflow = 22
discriminant Error.top_up_too_small = 23
discriminant Error.stream_id_exhausted = 24
discriminant Error.token_transfer_failed = 25
discriminant Error.token_missing = 26
discriminant Error.delegate_not_permitted = 27
discriminant Error.delegate_expired = 28
discriminant Error.malformed_stream_id = 29
discriminant Error.repeated_transfer = 30
discriminant Error.invalid_top_up = 31
discriminant Error.deposit_too_small = 32
discriminant Error.stream_id_overflow = 33
discriminant Error.batch_size_exceeded = 34

-- What an entry point returns.
pub data Result {κ} (Value : Type κ) : Type κ where
  trap : Result Value
  err : Error → Result Value
  ok : Value → Result Value

infixl 5 ◌>>=◌
abbrev pub ◌>>=◌ {κ ℓ} : {X : Type κ} {Y : Type ℓ} → Result X → (X → Result Y) → Result Y
trap >>= next = trap
err code >>= next = err code
ok value >>= next = next value

-- `if test { return Err(e) }`
abbrev pub fail_if : Bool → Error → Result ⊤
fail_if true e = err e
fail_if false e = ok tt

abbrev pub ok_or {ℓ} : {A : Type ℓ} → Option A → Error → Result A
ok_or none e = err e
ok_or (some a) e = ok a

infixl 5 ◌>>◌
abbrev pub ◌>>◌ {κ ℓ} : {X : Type κ} {Y : Type ℓ} → Result X → Result Y → Result Y
first >> second = first >>= λ value. second

pub Result-cases {ℓ} :
    {A : Type ℓ} (r : Result A)
    → ((a : A) × (r ≡ ok a)) ⊎ ((r ≡ trap) ⊎ ((e : Error) × (r ≡ err e)))
Result-cases (ok a) = inl (a, refl)
Result-cases (err e) = inr (inr (e, refl))
Result-cases trap = inr (inl refl)

pub >>=-cong {κ ℓ} :
    {X : Type κ} {Y : Type ℓ} (first : Result X) (next other : X → Result Y)
    → ((value : X) → next value ≡ other value)
    → (first >>= next) ≡ (first >>= other)
>>=-cong trap next other same = refl
>>=-cong (err code) next other same = refl
>>=-cong (ok value) next other same = same value

-- A chain that succeeds has a first step that succeeds, and goes on from its value.
pub >>=-eq-ok {κ ℓ} :
    {X : Type κ} {Y : Type ℓ} {y : Y} (first : Result X) (next : X → Result Y)
    → (first >>= next) ≡ ok y
    → (value : X) × (first ≡ ok value) × (next value ≡ ok y)
>>=-eq-ok trap next whole = cc
>>=-eq-ok (err code) next whole = cc
>>=-eq-ok (ok value) next whole = (value, refl, whole)
