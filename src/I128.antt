-- ===== src/I128.antt =====
-- The checked operations of Rust's `i128`: `none` where the result leaves the range.
use perpetua_contracts.Prelude.{
  ℕ, ◌+◌, ◌-◌, ◌*◌, ◌/◌, ◌^◌, ◌≤◌, ◌<◌, ◌≡◌, ◌&&◌, Option, none, some, arith, leb, if◌then◌else◌,
}
use perpetua_contracts.Prelude.Int.{
  ℤ, pos, negsuc, ◌+ℤ◌, ◌-ℤ◌, ◌*ℤ◌, ◌/ℤ◌, leb_ℤ, eq_ℤ, +ℤ-pos, -ℤ-pos, *ℤ-pos,
}

-- `i128::MAX`; `i128::MIN` is its negation less one, `negsuc i128_max`.
abbrev pub i128_max : ℕ
i128_max = 2 ^ 127 - 1

abbrev pub fit : ℤ → Option ℤ
fit z = if leb_ℤ (negsuc i128_max) z && leb_ℤ z (pos i128_max) then some z else none

unfoldable pub checked_add : ℤ → ℤ → Option ℤ
checked_add a b = fit (a +ℤ b)

unfoldable pub checked_sub : ℤ → ℤ → Option ℤ
checked_sub a b = fit (a -ℤ b)

unfoldable pub checked_mul : ℤ → ℤ → Option ℤ
checked_mul a b = fit (a *ℤ b)

unfoldable pub checked_div : ℤ → ℤ → Option ℤ
checked_div a b = if eq_ℤ b (pos 0) then none else fit (a /ℤ b)

-- On numbers that are not negative, each is the operation on ℕ with its bound.
pub checked_add-pos :
    (a b : ℕ)
    → checked_add (pos a) (pos b) ≡ (if leb (a + b) i128_max then some (pos (a + b)) else none)
unfolding checked_add
checked_add-pos a b = rw +ℤ-pos (ground arith)

pub checked_sub-pos :
    (a b : ℕ) → b ≤ a → a ≤ i128_max → checked_sub (pos a) (pos b) ≡ some (pos (a - b))
unfolding checked_sub
checked_sub-pos a b h k = rw (-ℤ-pos, h) (ground arith)

pub checked_mul-pos :
    (a b : ℕ)
    → checked_mul (pos a) (pos b) ≡ (if leb (a * b) i128_max then some (pos (a * b)) else none)
unfolding checked_mul
checked_mul-pos a b = rw *ℤ-pos (ground arith)

pub checked_div-pos :
    (a b : ℕ) → 0 < b → a ≤ i128_max → checked_div (pos a) (pos b) ≡ some (pos (a / b))
unfolding checked_div ◌/ℤ◌
checked_div-pos a b h k = ground (arith, native.Mathlib.Nat.div-le_self a b)
