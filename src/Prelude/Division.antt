-- ===== src/Prelude/Division.antt =====
-- Rounded division: monotone in the numerator, and the mediant of two rates.
use Prim.Native.Nat.{ℕ, ◌+◌, ◌*◌, ◌/◌, ◌≤◌, ◌<◌}
use native.Mathlib.Omega.{arith}
use native.Mathlib.Nat.{
  le-div_iff_mul-le, div-mul-le_self, le_trans, mul-le-mul_left, mul-le-mul_right,
  le_of_mul-le-mul_right, div-le_of_le-mul, lt-div-mul-add,
}

pub div_mono : (a b k : ℕ) → a ≤ b → 0 < k → a / k ≤ b / k
div_mono a b k h p = (le-div_iff_mul-le {k = k} p).1 (le_trans (div-mul-le_self a k) h)

-- A share of at most the whole is at most the whole.
pub share-le : (d e k : ℕ) → e ≤ k → d * e / k ≤ d
share-le d e k h = div-le_of_le-mul k (omega (arith, mul-le-mul_left d h))

-- The share of `d` for `e` of `k` lies between its rounding and the next.
pub share_lower : (n k : ℕ) → n / k * k ≤ n
share_lower n k = div-mul-le_self n k

pub share_upper : (n k : ℕ) → 0 < k → n < (n / k + 1) * k
share_upper n k p = omega (arith, lt-div-mul-add {a = n} {b = k} p)

-- If `a` per `x` is at least `d` per `k`, then adding `a` and `x` lowers no share of `e`.
pub mediant-le : (d a e k x : ℕ) → 0 < k → d * x ≤ a * k → d * e / k ≤ (d + a) * e / (k + x)
mediant-le d a e k x p h = (le-div_iff_mul-le {k = k + x} (omega arith)).1 (
    le_of_mul-le-mul_right {k = k}
      (omega (arith, mul-le-mul_right (k + x) (div-mul-le_self (d * e) k), mul-le-mul_right e h)) p)
