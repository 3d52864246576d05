-- ===== src/Base/Int.antt =====
-- Signed integers over the native numbers, as far as the program tests and multiplies them.
use Prim.Native.Nat.{ℕ, zero, suc, ◌-◌, ◌*◌, ◌%◌, ◌^◌, ◌<◌}
use mathlib.Core.Path.{◌≡◌, refl}
use native.Mathlib.Omega.{arith}
use durablego.Base.Tests.{ltb, if◌then◌else◌}

-- `negsuc n` is -(n + 1).
pub data ℤ : Type 0 where
  pos : ℕ → ℤ
  negsuc : ℕ → ℤ

-- The source's `if x <= 0 { x = default }`.
abbrev pub positive_or : ℤ → ℕ → ℕ
positive_or (pos zero) d = d
positive_or (pos (suc n)) d = suc n
positive_or (negsuc n) d = d

pub positive_or_pos : (x : ℤ) (d : ℕ) → 0 < d → 0 < positive_or x d
positive_or_pos (pos zero) d h = h
positive_or_pos (pos (suc n)) d h = omega arith
positive_or_pos (negsuc n) d h = h

pub positive_or_self : (n d : ℕ) → 0 < n → positive_or (pos n) d ≡ n
positive_or_self zero d h = absurd (omega arith)
positive_or_self (suc n) d h = refl

-- The int64 product of two numbers that are not negative, with its wrap-around.
abbrev pub int64_of : ℕ → ℤ
int64_of r = if ltb r (2 ^ 63) then pos r else negsuc (2 ^ 64 - r - 1)

unfoldable pub mul_int64 : ℕ → ℕ → ℤ
mul_int64 a b = int64_of ((a * b) % 2 ^ 64)

int64_of_small : (p : ℕ) → p < 2 ^ 63 → int64_of (p % 2 ^ 64) ≡ pos p
int64_of_small p h = let same : p % 2 ^ 64 ≡ p = omega arith in rw same (ground arith)

-- A product that fits is exact.
pub mul_int64_small : (a b : ℕ) → a * b < 2 ^ 63 → mul_int64 a b ≡ pos (a * b)
unfolding mul_int64
mul_int64_small a b h = int64_of_small (a * b) h
