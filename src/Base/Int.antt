-- ===== src/Base/Int.antt =====
-- Signed integers (`i128`) over the native numbers. Sums and orders go through the two parts of an
-- integer, which are numbers.
use Prim.Native.Nat.{ℕ, suc, ◌+◌, ◌-◌, ◌*◌, ◌/◌, ◌%◌, ◌≤◌, min}
use mathlib.Core.Bool.{Bool, ◌&&◌}
use native.Mathlib.Omega.{arith}
use chain_logistics.Base.Tests.{leb, ltb, ◌==◌, if◌then◌else◌}

-- `negsuc n` is -(n + 1).
pub data ℤ : Type 0 where
  pos : ℕ → ℤ
  negsuc : ℕ → ℤ

abbrev pub pos_part : ℤ → ℕ
pos_part (pos n) = n
pos_part (negsuc n) = 0

abbrev pub neg_part : ℤ → ℕ
neg_part (pos n) = 0
neg_part (negsuc n) = suc n

-- a - b, as an integer.
abbrev pub sub_ℕ : ℕ → ℕ → ℤ
sub_ℕ a b = if leb b a then pos (a - b) else negsuc (b - a - 1)

infixl 65 ◌+ℤ◌ ◌-ℤ◌
infixl 70 ◌/ℤ◌
infix 50 ◌≤ℤ◌
abbrev pub ◌+ℤ◌ : ℤ → ℤ → ℤ
a +ℤ b = sub_ℕ (pos_part a + pos_part b) (neg_part a + neg_part b)

abbrev pub ◌-ℤ◌ : ℤ → ℤ → ℤ
a -ℤ b = sub_ℕ (pos_part a + neg_part b) (neg_part a + pos_part b)

abbrev pub neg : ℤ → ℤ
neg a = sub_ℕ (neg_part a) (pos_part a)

-- `a / 2`, which drops the fraction towards zero.
abbrev pub halve : ℤ → ℤ
halve (pos n) = pos (n / 2)
halve (negsuc n) = sub_ℕ 0 (suc n / 2)

abbrev pub ◌≤ℤ◌ : ℤ → ℤ → Type 0
a ≤ℤ b = pos_part a + neg_part b ≤ pos_part b + neg_part a

abbrev pub ltb_ℤ : ℤ → ℤ → Bool
ltb_ℤ a b = ltb (pos_part a + neg_part b) (pos_part b + neg_part a)

abbrev pub leb_ℤ : ℤ → ℤ → Bool
leb_ℤ a b = leb (pos_part a + neg_part b) (pos_part b + neg_part a)

abbrev pub eqb_ℤ : ℤ → ℤ → Bool
eqb_ℤ a b = pos_part a + neg_part b == pos_part b + neg_part a

-- The range of `i128`.
abbrev pub max_i128 : ℕ
max_i128 = 170141183460469231731687303715884105727

abbrev pub is_i128 : ℤ → Bool
is_i128 a = leb (pos_part a) max_i128 && leb (neg_part a) (suc max_i128)

-- `a / b`, which drops the fraction towards zero.
abbrev pub ◌/ℤ◌ : ℤ → ℤ → ℤ
pos m /ℤ pos n = pos (m / n)
pos m /ℤ negsuc n = sub_ℕ 0 (m / suc n)
negsuc m /ℤ pos n = sub_ℕ 0 (suc m / n)
negsuc m /ℤ negsuc n = pos (suc m / suc n)

-- `a.saturating_mul(k)` for a `k` that is not negative.
abbrev pub saturating_mul : ℤ → ℕ → ℤ
saturating_mul (pos m) k = pos (min (m * k) max_i128)
saturating_mul (negsuc m) k = sub_ℕ 0 (min (suc m * k) (suc max_i128))

-- `a as u32` keeps the low 32 bits.
abbrev pub to_u32 : ℤ → ℕ
to_u32 (pos n) = n % 4294967296
to_u32 (negsuc n) = 4294967295 - n % 4294967296

-- The mean of two numbers lies between them.
pub halve_between : (a b : ℤ) → a ≤ℤ b → (a ≤ℤ halve (a +ℤ b)) × (halve (a +ℤ b) ≤ℤ b)
halve_between (pos m) (pos n) h = ground arith
halve_between (pos m) (negsuc n) h = ground arith
halve_between (negsuc m) (pos n) h = ground arith
halve_between (negsuc m) (negsuc n) h = ground arith
