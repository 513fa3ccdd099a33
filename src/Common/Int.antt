-- ===== src/Common/Int.antt =====
-- Go's signed integers, over the native numbers: the tests that the sources make on them, and the
-- increment of an int64.
use Prim.Native.Nat.{ℕ, zero, suc, ◌+◌, ◌-◌, ◌^◌, ◌≤◌, ◌<◌}
use mathlib.Core.Path.{◌≡◌}
use mathlib.Core.Bool.{Bool, true}
use native.Mathlib.Omega.{arith}
use quorum_market.Common.Tests.{ltb, leb, ◌==◌, if◌then◌else◌}

-- `negsuc n` is -(n + 1).
pub data ℤ : Type 0 where
  pos : ℕ → ℤ
  negsuc : ℕ → ℤ

abbrev pub pos_part : ℤ → ℕ
pos_part (pos n) = n
pos_part (negsuc n) = 0

abbrev pub neg_part : ℤ → ℕ
neg_part (pos n) = 0
neg_part (negsuc n) = suc n

infix 50 ◌<ℤ◌ ◌≤ℤ◌
abbrev pub ◌<ℤ◌ : ℤ → ℤ → Type 0
a <ℤ b = pos_part a + neg_part b < pos_part b + neg_part a

abbrev pub ◌≤ℤ◌ : ℤ → ℤ → Type 0
a ≤ℤ b = pos_part a + neg_part b ≤ pos_part b + neg_part a

abbrev pub ltb_ℤ : ℤ → ℤ → Bool
ltb_ℤ a b = ltb (pos_part a + neg_part b) (pos_part b + neg_part a)

abbrev pub leb_ℤ : ℤ → ℤ → Bool
leb_ℤ a b = leb (pos_part a + neg_part b) (pos_part b + neg_part a)

abbrev pub eqb_ℤ : ℤ → ℤ → Bool
eqb_ℤ a b = (pos_part a + neg_part b) == (pos_part b + neg_part a)

pub eqb_ℤ→eq : (a b : ℤ) → eqb_ℤ a b ≡ true → a ≡ b
eqb_ℤ→eq a b h = ground arith

abbrev pub max_i64 : ℕ
max_i64 = 2 ^ 63 - 1

-- `x + 1` on an int64: the largest value wraps to the smallest.
unfoldable pub suc_i64 : ℤ → ℤ
suc_i64 (pos n) = if n == max_i64 then negsuc max_i64 else pos (n + 1)
suc_i64 (negsuc zero) = pos 0
suc_i64 (negsuc (suc n)) = negsuc n

-- Below the largest value the increment is exact.
pub lt-suc_i64 : (v : ℤ) → v <ℤ pos max_i64 → v <ℤ suc_i64 v
unfolding suc_i64
lt-suc_i64 (pos n) h = ground arith
lt-suc_i64 (negsuc zero) h = omega arith
lt-suc_i64 (negsuc (suc n)) h = omega arith

-- `x + y` on an int64, which keeps the low 64 bits.
unfoldable pub add_i64 : ℤ → ℤ → ℤ
add_i64 (pos a) (pos b) = if leb (a + b) max_i64 then pos (a + b) else negsuc (2 ^ 64 - 1 - (a + b))
add_i64 (pos a) (negsuc b) = if ltb b a then pos (a - suc b) else negsuc (b - a)
add_i64 (negsuc a) (pos b) = if ltb a b then pos (b - suc a) else negsuc (a - b)
add_i64 (negsuc a) (negsuc b) =
    if leb (a + b + 1) max_i64 then negsuc (a + b + 1) else pos (2 ^ 64 - (a + b + 2))

-- The sum of two numbers from zero up is exact, as long as it is an int64.
pub add_i64-exact :
    (a b : ℤ)
    → pos 0 ≤ℤ a
    → pos 0 ≤ℤ b
    → pos_part a + pos_part b ≤ max_i64
    → add_i64 a b ≡ pos (pos_part a + pos_part b)
unfolding add_i64
add_i64-exact (pos a) (pos b) p q h = ground arith
add_i64-exact (pos a) (negsuc b) p q h = absurd (omega arith)
add_i64-exact (negsuc a) b p q h = absurd (omega arith)
