-- ===== src/Common/Int.antt =====
-- Integers, and Go's 64-bit `int` with its wrap-around.
use Prim.Native.Nat.{ℕ, suc, ◌+◌, ◌-◌, ◌%◌, ◌^◌, ◌<◌}
use mathlib.Core.Path.{◌≡◌, refl}
use mathlib.Core.Bool.{Bool, false}
use native.Mathlib.Omega.{arith}
use flagstack.Common.Tests.{ltb, leb, if◌then◌else◌}

-- `negsuc n` is -(n + 1).
pub data ℤ : Type 0 where
  pos : ℕ → ℤ
  negsuc : ℕ → ℤ

abbrev pub pos_part : ℤ → ℕ
pos_part (pos n) = n
pos_part (negsuc n) = 0

abbrev pub neg_part : ℤ → ℕ
neg_part (pos n) = 0
neg_part (negsuc n) = suc n

-- a < b and a ≤ b
abbrev pub lt_int : ℤ → ℤ → Bool
lt_int a b = ltb (pos_part a + neg_part b) (pos_part b + neg_part a)

abbrev pub le_int : ℤ → ℤ → Bool
le_int a b = leb (pos_part a + neg_part b) (pos_part b + neg_part a)

-- a == b
abbrev pub eq_int : ℤ → ℤ → Bool
eq_int (pos a) (pos b) = flagstack.Common.Tests.eqb a b
eq_int (negsuc a) (negsuc b) = flagstack.Common.Tests.eqb a b
eq_int _ _ = false

-- The two's complement reading of a 64-bit pattern.
of_bits : ℕ → ℤ
of_bits n = if ltb n (2 ^ 63) then pos n else negsuc (2 ^ 64 - 1 - n)

-- a + b at type `int`, on the 64-bit platforms that the server is built for.
unfoldable pub add_int : ℤ → ℤ → ℤ
unfolding of_bits
add_int a b = of_bits ((pos_part a + pos_part b + 2 ^ 65 - neg_part a - neg_part b) % 2 ^ 64)

-- No wrap-around below 2 ^ 63.
pub add_int-pos : (a b : ℕ) → a + b < 2 ^ 63 → add_int (pos a) (pos b) ≡ pos (a + b)
unfolding add_int
add_int-pos a b h = ground arith

wraps : add_int (pos (2 ^ 63 - 1)) (pos 1) ≡ negsuc (2 ^ 63 - 1)
unfolding add_int
wraps = refl

adds_negative : add_int (negsuc 4) (pos 3) ≡ negsuc 1
unfolding add_int
adds_negative = refl
