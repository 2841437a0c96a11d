-- ===== src/Common/Int.antt =====
-- Python's `int` where it may be negative, with the comparisons that the programs make.
use Prim.Native.Nat.{ℕ, suc, ◌+◌, ◌-◌}
use mathlib.Core.Path.{◌≡◌}
use mathlib.Core.Bool.{Bool}
use native.Mathlib.Omega.{arith}
use wheelta_robinhood_agent.Common.Tests.{ltb, leb, ◌==◌, if◌then◌else◌}

-- `negsuc n` is -(n + 1).
pub data ℤ : Type 0 where
  pos : ℕ → ℤ
  negsuc : ℕ → ℤ

abbrev pub pos_part : ℤ → ℕ
pos_part (pos n) = n
pos_part (negsuc n) = 0

abbrev pub neg_part : ℤ → ℕ
neg_part (pos n) = 0
neg_part (negsuc n) = suc n

abbrev pub ltb_ℤ : ℤ → ℤ → Bool
ltb_ℤ a b = ltb (pos_part a + neg_part b) (pos_part b + neg_part a)

infix 50 ◌==ℤ◌
abbrev pub ◌==ℤ◌ : ℤ → ℤ → Bool
a ==ℤ b = (pos_part a + neg_part b) == (pos_part b + neg_part a)

-- a - b for naturals a and b.
abbrev pub of_diff : ℕ → ℕ → ℤ
of_diff a b = if leb b a then pos (a - b) else negsuc (b - a - 1)

infixl 60 ◌+ℤ◌
abbrev pub ◌+ℤ◌ : ℤ → ℤ → ℤ
a +ℤ b = of_diff (pos_part a + pos_part b) (neg_part a + neg_part b)

-- `max(a, 0)`
abbrev pub max_zero : ℤ → ℕ
max_zero a = pos_part a

pub of_diff-add : (a b c d : ℕ) → of_diff a b +ℤ of_diff c d ≡ of_diff (a + c) (b + d)
of_diff-add a b c d = ground arith
