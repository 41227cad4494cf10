-- ===== src/Prelude/Int.antt =====
-- Signed integers over the native numbers, under the library's names.
use mathlib.Core.Path.{◌≡◌}
use native.Mathlib.Omega.{arith}
use lxtos.Prelude.Tests.{leb, if◌then◌else◌}
use Prim.Native.Nat.{ℕ, suc, ◌+◌, ◌-◌}

-- `negsuc n` is -(n + 1).
pub data ℤ : Type 0 where
  pos : ℕ → ℤ
  negsuc : ℕ → ℤ

abbrev pub pos_part : ℤ → ℕ
pos_part (pos n) = n
pos_part (negsuc n) = 0

abbrev pub neg_part : ℤ → ℕ
neg_part (pos n) = 0
neg_part (negsuc n) = suc n

-- a - b, as an integer.
abbrev pub sub_ℕ : ℕ → ℕ → ℤ
sub_ℕ a b = if leb b a then pos (a - b) else negsuc (b - a - 1)

infixl 65 ◌-ℤ◌
unfoldable pub ◌-ℤ◌ : ℤ → ℤ → ℤ
a -ℤ b = sub_ℕ (pos_part a + neg_part b) (neg_part a + pos_part b)

abbrev pub neg : ℤ → ℤ
neg a = sub_ℕ (neg_part a) (pos_part a)

pub neg-sub : (a b : ℤ) → neg (a -ℤ b) ≡ b -ℤ a
unfolding ◌-ℤ◌
neg-sub a b = ground arith

pub sub_self : (a : ℤ) → a -ℤ a ≡ pos 0
unfolding ◌-ℤ◌
sub_self a = ground arith

pub sub-eq_zero : (a b : ℤ) → a -ℤ b ≡ pos 0 → a ≡ b
unfolding ◌-ℤ◌
sub-eq_zero a b h = ground arith
