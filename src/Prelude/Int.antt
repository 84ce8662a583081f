-- ===== src/Prelude/Int.antt =====
-- Signed integers over the native numbers. Order and equality go through the two parts of an
-- integer, which are numbers that the tactics read.
use Prim.Native.Nat.{ℕ, suc, ◌+◌, ◌<◌, ◌≤◌}
use mathlib.Core.Bool.{Bool, false}
use sieve.Prelude.Tests.{ltb, leb, nat_eq}

-- `negsuc n` is -(n + 1).
pub data ℤ : Type 0 where
  pos : ℕ → ℤ
  negsuc : ℕ → ℤ

abbrev pub pos_part : ℤ → ℕ
pos_part (pos n) = n
pos_part (negsuc n) = 0

abbrev pub neg_part : ℤ → ℕ
neg_part (pos n) = 0
neg_part (negsuc n) = suc n

infix 50 ◌<ℤ◌ ◌≤ℤ◌
abbrev pub ◌<ℤ◌ : ℤ → ℤ → Type 0
a <ℤ b = pos_part a + neg_part b < pos_part b + neg_part a

abbrev pub ◌≤ℤ◌ : ℤ → ℤ → Type 0
a ≤ℤ b = pos_part a + neg_part b ≤ pos_part b + neg_part a

abbrev pub ltb_ℤ : ℤ → ℤ → Bool
ltb_ℤ a b = ltb (pos_part a + neg_part b) (pos_part b + neg_part a)

abbrev pub leb_ℤ : ℤ → ℤ → Bool
leb_ℤ a b = leb (pos_part a + neg_part b) (pos_part b + neg_part a)

abbrev pub int_eq : ℤ → ℤ → Bool
int_eq (pos m) (pos n) = nat_eq m n
int_eq (negsuc m) (negsuc n) = nat_eq m n
int_eq _ _ = false

-- -1, which stands for a timestamp that is not set.
abbrev pub minus_one : ℤ
minus_one = negsuc 0
