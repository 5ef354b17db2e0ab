-- ===== src/Base/Integers.antt =====
-- Signed integers: the values of int64_t and int before a range is put on them.
use Prim.Native.Nat.{ℕ, suc, ◌+◌, ◌-◌, ◌^◌, ◌≤◌}
use mathlib.Core.Bool.{Bool, true}
use mathlib.Core.Path.{◌≡◌}
use native.Mathlib.Omega.{arith}
use bitcoin_tui.Base.Tests.{ltb, leb, if◌then◌else◌}

-- `negsuc n` is -(n + 1).
pub data ℤ : Type 0 where
  pos : ℕ → ℤ
  negsuc : ℕ → ℤ

abbrev pub pos_part : ℤ → ℕ
pos_part (pos n) = n
pos_part (negsuc n) = 0

abbrev pub neg_part : ℤ → ℕ
neg_part (pos n) = 0
neg_part (negsuc n) = suc n

-- a - b, as an integer.
abbrev pub sub_ℕ : ℕ → ℕ → ℤ
sub_ℕ a b = if leb b a then pos (a - b) else negsuc (b - a - 1)

infixl 65 ◌+ℤ◌ ◌-ℤ◌
infix 50 ◌≤ℤ◌
abbrev pub ◌+ℤ◌ : ℤ → ℤ → ℤ
a +ℤ b = sub_ℕ (pos_part a + pos_part b) (neg_part a + neg_part b)

abbrev pub ◌-ℤ◌ : ℤ → ℤ → ℤ
a -ℤ b = sub_ℕ (pos_part a + neg_part b) (neg_part a + pos_part b)

abbrev pub ◌≤ℤ◌ : ℤ → ℤ → Type 0
a ≤ℤ b = pos_part a + neg_part b ≤ pos_part b + neg_part a

abbrev pub ltb_ℤ : ℤ → ℤ → Bool
ltb_ℤ a b = ltb (pos_part a + neg_part b) (pos_part b + neg_part a)

abbrev pub leb_ℤ : ℤ → ℤ → Bool
leb_ℤ a b = leb (pos_part a + neg_part b) (pos_part b + neg_part a)

abbrev pub min_ℤ : ℤ → ℤ → ℤ
min_ℤ a b = if ltb_ℤ b a then b else a

abbrev pub max_ℤ : ℤ → ℤ → ℤ
max_ℤ a b = if ltb_ℤ a b then b else a

-- INT64_MAX; the least value of int64_t is one further from zero.
abbrev pub int64_max : ℕ
int64_max = 2 ^ 63 - 1

abbrev pub InInt64 : ℤ → Type 0
InInt64 (pos n) = n ≤ int64_max
InInt64 (negsuc n) = n ≤ int64_max

-- Integers that are natural numbers.
pub nonneg : (n : ℕ) → leb_ℤ (pos 0) (pos n) ≡ true
nonneg n = ground arith

pub positive : (n : ℕ) → ltb_ℤ (pos 0) (pos (suc n)) ≡ true
positive n = ground arith

pub succ_pos : (n : ℕ) → pos n +ℤ pos 1 ≡ pos (suc n)
succ_pos n = ground arith

pub pred_pos : (n : ℕ) → pos (suc n) -ℤ pos 1 ≡ pos n
pred_pos n = ground arith
