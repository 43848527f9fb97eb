-- ===== src/Base/Ints.antt =====
-- Signed integers over the native numbers: those that Postgres computes without bound, and int64
-- values with the wrap-around of a 64-bit sum.
use Prim.Native.Nat.{ℕ, suc, ◌+◌, ◌-◌, ◌*◌, ◌%◌}
use mathlib.Core.Path.{◌≡◌}
use mathlib.Core.Bool.{Bool, false}
use native.Mathlib.Omega.{arith}
use nimbus_storage_platform.Base.Tests.{if◌then◌else◌, ltb, leb}

-- `negsuc n` is -(n + 1).
pub data ℤ : Type 0 where
  pos : ℕ → ℤ
  negsuc : ℕ → ℤ

abbrev pub pos_part : ℤ → ℕ
pos_part (pos n) = n
pos_part (negsuc n) = 0

abbrev pub neg_part : ℤ → ℕ
neg_part (pos n) = 0
neg_part (negsuc n) = suc n

-- a - b, as an integer.
abbrev pub sub_ℕ : ℕ → ℕ → ℤ
sub_ℕ a b = if leb b a then pos (a - b) else negsuc (b - a - 1)

abbrev pub ltb_ℤ : ℤ → ℤ → Bool
ltb_ℤ a b = ltb (pos_part a + neg_part b) (pos_part b + neg_part a)

infixl 65 ◌+ℤ◌ ◌-ℤ◌
unfoldable pub ◌+ℤ◌ : ℤ → ℤ → ℤ
a +ℤ b = sub_ℕ (pos_part a + pos_part b) (neg_part a + neg_part b)

unfoldable pub ◌-ℤ◌ : ℤ → ℤ → ℤ
a -ℤ b = sub_ℕ (pos_part a + neg_part b) (neg_part a + pos_part b)

pub +ℤ_parts :
    (a b : ℤ)
    → pos_part (a +ℤ b) + neg_part a + neg_part b ≡ neg_part (a +ℤ b) + pos_part a + pos_part b
unfolding ◌+ℤ◌
+ℤ_parts a b = ground arith

pub -ℤ_parts :
    (a b : ℤ)
    → pos_part (a -ℤ b) + neg_part a + pos_part b ≡ neg_part (a -ℤ b) + pos_part a + neg_part b
unfolding ◌-ℤ◌
-ℤ_parts a b = ground arith

pub eq_of_parts : (a b : ℤ) → pos_part a + neg_part b ≡ pos_part b + neg_part a → a ≡ b
eq_of_parts a b h = ground arith

-- What `omega` needs to know of sums and differences.
pub ruleset int_laws = (arith, +ℤ_parts, -ℤ_parts, eq_of_parts)

abbrev pub two_pow_63 : ℕ
two_pow_63 = 9223372036854775808

-- Whether a value fits a column of Postgres' 32-bit type `int`.
abbrev pub fits_int4 : ℤ → Bool
fits_int4 (pos n) = ltb n 2147483648
fits_int4 (negsuc n) = ltb n 2147483648

-- Whether a value fits 64 bits: a bigint of Postgres, an int64 of Go.
abbrev pub fits_int8 : ℤ → Bool
fits_int8 (pos n) = ltb n two_pow_63
fits_int8 (negsuc n) = ltb n two_pow_63

-- A value that a bigint column with a CHECK against negative values takes.
abbrev pub fits_usage : ℤ → Bool
fits_usage (pos n) = ltb n two_pow_63
fits_usage (negsuc n) = false

-- The int64 that a bit pattern stands for.
abbrev pub of_bits : ℕ → ℤ
of_bits n = if ltb n two_pow_63 then pos n else negsuc (2 * two_pow_63 - n - 1)

-- int64 addition: the sum modulo 2^64, read as a signed number.
unfoldable pub add64 : ℤ → ℤ → ℤ
add64 a b =
    of_bits
      ((pos_part a + pos_part b + 4 * two_pow_63 - neg_part a - neg_part b) % (2 * two_pow_63))
