-- ===== src/Prelude/Int.antt =====
-- Signed integers over the native numbers: the `int` of return codes, counters and descriptors.
use Prim.Native.Nat.{ℕ, suc, ◌+◌, ◌-◌, ◌^◌, ◌%◌, ◌<◌, ◌≤◌}
use mathlib.Core.Path.{◌≡◌}
use mathlib.Core.Bool.{Bool, true, false}
use native.Mathlib.Omega.{arith}
use dbs_assignment.Prelude.Tests.{ltb, leb, ◌==◌, if◌then◌else◌}

-- `negsuc n` is -(n + 1).
pub data ℤ : Type 0 where
  pos : ℕ → ℤ
  negsuc : ℕ → ℤ

abbrev pub pos_part : ℤ → ℕ
pos_part (pos n) = n
pos_part (negsuc n) = 0

abbrev pub neg_part : ℤ → ℕ
neg_part (pos n) = 0
neg_part (negsuc n) = suc n

-- a - b, as an integer.
abbrev pub sub_ℕ : ℕ → ℕ → ℤ
sub_ℕ a b = if leb b a then pos (a - b) else negsuc (b - a - 1)

infixl 65 ◌+ℤ◌
infix 50 ◌≤ℤ◌
abbrev pub ◌+ℤ◌ : ℤ → ℤ → ℤ
a +ℤ b = sub_ℕ (pos_part a + pos_part b) (neg_part a + neg_part b)

abbrev pub ◌≤ℤ◌ : ℤ → ℤ → Type 0
a ≤ℤ b = pos_part a + neg_part b ≤ pos_part b + neg_part a

abbrev pub ltb_ℤ : ℤ → ℤ → Bool
ltb_ℤ a b = ltb (pos_part a + neg_part b) (pos_part b + neg_part a)

-- `x < 0`, the test after almost every call.
abbrev pub is_neg : ℤ → Bool
is_neg (pos n) = false
is_neg (negsuc n) = true

-- `x == 0`.
abbrev pub is_zero : ℤ → Bool
is_zero (pos n) = n == 0
is_zero (negsuc n) = false

-- `-n` for a number that is not negative, such as `-errno` or `-EPERM`.
abbrev pub neg : ℕ → ℤ
neg n = sub_ℕ 0 n

-- The conversion of an `int` to `uint64_t`, as in `fi->fh = openRet`.
abbrev pub to_u64 : ℤ → ℕ
to_u64 (pos n) = n % 2 ^ 64
to_u64 (negsuc n) = 2 ^ 64 - 1 - n % 2 ^ 64

-- The conversion of a `uint64_t` to `int`, as in `close(fi->fh)`.
abbrev pub to_int : ℕ → ℤ
to_int w = let r = w % 2 ^ 32 in if ltb r (2 ^ 31) then pos r else negsuc (2 ^ 32 - 1 - r)

-- A value of the type `int`.
abbrev pub IsInt : ℤ → Type 0
IsInt (pos n) = n < 2 ^ 31
IsInt (negsuc n) = n < 2 ^ 31

-- A descriptor that is kept in a `uint64_t` comes back unchanged, -1 included.
pub to_int-to_u64 : (x : ℤ) → IsInt x → to_int (to_u64 x) ≡ x
to_int-to_u64 (pos n) h = ground arith
to_int-to_u64 (negsuc n) h = ground arith

-- `INT_MAX + 1`
abbrev pub int_limit : ℕ
int_limit = 2147483648

-- Whether the result of signed arithmetic is an `int`; where it is not, C gives it no meaning.
abbrev pub is_int : ℤ → Bool
is_int (pos n) = ltb n int_limit
is_int (negsuc n) = ltb n int_limit
