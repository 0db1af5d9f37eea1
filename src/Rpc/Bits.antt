-- ===== src/Rpc/Bits.antt =====
-- `|` on unsigned numbers where the two sides share no bit: the sum.
use Prim.Native.Nat.{max, bit_or, digits, bit_or-bitwise}
use dbs_assignment.Prelude.{ℕ, zero, suc, ◌+◌, ◌*◌, ◌/◌, ◌%◌, ◌≤◌, ◌<◌, ◌≡◌, refl, ap, arith}

abbrev or_digits : ℕ → ℕ → ℕ → ℕ
or_digits n a b = digits (λ b. b) max n a b

or_digits_fuel : (n m a b : ℕ) → a ≤ n → a ≤ m → or_digits n a b ≡ or_digits m a b
or_digits_fuel zero zero a b p q = refl
or_digits_fuel zero (suc m) zero b p q = refl
or_digits_fuel zero (suc m) (suc a) b p q = absurd (omega arith)
or_digits_fuel (suc n) zero zero b p q = refl
or_digits_fuel (suc n) zero (suc a) b p q = absurd (omega arith)
or_digits_fuel (suc n) (suc m) zero b p q = refl
or_digits_fuel (suc n) (suc m) (suc a) b p q =
    omega (arith, or_digits_fuel n m (suc a / 2) (b / 2) (omega arith) (omega arith))

zero-bit_or : (b : ℕ) → bit_or 0 b ≡ b
zero-bit_or b = bit_or-bitwise 0 b

bit_or_step : (a b : ℕ) → bit_or a b ≡ bit_or (a / 2) (b / 2) * 2 + max (a % 2) (b % 2)
bit_or_step zero b = omega (arith, zero-bit_or b, zero-bit_or (b / 2))
bit_or_step (suc a) b = omega (
  arith,
  bit_or-bitwise (suc a) b,
  bit_or-bitwise (suc a / 2) (b / 2),
  or_digits_fuel a (suc a / 2) (suc a / 2) (b / 2) (omega arith) (omega arith),
)

bit_or-zero_fuel : (n a : ℕ) → a ≤ n → bit_or a 0 ≡ a
bit_or-zero_fuel n zero h = refl
bit_or-zero_fuel zero (suc a) h = absurd (omega arith)
bit_or-zero_fuel (suc n) (suc a) h =
    omega (arith, bit_or_step (suc a) 0, bit_or-zero_fuel n (suc a / 2) (omega arith))

-- `a << k`
abbrev shifted : ℕ → ℕ → ℕ
shifted zero a = a
shifted (suc k) a = shifted k a * 2

or_shifted : (k a b : ℕ) → b < shifted k 1 → bit_or (shifted k a) b ≡ shifted k a + b
or_shifted zero a zero h = omega (arith, bit_or-zero_fuel a a (omega arith))
or_shifted zero a (suc b) h = absurd (omega arith)
or_shifted (suc k) a b h =
    let even : shifted k a * 2 / 2 ≡ shifted k a = omega arith in
    let ih : bit_or (shifted k a) (b / 2) ≡ shifted k a + b / 2 =
      or_shifted k a (b / 2) (omega arith) in
    omega (arith, bit_or_step (shifted k a * 2) b, ap (λ x. bit_or x (b / 2)) even)

same : (a : ℕ) → shifted 16 a ≡ a * 65536
same a = omega arith

-- A number below 2 ^ 16 fills the low half of a word whose low half is clear.
pub or-low_half : (a b : ℕ) → b < 65536 → bit_or (a * 65536) b ≡ a * 65536 + b
or-low_half a b h = omega (arith, or_shifted 16 a b (omega arith), ap (λ x. bit_or x b) (same a))
