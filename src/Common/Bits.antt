-- ===== src/Common/Bits.antt =====
-- Exclusive or at variables, from its recursion on binary digits: an involution that keeps a width.
use Prim.Native.Nat.{
  ℕ, zero, suc, ◌+◌, ◌*◌, ◌/◌, ◌%◌, ◌^◌, ◌≤◌, ◌<◌, bit_xor, digits, differ, bit_xor-bitwise,
}
use mathlib.Core.Path.{◌≡◌, refl}
use native.Mathlib.Nat.{pow-suc}
use native.Mathlib.Omega.{arith}

-- The digits of `bit_xor` on fuel.
abbrev xor_on : ℕ → ℕ → ℕ → ℕ
xor_on n a b = digits (λ y. y) differ n a b

xor_on_fuel : (n m a b : ℕ) → a ≤ n → a ≤ m → xor_on n a b ≡ xor_on m a b
xor_on_fuel zero zero a b p q = refl
xor_on_fuel zero (suc m) zero b p q = refl
xor_on_fuel zero (suc m) (suc a) b p q = absurd (omega arith)
xor_on_fuel (suc n) zero zero b p q = refl
xor_on_fuel (suc n) zero (suc a) b p q = absurd (omega arith)
xor_on_fuel (suc n) (suc m) zero b p q = refl
xor_on_fuel (suc n) (suc m) (suc a) b p q =
    rw (xor_on_fuel n m (suc a / 2) (b / 2) (omega arith) (omega arith))

differ_bits : (x y : ℕ) → x < 2 → y < 2 → differ x y ≡ (x + y) % 2
differ_bits zero y h k = omega arith
differ_bits (suc zero) zero h k = refl
differ_bits (suc zero) (suc zero) h k = refl
differ_bits (suc zero) (suc (suc y)) h k = absurd (omega arith)
differ_bits (suc (suc x)) y h k = absurd (omega arith)

zero-bit_xor : (b : ℕ) → bit_xor 0 b ≡ b
zero-bit_xor b = bit_xor-bitwise 0 b

-- One digit of an exclusive or.
bit_xor_step : (a b : ℕ) → bit_xor a b ≡ bit_xor (a / 2) (b / 2) * 2 + (a % 2 + b % 2) % 2
bit_xor_step zero b = omega (arith, zero-bit_xor b, zero-bit_xor (b / 2))
bit_xor_step (suc a) b = omega (
  arith,
  bit_xor-bitwise (suc a) b,
  bit_xor-bitwise (suc a / 2) (b / 2),
  differ_bits (suc a % 2) (b % 2) (omega arith) (omega arith),
  xor_on_fuel a (suc a / 2) (suc a / 2) (b / 2) (omega arith) (omega arith),
)

xor_self : (n m : ℕ) → m ≤ n → bit_xor m m ≡ 0
xor_self n zero h = zero-bit_xor 0
xor_self zero (suc m) h = absurd (omega arith)
xor_self (suc n) (suc m) h =
    omega (arith, bit_xor_step (suc m) (suc m), xor_self n (suc m / 2) (omega arith))

half_bit_xor : (a b : ℕ) → bit_xor a b / 2 ≡ bit_xor (a / 2) (b / 2)
half_bit_xor a b = omega (arith, bit_xor_step a b)

low_bit_xor : (a b : ℕ) → bit_xor a b % 2 ≡ (a % 2 + b % 2) % 2
low_bit_xor a b = omega (arith, bit_xor_step a b)

-- An exclusive or of two numbers of `k` bits has `k` bits.
pub bit_xor-lt : (k a b : ℕ) → a < 2 ^ k → b < 2 ^ k → bit_xor a b < 2 ^ k
bit_xor-lt zero zero b h g = omega (arith, zero-bit_xor b)
bit_xor-lt zero (suc a) b h g = absurd (omega arith)
bit_xor-lt (suc k) a b h g = omega (
  arith,
  pow-suc 2 k,
  bit_xor_step a b,
  bit_xor-lt k (a / 2) (b / 2) (omega (arith, pow-suc 2 k)) (omega (arith, pow-suc 2 k)),
)

-- The same mask twice gives a number of `k` bits back.
pub bit_xor_twice : (k a m : ℕ) → a < 2 ^ k → bit_xor (bit_xor a m) m ≡ a
bit_xor_twice zero zero m h = rw (zero-bit_xor m) (xor_self m m (omega arith))
bit_xor_twice zero (suc a) m h = absurd (omega arith)
bit_xor_twice (suc k) a m h =
    let half = bit_xor_twice k (a / 2) (m / 2) (omega (arith, pow-suc 2 k)) in
    omega (arith, bit_xor_step (bit_xor a m) m, low_bit_xor a m, rw (← half_bit_xor a m) at half)
