-- ===== src/Prelude/Xor.antt =====
-- `bit_xor` at variables: applying the same key twice gives back the number, and bytes stay bytes.
use Prim.Native.Nat.{
  ℕ, zero, suc, ◌+◌, ◌*◌, ◌/◌, ◌%◌, ◌^◌, ◌≤◌, ◌<◌, bit_xor, digits, differ, bit_xor-bitwise,
}
use mathlib.Core.Path.{◌≡◌, refl}
use native.Mathlib.Nat.{pow-suc}
use native.Mathlib.Omega.{arith}

abbrev xor_digits : ℕ → ℕ → ℕ → ℕ
xor_digits n a b = digits (λ b. b) differ n a b

xor_digits_fuel : (n m a b : ℕ) → a ≤ n → a ≤ m → xor_digits n a b ≡ xor_digits m a b
xor_digits_fuel zero zero a b p q = refl
xor_digits_fuel zero (suc m) zero b p q = refl
xor_digits_fuel zero (suc m) (suc a) b p q = absurd (omega arith)
xor_digits_fuel (suc n) zero zero b p q = refl
xor_digits_fuel (suc n) zero (suc a) b p q = absurd (omega arith)
xor_digits_fuel (suc n) (suc m) zero b p q = refl
xor_digits_fuel (suc n) (suc m) (suc a) b p q =
    omega (arith, xor_digits_fuel n m (suc a / 2) (b / 2) (omega arith) (omega arith))

zero-bit_xor : (b : ℕ) → bit_xor 0 b ≡ b
zero-bit_xor b = bit_xor-bitwise 0 b

digit_sum : (x y : ℕ) → x < 2 → y < 2 → differ x y ≡ (x + y) % 2
digit_sum zero y hx hy = omega arith
digit_sum (suc zero) zero hx hy = refl
digit_sum (suc zero) (suc zero) hx hy = refl
digit_sum (suc zero) (suc (suc y)) hx hy = absurd (omega arith)
digit_sum (suc (suc x)) y hx hy = absurd (omega arith)

-- The lowest digit, and the rest.
bit_xor_step : (a b : ℕ) → bit_xor a b ≡ bit_xor (a / 2) (b / 2) * 2 + (a % 2 + b % 2) % 2
bit_xor_step zero b = omega (arith, zero-bit_xor b, zero-bit_xor (b / 2))
bit_xor_step (suc a) b = omega (
  arith,
  bit_xor-bitwise (suc a) b,
  bit_xor-bitwise (suc a / 2) (b / 2),
  digit_sum (suc a % 2) (b % 2),
  xor_digits_fuel a (suc a / 2) (suc a / 2) (b / 2) (omega arith) (omega arith),
)

bit_xor_halves :
    (a b : ℕ)
    → (bit_xor a b / 2 ≡ bit_xor (a / 2) (b / 2)) × (bit_xor a b % 2 ≡ (a % 2 + b % 2) % 2)
bit_xor_halves a b = omega (arith, bit_xor_step a b)

bit_xor_twice_fuel : (n a k : ℕ) → a ≤ n → k ≤ n → bit_xor (bit_xor a k) k ≡ a
bit_xor_twice_fuel zero zero zero p q = refl
bit_xor_twice_fuel zero zero (suc k) p q = absurd (omega arith)
bit_xor_twice_fuel zero (suc a) k p q = absurd (omega arith)
bit_xor_twice_fuel (suc n) a k p q =
    let ih = bit_xor_twice_fuel n (a / 2) (k / 2) (omega arith) (omega arith) in
    let h = bit_xor_halves a k in omega (arith, bit_xor_step (bit_xor a k) k, rw (← h.0) at ih, h.1)

pub bit_xor_twice : (a k : ℕ) → bit_xor (bit_xor a k) k ≡ a
bit_xor_twice a k = bit_xor_twice_fuel (a + k) a k (omega arith) (omega arith)

bit_xor-lt : (w a b : ℕ) → a < 2 ^ w → b < 2 ^ w → bit_xor a b < 2 ^ w
bit_xor-lt zero zero zero p q = omega arith
bit_xor-lt zero zero (suc b) p q = absurd (omega arith)
bit_xor-lt zero (suc a) b p q = absurd (omega arith)
bit_xor-lt (suc w) a b p q = omega (
  arith,
  pow-suc 2 w,
  bit_xor_step a b,
  bit_xor-lt w (a / 2) (b / 2) (omega (arith, pow-suc 2 w)) (omega (arith, pow-suc 2 w)),
)

pub bit_xor-byte : (a b : ℕ) → a < 256 → b < 256 → bit_xor a b < 256
bit_xor-byte a b p q = bit_xor-lt 8 a b p q
