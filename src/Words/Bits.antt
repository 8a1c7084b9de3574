-- ===== src/Words/Bits.antt =====
-- `|` of a low and a high field, at every width.
use Prim.Native.Nat.{bit_or, max, digits, bit_or-bitwise}
use native.Mathlib.Nat.{pow-suc}
use slake.Prelude.{ℕ, zero, suc, ◌+◌, ◌*◌, ◌/◌, ◌%◌, ◌^◌, ◌≤◌, ◌<◌, ◌≡◌, refl, ap, arith}

abbrev or_digits : ℕ → ℕ → ℕ → ℕ
or_digits n a b = digits (λ b. b) max n a b

or_digits_fuel : (n m a b : ℕ) → a ≤ n → a ≤ m → or_digits n a b ≡ or_digits m a b
or_digits_fuel zero zero zero b p q = refl
or_digits_fuel zero zero (suc a) b p q = refl
or_digits_fuel (suc n) zero zero b p q = refl
or_digits_fuel zero (suc m) zero b p q = refl
or_digits_fuel (suc n) (suc m) zero b p q = refl
or_digits_fuel zero (suc m) (suc a) b p q = absurd (omega arith)
or_digits_fuel (suc n) zero (suc a) b p q = absurd (omega arith)
or_digits_fuel (suc n) (suc m) (suc a) b p q =
    omega (arith, or_digits_fuel n m (suc a / 2) (b / 2) (omega arith) (omega arith))

zero-bit_or : (b : ℕ) → bit_or 0 b ≡ b
zero-bit_or b = bit_or-bitwise 0 b

-- The lowest digit of `|`.
bit_or_digit : (a b : ℕ) → bit_or a b ≡ bit_or (a / 2) (b / 2) * 2 + max (a % 2) (b % 2)
bit_or_digit zero b = omega (arith, zero-bit_or b, zero-bit_or (b / 2))
bit_or_digit (suc a) b = omega (
  arith,
  bit_or-bitwise (suc a) b,
  bit_or-bitwise (suc a / 2) (b / 2),
  or_digits_fuel a (suc a / 2) (suc a / 2) (b / 2) (omega arith) (omega arith),
)

double : (q k : ℕ) → q * 2 ^ suc k ≡ 2 * (q * 2 ^ k)
double q k = omega (arith, ap (λ (t : ℕ). q * t) (pow-suc 2 k))

-- `r | (q << k)` is a sum when `r` has at most `k` bits.
pub bit_or-shifted : (k q r : ℕ) → r < 2 ^ k → bit_or r (q * 2 ^ k) ≡ r + q * 2 ^ k
bit_or-shifted zero q zero fits = omega (arith, zero-bit_or (q * 2 ^ 0))
bit_or-shifted zero q (suc r) fits = absurd (omega arith)
bit_or-shifted (suc k) q r fits = omega (
  arith,
  pow-suc 2 k,
  double q k,
  bit_or_digit r (q * 2 ^ suc k),
  bit_or-shifted k q (r / 2) (omega (arith, pow-suc 2 k)),
  ap (λ (t : ℕ). bit_or (r / 2) t) (halved),
)
  where
    halved : q * 2 ^ suc k / 2 ≡ q * 2 ^ k
    halved = omega (arith, double q k)
