-- ===== src/Prelude/Bits.antt =====
-- `|` of disjoint fields and `&` with a mask, as arithmetic at every width.
use Prim.Native.Nat.{
  ℕ, zero, suc, ◌+◌, ◌-◌, ◌*◌, ◌/◌, ◌%◌, ◌^◌, ◌≤◌, ◌<◌, min, max, digits, bit_and, bit_or,
  bit_and-bitwise, bit_or-bitwise,
}
use mathlib.Core.Path.{◌≡◌, refl, ap, ◌∙◌}
use native.Mathlib.Nat.{pow-suc, one-le-pow, div-div-eq-div-mul}
use native.Mathlib.Omega.{arith}

-- The fuel of the library's digit recursion does not matter once it covers the first number.
module _ (rest : ℕ → ℕ) (op : ℕ → ℕ → ℕ) where
  enough_digits : (m n a b : ℕ) → a ≤ m → a ≤ n → digits rest op m a b ≡ digits rest op n a b
  enough_digits zero zero a b p q = refl
  enough_digits zero (suc n) zero b p q = refl
  enough_digits zero (suc n) (suc a) b p q = absurd (omega arith)
  enough_digits (suc m) zero zero b p q = refl
  enough_digits (suc m) zero (suc a) b p q = absurd (omega arith)
  enough_digits (suc m) (suc n) zero b p q = refl
  enough_digits (suc m) (suc n) (suc a) b p q =
      omega (arith, enough_digits m n (suc a / 2) (b / 2) (omega arith) (omega arith))

pub zero-bit_or : (b : ℕ) → bit_or 0 b ≡ b
zero-bit_or b = bit_or-bitwise 0 b

zero-bit_and : (b : ℕ) → bit_and 0 b ≡ 0
zero-bit_and b = bit_and-bitwise 0 b

or_digit : (a b : ℕ) → bit_or a b ≡ bit_or (a / 2) (b / 2) * 2 + max (a % 2) (b % 2)
or_digit zero b = omega (arith, zero-bit_or b, zero-bit_or (b / 2))
or_digit (suc a) b = omega (
  arith,
  bit_or-bitwise (suc a) b,
  bit_or-bitwise (suc a / 2) (b / 2),
  enough_digits (λ b. b) max a (suc a / 2) (suc a / 2) (b / 2) (omega arith) (omega arith),
)

and_digit : (a b : ℕ) → bit_and a b ≡ bit_and (a / 2) (b / 2) * 2 + min (a % 2) (b % 2)
and_digit zero b = omega (arith, zero-bit_and b, zero-bit_and (b / 2))
and_digit (suc a) b = omega (
  arith,
  bit_and-bitwise (suc a) b,
  bit_and-bitwise (suc a / 2) (b / 2),
  enough_digits (λ b. zero) min a (suc a / 2) (suc a / 2) (b / 2) (omega arith) (omega arith),
)

or_zero_below : (n a : ℕ) → a ≤ n → bit_or a 0 ≡ a
or_zero_below n zero h = refl
or_zero_below zero (suc a) h = absurd (omega arith)
or_zero_below (suc n) (suc a) h =
    omega (arith, or_digit (suc a) 0, or_zero_below n (suc a / 2) (omega arith))

and_zero_below : (n a : ℕ) → a ≤ n → bit_and a 0 ≡ 0
and_zero_below n zero h = refl
and_zero_below zero (suc a) h = absurd (omega arith)
and_zero_below (suc n) (suc a) h =
    omega (arith, and_digit (suc a) 0, and_zero_below n (suc a / 2) (omega arith))

pub bit_or-zero : (a : ℕ) → bit_or a 0 ≡ a
bit_or-zero a = or_zero_below a a (omega arith)

pub bit_and-zero : (a : ℕ) → bit_and a 0 ≡ 0
bit_and-zero a = and_zero_below a a (omega arith)

times_pow : (q k : ℕ) → q * 2 ^ suc k ≡ 2 * (q * 2 ^ k)
times_pow q k = omega (arith, ap (λ (t : ℕ). q * t) (pow-suc 2 k))

-- `low | high << k` and `high << k | low` are sums when `low` fits `k` bits.
pub bit_or_high : (k low high : ℕ) → low < 2 ^ k → bit_or low (high * 2 ^ k) ≡ low + high * 2 ^ k
bit_or_high zero low high fits = ground (arith, zero-bit_or (high * 2 ^ 0))
bit_or_high (suc k) low high fits = ground (
  arith,
  or_digit low (high * 2 ^ suc k),
  times_pow high k,
  pow-suc 2 k,
  bit_or_high k (low / 2) high (omega (arith, pow-suc 2 k)),
)

pub bit_or_low : (k high low : ℕ) → low < 2 ^ k → bit_or (high * 2 ^ k) low ≡ high * 2 ^ k + low
bit_or_low zero high low fits = ground (arith, bit_or-zero high)
bit_or_low (suc k) high low fits = ground (
  arith,
  or_digit (high * 2 ^ suc k) low,
  times_pow high k,
  pow-suc 2 k,
  bit_or_low k high (low / 2) (omega (arith, pow-suc 2 k)),
)

low_field : (k high low : ℕ) → low < 2 ^ k → bit_and (high * 2 ^ k + low) (2 ^ k - 1) ≡ low
low_field zero high low fits = omega (arith, bit_and-zero (high * 2 ^ 0 + low))
low_field (suc k) high low fits = ground (
  arith,
  and_digit (high * 2 ^ suc k + low) (2 ^ suc k - 1),
  times_pow high k,
  pow-suc 2 k,
  one-le-pow k 2,
  low_field k high (low / 2) (omega (arith, pow-suc 2 k)),
)

-- A mask of `k` low ones is the remainder by `2 ^ k`.
pub bit_and_mask : (k a : ℕ) → bit_and a (2 ^ k - 1) ≡ a % 2 ^ k
bit_and_mask k a = ground (arith, one-le-pow k 2, low_field k (a / 2 ^ k) (a % 2 ^ k))

half_of_pow : (m k : ℕ) → m * 2 ^ suc k / 2 ≡ m * 2 ^ k
half_of_pow m k = omega (arith, times_pow m k)

half_then_pow : (a k : ℕ) → a / 2 / 2 ^ k ≡ a / 2 ^ suc k
half_then_pow a k =
    div-div-eq-div-mul a 2 (2 ^ k) ∙ ap (λ (t : ℕ). a / t) (omega (arith, pow-suc 2 k))

-- A mask whose low `k` bits are clear cuts them off.
pub bit_and_shifted : (k a m : ℕ) → bit_and a (m * 2 ^ k) ≡ bit_and (a / 2 ^ k) m * 2 ^ k
bit_and_shifted zero a m = ground arith
bit_and_shifted (suc k) a m = omega (
  arith,
  and_digit a (m * 2 ^ suc k),
  times_pow m k,
  ap (λ (t : ℕ). bit_and (a / 2) t) (half_of_pow m k),
  bit_and_shifted k (a / 2) m,
  ap (λ (t : ℕ). bit_and t m * 2 ^ k * 2) (half_then_pow a k),
  times_pow (bit_and (a / 2 ^ suc k) m) k,
)
