-- ===== src/Prelude/Pow.antt =====
-- Powers of two, and division by them in two steps.
use Prim.Native.Nat.{ℕ, zero, suc, ◌+◌, ◌*◌, ◌/◌, ◌%◌, ◌^◌, ◌<◌}
use mathlib.Core.Path.{◌≡◌, ap, sym, ◌∙◌}
use native.Mathlib.Nat.{
  add-zero, add-suc, pow-suc, one-le-pow, div-div-eq-div-mul, div-add-mod, mod-mod,
  add-mul-mod_self_left,
}
use native.Mathlib.Omega.{arith}

pub pow_add : (a b : ℕ) → 2 ^ (a + b) ≡ 2 ^ a * 2 ^ b
pow_add a zero = rw add-zero (omega arith)
pow_add a (suc b) = omega (
  arith,
  ap (λ (t : ℕ). 2 ^ t) (add-suc a b),
  pow-suc 2 (a + b),
  pow-suc 2 b,
  ap (λ (t : ℕ). t * 2) (pow_add a b),
  ap (λ (t : ℕ). 2 ^ a * t) (pow-suc 2 b),
)

pub pow_pos : (k : ℕ) → 0 < 2 ^ k
pow_pos k = one-le-pow k 2 (omega arith)

pub div_div : (x a b : ℕ) → x / 2 ^ a / 2 ^ b ≡ x / 2 ^ (a + b)
div_div x a b = div-div-eq-div-mul x (2 ^ a) (2 ^ b) ∙ ap (λ t. x / t) (sym (pow_add a b))

-- The remainder by `2 ^ (a + b)` in two digits.
pub mod_split : (x a b : ℕ) → x % 2 ^ (a + b) ≡ x % 2 ^ a + 2 ^ a * (x / 2 ^ a % 2 ^ b)
mod_split x a b = omega (
  arith,
  pow_add a b,
  div_div x a b,
  div-add-mod x (2 ^ (a + b)),
  ap (λ (t : ℕ). t * (x / 2 ^ (a + b))) (pow_add a b),
  div-add-mod x (2 ^ a),
  ap (λ (t : ℕ). 2 ^ a * t) (div-add-mod (x / 2 ^ a) (2 ^ b)),
  ap (λ (t : ℕ). 2 ^ a * (2 ^ b * t)) (div_div x a b),
)

pub mod_one : (x : ℕ) → x % 1 ≡ 0
mod_one x = omega arith

pub product_lt : (r p x c : ℕ) → r < p → x < c → r + x * p < p * c
product_lt r p x c h k = grind arith

-- Only the low bits of the low bits.
pub mod_mod_pow : (y g c : ℕ) → y % 2 ^ (g + c) % 2 ^ g ≡ y % 2 ^ g
mod_mod_pow y g c =
    ap (λ (t : ℕ). t % 2 ^ g) (mod_split y g c)
    ∙ add-mul-mod_self_left (y % 2 ^ g) (2 ^ g) (y / 2 ^ g % 2 ^ c)
    ∙ mod-mod y (2 ^ g)
