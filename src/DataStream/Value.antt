-- ===== src/DataStream/Value.antt =====
-- internal/pgn/datastream.go: the bytes of a stream as one number, the first byte lowest.
use n2k.Prelude.{
  ℕ, zero, suc, ◌+◌, ◌-◌, ◌*◌, ◌/◌, ◌%◌, ◌^◌, ◌≤◌, ◌<◌, ◌≡◌, sym, ap, ◌∙◌, List, [], ◌∷◌, All,
  arith, length, get_or, set,
}
use n2k.Prelude.Pow.{pow_add, pow_pos, div_div, mod_split, mod_mod_pow}
use native.Mathlib.Nat.{div-div-eq-div-mul, add-mul-div_left, mod-lt, div-eq_of_lt}

abbrev pub IsByte : ℕ → Type 0
IsByte b = b < 256

abbrev pub le_value : List ℕ → ℕ
le_value [] = 0
le_value (b ∷ bs) = b + 256 * le_value bs

pow_eight : (k : ℕ) → 2 ^ (8 * suc k) ≡ 256 * 2 ^ (8 * k)
pow_eight k = ap (λ (t : ℕ). 2 ^ t) {y = 8 + 8 * k} (omega arith) ∙ pow_add 8 (8 * k)

-- Byte `k` of the number is byte `k` of the stream.
pub byte-le_value :
    (bs : List ℕ) (k : ℕ)
    → All IsByte bs
    → k < length bs
    → le_value bs / 2 ^ (8 * k) % 256 ≡ get_or bs k 0
byte-le_value [] k all h = elim h [ ]
byte-le_value (b ∷ bs) zero (small, all) h = omega arith
byte-le_value (b ∷ bs) (suc k) (small, all) h =
    ap (λ (t : ℕ). (b + 256 * le_value bs) / t % 256) (pow_eight k)
    ∙ ap (λ (t : ℕ). t % 256) (sym (div-div-eq-div-mul (b + 256 * le_value bs) 256 (2 ^ (8 * k))))
    ∙ ap (λ (t : ℕ). t / 2 ^ (8 * k) % 256) {y = le_value bs} (omega arith)
    ∙ byte-le_value bs k all (omega arith)

-- A field of `g` bits at bit `a`, within the lowest `a + g + c` bits.
pub field_mod : (y a g c : ℕ) → y % 2 ^ (a + (g + c)) / 2 ^ a % 2 ^ g ≡ y / 2 ^ a % 2 ^ g
field_mod y a g c =
    ap (λ (t : ℕ). t / 2 ^ a % 2 ^ g) (mod_split y a (g + c))
    ∙ ap (λ (t : ℕ). t % 2 ^ g) (add-mul-div_left (y % 2 ^ a) (y / 2 ^ a % 2 ^ (g + c)) (pow_pos a))
    ∙ ap (λ (t : ℕ). (t + y / 2 ^ a % 2 ^ (g + c)) % 2 ^ g) (div-eq_of_lt (mod-lt y (pow_pos a)))
    ∙ ap (λ (t : ℕ). t % 2 ^ g) {y = y / 2 ^ a % 2 ^ (g + c)} (omega arith)
    ∙ mod_mod_pow (y / 2 ^ a) g c

-- The next bits of byte `k` are a field of the number.
pub field-le_value :
    (bs : List ℕ) (k a g : ℕ)
    → All IsByte bs
    → k < length bs
    → a + g ≤ 8
    → get_or bs k 0 / 2 ^ a % 2 ^ g ≡ le_value bs / 2 ^ (8 * k + a) % 2 ^ g
field-le_value bs k a g all h fits =
    ap (λ (t : ℕ). t / 2 ^ a % 2 ^ g) (sym (byte-le_value bs k all h))
    ∙ ap (λ (t : ℕ). le_value bs / 2 ^ (8 * k) % 2 ^ t / 2 ^ a % 2 ^ g) {x = 8}
        {y = a + (g + (8 - a - g))} (omega arith)
    ∙ field_mod (le_value bs / 2 ^ (8 * k)) a g (8 - a - g)
    ∙ ap (λ (t : ℕ). t % 2 ^ g) (div_div (le_value bs) (8 * k) a)

-- More in one byte is more in the number.
pub le_value-set :
    (bs : List ℕ) (k x : ℕ)
    → k < length bs
    → le_value (set bs k (get_or bs k 0 + x)) ≡ le_value bs + x * 2 ^ (8 * k)
le_value-set [] k x h = elim h [ ]
le_value-set (b ∷ bs) zero x h = omega arith
le_value-set (b ∷ bs) (suc k) x h =
    omega (arith, le_value-set bs k x (omega arith), ap (λ (t : ℕ). x * t) (pow_eight k))
