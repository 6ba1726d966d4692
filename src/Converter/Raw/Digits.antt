-- ===== src/Converter/Raw/Digits.antt =====
-- internal/converter/converter.go: numbers that are printed and parsed.
use n2k.Prelude.{
  ℕ, zero, suc, ◌+◌, ◌*◌, ◌/◌, ◌%◌, ◌^◌, ◌<◌, ◌≡◌, refl, sym, ◌∙◌, ap, inl, inr, false, [], ◌∷◌,
  some, ltb, ◌==◌, Bool-cases, lt→ltb, All, Bytes, arith,
}
use n2k.Converter.Raw.{
  comma, digit_value, in_base, parse_digits, parse_uint, decimal, print_decimal, hex_digit,
  print_hex,
}

abbrev pub NoComma : Bytes → Type 0
NoComma = All (λ b. (b == comma) ≡ false)

-- What so many digits hold.
abbrev tens : ℕ → ℕ
tens zero = 1
tens (suc k) = 10 * tens k

decimal_digit : (d : ℕ) → d < 10 → in_base 10 (digit_value (48 + d)) ≡ some d
unfolding digit_value
decimal_digit d small = ground arith

parse_digits_step :
    (base v b d : ℕ) (bs : Bytes)
    → in_base base (digit_value b) ≡ some d
    → parse_digits base v (b ∷ bs) ≡ parse_digits base (v * base + d) bs
unfolding parse_digits
parse_digits_step base v b d bs e = simp (parse_digits, e)

parse_digits-decimal :
    (fuel n : ℕ) (rest : Bytes)
    → n < tens fuel
    → parse_digits 10 0 (decimal fuel n rest) ≡ parse_digits 10 n rest
unfolding decimal
parse_digits-decimal zero n rest small =
    ap (λ (v : ℕ). parse_digits 10 v rest) (omega (arith, small))
parse_digits-decimal (suc fuel) n rest small = elim (Bool-cases (ltb n 10)) [
  | inl e ↦
      let digit = decimal_digit n (ground arith) in
      let alone : 0 * 10 + n ≡ n = omega arith in
      rw e (
        parse_digits_step 10 0 (48 + n) n rest digit ∙ ap (λ (v : ℕ). parse_digits 10 v rest) alone)
  | inr e ↦
      let digit = decimal_digit (n % 10) (omega arith) in
      let back : n / 10 * 10 + n % 10 ≡ n = omega arith in
      rw e (
        parse_digits-decimal fuel (n / 10) ((48 + n % 10) ∷ rest) (omega (arith, small))
        ∙ parse_digits_step 10 (n / 10) (48 + n % 10) (n % 10) rest digit
        ∙ ap (λ (v : ℕ). parse_digits 10 v rest) back)
]

decimal_ne :
    (fuel n b : ℕ) (rest : Bytes) → (c : ℕ) × (cs : Bytes) × (decimal fuel n (b ∷ rest) ≡ c ∷ cs)
unfolding decimal
decimal_ne zero n b rest = (b, rest, refl)
decimal_ne (suc fuel) n b rest = elim (Bool-cases (ltb n 10)) [
  | inl e ↦ (48 + n, b ∷ rest, rw e refl)
  | inr e ↦
      let (c, cs, h) = decimal_ne fuel (n / 10) (48 + n % 10) (b ∷ rest) in (c, cs, rw (e, h) refl)
]

some_digit : (fuel n : ℕ) → (c : ℕ) × (cs : Bytes) × (decimal (suc fuel) n [] ≡ c ∷ cs)
unfolding decimal
some_digit fuel n = elim (Bool-cases (ltb n 10)) [
  | inl e ↦ (48 + n, [], rw e refl)
  | inr e ↦ let (c, cs, h) = decimal_ne fuel (n / 10) (48 + n % 10) [] in (c, cs, rw (e, h) refl)
]

parse_uint_cons :
    (base bits : ℕ) (bs : Bytes) (c : ℕ) (cs : Bytes) (n : ℕ)
    → bs ≡ c ∷ cs
    → parse_digits base 0 bs ≡ some n
    → n < 2 ^ bits
    → parse_uint base bits bs ≡ some n
unfolding parse_uint
parse_uint_cons base bits bs c cs n e p small =
    let p' : parse_digits base 0 (c ∷ cs) ≡ some n = ap (parse_digits base 0) (sym e) ∙ p in
    rw (e, p', lt→ltb n (2 ^ bits) small) refl

pub parse_uint-print_decimal :
    (bits n : ℕ) → n < 2 ^ 32 → n < 2 ^ bits → parse_uint 10 bits (print_decimal n) ≡ some n
unfolding parse_digits
parse_uint-print_decimal bits n small fits =
    let (c, cs, e) = some_digit 19 n in
    parse_uint_cons 10 bits (print_decimal n) c cs n e
      (parse_digits-decimal 20 n [] (omega (arith, small))) fits

decimal-NoComma : (fuel n : ℕ) (rest : Bytes) → NoComma rest → NoComma (decimal fuel n rest)
unfolding decimal
decimal-NoComma zero n rest h = h
decimal-NoComma (suc fuel) n rest h = elim (Bool-cases (ltb n 10)) [
  | inl e ↦ rw e (ground arith, h)
  | inr e ↦ rw e (decimal-NoComma fuel (n / 10) ((48 + n % 10) ∷ rest) (ground arith, h))
]

pub print_decimal-NoComma : (n : ℕ) → NoComma (print_decimal n)
print_decimal-NoComma n = decimal-NoComma 20 n [] tt

hex_lem : (d : ℕ) → d < 16 → in_base 16 (digit_value (hex_digit d)) ≡ some d
unfolding digit_value hex_digit
hex_lem d small = ground arith

pub parse_uint-print_hex : (b : ℕ) → b < 256 → parse_uint 16 8 (print_hex b) ≡ some b
unfolding parse_digits
parse_uint-print_hex b small =
    let whole : (0 * 16 + b / 16) * 16 + b % 16 ≡ b = omega arith in
    let read =
      parse_digits_step 16 0 (hex_digit (b / 16)) (b / 16) (hex_digit (b % 16) ∷ [])
        (hex_lem (b / 16) (omega arith))
      ∙ parse_digits_step 16 (0 * 16 + b / 16) (hex_digit (b % 16)) (b % 16) []
          (hex_lem (b % 16) (omega arith)) in
    parse_uint_cons 16 8 (print_hex b) (hex_digit (b / 16)) (hex_digit (b % 16) ∷ []) b refl
      (read ∙ ap some whole) small

pub print_hex-NoComma : (b : ℕ) → NoComma (print_hex b)
unfolding hex_digit
print_hex-NoComma b = (ground arith, (ground arith, tt))
