-- ===== src/DataStream/Put.antt =====
-- internal/pgn/writedatastream.go, `putNumberRaw`: it writes a field of the number that the stream is.
use n2k.Prelude.{
  ℕ, zero, suc, ◌+◌, ◌-◌, ◌*◌, ◌/◌, ◌%◌, ◌^◌, ◌≤◌, ◌<◌, ◌≡◌, refl, ap, ◌∙◌, List, All, arith, ◌==◌,
  ◌||◌, length, length-set, get_or, set, gt→leb, true, [], ◌∷◌,
}
use n2k.Prelude.Bits.{bit_or_high, bit_and_mask}
use n2k.Prelude.Pow.{pow_add, pow_pos, mod_one, mod_split, mod_mod_pow, product_lt}
use native.Mathlib.Nat.{pow-le-pow_right, mod-lt, mod-eq_of_lt, div-lt_iff_lt-mul}
use n2k.DataStream.{DataStream, ok, get_bit_offset, put_loop, put_number_raw, or_byte, out_byte}
use n2k.DataStream.Value.{IsByte, le_value, byte-le_value, le_value-set}
use n2k.DataStream.Cursor.{
  IsValid, cursor, at_cursor, at_cursor-cursor, round, low_mask, bits_here-at, move-at,
}

-- The stream after a write: its bytes have the value `v`, and its cursor stands at bit `q`.
pub record Wrote (s t : DataStream) (v q : ℕ) : Type 0 where
  pub all_bytes : All IsByte t.bytes
  pub same_length : length t.bytes ≡ length s.bytes
  pub same_capacity : t.capacity ≡ s.capacity
  pub value : le_value t.bytes ≡ v
  pub moved : t ≡ at_cursor t q

-- Where the number has nothing from bit `q` on, the current byte has nothing from its bit on.
clear_above :
    (bs : List ℕ) (k a : ℕ)
    → All IsByte bs
    → k < length bs
    → a < 8
    → le_value bs < 2 ^ (8 * k + a)
    → get_or bs k 0 < 2 ^ a
clear_above bs k a all h small empty =
    let top : le_value bs / 2 ^ (8 * k) < 2 ^ a =
      (div-lt_iff_lt-mul (pow_pos (8 * k))).1 (omega (arith, pow_add (8 * k) a)) in
    omega (arith, byte-le_value bs k all h, top)

set-All : (bs : List ℕ) (k x : ℕ) → All IsByte bs → x < 256 → All IsByte (set bs k x)
set-All [] k x all h = tt
set-All (b ∷ bs) zero x (hb, all) h = (h, all)
set-All (b ∷ bs) (suc k) x (hb, all) h = (hb, set-All bs k x all h)

-- What one round writes: the low `count` bits of the value, at the bit offset.
out_byte_lem :
    (s : DataStream) (count value : ℕ)
    → s.bit_offset + count ≤ 8
    → (out_byte s count value ≡ value % 2 ^ count * 2 ^ s.bit_offset)
      × (value % 2 ^ count * 2 ^ s.bit_offset < 256)
unfolding out_byte
out_byte_lem s count value fits = (
  rw (low_mask count (omega arith), bit_and_mask count (value % 2 ^ 8), low) (mod-eq_of_lt below),
  below,
)
  where
    low : value % 2 ^ 8 % 2 ^ count ≡ value % 2 ^ count
    low =
        ap (λ (t : ℕ). value % 2 ^ t % 2 ^ count) {x = 8} {y = count + (8 - count)} (omega arith)
        ∙ mod_mod_pow value count (8 - count)

    below : value % 2 ^ count * 2 ^ s.bit_offset < 256
    below = omega (
      arith,
      product_lt 0 (2 ^ s.bit_offset) (value % 2 ^ count) (2 ^ count) (pow_pos s.bit_offset)
          (mod-lt value (pow_pos count)),
      pow_add s.bit_offset count,
      pow-le-pow_right {n = 2} (omega arith) fits,
    )

-- The stream with a field added to the byte of bit `q`.
abbrev with_field : DataStream → ℕ → ℕ → DataStream
with_field s q x = record s {
  bytes = set s.bytes (q / 8) (get_or s.bytes (q / 8) 0 + x * 2 ^ (q % 8));
}

module _ (s : DataStream) (all : All IsByte s.bytes) (q count value : ℕ)
    (inside : q / 8 < length s.bytes) (fits : q % 8 + count ≤ 8)
    (empty : le_value s.bytes < 2 ^ q) where
  abbrev part : ℕ
  part = value % 2 ^ count

  clear : get_or s.bytes (q / 8) 0 < 2 ^ (q % 8)
  clear =
      clear_above s.bytes (q / 8) (q % 8) all inside (omega arith) (
        omega (arith, empty, ap (λ (t : ℕ). 2 ^ t) {x = q} {y = 8 * (q / 8) + q % 8} (omega arith)))

  or_byte_lem :
      or_byte (at_cursor s q) (out_byte (at_cursor s q) count value)
      ≡ at_cursor (with_field s q part) q
  unfolding or_byte
  or_byte_lem =
      rw ((out_byte_lem (at_cursor s q) count value fits).0, bit_or_high (q % 8) _ part clear)

  with_field-value : le_value (with_field s q part).bytes ≡ le_value s.bytes + part * 2 ^ q
  with_field-value =
      le_value-set s.bytes (q / 8) (part * 2 ^ (q % 8)) inside
      ∙ omega (
        arith,
        ap (λ (t : ℕ). part * t) (pow_add (8 * (q / 8)) (q % 8)),
        ap (λ (t : ℕ). part * 2 ^ t) {x = q} {y = 8 * (q / 8) + q % 8} (omega arith),
      )

  with_field-All : All IsByte (with_field s q part).bytes
  with_field-All = set-All s.bytes (q / 8) _ all (
      omega (
        arith,
        product_lt (get_or s.bytes (q / 8) 0) (2 ^ (q % 8)) part (2 ^ count) clear
            (mod-lt value (pow_pos count)),
        pow_add (q % 8) count,
        pow-le-pow_right {n = 2} (omega arith) fits,
      ))

-- A field of `n` bits written in two parts.
parts_sum :
    (v value q count n : ℕ)
    → count ≤ n
    → v + value % 2 ^ count * 2 ^ q + value / 2 ^ count % 2 ^ (n - count) * 2 ^ (q + count)
      ≡ v + value % 2 ^ n * 2 ^ q
parts_sum v value q count n h =
    let width : count + (n - count) ≡ n = omega arith in
    omega (
      arith,
      ap (λ (t : ℕ). value % 2 ^ t * 2 ^ q) width,
      ap (λ (t : ℕ). t * 2 ^ q) (mod_split value count (n - count)),
      ap (λ (t : ℕ). value / 2 ^ count % 2 ^ (n - count) * t) (pow_add q count),
    )

pub field-lt : (v x q n : ℕ) → v < 2 ^ q → x < 2 ^ n → v + x * 2 ^ q < 2 ^ (q + n)
field-lt v x q n h k = rw (pow_add q n) (product_lt v (2 ^ q) x (2 ^ n) h k)

-- One round writes its part of the value and moves the cursor behind it.
put_loop-round :
    (fuel n value q : ℕ) (s : DataStream)
    → All IsByte s.bytes
    → length s.bytes < 2 ^ 16
    → length s.bytes ≤ s.capacity
    → q + suc n ≤ 8 * length s.bytes
    → le_value s.bytes < 2 ^ q
    → put_loop (suc fuel) (suc n) value (at_cursor s q)
      ≡ put_loop fuel
          (suc n - round q (suc n))
          (value / 2 ^ round q (suc n))
          (at_cursor (with_field s q (value % 2 ^ round q (suc n))) (q + round q (suc n)))
unfolding put_loop
put_loop-round fuel n value q s all short backed room empty =
    let count = round q (suc n) in
    let s₁ = with_field s q (value % 2 ^ count) in
    let same =
      length-set s.bytes (q / 8) (get_or s.bytes (q / 8) 0 + value % 2 ^ count * 2 ^ (q % 8)) in
    rw (
      gt→leb s.capacity (q / 8) (omega arith),
      gt→leb (length s.bytes) (q / 8) (omega arith),
      bits_here-at s all short q (suc n) room (omega arith),
      or_byte_lem s all q count value (omega arith) (omega arith) empty,
      move-at s₁ (with_field-All s all q count value (omega arith) (omega arith) empty)
          (omega (arith, same)) q (suc n) (omega (arith, same)) (omega arith),
    )

put_loop_lem :
    (fuel n value q : ℕ) (s : DataStream)
    → All IsByte s.bytes
    → length s.bytes < 2 ^ 16
    → length s.bytes ≤ s.capacity
    → n ≤ fuel
    → q + n ≤ 8 * length s.bytes
    → le_value s.bytes < 2 ^ q
    → (t : DataStream) × (put_loop fuel n value (at_cursor s q) ≡ ok tt t)
      × Wrote s t (le_value s.bytes + value % 2 ^ n * 2 ^ q) (q + n)
put_loop_lem zero (suc n) value q s all short backed enough room empty = absurd (omega arith)
put_loop_lem fuel zero value q s all short backed enough room empty = (
  at_cursor s q,
  unfold put_loop in refl,
  record {
    all_bytes = all;
    same_length = refl;
    same_capacity = refl;
    value = omega (arith, ap (λ (t : ℕ). t * 2 ^ q) (mod_one value));
    moved = ap (at_cursor s) {y = q + 0} (omega arith);
  },
)
put_loop_lem (suc fuel) (suc n) value q s all short backed enough room empty =
    let count = round q (suc n) in
    let s₁ = with_field s q (value % 2 ^ count) in
    let same =
      length-set s.bytes (q / 8) (get_or s.bytes (q / 8) 0 + value % 2 ^ count * 2 ^ (q % 8)) in
    let sum = with_field-value s all q count value (omega arith) (omega arith) empty in
    let (t, runs, wrote) =
      put_loop_lem fuel (suc n - count) (value / 2 ^ count) (q + count) s₁
        (with_field-All s all q count value (omega arith) (omega arith) empty) (omega (arith, same))
        (omega (arith, same)) (omega arith) (omega (arith, same))
        (omega (
          arith,
          sum,
          field-lt (le_value s.bytes) (value % 2 ^ count) q count empty
              (mod-lt value (pow_pos count)),
        )) in
    (
      t,
      put_loop-round fuel n value q s all short backed room empty ∙ runs,
      record {
        all_bytes = wrote.all_bytes;
        same_length = wrote.same_length ∙ same;
        same_capacity = wrote.same_capacity;
        value =
            wrote.value
            ∙ omega (arith, sum, parts_sum (le_value s.bytes) value q count (suc n) (omega arith));
        moved = wrote.moved ∙ ap (at_cursor t) (omega arith);
      },
    )

-- `put_number_raw` at the cursor of a valid stream, whose bytes lie within its capacity and are
-- zero from there on, with room for the field and an offset that is 0 or the cursor's: it returns no error, the stream's number gains the low
-- `n` bits of the value at the cursor, and the cursor moves behind them.
pub put_number_raw_lem :
    (value n offset : ℕ) (s : DataStream)
    → IsValid s
    → length s.bytes ≤ s.capacity
    → cursor s + n ≤ 8 * length s.bytes
    → le_value s.bytes < 2 ^ cursor s
    → (get_bit_offset s == offset || offset == 0) ≡ true
    → (t : DataStream) × (put_number_raw value n offset s ≡ ok tt t)
      × Wrote s t (le_value s.bytes + value % 2 ^ n * 2 ^ cursor s) (cursor s + n)
unfolding put_number_raw
put_number_raw_lem value n offset s v backed room empty placed =
    let (t, runs, wrote) =
      put_loop_lem n n value (cursor s) s v.all_bytes v.short backed (omega arith) room empty in
    (t, ground (arith, placed, ap (put_loop n n value) (at_cursor-cursor s v.within), runs), wrote)
