-- ===== src/DataStream/Get.antt =====
-- internal/pgn/readdatastream.go, `getNumberRaw`: it reads a field of the number that the stream is.
use n2k.Prelude.{
  ℕ, zero, suc, ◌+◌, ◌-◌, ◌*◌, ◌/◌, ◌%◌, ◌^◌, ◌≤◌, ◌<◌, ◌≡◌, sym, ap, ap₂, ◌∙◌, bit_or, All, arith,
  leb, if◌then◌else◌, inl, inr, Bool-cases, length, u64, gt→leb, ge→ltb, lt→ltb, leb→le, leb→gt,
}
use n2k.Prelude.Bits.{bit_or_high}
use n2k.Prelude.Pow.{pow_add, pow_pos, div_div, mod_one, mod_split, product_lt}
use native.Mathlib.Nat.{pow-le-pow_right, mod-lt, mod-eq_of_lt}
use n2k.DataStream.{DataStream, ok, err, bits_off_end, get_loop, get_number_raw}
use n2k.DataStream.Value.{IsByte, le_value}
use n2k.DataStream.Cursor.{
  IsValid, cursor, at_cursor, at_cursor-cursor, round, bits_here-at, move-at, byte_part-at,
}

-- The result gains the bits of one round above its own.
gain :
    (ret out x count : ℕ)
    → ret < 2 ^ out
    → x < 2 ^ count
    → out + count ≤ 64
    → (bit_or ret (u64 (x * 2 ^ out)) ≡ ret + x * 2 ^ out) × (ret + x * 2 ^ out < 2 ^ (out + count))
gain ret out x count small fits width =
    (rw (mod-eq_of_lt no_wrap) (bit_or_high out ret x small), below)
  where
    below : ret + x * 2 ^ out < 2 ^ (out + count)
    below = rw (pow_add out count) (product_lt ret (2 ^ out) x (2 ^ count) small fits)

    no_wrap : x * 2 ^ out < 2 ^ 64
    no_wrap = omega (arith, below, pow-le-pow_right {n = 2} (omega arith) width)

-- A field of `n` bits in two parts.
two_parts :
    (v q count n out ret : ℕ)
    → count ≤ n
    → ret
        + v / 2 ^ q % 2 ^ count * 2 ^ out
        + 2 ^ (out + count) * (v / 2 ^ (q + count) % 2 ^ (n - count))
      ≡ ret + 2 ^ out * (v / 2 ^ q % 2 ^ n)
two_parts v q count n out ret h =
    let width : count + (n - count) ≡ n = omega arith in
    omega (
      arith,
      ap (λ (t : ℕ). 2 ^ out * (v / 2 ^ q % 2 ^ t)) width,
      ap (λ (t : ℕ). 2 ^ out * t) (mod_split (v / 2 ^ q) count (n - count)),
      ap (λ (t : ℕ). 2 ^ out * (2 ^ count * (t % 2 ^ (n - count)))) (div_div v q count),
      ap (λ (t : ℕ). t * (v / 2 ^ (q + count) % 2 ^ (n - count))) (pow_add out count),
    )

module _ (s : DataStream) (all : All IsByte s.bytes) (short : length s.bytes < 2 ^ 16) where
  get_loop_lem :
      (fuel n ret out q : ℕ)
      → n ≤ fuel
      → q + n ≤ 8 * length s.bytes
      → out + n ≤ 64
      → ret < 2 ^ out
      → get_loop fuel n ret out (at_cursor s q)
        ≡ ok (ret + 2 ^ out * (le_value s.bytes / 2 ^ q % 2 ^ n)) (at_cursor s (q + n))
  unfolding get_loop
  get_loop_lem zero (suc n) ret out q enough room width small = absurd (omega arith)
  get_loop_lem fuel zero ret out q enough room width small =
      ap₂ ok (omega (arith, ap (λ (t : ℕ). 2 ^ out * t) (mod_one (le_value s.bytes / 2 ^ q))))
        (ap (at_cursor s) (omega arith))
  get_loop_lem (suc fuel) (suc n) ret out q enough room width small =
      let count = round q (suc n) in
      let x = le_value s.bytes / 2 ^ q % 2 ^ count in
      let (joined, below) = gain ret out x count small (mod-lt _ (pow_pos count)) (omega arith) in
      rw
        (
          gt→leb (length s.bytes) (q / 8) (omega arith),
          bits_here-at s all short q (suc n) room (omega arith),
          move-at s all short q (suc n) room (omega arith),
          byte_part-at s all short q (suc n) room (omega arith),
          joined,
        )
        (get_loop_lem fuel (suc n - count) (ret + x * 2 ^ out) (out + count) (q + count)
            (omega arith) (omega arith) (omega arith) below
          ∙ ap₂ ok (two_parts (le_value s.bytes) q count (suc n) out ret (omega arith))
              (ap (at_cursor s) (omega arith)))

-- `get_number_raw` of at most 64 bits on a valid stream, whole: with enough bits left it returns the `n` bits from the
-- cursor on, the first bit lowest, and moves the cursor behind them; otherwise it fails and leaves
-- the stream as it was.
pub get_number_raw_lem :
    (n : ℕ) (s : DataStream)
    → IsValid s
    → n ≤ 64
    → get_number_raw n s ≡ (
        if leb (cursor s + n) (8 * length s.bytes)
        then ok (le_value s.bytes / 2 ^ cursor s % 2 ^ n) (at_cursor s (cursor s + n))
        else err (bits_off_end n) s)
unfolding get_number_raw
get_number_raw_lem n s v width = elim (Bool-cases (leb (cursor s + n) (8 * length s.bytes))) [
  | inl fits ↦
      let room : cursor s + n ≤ 8 * length s.bytes = leb→le _ _ fits in
      rw (fits, ge→ltb (length s.bytes * 8) (n + (s.byte_offset * 8 + s.bit_offset)) (omega arith))
        (ap (get_loop n n 0 0) (sym (at_cursor-cursor s v.within))
          ∙ get_loop_lem s v.all_bytes v.short n n 0 0 (cursor s) (omega arith) room (omega arith)
              (omega arith)
          ∙ ap (λ t. ok t (at_cursor s (cursor s + n))) (omega arith))
  | inr over ↦
      let beyond : 8 * length s.bytes < cursor s + n = leb→gt _ _ over in
      rw (over, lt→ltb (length s.bytes * 8) (n + (s.byte_offset * 8 + s.bit_offset)) (omega arith))
]
