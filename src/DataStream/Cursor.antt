-- ===== src/DataStream/Cursor.antt =====
-- internal/pgn/readdatastream.go and writedatastream.go: one round of the loops of `getNumberRaw` and
-- `putNumberRaw`.
use n2k.Prelude.{
  ℕ, zero, suc, ◌+◌, ◌-◌, ◌*◌, ◌/◌, ◌%◌, ◌^◌, ◌≤◌, ◌<◌, ◌≡◌, refl, sym, ap, ◌∙◌, min, List, [], ◌∷◌,
  All, arith, ltb, inl, inr, Bool-cases, length, get_or, ltb→ge, ltb→lt,
}
use n2k.Prelude.Bits.{bit_and_mask}
use native.Mathlib.Nat.{pow-le-pow_right, mod-eq_of_lt, div-le_self}
use n2k.DataStream.{DataStream, move, bits_here, byte_part}
use n2k.DataStream.Value.{IsByte, le_value, field-le_value}

-- A stream of bytes, short enough for its 16-bit cursor.
pub record IsValid (s : DataStream) : Type 0 where
  pub all_bytes : All IsByte s.bytes
  pub short : length s.bytes < 2 ^ 16
  pub within : s.bit_offset < 8

-- The cursor in bits, and the stream with its cursor there.
abbrev pub cursor : DataStream → ℕ
cursor s = 8 * s.byte_offset + s.bit_offset

abbrev pub at_cursor : DataStream → ℕ → DataStream
at_cursor s q = record s { byte_offset = q / 8; bit_offset = q % 8 }

All-get_or : (bs : List ℕ) (k : ℕ) → All IsByte bs → get_or bs k 0 < 256
All-get_or [] k all = omega arith
All-get_or (b ∷ bs) zero (small, all) = small
All-get_or (b ∷ bs) (suc k) (small, all) = All-get_or bs k all

-- The mask `0xFF >> (8 - count)` has `count` ones.
pub low_mask : (count : ℕ) → count ≤ 8 → 0xFF / 2 ^ (8 - count) ≡ 2 ^ count - 1
low_mask zero h = refl
low_mask (suc zero) h = refl
low_mask (suc (suc zero)) h = refl
low_mask (suc (suc (suc zero))) h = refl
low_mask (suc (suc (suc (suc zero)))) h = refl
low_mask (suc (suc (suc (suc (suc zero))))) h = refl
low_mask (suc (suc (suc (suc (suc (suc zero)))))) h = refl
low_mask (suc (suc (suc (suc (suc (suc (suc zero))))))) h = refl
low_mask (suc (suc (suc (suc (suc (suc (suc (suc zero)))))))) h = refl
low_mask (suc (suc (suc (suc (suc (suc (suc (suc (suc n))))))))) h = absurd (omega arith)

whole : (b a count : ℕ) → b < 256 → 8 ≤ count → b / 2 ^ a < 2 ^ count
whole b a count h big =
    omega (arith, div-le_self b (2 ^ a), pow-le-pow_right {n = 2} (omega arith) big)

module _ (s : DataStream) (n : ℕ) (v : IsValid s) (room : cursor s + n ≤ 8 * length s.bytes)
    (more : 0 < n) where
  in_bytes : s.byte_offset < length s.bytes
  in_bytes = omega (arith, v.within)

  pub bits_here_lem : (bits_here s n ≡ min n (8 - s.bit_offset))
  unfolding bits_here
  bits_here_lem = ground (arith, v.within)

  module _ (count : ℕ) (fits : s.bit_offset + count ≤ 8) where
    pub move_lem : move s count ≡ at_cursor s (cursor s + count)
    unfolding move
    move_lem = ground (arith, in_bytes, v.within, v.short)

    pub byte_part_lem : byte_part s count ≡ le_value s.bytes / 2 ^ cursor s % 2 ^ count
    unfolding byte_part
    byte_part_lem = elim (Bool-cases (ltb count 8)) [
      | inl small ↦
          rw (small, low_mask count (omega (arith, ltb→lt _ _ small)), bit_and_mask count _) field
      | inr big ↦ rw big (
          sym (
            mod-eq_of_lt (
              whole (get_or s.bytes s.byte_offset 0) s.bit_offset count
                (All-get_or s.bytes s.byte_offset v.all_bytes) (ltb→ge _ _ big)))
          ∙ field)
    ]
      where
        field :
            get_or s.bytes s.byte_offset 0 / 2 ^ s.bit_offset % 2 ^ count
            ≡ le_value s.bytes / 2 ^ cursor s % 2 ^ count
        field = field-le_value s.bytes s.byte_offset s.bit_offset count v.all_bytes in_bytes fits

cursor-at_cursor : (q : ℕ) → 8 * (q / 8) + q % 8 ≡ q
cursor-at_cursor q = omega arith

pub at_cursor-cursor : (s : DataStream) → s.bit_offset < 8 → at_cursor s (cursor s) ≡ s
at_cursor-cursor s h = ground arith

-- The bits that one round takes at bit `q` when `n` are left.
abbrev pub round : ℕ → ℕ → ℕ
round q n = min n (8 - q % 8)

-- One round at bit `q` of a stream.
module _ (s : DataStream) (all : All IsByte s.bytes) (short : length s.bytes < 2 ^ 16) (q n : ℕ)
    (room : q + n ≤ 8 * length s.bytes) (more : 0 < n) where
  at_cursor-IsValid : IsValid (at_cursor s q)
  at_cursor-IsValid = record { all_bytes = all; short = short; within = omega arith }

  fits_room : cursor (at_cursor s q) + n ≤ 8 * length s.bytes
  fits_room = omega arith

  pub bits_here-at : bits_here (at_cursor s q) n ≡ round q n
  bits_here-at = bits_here_lem (at_cursor s q) n at_cursor-IsValid fits_room more

  pub move-at : move (at_cursor s q) (round q n) ≡ at_cursor s (q + round q n)
  move-at =
      move_lem (at_cursor s q) n at_cursor-IsValid fits_room more (round q n) (omega arith)
      ∙ ap (λ t. at_cursor s (t + round q n)) (cursor-at_cursor q)

  pub byte_part-at :
      byte_part (at_cursor s q) (round q n) ≡ le_value s.bytes / 2 ^ q % 2 ^ round q n
  byte_part-at =
      byte_part_lem (at_cursor s q) n at_cursor-IsValid fits_room more (round q n) (omega arith)
      ∙ ap (λ t. le_value s.bytes / 2 ^ t % 2 ^ round q n) (cursor-at_cursor q)
