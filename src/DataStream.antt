-- ===== src/DataStream.antt =====
-- internal/pgn/datastream.go, readdatastream.go and writedatastream.go: the payload of a parameter
-- group, read and written at a cursor of a byte and a bit offset.
pub mod Value
pub mod Cursor
pub mod Get
pub mod Put
pub mod RoundTrip
pub mod Binary
pub mod Lau
pub mod Bytes
pub mod Terminated
pub mod Raw
mod Tests
use n2k.Prelude.{
  ℕ, zero, suc, ◌+◌, ◌-◌, ◌*◌, ◌/◌, ◌%◌, ◌^◌, bit_and, bit_or, Bool, true, false, ◌&&◌, not, List,
  [], ◌∷◌, ltb, leb, ◌==◌, if◌then◌else◌, length, get_or, set, take, u8, u16, u32, u64, ◌<<<◌,
  ◌>>>◌,
}

-- `bytes` is the slice and `capacity` its `cap`.
pub record DataStream : Type 0 where
  pub bytes : List ℕ
  pub capacity : ℕ
  pub byte_offset : ℕ
  pub bit_offset : ℕ

-- The errors, each with the numbers of its text.
pub data StreamError : Type 0 where
  byte_off_end : ℕ → ℕ → StreamError
  bits_off_end : ℕ → StreamError
  too_many_bits : ℕ → StreamError
  wrong_offset : ℕ → ℕ → StreamError
  unaligned : StreamError
  not_enough_bytes : ℕ → StreamError
  no_data : StreamError
  odd_utf16 : ℕ → StreamError
  offset_overflow : StreamError
  offset_underflow : StreamError
  nil_value : StreamError
  at_max_length : StreamError
  too_long : StreamError
  not_terminated : StreamError

-- What a method returns, with the stream as it leaves it. `panic` is an index out of range, and
-- `endless` a loop whose fuel ran out.
pub data Outcome {ℓ} (A : Type ℓ) : Type ℓ where
  ok : A → DataStream → Outcome A
  err : StreamError → DataStream → Outcome A
  panic endless : Outcome A

abbrev pub new_data_stream : List ℕ → DataStream
new_data_stream bytes = record {
  bytes = bytes;
  capacity = length bytes;
  byte_offset = 0;
  bit_offset = 0;
}

abbrev pub get_data : DataStream → List ℕ
get_data s = take s.byte_offset s.bytes

abbrev pub get_bit_offset : DataStream → ℕ
get_bit_offset s = u32 (u32 (s.byte_offset * 8) + s.bit_offset)

abbrev pub position : DataStream → ℕ
position s = u16 (get_bit_offset s)

unfoldable pub reset_to_start : DataStream → DataStream
reset_to_start s = record s { byte_offset = 0; bit_offset = 0 }

unfoldable pub set_position : ℕ → DataStream → DataStream
set_position offset s = record s { byte_offset = offset / 8; bit_offset = u8 (offset % 8) }

-- The difference may be negative before it is cut to 16 bits, so a multiple of 2 ^ 16 is added.
unfoldable pub remaining_length : DataStream → ℕ
remaining_length s = u16 (length s.bytes * 8 + 2 ^ 16 * 2 ^ 8 - (s.byte_offset * 8 + s.bit_offset))

unfoldable pub is_eof : DataStream → Bool
is_eof s = s.byte_offset == u16 (length s.bytes) && s.bit_offset == 0

-- The cursor after `n` more bits of the byte that it stands in.
pub move : DataStream → ℕ → DataStream
move s n =
    let bit = u8 (s.bit_offset + n) in
    if leb 8 bit
    then record s { byte_offset = u16 (s.byte_offset + 1); bit_offset = bit - 8 }
    else record s { bit_offset = bit }

unfoldable pub skip_bits : ℕ → DataStream → Outcome (Unit {0})
unfolding move
skip_bits n s =
    let s' = move (record s { byte_offset = u16 (s.byte_offset + n >>> 3) }) (u8 (bit_and n 7)) in
    if leb (length s'.bytes) s'.byte_offset
    then err (byte_off_end s'.byte_offset (length s'.bytes)) s'
    else ok tt s'

-- How many of `n` bits the current byte takes or gives: `8 - s.bitOffset` is a uint8.
pub bits_here : DataStream → ℕ → ℕ
bits_here s n = let left = u8 (8 + 2 ^ 8 - s.bit_offset) in if ltb n left then u8 n else left

-- The next `count` bits of the current byte.
pub byte_part : DataStream → ℕ → ℕ
byte_part s count =
    let b = get_or s.bytes s.byte_offset 0 >>> s.bit_offset in
    if ltb count 8 then bit_and b (0xFF >>> (8 - count)) else b

-- The loop of `getNumberRaw`, with the bits that are left, the result so far and its width.
pub get_loop : ℕ → ℕ → ℕ → ℕ → DataStream → Outcome ℕ
get_loop fuel zero ret out s = ok ret s
get_loop zero (suc n) ret out s = endless
get_loop (suc fuel) (suc n) ret out s =
    let count = bits_here s (suc n) in
    let ret' = bit_or ret (u64 (byte_part s count <<< out)) in
    let rest = get_loop fuel (suc n - count) ret' (out + count) (move s count) in
    if leb (length s.bytes) s.byte_offset
    then err (byte_off_end s.byte_offset (length s.bytes)) s
    else rest

-- Each round takes a bit at least, so `n` rounds are enough.
unfoldable pub get_number_raw : ℕ → DataStream → Outcome ℕ
get_number_raw n s =
    if ltb (length s.bytes * 8) (n + (s.byte_offset * 8 + s.bit_offset))
    then err (bits_off_end n) s
    else get_loop n n 0 0 s

unfoldable pub read_lookup_field : ℕ → DataStream → Outcome ℕ
read_lookup_field n s = if ltb 64 n then err (too_many_bits n) s else get_number_raw n s

-- `s.data[s.byteOffset] |= outByte`.
pub or_byte : DataStream → ℕ → DataStream
or_byte s b = record s {
  bytes = set s.bytes s.byte_offset (bit_or (get_or s.bytes s.byte_offset 0) b);
}

-- What goes into the current byte: the low `count` bits of the value, at the bit offset.
pub out_byte : DataStream → ℕ → ℕ → ℕ
out_byte s count value = u8 (bit_and (u8 value) (0xFF >>> (8 - count)) <<< s.bit_offset)

-- The loop of `putNumberRaw`. Its `bitsToWrite <= bitsLeft` always holds.
pub put_loop : ℕ → ℕ → ℕ → DataStream → Outcome (Unit {0})
put_loop fuel zero value s = ok tt s
put_loop zero (suc n) value s = endless
put_loop (suc fuel) (suc n) value s =
    let count = bits_here s (suc n) in
    let rest =
      put_loop fuel (suc n - count) (value >>> count)
        (move (or_byte s (out_byte s count value)) count) in
    if leb s.capacity s.byte_offset
    then err (byte_off_end s.byte_offset s.capacity) s
    else if leb (length s.bytes) s.byte_offset
    then panic
    else rest

unfoldable pub put_number_raw : ℕ → ℕ → ℕ → DataStream → Outcome (Unit {0})
put_number_raw value n offset s =
    if not (get_bit_offset s == offset) && not (offset == 0)
    then err (wrong_offset (get_bit_offset s) offset) s
    else put_loop n n value s

unfoldable pub write_reserved : ℕ → ℕ → DataStream → Outcome (Unit {0})
write_reserved n offset s = put_number_raw 0xFFFF_FFFF_FFFF_FFFF n offset s

unfoldable pub write_spare : ℕ → ℕ → DataStream → Outcome (Unit {0})
write_spare n offset s = put_number_raw 0 n offset s
