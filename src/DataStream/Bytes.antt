-- ===== src/DataStream/Bytes.antt =====
-- internal/pgn/writedatastream.go, the fields of whole bytes, and the strings of a fixed length, which
-- readdatastream.go reads. A nil slice is an empty one, which the code pads alike.
pub mod Fixed
pub mod Lau
mod Tests
use n2k.Prelude.{
  ℕ, zero, suc, ◌+◌, ◌-◌, ◌*◌, ◌/◌, ◌%◌, ◌^◌, bit_and, Bool, false, ◌&&◌, not, List, [], ◌∷◌, ◌++◌,
  ltb, leb, ◌==◌, if◌then◌else◌, length, get_or, set, replicate, u8, u16, ◌>>>◌, Bytes,
}
use n2k.DataStream.{
  DataStream, unaligned, wrong_offset, at_max_length, Outcome, ok, err, panic, get_bit_offset,
}
use n2k.DataStream.Binary.{and_then, read_binary_data}

-- The loop of `writeBinary`: an index out of range panics.
unfoldable pub write_bytes : ℕ → Bytes → DataStream → Outcome (Unit {0})
write_bytes zero vs s = ok tt s
write_bytes (suc n) [] s = panic
write_bytes (suc n) (v ∷ vs) s =
    let rest =
      write_bytes n vs
        (record s { bytes = set s.bytes s.byte_offset v; byte_offset = u16 (s.byte_offset + 1) }) in
    if leb (length s.bytes) s.byte_offset then panic else rest

-- The tail of `writeBinary`: the cursor goes back into a last byte that is not full, which is cut.
abbrev pub mask_odd : ℕ → DataStream → Outcome (Unit {0})
mask_odd odd s =
    let last = u16 (s.byte_offset + 0xFFFF) in
    if odd == 0
    then ok tt s
    else if leb (length s.bytes) last
    then panic
    else ok tt (record s {
      bytes = set s.bytes last (bit_and (get_or s.bytes last 0) (0xFF >>> (8 - odd)));
      byte_offset = last;
      bit_offset = odd;
    })

-- `numBytes`, before its bound: the whole value, or the bytes that the bits take.
abbrev pub wanted_bytes : Bytes → ℕ → ℕ
wanted_bytes value n = if n == 0 then u16 (length value) else (n + 7) / 8

-- `MaxPGNLength - (bitOffset / 8)`, of a uint16.
abbrev pub bytes_left : ℕ → ℕ
bytes_left offset = u16 (223 + 2 ^ 16 - offset / 8)

-- What `writeBinary` does once it has `numBytes`. A value of 2 ^ 16 bytes may have a negative number of
-- bytes to be added, which panics.
unfoldable pub write_count : Bytes → ℕ → ℕ → DataStream → Outcome (Unit {0})
write_count value n count s =
    let short = not (n == 0) && ltb (u16 (length value)) count in
    let padded = if short then value ++ replicate {A = ℕ} (count - length value) 0 else value in
    if short && ltb count (length value)
    then panic
    else if not (s.bit_offset == 0)
    then err unaligned s
    else and_then (write_bytes count padded s) (λ _ s'. mask_odd (n % 8) s')

-- `writeBinary`.
unfoldable pub write_binary : Bytes → ℕ → ℕ → DataStream → Outcome (Unit {0})
write_binary value n offset s =
    if not (get_bit_offset s == offset) && not (offset == 0)
    then err (wrong_offset (get_bit_offset s) offset) s
    else if ltb (bytes_left offset) (wanted_bytes value n)
    then (if bytes_left offset == 0
        then err at_max_length s
        else write_count value n (bytes_left offset) s)
    else write_count value n (wanted_bytes value n) s

-- `writeStringFix`.
unfoldable pub write_string_fix : Bytes → ℕ → ℕ → DataStream → Outcome (Unit {0})
write_string_fix value n offset s =
    write_binary (value ++ replicate {A = ℕ} (n / 8 - length value) 0xFF) n offset s

-- `writeStringLau`.
unfoldable pub write_string_lau : Bytes → ℕ → DataStream → Outcome (Unit {0})
write_string_lau value offset s =
    let out = if length value == 0 then 2 ∷ 1 ∷ [] else u8 (length value + 2) ∷ 1 ∷ value in
    write_binary out (u16 (length out * 8)) offset s

-- A string up to the first byte `x`.
unfoldable pub before : ℕ → Bytes → Bytes
before x [] = []
before x (b ∷ bs) = if b == x then [] else b ∷ before x bs

-- `readFixedString`.
unfoldable pub read_fixed_string : ℕ → DataStream → Outcome Bytes
read_fixed_string n s =
    and_then (read_binary_data n s) (λ bs s'. ok (before 0x40 (before 0xFF (before 0 bs))) s')
