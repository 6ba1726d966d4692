-- ===== src/DataStream/Binary.antt =====
-- internal/pgn/readdatastream.go: byte fields and the strings with a length and a control byte
-- (STRING_LAU), and pkg/pgn/stringlau.go, which makes them.
use n2k.Prelude.{
  ℕ, zero, suc, ◌+◌, ◌-◌, ◌*◌, ◌/◌, ◌%◌, bit_and, bit_or, Bool, false, ◌&&◌, not, List, [], ◌∷◌,
  ltb, leb, ◌==◌, if◌then◌else◌, length, get_or, set, take, u8, u16, ◌<<<◌, ◌>>>◌, Bytes,
}
use n2k.Prelude.Results.{Result, ok, err}
use n2k.DataStream.{
  DataStream, unaligned, not_enough_bytes, no_data, odd_utf16, Outcome, new_data_stream,
}

-- A method that goes on with what another one returns.
abbrev pub and_then : {A B : Type 0} → Outcome A → (A → DataStream → Outcome B) → Outcome B
and_then (Outcome.ok a s) f = f a s
and_then (Outcome.err e s) f = Outcome.err e s
and_then Outcome.panic f = Outcome.panic
and_then Outcome.endless f = Outcome.endless

-- The loop of `readBinaryData`.
abbrev pub read_bytes : ℕ → DataStream → Bytes × DataStream
read_bytes zero s = ([], s)
read_bytes (suc n) s =
    let (bs, s') = read_bytes n (record s { byte_offset = u16 (s.byte_offset + 1) }) in
    (get_or s.bytes s.byte_offset 0 ∷ bs, s')

-- The last byte keeps the low `odd` bits, and the cursor goes back into it.
abbrev pub trim_odd : ℕ → Bytes → DataStream → Outcome Bytes
trim_odd odd bs s =
    let last = length bs - 1 in
    Outcome.ok (set bs last (bit_and (get_or bs last 0) (0xFF >>> (8 - odd)))) (record s {
      byte_offset = u16 (s.byte_offset + 0xFFFF);
      bit_offset = u8 (s.bit_offset + odd);
    })

-- `readBinaryData`.
unfoldable pub read_binary_data : ℕ → DataStream → Outcome Bytes
read_binary_data n s =
    let count = (n + 7) / 8 in
    let (bs, s') = read_bytes count s in
    if not (s.bit_offset == 0)
    then Outcome.err unaligned s
    else if ltb (length s.bytes) (s.byte_offset + count)
    then Outcome.err (not_enough_bytes n) s
    else if bit_and n 7 == 0
    then Outcome.ok bs s'
    else trim_odd (bit_and n 7) bs s'

abbrev pub last_is_zero : Bytes → Bool
last_is_zero [] = false
last_is_zero (b ∷ []) = b == 0
last_is_zero (b ∷ c ∷ bs) = last_is_zero (c ∷ bs)

-- `trimASCIILAUTerminator`.
abbrev pub trim_ascii_terminator : Bytes → Bytes
trim_ascii_terminator bs = if last_is_zero bs then take (length bs - 1) bs else bs

-- `trimUTF16LAUTerminator`.
abbrev pub trim_utf16_terminator : Bytes → Bytes
trim_utf16_terminator bs =
    if leb 2 (length bs) && (last_is_zero (take (length bs - 1) bs) && last_is_zero bs)
    then take (length bs - 2) bs
    else if not (length bs % 2 == 0) && last_is_zero bs
    then take (length bs - 1) bs
    else bs

-- Pairs of bytes, the high byte first.
abbrev pub code_units : Bytes → List ℕ
code_units (a ∷ b ∷ bs) = bit_or (a <<< 8) b ∷ code_units bs
code_units bs = []

-- `utf16` is Go's utf16.Decode with the conversion of its runes to a string.
module _ (utf16 : List ℕ → Bytes) where
  abbrev pub text_of : ℕ → Bytes → DataStream → Outcome Bytes
  text_of control bs s =
      if control == 0
      then (let trimmed = trim_utf16_terminator bs in
          if length trimmed % 2 == 0
          then Outcome.ok (utf16 (code_units trimmed)) s
          else Outcome.err (odd_utf16 (length trimmed)) s)
      else Outcome.ok (trim_ascii_terminator bs) s

  -- `readStringWithLengthAndControl`.
  unfoldable pub read_string_lau : DataStream → Outcome Bytes
  read_string_lau s = and_then (read_binary_data 16 s) (λ lc s₁.
      if length lc == 0
      then Outcome.err no_data s₁
      else if leb (get_or lc 0 0) 2
      then Outcome.ok [] s₁
      else and_then (read_binary_data (u16 ((get_or lc 0 0 - 2) * 8)) s₁) (text_of (get_or lc 1 0)))

  -- `DecodeStringLAU`, with the stream that it drops.
  unfoldable pub decode_string_lau : Bytes → Outcome Bytes
  decode_string_lau bs = read_string_lau (new_data_stream bs)

-- `EncodeStringLAU`. The error has the text's length.
unfoldable pub encode_string_lau : Bytes → Result ℕ Bytes
encode_string_lau value =
    if ltb 253 (length value) then err (length value) else ok (u8 (length value + 2) ∷ 1 ∷ value)
