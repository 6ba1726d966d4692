-- ===== src/DataStream/Terminated.antt =====
-- internal/pgn/writedatastream.go and readdatastream.go: strings with a length byte and a zero at their end
-- (STRING_LZ).
pub mod Longer
mod Tests
use n2k.Prelude.{
  ℕ, zero, suc, ◌+◌, ◌-◌, ◌*◌, ◌/◌, ◌^◌, Bool, true, false, ◌&&◌, ◌||◌, not, List, [], ◌∷◌, Option,
  none, some, ltb, leb, ◌==◌, if◌then◌else◌, length, get_or, set, take, replicate, u8, u16, Bytes,
}
use n2k.DataStream.{DataStream, no_data, too_long, not_terminated, Outcome, ok, err, panic}
use n2k.DataStream.Binary.{and_then, read_binary_data}
use n2k.DataStream.Bytes.{write_binary}

abbrev pub is_between : ℕ → ℕ → ℕ → Bool
is_between low high b = leb low b && leb b high

-- The lowest and the highest second byte of a rune of three or four bytes in UTF-8, by its first.
abbrev pub second_low : ℕ → ℕ
second_low b = if b == 0xE0 then 0xA0 else if b == 0xF0 then 0x90 else 0x80

abbrev pub second_high : ℕ → ℕ
second_high b = if b == 0xED then 0x9F else if b == 0xF4 then 0x8F else 0xBF

-- How many bytes a `range` over a string takes for its first rune: one, where it is no valid one.
unfoldable pub rune_width : Bytes → ℕ
rune_width bs =
    let b = get_or bs 0 0 in
    let c = get_or bs 1 0 in
    let third = is_between 0x80 0xBF (get_or bs 2 0) in
    let fourth = is_between 0x80 0xBF (get_or bs 3 0) in
    let second = is_between (second_low b) (second_high b) c in
    if ltb b 0x80
    then 1
    else if is_between 0xC2 0xDF b && is_between 0x80 0xBF c
    then 2
    else if is_between 0xE0 0xEF b && (second && third)
    then 3
    else if is_between 0xF0 0xF4 b && (second && (third && fourth))
    then 4
    else 1

-- The loop of `writeStringWithLength`: it copies the first byte of each rune, and `skip` bytes of a rune are
-- left. An index out of range panics.
unfoldable pub put_runes : ℕ → ℕ → Bytes → Bytes → Option Bytes
put_runes skip i [] out = some out
put_runes (suc skip) i (b ∷ bs) out = put_runes skip (suc i) bs out
put_runes zero i (b ∷ bs) out =
    let rest = put_runes (rune_width (b ∷ bs) - 1) (suc i) bs (set out (suc i) b) in
    if leb (length out) (suc i) then none else rest

-- The field's bytes.
abbrev pub field_bytes : ℕ → ℕ → Bytes → Option Bytes
field_bytes size field value =
    if field == 0 then none else put_runes 0 0 value (set (replicate {A = ℕ} field 0) 0 size)

abbrev pub write_field : Option Bytes → ℕ → ℕ → DataStream → Outcome (Unit {0})
write_field none n offset s = panic
write_field (some out) n offset s = write_binary out n offset s

-- `writeStringWithLength`.
unfoldable pub write_string_with_length : Bytes → ℕ → ℕ → DataStream → Outcome (Unit {0})
write_string_with_length value n offset s =
    let size = u8 (u8 (length value) + 1) in
    let field = u8 (n / 8) in
    if ltb field (u8 (size + 1))
    then err too_long s
    else write_field (field_bytes size field value) n offset s

-- `bytesToRead`, in bits, of a length and the field's width, where it has one.
unfoldable pub content_bits : ℕ → ℕ → ℕ
content_bits size n =
    let wanted = u16 (u8 (size + 1) * 8) in
    let left = u16 (n + (2 ^ 16 - 8)) in if ltb 0 n && ltb left wanted then left else wanted

-- The end of `readStringWithLength`. Where the first test holds, the index is in range.
unfoldable pub without_end : ℕ → Bytes → DataStream → Outcome Bytes
without_end size bs s =
    if length bs == 0
    then err no_data s
    else if ltb (length bs) (u8 (size + 1)) || not (get_or bs size 0 == 0)
    then err not_terminated s
    else ok (take size bs) s

-- `readStringWithLength`.
unfoldable pub read_string_with_length : ℕ → DataStream → Outcome Bytes
read_string_with_length n s = and_then (read_binary_data 8 s) (λ head s₁.
    if length head == 0
    then err no_data s₁
    else if get_or head 0 0 == 0
    then ok [] s₁
    else and_then (read_binary_data (content_bits (get_or head 0 0) n) s₁)
        (without_end (get_or head 0 0)))
