-- ===== src/DataStream/Raw.antt =====
-- internal/pgn/readdatastream.go and writedatastream.go: integer fields with reserved values, signs
-- and offsets. An int64 and a uint64 are the 64 bits that they have.
pub mod Nullable
pub mod Signed
use n2k.Prelude.{
  ℕ, ◌+◌, ◌-◌, ◌*◌, ◌/◌, ◌%◌, ◌^◌, bit_and, bit_or, Bool, true, false, ◌&&◌, not, Option, none,
  some, ltb, ◌==◌, if◌then◌else◌, u16, u64, ◌<<<◌, ◌>>>◌,
}
use n2k.DataStream.{
  DataStream, StreamError, too_many_bits, offset_overflow, offset_underflow, nil_value, Outcome, ok,
  err, panic, endless, get_number_raw, put_number_raw,
}

-- `FieldSpec`, the fields that integers use.
pub record FieldSpec : Type 0 where
  pub bit_length : ℕ
  pub max_raw_value : ℕ
  pub missing_value : ℕ
  pub offset : ℕ
  pub is_signed : Bool
  pub reserved_count : ℕ

-- A method that goes on with what another one returns.
abbrev pub and_then : {A B : Type 0} → Outcome A → (A → DataStream → Outcome B) → Outcome B
and_then (ok a s) f = f a s
and_then (err e s) f = err e s
and_then panic f = panic
and_then endless f = endless

-- `a < b` of two int64.
abbrev pub signed_lt : ℕ → ℕ → Bool
signed_lt a b = ltb (u64 (a + 2 ^ 63)) (u64 (b + 2 ^ 63))

-- `a - b` in 64 bits.
abbrev pub minus : ℕ → ℕ → ℕ
minus a b = u64 (a + (2 ^ 64 - b))

-- `1 << (spec.BitLength - 1)`, whose exponent is a uint16.
abbrev pub sign_bit : FieldSpec → ℕ
sign_bit spec = u64 (1 <<< u16 (spec.bit_length + 0xFFFF))

-- `getNullableNumberRaw`.
unfoldable pub get_nullable_number_raw : FieldSpec → DataStream → Outcome (Option ℕ)
get_nullable_number_raw spec s = and_then (get_number_raw spec.bit_length s) (λ v s'.
    if spec.is_signed && ltb 0 (bit_and v (sign_bit spec))
    then ok (some v) s'
    else if ltb spec.max_raw_value v
    then ok none s'
    else ok (some v) s')

-- `signExtendInt64`.
unfoldable pub sign_extend : FieldSpec → ℕ → ℕ
sign_extend spec v =
    if ltb spec.bit_length 64 && not (bit_and v (sign_bit spec) == 0)
    then bit_or v (u64 (0xFFFF_FFFF_FFFF_FFFF <<< spec.bit_length))
    else v

-- `getSignedNullableNumber`.
unfoldable pub get_signed_nullable_number : FieldSpec → DataStream → Outcome (Option ℕ)
get_signed_nullable_number spec s =
    and_then (get_nullable_number_raw spec s)
      (λ o s'. elim o [ none ↦ ok none s' | some v ↦ ok (some (sign_extend spec v)) s' ])

-- `applySignedOffset`: 2 ^ 63 - 1 is the largest int64, and 2 ^ 63 the smallest.
unfoldable pub apply_signed_offset : ℕ → ℕ → DataStream → Outcome ℕ
apply_signed_offset value offset s =
    if signed_lt 0 offset && signed_lt (minus (2 ^ 63 - 1) offset) value
    then err offset_overflow s
    else if signed_lt offset 0 && signed_lt value (minus (2 ^ 63) offset)
    then err offset_underflow s
    else ok (u64 (value + offset)) s

-- `applyUnsignedOffset`.
unfoldable pub apply_unsigned_offset : ℕ → ℕ → DataStream → Outcome ℕ
apply_unsigned_offset value offset s =
    let magnitude = minus 0 offset in
    if signed_lt offset 0
    then (if ltb value magnitude then err offset_underflow s else ok (value - magnitude) s)
    else if ltb (2 ^ 64 - 1 - offset) value
    then err offset_overflow s
    else ok (value + offset) s

-- The tail of `ReadRaw`: the offset, where there is one, and the conversion to a type of `width` bits.
abbrev pub finish_raw :
    ℕ → FieldSpec → (ℕ → ℕ → DataStream → Outcome ℕ) → Option ℕ → DataStream → Outcome (Option ℕ)
finish_raw width spec apply none s = ok none s
finish_raw width spec apply (some v) s =
    and_then (if spec.offset == 0 then ok v s else apply v spec.offset s)
      (λ r s'. ok (some (r % 2 ^ width)) s')

-- What `ReadRaw` reads before the offset.
abbrev pub read_number : FieldSpec → DataStream → Outcome (Option ℕ)
read_number spec s =
    if spec.is_signed
    then (if spec.reserved_count == 0
        then and_then (get_number_raw spec.bit_length s) (λ v s'. ok (some (sign_extend spec v)) s')
        else get_signed_nullable_number spec s)
    else if spec.reserved_count == 0
    then and_then (get_number_raw spec.bit_length s) (λ v s'. ok (some v) s')
    else get_nullable_number_raw spec s

-- `ReadRaw`, of a specification that is not nil.
unfoldable pub read_raw : ℕ → FieldSpec → DataStream → Outcome (Option ℕ)
read_raw width spec s =
    if ltb 64 spec.bit_length
    then err (too_many_bits spec.bit_length) s
    else and_then (read_number spec s) (
        finish_raw width spec
          (if spec.is_signed then apply_signed_offset else apply_unsigned_offset))

-- The signed value of `WriteRaw`, less the offset and clamped to the field, cut to its bits.
unfoldable pub signed_raw : FieldSpec → ℕ → ℕ
signed_raw spec value =
    let v₀ = if spec.offset == 0 then value else minus value spec.offset in
    let top = minus (sign_bit spec) 1 in
    let max_positive = if ltb 0 spec.reserved_count then minus top spec.reserved_count else top in
    let min_negative = minus 0 (sign_bit spec) in
    let v₁ = if signed_lt max_positive v₀ then max_positive else v₀ in
    let v₂ = if signed_lt v₁ min_negative then min_negative else v₁ in
    bit_and v₂ (minus (u64 (1 <<< spec.bit_length)) 1)

-- The unsigned value, less the offset, and pinned where there are reserved values.
unfoldable pub unsigned_raw : FieldSpec → ℕ → ℕ
unsigned_raw spec value =
    let v = if spec.offset == 0 then value else minus value spec.offset in
    if ltb 0 spec.reserved_count && ltb spec.max_raw_value v then spec.max_raw_value else v

-- `WriteRaw`, of the 64 bits of a value, or of nil.
unfoldable pub write_raw : FieldSpec → Option ℕ → DataStream → Outcome (Unit {0})
write_raw spec none s =
    if spec.reserved_count == 0
    then err nil_value s
    else put_number_raw spec.missing_value spec.bit_length 0 s
write_raw spec (some v) s =
    put_number_raw (if spec.is_signed then signed_raw spec v else unsigned_raw spec v)
      spec.bit_length 0 s
