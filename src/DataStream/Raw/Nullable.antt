-- ===== src/DataStream/Raw/Nullable.antt =====
-- internal/pgn/readdatastream.go and writedatastream.go: an unsigned field that is written and read.
use n2k.Prelude.Pow.{pow_pos}
use native.Mathlib.Nat.{mod-lt, mod-eq_of_lt}
use n2k.DataStream.RoundTrip.{two_digits, get_number_raw_at}
use n2k.Prelude.{
  ge→ltb, lt→ltb, ==_iff, ap₂, ◌⊎◌, inl, inr, Bool-cases, ℕ, ◌+◌, ◌*◌, ◌/◌, ◌%◌, ◌^◌, ◌≤◌, ◌<◌, ◌≡◌,
  refl, sym, ap, ◌∙◌, true, false, Option, none, some, ltb, ◌==◌, length, arith,
}
use n2k.DataStream.{DataStream, ok, get_number_raw, put_number_raw}
use n2k.DataStream.Value.{le_value}
use n2k.DataStream.Cursor.{at_cursor, cursor, IsValid}
use n2k.DataStream.Put.{put_number_raw_lem}
use n2k.DataStream.Raw.{FieldSpec, read_raw, write_raw, unsigned_raw, get_nullable_number_raw}

-- A number that is put at the cursor with no offset, and got from there.
pub got_back :
    (value n : ℕ) (s : DataStream)
    → IsValid s
    → length s.bytes ≤ s.capacity
    → cursor s + n ≤ 8 * length s.bytes
    → le_value s.bytes < 2 ^ cursor s
    → n ≤ 64
    → (t : DataStream) × (put_number_raw value n 0 s ≡ ok tt t)
      × (get_number_raw n (at_cursor t (cursor s)) ≡ ok (value % 2 ^ n) t)
got_back value n s v backed room empty narrow =
    let q = cursor s in
    let (t, runs, wrote) = put_number_raw_lem value n 0 s v backed room empty (ground arith) in
    let k = value % 2 ^ n in
    let digits = two_digits (le_value s.bytes) k (2 ^ q) empty in
    let bits : le_value t.bytes / 2 ^ q % 2 ^ n ≡ k =
      ap (λ (x : ℕ). x / 2 ^ q % 2 ^ n) (wrote.value ∙ omega arith)
      ∙ ap (λ (x : ℕ). x % 2 ^ n) digits.1
      ∙ mod-eq_of_lt (mod-lt value (pow_pos n)) in
    let got =
      get_number_raw_at t q n wrote.all_bytes (omega (arith, wrote.same_length, v.short)) narrow
        (omega (arith, wrote.same_length, room)) in
    (t, runs, got ∙ ap₂ ok bits (sym wrote.moved))

-- What an unsigned field of a specification without an offset, read as a type of `width` bits, can
-- hold: a number that is not reserved, or nil, if its mark is above the numbers.
abbrev pub Holds : FieldSpec → ℕ → Option ℕ → Type 0
Holds spec width none =
    (0 < spec.reserved_count)
    × (spec.max_raw_value < spec.missing_value)
    × (spec.missing_value < 2 ^ spec.bit_length)
Holds spec width (some v) =
    (v < 2 ^ spec.bit_length)
    × (v < 2 ^ width)
    × ((spec.reserved_count ≡ 0) ⊎ (v ≤ spec.max_raw_value))

pinned :
    (spec : FieldSpec) (x : ℕ)
    → spec.offset ≡ 0
    → (spec.reserved_count ≡ 0) ⊎ (x ≤ spec.max_raw_value)
    → unsigned_raw spec x ≡ x
unfolding unsigned_raw
pinned spec x no_offset allowed = ground (arith, no_offset, allowed)

-- An unsigned field of at most 64 bits, without an offset, that holds the number or nil: on a valid stream whose bytes lie within its
-- capacity and are zero from the cursor on, with room, it is written without error, and reading it from there gives it back.
pub read_raw-write_raw :
    (spec : FieldSpec) (width : ℕ) (o : Option ℕ) (s : DataStream)
    → spec.is_signed ≡ false
    → spec.offset ≡ 0
    → spec.bit_length ≤ 64
    → Holds spec width o
    → IsValid s
    → length s.bytes ≤ s.capacity
    → cursor s + spec.bit_length ≤ 8 * length s.bytes
    → le_value s.bytes < 2 ^ cursor s
    → (t : DataStream) × (write_raw spec o s ≡ ok tt t)
      × (read_raw width spec (at_cursor t (cursor s)) ≡ ok o t)
unfolding write_raw read_raw get_nullable_number_raw
read_raw-write_raw spec width none s plain no_offset narrow (reserved, above, fits) v backed room
      empty =
    let (t, runs, got) = got_back spec.missing_value spec.bit_length s v backed room empty narrow in
    let can : (spec.reserved_count == 0) ≡ false = ground (arith, reserved) in
    let short : ltb 64 spec.bit_length ≡ false = ge→ltb 64 spec.bit_length narrow in
    let mark : get_number_raw spec.bit_length (at_cursor t (cursor s)) ≡ ok spec.missing_value t =
      got ∙ ap (λ (y : ℕ). ok y t) (mod-eq_of_lt fits) in
    (
      t,
      simp can runs,
      simp
          (
            read_raw,
            get_nullable_number_raw,
            short,
            plain,
            can,
            mark,
            lt→ltb spec.max_raw_value spec.missing_value above,
          )
          refl,
    )
read_raw-write_raw spec width (some x) s plain no_offset narrow (fits, typed, allowed) v backed room
      empty =
    let (t, runs, got) = got_back x spec.bit_length s v backed room empty narrow in
    let short : ltb 64 spec.bit_length ≡ false = ge→ltb 64 spec.bit_length narrow in
    let here : (spec.offset == 0) ≡ true = (==_iff spec.offset 0).1 no_offset in
    let number : get_number_raw spec.bit_length (at_cursor t (cursor s)) ≡ ok x t =
      got ∙ ap (λ (y : ℕ). ok y t) (mod-eq_of_lt fits) in
    let cut : x % 2 ^ width ≡ x = mod-eq_of_lt typed in
    (
      t,
      simp (plain, pinned spec x no_offset allowed) runs,
      elim (Bool-cases (spec.reserved_count == 0)) [
        | inl never ↦ simp (read_raw, short, plain, never, number, here, cut) refl
        | inr can ↦
            let low : ltb spec.max_raw_value x ≡ false = ground (arith, can, allowed) in
            simp (read_raw, get_nullable_number_raw, short, plain, can, number, low, here, cut) refl
      ],
    )
