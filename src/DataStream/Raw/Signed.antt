-- ===== src/DataStream/Raw/Signed.antt =====
-- internal/pgn/readdatastream.go and writedatastream.go: a signed field that is written and read. An int64 is
-- the 64 bits of its two's complement.
use n2k.Prelude.Bits.{bit_and_mask, bit_and_shifted, bit_or_high}
use n2k.Prelude.Pow.{pow_pos, pow_add}
use native.Mathlib.Nat.{
  mod-lt, mod-eq_of_lt, pow-suc, pow-le-pow_right, add-mul-mod_self_right, div-eq_of_lt,
  div-eq_of_lt-le,
}
use n2k.Prelude.{
  ge→ltb, ltb→ge, ==_iff, ◌⊎◌, inl, inr, Bool-cases, ℕ, suc, ◌+◌, ◌-◌, ◌*◌, ◌/◌, ◌%◌, ◌^◌, ◌≤◌, ◌<◌,
  ◌≡◌, refl, sym, ap, ◌∙◌, true, false, some, ltb, ◌==◌, length, arith, bit_and, u16, u64, ◌<<<◌,
}
use n2k.DataStream.{DataStream, ok, get_number_raw}
use n2k.DataStream.Value.{le_value}
use n2k.DataStream.Cursor.{at_cursor, cursor, IsValid}
use n2k.DataStream.Raw.{
  FieldSpec, read_raw, write_raw, signed_raw, sign_extend, sign_bit, minus, get_nullable_number_raw,
  get_signed_nullable_number,
}
use n2k.DataStream.Raw.Nullable.{got_back}

-- The powers of two at a width of `suc k` bits.
sizes : (k : ℕ) → k ≤ 63 → (2 ^ suc k ≡ 2 * 2 ^ k) × (0 < 2 ^ k) × (2 ^ k ≤ 2 ^ 63)
sizes k small = (pow-suc 2 k ∙ omega arith, pow_pos k, pow-le-pow_right {n = 2} (omega arith) small)

-- The 64 bits of a number that fits `suc k` bits with its sign.
abbrev pub IsSigned : ℕ → ℕ → Type 0
IsSigned k v = (v < 2 ^ k) ⊎ ((2 ^ 64 - 2 ^ k ≤ v) × (v < 2 ^ 64))

module _ (spec : FieldSpec) (k : ℕ) (width : spec.bit_length ≡ suc k) (small : k ≤ 63) where
  sign_bit_lem : sign_bit spec ≡ 2 ^ k
  sign_bit_lem =
      let at : u16 (spec.bit_length + 0xFFFF) ≡ k = omega (arith, width, small) in
      ap (λ (j : ℕ). u64 (1 <<< j)) at ∙ omega (arith, (sizes k small).2)

  -- Whether the sign's bit of a number of `suc k` bits is set.
  sign_test : (w : ℕ) → bit_and w (sign_bit spec) ≡ w / 2 ^ k % 2 * 2 ^ k
  sign_test w =
      ap (λ (b : ℕ). bit_and w b) (sign_bit_lem ∙ omega arith)
      ∙ bit_and_shifted k w 1
      ∙ ap (λ (b : ℕ). b * 2 ^ k) (bit_and_mask 1 (w / 2 ^ k))

  mask_lem : (v : ℕ) → bit_and v (minus (u64 (1 <<< spec.bit_length)) 1) ≡ v % 2 ^ suc k
  mask_lem v =
      ap (λ (b : ℕ). bit_and v (minus (u64 (1 <<< b)) 1)) width
      ∙ ap (λ (b : ℕ). bit_and v b)
          (omega (arith, (sizes k small).0, (sizes k small).1, (sizes k small).2))
      ∙ bit_and_mask (suc k) v

  -- The 64 bits of a negative number: those of its field, below ones.
  module _ (v : ℕ) (low : 2 ^ 64 - 2 ^ k ≤ v) (top : v < 2 ^ 64) where
    ones : ℕ
    ones = 2 ^ (63 - k) - 1

    part : ℕ
    part = v - ones * 2 ^ suc k

    all_ones : (ones * 2 ^ suc k ≡ 2 ^ 64 - 2 ^ suc k)
    unfolding ones
    all_ones =
        let more : 2 ^ (63 - k) ≡ suc (2 ^ (63 - k) - 1) = omega (arith, pow_pos (63 - k)) in
        let product : suc (2 ^ (63 - k) - 1) * 2 ^ suc k ≡ 2 ^ 64 =
          ap (λ (t : ℕ). t * 2 ^ suc k) (sym more)
          ∙ sym (pow_add (63 - k) (suc k))
          ∙ ap (λ (t : ℕ). 2 ^ t) {x = 63 - k + suc k} {y = 64} (omega (arith, small)) in
        omega (arith, product)

    high : (2 ^ k ≤ part) × (part < 2 ^ suc k)
    unfolding part
    high = (
      omega (arith, all_ones, sizes k small, low, top),
      omega (arith, all_ones, sizes k small, low, top),
    )

    whole : v ≡ part + ones * 2 ^ suc k
    unfolding part
    whole = omega (arith, all_ones, sizes k small, low)

    low_part : v % 2 ^ suc k ≡ part
    low_part =
        ap (λ (t : ℕ). t % 2 ^ suc k) whole
        ∙ add-mul-mod_self_right part ones (2 ^ suc k)
        ∙ mod-eq_of_lt high.1

  clear : (w : ℕ) → w < 2 ^ k → bit_and w (sign_bit spec) ≡ 0
  clear w low = sign_test w ∙ ap (λ (t : ℕ). t % 2 * 2 ^ k) (div-eq_of_lt low) ∙ omega arith

  negative : (w : ℕ) → 2 ^ k ≤ w → w < 2 ^ suc k → bit_and w (sign_bit spec) ≡ 2 ^ k
  negative w low top =
      sign_test w
      ∙ ap (λ (t : ℕ). t % 2 * 2 ^ k)
          (div-eq_of_lt-le {k = 1} (2 ^ k) (omega (arith, low)) (omega (arith, top, sizes k small)))
      ∙ omega arith

  in_field : (v : ℕ) → v < 2 ^ k → v % 2 ^ suc k ≡ v
  in_field v plain = mod-eq_of_lt (omega (arith, plain, sizes k small))

  sign_extend_lem : (v : ℕ) → IsSigned k v → sign_extend spec (v % 2 ^ suc k) ≡ v
  unfolding sign_extend
  sign_extend_lem v (inl plain) =
      let off = (==_iff (bit_and v (sign_bit spec)) 0).1 (clear v plain) in
      rw (in_field v plain) (elim (Bool-cases (ltb spec.bit_length 64)) [
        | inl narrow ↦ simp (narrow, off) refl
        | inr wide ↦ simp wide refl
      ])
  sign_extend_lem v (inr (low, top)) =
      let w = part v low top in
      let inside = high v low top in
      let on : (bit_and w (sign_bit spec) == 0) ≡ false =
        ground (arith, negative w inside.0 inside.1, sizes k small) in
      rw (low_part v low top) (elim (Bool-cases (ltb spec.bit_length 64)) [
        | inl narrow ↦
            let above : u64 (0xFFFF_FFFF_FFFF_FFFF <<< spec.bit_length)
                ≡ ones v low top * 2 ^ suc k =
              ap (λ (t : ℕ). u64 (0xFFFF_FFFF_FFFF_FFFF <<< t)) width
              ∙ omega (arith, all_ones v low top, sizes k small) in
            simp (narrow, on, above)
              (bit_or_high (suc k) w (ones v low top) inside.1 ∙ sym (whole v low top))
        | inr wide ↦
            let full : 2 ^ suc k ≡ 2 ^ 64 =
              ap (λ (t : ℕ). 2 ^ t) {x = suc k} {y = 64}
                (omega (arith, width, small, ltb→ge spec.bit_length 64 wide)) in
            simp wide (omega (arith, whole v low top, all_ones v low top, full))
      ])

  -- A number within the field, and below its reserved values.
  abbrev pub Fits : ℕ → Type 0
  Fits v =
      ((v < 2 ^ k)
        × ((spec.reserved_count ≡ 0)
            ⊎ ((v + spec.reserved_count < 2 ^ k) × (v ≤ spec.max_raw_value))))
      ⊎ ((2 ^ 64 - 2 ^ k ≤ v) × (v < 2 ^ 64) × (spec.reserved_count < 2 ^ k))

  signed_raw_lem : (v : ℕ) → spec.offset ≡ 0 → Fits v → signed_raw spec v ≡ v % 2 ^ suc k
  unfolding signed_raw
  signed_raw_lem v no_offset (inl (plain, allowed)) =
      ground (arith, mask_lem v, sign_bit_lem, sizes k small, no_offset, plain, allowed)
  signed_raw_lem v no_offset (inr (low, top, reserved)) =
      ground (arith, mask_lem v, sign_bit_lem, sizes k small, no_offset, low, top, reserved)

  Fits-IsSigned : (v : ℕ) → Fits v → IsSigned k v
  Fits-IsSigned v (inl (plain, allowed)) = inl plain
  Fits-IsSigned v (inr (low, top, reserved)) = inr (low, top)

  -- A number that is got is not taken for a reserved value.
  nullable :
      (v : ℕ) (s t : DataStream)
      → spec.is_signed ≡ true
      → 0 < spec.reserved_count
      → Fits v
      → get_number_raw spec.bit_length s ≡ ok (v % 2 ^ suc k) t
      → get_nullable_number_raw spec s ≡ ok (some (v % 2 ^ suc k)) t
  unfolding get_nullable_number_raw
  nullable v s t signed reserved (inl (plain, inl none_reserved)) got =
      absurd (omega (arith, reserved, none_reserved))
  nullable v s t signed reserved (inl (plain, inr (below, most))) got =
      let off : ltb 0 (bit_and v (sign_bit spec)) ≡ false = ground (arith, clear v plain) in
      let number : get_number_raw spec.bit_length s ≡ ok v t =
        got ∙ ap (λ (w : ℕ). ok w t) (in_field v plain) in
      let low : ltb spec.max_raw_value v ≡ false = ge→ltb spec.max_raw_value v most in
      rw (in_field v plain) (simp (number, signed, off, low) refl)
  nullable v s t signed reserved (inr (low, top, few)) got =
      let inside = high v low top in
      let on : ltb 0 (bit_and (part v low top) (sign_bit spec)) ≡ true =
        ground (arith, negative (part v low top) inside.0 inside.1, sizes k small) in
      let number : get_number_raw spec.bit_length s ≡ ok (part v low top) t =
        got ∙ ap (λ (w : ℕ). ok w t) (low_part v low top) in
      rw (low_part v low top) (simp (number, signed, on) refl)

  -- A signed field of 1 to 64 bits, without an offset, and a number in 64 bits of two's complement that fits it, with the largest
  -- numbers left to the reserved values: on a valid stream whose bytes lie within its capacity and are zero from the cursor on, with
  -- room, it is written without error, and reading it from there as a type of some width gives it back, cut to that width.
  pub read_raw-write_raw_signed :
      (type_width v : ℕ) (s : DataStream)
      → spec.is_signed ≡ true
      → spec.offset ≡ 0
      → Fits v
      → IsValid s
      → length s.bytes ≤ s.capacity
      → cursor s + spec.bit_length ≤ 8 * length s.bytes
      → le_value s.bytes < 2 ^ cursor s
      → (t : DataStream) × (write_raw spec (some v) s ≡ ok tt t)
        × (read_raw type_width spec (at_cursor t (cursor s)) ≡ ok (some (v % 2 ^ type_width)) t)
  unfolding write_raw read_raw get_signed_nullable_number
  read_raw-write_raw_signed type_width v s signed no_offset fits valid backed room empty =
      let w = v % 2 ^ suc k in
      let narrow : spec.bit_length ≤ 64 = omega (arith, width, small) in
      let (t, runs, got) = got_back w spec.bit_length s valid backed room empty narrow in
      let short : ltb 64 spec.bit_length ≡ false = ge→ltb 64 spec.bit_length narrow in
      let here : (spec.offset == 0) ≡ true = (==_iff spec.offset 0).1 no_offset in
      let number : get_number_raw spec.bit_length (at_cursor t (cursor s)) ≡ ok w t =
        got
        ∙ ap (λ (n : ℕ). ok (w % 2 ^ n) t) width
        ∙ ap (λ (n : ℕ). ok n t) (mod-eq_of_lt (mod-lt v (pow_pos (suc k)))) in
      let extended = sign_extend_lem v (Fits-IsSigned v fits) in
      (
        t,
        simp (signed, signed_raw_lem v no_offset fits) runs,
        elim (Bool-cases (spec.reserved_count == 0)) [
          | inl never ↦ simp (read_raw, short, signed, never, number, extended, here) refl
          | inr can ↦
              let held =
                nullable v (at_cursor t (cursor s)) t signed (ground (arith, can)) fits number in
              simp (read_raw, get_signed_nullable_number, short, signed, can, held, extended, here)
                refl
        ],
      )
