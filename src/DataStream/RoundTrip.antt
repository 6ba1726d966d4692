-- ===== src/DataStream/RoundTrip.antt =====
-- internal/pgn/readdatastream.go and writedatastream.go: the fields of a group, written one after the
-- other by `putNumberRaw` as the encoders do, and read back by `getNumberRaw`.
use n2k.Prelude.{
  ℕ, zero, suc, ◌+◌, ◌*◌, ◌/◌, ◌%◌, ◌^◌, ◌≤◌, ◌<◌, ◌≡◌, refl, sym, ap, ◌∙◌, List, [], ◌∷◌, All,
  arith, length, length-replicate, replicate, ==_refl, map, le→leb, u16,
}
use n2k.Prelude.Pow.{pow_add, pow_pos, div_div, mod_split}
use native.Mathlib.Nat.{mod-lt, mod-eq_of_lt, add-mul-mod_self_left, add-mul-div_left, div-eq_of_lt}
use n2k.DataStream.{
  DataStream, Outcome, ok, err, panic, endless, new_data_stream, reset_to_start, get_bit_offset,
  put_number_raw, get_number_raw,
}
use n2k.DataStream.Value.{IsByte, le_value}
use n2k.DataStream.Cursor.{at_cursor}
use n2k.DataStream.Get.{get_number_raw_lem}
use n2k.DataStream.Put.{Wrote, field-lt, put_number_raw_lem}

-- A field: its width in bits, and a value.
pub record Field : Type 0 where
  pub bits : ℕ
  pub value : ℕ

abbrev and_then {ℓ κ} :
    {A : Type ℓ} {B : Type κ} → Outcome A → (A → DataStream → Outcome B) → Outcome B
and_then (ok x s) next = next x s
and_then (err e s) next = err e s
and_then panic next = panic
and_then endless next = endless

-- The fields, each written at the offset behind those before it, that is a uint16.
unfoldable pub put_fields : ℕ → List Field → DataStream → Outcome (Unit {0})
put_fields offset [] s = ok tt s
put_fields offset (f ∷ fs) s =
    and_then (put_number_raw f.value f.bits (u16 offset) s)
      (λ _ s'. put_fields (offset + f.bits) fs s')

-- The fields of the widths given.
unfoldable pub get_fields : List Field → DataStream → Outcome (List ℕ)
get_fields [] s = ok [] s
get_fields (f ∷ fs) s =
    and_then (get_number_raw f.bits s)
      (λ x s'. and_then (get_fields fs s') (λ xs s''. ok (x ∷ xs) s''))

-- What a field keeps of its value.
abbrev pub kept : Field → ℕ
kept f = f.value % 2 ^ f.bits

abbrev pub total : List Field → ℕ
total [] = 0
total (f ∷ fs) = f.bits + total fs

packed : List Field → ℕ
packed [] = 0
packed (f ∷ fs) = kept f + 2 ^ f.bits * packed fs

pub two_digits : (a b m : ℕ) → a < m → ((a + m * b) % m ≡ a) × ((a + m * b) / m ≡ b)
two_digits a b m h = (
  add-mul-mod_self_left a m b ∙ mod-eq_of_lt h,
  add-mul-div_left a b (omega arith) ∙ omega (arith, div-eq_of_lt h),
)

-- What the first field and those behind it occupy of a number that is packed.
unpack :
    (v p n rest k : ℕ)
    → k < 2 ^ n
    → v % 2 ^ (n + rest) ≡ k + 2 ^ n * p
    → (v % 2 ^ n ≡ k) × (v / 2 ^ n % 2 ^ rest ≡ p)
unpack v p n rest k h e =
    let whole = sym (mod_split v n rest) ∙ e in
    let mine = two_digits (v % 2 ^ n) (v / 2 ^ n % 2 ^ rest) (2 ^ n) (mod-lt v (pow_pos n)) in
    let its = two_digits k p (2 ^ n) h in
    (
      sym mine.0 ∙ ap (λ (t : ℕ). t % 2 ^ n) whole ∙ its.0,
      sym mine.1 ∙ ap (λ (t : ℕ). t / 2 ^ n) whole ∙ its.1,
    )

pub get_number_raw_at :
    (s : DataStream) (q n : ℕ)
    → All IsByte s.bytes
    → length s.bytes < 2 ^ 16
    → n ≤ 64
    → q + n ≤ 8 * length s.bytes
    → get_number_raw n (at_cursor s q) ≡ ok (le_value s.bytes / 2 ^ q % 2 ^ n) (at_cursor s (q + n))
get_number_raw_at s q n all short narrow room =
    let here : 8 * (q / 8) + q % 8 ≡ q = omega arith in
    get_number_raw_lem n (at_cursor s q)
      (record { all_bytes = all; short = short; within = omega arith }) narrow
    ∙ rw (here, le→leb (q + n) (8 * length s.bytes) room)

get_fields_lem :
    (fs : List Field) (q : ℕ) (s : DataStream)
    → All IsByte s.bytes
    → length s.bytes < 2 ^ 16
    → All (λ (f : Field). f.bits ≤ 64) fs
    → q + total fs ≤ 8 * length s.bytes
    → le_value s.bytes / 2 ^ q % 2 ^ total fs ≡ packed fs
    → get_fields fs (at_cursor s q) ≡ ok (map kept fs) (at_cursor s (q + total fs))
unfolding get_fields packed
get_fields_lem [] q s all short widths room same = ap (λ t. ok [] (at_cursor s t)) (omega arith)
get_fields_lem (f ∷ fs) q s all short (narrow, widths) room same =
    let (first, others) =
      unpack (le_value s.bytes / 2 ^ q) (packed fs) f.bits (total fs) (kept f)
        (mod-lt f.value (pow_pos f.bits)) same in
    let rest =
      get_fields_lem fs (q + f.bits) s all short widths (omega arith)
        (ap (λ (t : ℕ). t % 2 ^ total fs) (sym (div_div (le_value s.bytes) q f.bits)) ∙ others) in
    rw (get_number_raw_at s q f.bits all short narrow (omega arith), first, rest)
      (ap (λ (t : ℕ). ok (map kept (f ∷ fs)) (at_cursor s t)) (omega arith))

put_number_raw_at :
    (value n q : ℕ) (s : DataStream)
    → All IsByte s.bytes
    → length s.bytes < 2 ^ 16
    → length s.bytes ≤ s.capacity
    → q + n ≤ 8 * length s.bytes
    → q < 2 ^ 16
    → le_value s.bytes < 2 ^ q
    → (t : DataStream) × (put_number_raw value n (u16 q) (at_cursor s q)
        ≡ ok tt (at_cursor t (q + n)))
      × Wrote s t (le_value s.bytes + value % 2 ^ n * 2 ^ q) (q + n)
put_number_raw_at value n q s all short backed room few empty =
    let offset : u16 q ≡ q = omega arith in
    let here : 8 * (q / 8) + q % 8 ≡ q = omega arith in
    let placed : get_bit_offset (at_cursor s q) ≡ q = omega arith in
    let (t, runs, wrote) =
      put_number_raw_lem value n q (at_cursor s q)
        (record { all_bytes = all; short = short; within = omega arith }) backed (omega arith)
        (rw here empty) (rw (placed, ==_refl q) refl) in
    let moved : t ≡ at_cursor t (q + n) = wrote.moved ∙ ap (at_cursor t) (omega arith) in
    (
      t,
      ap (λ (o : ℕ). put_number_raw value n o (at_cursor s q)) offset ∙ runs ∙ ap (ok tt) moved,
      record {
        all_bytes = wrote.all_bytes;
        same_length = wrote.same_length;
        same_capacity = wrote.same_capacity;
        value = wrote.value ∙ ap (λ (t : ℕ). le_value s.bytes + value % 2 ^ n * 2 ^ t) here;
        moved = moved;
      },
    )

put_fields_lem :
    (fs : List Field) (q : ℕ) (s : DataStream)
    → All IsByte s.bytes
    → length s.bytes < 2 ^ 16
    → length s.bytes ≤ s.capacity
    → q + total fs ≤ 8 * length s.bytes
    → q + total fs < 2 ^ 16
    → le_value s.bytes < 2 ^ q
    → (t : DataStream) × (put_fields q fs (at_cursor s q) ≡ ok tt t)
      × Wrote s t (le_value s.bytes + packed fs * 2 ^ q) (q + total fs)
unfolding put_fields packed
put_fields_lem [] q s all short backed room few empty = (
  at_cursor s q,
  refl,
  record {
    all_bytes = all;
    same_length = refl;
    same_capacity = refl;
    value = omega arith;
    moved = ap (at_cursor s) {y = q + 0} (omega arith);
  },
)
put_fields_lem (f ∷ fs) q s all short backed room few empty =
    let (s₁, wrote₁, first) =
      put_number_raw_at f.value f.bits q s all short backed (omega arith) (omega arith) empty in
    let (t, wrote, rest) =
      put_fields_lem fs (q + f.bits) s₁ first.all_bytes (omega (arith, first.same_length))
        (omega (arith, first.same_length, first.same_capacity)) (omega (arith, first.same_length))
        (omega arith)
        (omega (
          arith,
          first.value,
          field-lt (le_value s.bytes) (kept f) q f.bits empty (mod-lt f.value (pow_pos f.bits)),
        )) in
    (
      t,
      rw wrote₁ wrote,
      record {
        all_bytes = rest.all_bytes;
        same_length = rest.same_length ∙ first.same_length;
        same_capacity = rest.same_capacity ∙ first.same_capacity;
        value =
            rest.value
            ∙ omega (arith, first.value, ap (λ (t : ℕ). packed fs * t) (pow_add q f.bits));
        moved = rest.moved ∙ ap (at_cursor t) (omega arith);
      },
    )

-- The bytes of a stream that nothing is written to, as `Publisher.Write` allocates them.
abbrev pub blank : ℕ → DataStream
blank size = new_data_stream (replicate size 0)

blank-All : (size : ℕ) → All IsByte (replicate size 0)
blank-All zero = tt
blank-All (suc size) = (omega arith, blank-All size)

blank-le_value : (size : ℕ) → le_value (replicate size 0) ≡ 0
blank-le_value zero = refl
blank-le_value (suc size) = omega (arith, blank-le_value size)

packed-lt : (fs : List Field) → packed fs < 2 ^ total fs
unfolding packed
packed-lt [] = omega arith
packed-lt (f ∷ fs) = omega (
  arith,
  field-lt (kept f) (packed fs) f.bits (total fs) (mod-lt f.value (pow_pos f.bits)) (packed-lt fs),
)

-- Fields of at most 64 bits each and of less than 2 ^ 16 bits in all, written one after the other into a blank
-- stream of less than 2 ^ 16 bytes that has room for them: no write fails, and reading the widths from the
-- start returns each field's value modulo two to its width, and leaves the cursor behind the last.
pub get_fields-put_fields :
    (fs : List Field) (size : ℕ)
    → size < 2 ^ 16
    → All (λ (f : Field). f.bits ≤ 64) fs
    → total fs ≤ 8 * size
    → total fs < 2 ^ 16
    → (t : DataStream) × (put_fields 0 fs (blank size) ≡ ok tt t)
      × (get_fields fs (reset_to_start t) ≡ ok (map kept fs) t)
unfolding reset_to_start
get_fields-put_fields fs size short widths room few =
    let same = length-replicate {A = ℕ} size 0 in
    let empty = blank-le_value size in
    let (t, puts, wrote) =
      put_fields_lem fs 0 (blank size) (blank-All size) (omega (arith, same)) (omega arith)
        (omega (arith, same)) (omega arith) (omega (arith, empty)) in
    let value : le_value t.bytes / 2 ^ 0 % 2 ^ total fs ≡ packed fs =
      ap (λ (v : ℕ). v / 2 ^ 0 % 2 ^ total fs) {y = packed fs} (omega (arith, wrote.value, empty))
      ∙ ap (λ (v : ℕ). v % 2 ^ total fs) {x = packed fs / 2 ^ 0} {y = packed fs} (omega arith)
      ∙ mod-eq_of_lt (packed-lt fs) in
    (
      t,
      puts,
      get_fields_lem fs 0 t wrote.all_bytes (omega (arith, same, wrote.same_length)) widths
            (omega (arith, same, wrote.same_length)) value
          ∙ ap (ok (map kept fs)) (sym wrote.moved),
    )
