-- ===== src/DataStream/Bytes/Fixed.antt =====
-- internal/pgn/writedatastream.go and readdatastream.go: byte fields and strings that are written and read.
use n2k.Prelude.{
  ◌++◌, ge→ltb, ==_iff, ℕ, zero, suc, ◌+◌, ◌-◌, ◌*◌, ◌/◌, ◌%◌, ◌^◌, ◌≤◌, ◌<◌, ◌≡◌, ◌⊎◌, inl, inr,
  refl, sym, ap, subst, append-nil, ◌∙◌, false, Bool-cases, [], ◌∷◌, All, ◌==◌, ltb, leb, ◌&&◌, not,
  length, set, drop, replicate, u16, Bytes, arith, gt→leb, length-set, length-drop, length-append,
  length-replicate,
}
use n2k.DataStream.{DataStream, ok, get_bit_offset}
use n2k.DataStream.Binary.{read_binary_data}
use n2k.DataStream.Lau.{at, read_binary_data_lem}
use n2k.DataStream.Bytes.{
  write_bytes, write_count, write_binary, write_string_fix, before, read_fixed_string, bytes_left,
  wanted_bytes,
}

-- The bytes with others in place of those from the `i`th on.
abbrev splice : ℕ → Bytes → Bytes → Bytes
splice zero vs bs = vs ++ drop (length vs) bs
splice (suc i) vs [] = []
splice (suc i) vs (b ∷ bs) = b ∷ splice i vs bs

splice-nil : (i : ℕ) (bs : Bytes) → splice i [] bs ≡ bs
splice-nil zero bs = refl
splice-nil (suc i) [] = refl
splice-nil (suc i) (b ∷ bs) = ap (λ (t : Bytes). b ∷ t) (splice-nil i bs)

splice-set :
    (i v : ℕ) (vs bs : Bytes)
    → i < length bs
    → splice (suc i) vs (set bs i v) ≡ splice i (v ∷ vs) bs
splice-set i v vs [] h = absurd (omega (arith, h))
splice-set zero v vs (b ∷ bs) h = refl
splice-set (suc i) v vs (b ∷ bs) h =
    ap (λ (t : Bytes). b ∷ t) (splice-set i v vs bs (omega (arith, h)))

drop-splice :
    (i : ℕ) (vs bs : Bytes)
    → i ≤ length bs
    → drop i (splice i vs bs) ≡ vs ++ drop (length vs) (drop i bs)
drop-splice zero vs bs h = refl
drop-splice (suc i) vs [] h = absurd (omega (arith, h))
drop-splice (suc i) vs (b ∷ bs) h = drop-splice i vs bs (omega (arith, h))

-- The loop writes the bytes that it is given, where they have room.
write_bytes_lem :
    (vs : Bytes) (s : DataStream) (i : ℕ)
    → i + length vs ≤ length s.bytes
    → i + length vs < 2 ^ 16
    → write_bytes (length vs) vs (at s i)
      ≡ ok tt (at (record s { bytes = splice i vs s.bytes }) (i + length vs))
unfolding write_bytes
write_bytes_lem [] s i room small =
    ap (λ (b : Bytes). ok tt (at (record s { bytes = b }) i)) (sym (splice-nil i s.bytes))
    ∙ ap (λ (j : ℕ). ok tt (at (record s { bytes = splice i [] s.bytes }) j)) (omega arith)
write_bytes_lem (v ∷ vs) s i room small =
    let s' : DataStream = record s { bytes = set s.bytes i v } in
    let next : u16 (i + 1) ≡ suc i = omega (arith, small) in
    let inside : leb (length s.bytes) i ≡ false = gt→leb (length s.bytes) i (omega (arith, room)) in
    let later =
      write_bytes_lem vs s' (suc i) (omega (arith, room, length-set s.bytes i v))
        (omega (arith, small)) in
    let end : suc i + length vs ≡ i + suc (length vs) = omega arith in
    let same = splice-set i v vs s.bytes (omega (arith, room)) in
    rw (inside, next, later, end, same) refl

length-splice :
    (i : ℕ) (vs bs : Bytes) → i + length vs ≤ length bs → length (splice i vs bs) ≡ length bs
length-splice zero vs bs h =
    length-append vs (drop (length vs) bs) ∙ omega (arith, h, length-drop (length vs) bs)
length-splice (suc i) vs [] h = refl
length-splice (suc i) vs (b ∷ bs) h = ap suc (length-splice i vs bs (omega (arith, h)))

-- The offset that a field is written at: 0 where it is not known, or the cursor's.
abbrev pub IsOffset : ℕ → DataStream → Type 0
IsOffset offset s = (offset ≡ 0) ⊎ (offset ≡ get_bit_offset s)

-- A stream that takes `n` bytes at its cursor, for a field at an offset.
pub record HasRoom (s : DataStream) (offset n : ℕ) : Type 0 where
  pub aligned : s.bit_offset ≡ 0
  pub at_offset : IsOffset offset s
  pub in_payload : offset / 8 + n ≤ 223
  pub in_stream : s.byte_offset + n ≤ length s.bytes
  pub short : length s.bytes < 2 ^ 16

pub written : DataStream → Bytes → DataStream
written s vs = at (record s { bytes = splice s.byte_offset vs s.bytes }) (s.byte_offset + length vs)

write_count_lem :
    (value : Bytes) (s : DataStream) (offset : ℕ)
    → HasRoom s offset (length value)
    → write_count value (length value * 8) (length value) s ≡ ok tt (written s value)
unfolding write_count written
write_count_lem value s offset room =
    let k = length value in
    let enough : ltb (u16 k) k ≡ false = ge→ltb (u16 k) k (omega (arith, room.in_payload)) in
    let whole : k * 8 % 8 ≡ 0 = omega arith in
    let wrote =
      write_bytes_lem value s s.byte_offset room.in_stream
        (omega (arith, room.in_stream, room.short)) in
    elim (Bool-cases (k * 8 == 0)) [
      | inl z ↦ simp (enough, z, whole, (==_iff s.bit_offset 0).1 room.aligned, wrote) refl
      | inr z ↦ simp (enough, z, whole, (==_iff s.bit_offset 0).1 room.aligned, wrote) refl
    ]

at_offset-guard :
    (s : DataStream) (offset : ℕ)
    → IsOffset offset s
    → (not (get_bit_offset s == offset) && not (offset == 0)) ≡ false
at_offset-guard s offset (inl zero_offset) = ground (arith, zero_offset)
at_offset-guard s offset (inr here) = ground (arith, here)

wanted_lem :
    (value : Bytes) → length value ≤ 223 → wanted_bytes value (length value * 8) ≡ length value
wanted_lem value short = ground (arith, short)

-- A value that fills its field of whole bytes is put in place of the bytes at the cursor.
pub write_binary_lem :
    (value : Bytes) (s : DataStream) (offset : ℕ)
    → HasRoom s offset (length value)
    → write_binary value (length value * 8) offset s ≡ ok tt (written s value)
unfolding write_binary
write_binary_lem value s offset room =
    let wanted = wanted_lem value (omega (arith, room.in_payload)) in
    let fits : ltb (bytes_left offset) (length value) ≡ false =
      ge→ltb (bytes_left offset) (length value) (omega (arith, room.in_payload)) in
    simp
      (at_offset-guard s offset room.at_offset, fits, wanted, write_count_lem value s offset room)
      refl

module _ (value : Bytes) (s : DataStream) (offset : ℕ)
    (room : HasRoom s offset (length value)) where
  pub drop-written :
      drop s.byte_offset (written s value).bytes
      ≡ value ++ drop (length value) (drop s.byte_offset s.bytes)
  unfolding written
  drop-written = drop-splice s.byte_offset value s.bytes (omega (arith, room.in_stream))

  pub length-written : length (written s value).bytes ≡ length s.bytes
  unfolding written
  length-written = length-splice s.byte_offset value s.bytes room.in_stream

  pub bit_offset-written : (written s value).bit_offset ≡ 0
  unfolding written
  bit_offset-written = room.aligned

  back : at (written s value) (s.byte_offset + length value) ≡ written s value
  unfolding written
  back = refl

  -- Reading from where the value was written gives it back.
  read_binary_data-written :
      read_binary_data (length value * 8) (at (written s value) s.byte_offset)
      ≡ ok value (written s value)
  read_binary_data-written =
      read_binary_data_lem (written s value) value
        (drop (length value) (drop s.byte_offset s.bytes)) s.byte_offset (length value * 8)
        drop-written bit_offset-written (omega (arith, room.in_stream, length-written))
        (omega (arith, room.in_stream, room.short)) refl
      ∙ ap (λ (t : DataStream). ok value t) back

-- `before` on a string that is padded.
before-keeps :
    (x : ℕ) (v w : Bytes) → All (λ b. (b == x) ≡ false) v → before x (v ++ w) ≡ v ++ before x w
unfolding before
before-keeps x [] w plain = refl
before-keeps x (b ∷ v) w (here, plain) = rw (here, before-keeps x v w plain) refl

-- No byte that ends a fixed string: 0, 0xFF or "@".
abbrev pub IsPlain : ℕ → Type 0
IsPlain b = ((b == 0) ≡ false) × ((b == 0xFF) ≡ false) × ((b == 0x40) ≡ false)

All-parts :
    (v : Bytes)
    → All IsPlain v
    → All (λ b. (b == 0) ≡ false) v
      × All (λ b. (b == 0xFF) ≡ false) v
      × All (λ b. (b == 0x40) ≡ false) v
All-parts [] plain = (tt, tt, tt)
All-parts (b ∷ v) ((z, f, m), plain) =
    let (zs, fs, ms) = All-parts v plain in ((z, zs), (f, fs), (m, ms))

before-pad : (m : ℕ) → before 0 (replicate {A = ℕ} m 0xFF) ≡ replicate {A = ℕ} m 0xFF
unfolding before
before-pad zero = refl
before-pad (suc m) = ap (λ (t : Bytes). 0xFF ∷ t) (before-pad m)

before-pad_end : (m : ℕ) → before 0xFF (replicate {A = ℕ} m 0xFF) ≡ []
unfolding before
before-pad_end zero = refl
before-pad_end (suc m) = refl

before-nil : before 0x40 [] ≡ []
unfolding before
before-nil = refl

cut_padding :
    (v : Bytes) (m : ℕ)
    → All IsPlain v
    → before 0x40 (before 0xFF (before 0 (v ++ replicate {A = ℕ} m 0xFF))) ≡ v
cut_padding v m plain =
    let (zs, fs, ms) = All-parts v plain in
    ap (λ (t : Bytes). before 0x40 (before 0xFF t))
      (before-keeps 0 v (replicate m 0xFF) zs ∙ ap (λ (t : Bytes). v ++ t) (before-pad m))
    ∙ ap (λ (t : Bytes). before 0x40 t)
        (before-keeps 0xFF v (replicate m 0xFF) fs ∙ ap (λ (t : Bytes). v ++ t) (before-pad_end m))
    ∙ before-keeps 0x40 v [] ms
    ∙ ap (λ (t : Bytes). v ++ t) before-nil
    ∙ append-nil v

-- A string without the bytes 0, 0xFF and "@", of at most the `k` bytes of its field, on an aligned stream of less than 2 ^ 16 bytes
-- with room for them, at no offset or the cursor's, within the 223 bytes of a payload: it is written without error, and
-- reading the field from there gives it back.
pub read_fixed_string-write_string_fix :
    (v : Bytes) (k : ℕ) (s : DataStream) (offset : ℕ)
    → All IsPlain v
    → length v ≤ k
    → HasRoom s offset k
    → (t : DataStream) × (write_string_fix v (k * 8) offset s ≡ ok tt t)
      × (read_fixed_string (k * 8) (at t s.byte_offset) ≡ ok v t)
unfolding write_string_fix read_fixed_string
read_fixed_string-write_string_fix v k s offset plain fits room =
    let pad = replicate {A = ℕ} (k * 8 / 8 - length v) 0xFF in
    let full : length (v ++ pad) ≡ k =
      length-append v pad
      ∙ omega (arith, fits, length-replicate {A = ℕ} (k * 8 / 8 - length v) 0xFF) in
    let room' : HasRoom s offset (length (v ++ pad)) = subst (HasRoom s offset) (sym full) room in
    (
      written s (v ++ pad),
      ap (λ (n : ℕ). write_binary (v ++ pad) (n * 8) offset s) (sym full)
          ∙ write_binary_lem (v ++ pad) s offset room',
      simp
          (ap (λ (n : ℕ). read_binary_data (n * 8) (at (written s (v ++ pad)) s.byte_offset))
              (sym full)
            ∙ read_binary_data-written (v ++ pad) s offset room')
          (ap (λ (b : Bytes). ok b (written s (v ++ pad)))
            (cut_padding v (k * 8 / 8 - length v) plain)),
    )
