-- ===== src/DataStream/Bytes/Lau.antt =====
-- internal/pgn/writedatastream.go and readdatastream.go: a STRING_LAU that is written and read.
use n2k.Prelude.{
  ◌++◌, ◌-◌, gt→leb, ℕ, zero, suc, ◌+◌, ◌*◌, ◌^◌, ◌≤◌, ◌<◌, ◌≡◌, refl, sym, ap, subst, ◌∙◌, ◌==◌,
  false, List, [], ◌∷◌, leb, length, drop, u8, u16, Bytes, arith,
}
use n2k.DataStream.{DataStream, ok}
use n2k.DataStream.Binary.{trim_ascii_terminator, read_string_lau}
use n2k.DataStream.Lau.{at, read_binary_data_lem}
use n2k.DataStream.Bytes.{write_string_lau}
use n2k.DataStream.Bytes.Fixed.{
  HasRoom, written, drop-written, length-written, bit_offset-written, write_binary_lem,
}

-- The bytes of a field.
lau : Bytes → Bytes
lau v = u8 (length v + 2) ∷ 1 ∷ v

room_lau :
    (v : Bytes) (s : DataStream) (offset : ℕ)
    → HasRoom s offset (length v + 2)
    → HasRoom s offset (length (lau v))
unfolding lau
room_lau v s offset room = subst (HasRoom s offset) (omega arith) room

drop_empty : (n : ℕ) → drop {A = ℕ} n [] ≡ []
drop_empty zero = refl
drop_empty (suc n) = refl

pub drop-drop : (i n : ℕ) (xs : Bytes) → drop n (drop i xs) ≡ drop (i + n) xs
drop-drop zero n xs = ap (λ (j : ℕ). drop j xs) (omega arith)
drop-drop (suc i) n [] = drop_empty n ∙ sym (drop_empty (suc i + n))
drop-drop (suc i) n (x ∷ xs) =
    drop-drop i n xs ∙ ap (λ (j : ℕ). drop j (x ∷ xs)) {x = suc (i + n)} (omega arith)

write_lau :
    (v : Bytes) (s : DataStream) (offset : ℕ)
    → HasRoom s offset (length v + 2)
    → write_string_lau v offset s ≡ ok tt (written s (lau v))
unfolding write_string_lau lau
write_lau [] s offset room = write_binary_lem (2 ∷ 1 ∷ []) s offset room
write_lau (x ∷ xs) s offset room =
    let v = x ∷ xs in
    let width : u16 (length (lau v) * 8) ≡ length (lau v) * 8 = omega (arith, room.in_payload) in
    let full : (length v == 0) ≡ false = ground arith in
    simp (full, width) (write_binary_lem (lau v) s offset (room_lau v s offset room))

-- What is read at a place where the bytes of a field stand.
read_lau :
    (utf16 : List ℕ → Bytes) (v rest : Bytes) (s : DataStream) (i : ℕ)
    → drop i s.bytes ≡ lau v ++ rest
    → s.bit_offset ≡ 0
    → i + length (lau v) ≤ length s.bytes
    → length s.bytes < 2 ^ 16
    → length v ≤ 253
    → (t : DataStream) × (read_string_lau utf16 (at s i) ≡ ok (trim_ascii_terminator v) t)
unfolding read_string_lau lau
read_lau utf16 [] rest s i here aligned room small short =
    let header =
      read_binary_data_lem s (2 ∷ 1 ∷ []) rest i 16 here aligned room (omega (arith, room, small))
        refl in
    (at s (i + 2), simp header refl)
read_lau utf16 (x ∷ xs) rest s i here aligned room small short =
    let v = x ∷ xs in
    let header =
      read_binary_data_lem s (u8 (length v + 2) ∷ 1 ∷ []) (v ++ rest) i 16 here aligned
        (omega (arith, room)) (omega (arith, room, small)) refl in
    let text =
      read_binary_data_lem s v rest (i + 2) (u16 ((u8 (length v + 2) - 2) * 8))
        (sym (drop-drop i 2 s.bytes) ∙ ap (λ (t : Bytes). drop 2 t) here) aligned
        (omega (arith, room)) (omega (arith, room, small)) (omega (arith, short)) in
    let there : leb (u8 (length v + 2)) 2 ≡ false =
      gt→leb (u8 (length v + 2)) 2 (omega (arith, short)) in
    (at s (i + 2 + length v), simp (header, there, text) refl)

-- A string of at most 221 bytes, on an aligned stream of less than 2 ^ 16 bytes with room for it and the two bytes before it, at no
-- offset or the cursor's, within the 223 bytes of a payload: it is written without error, and reading it from there gives
-- it back, without a zero byte at its end.
pub read_string_lau-write_string_lau :
    (utf16 : List ℕ → Bytes) (v : Bytes) (s : DataStream) (offset : ℕ)
    → HasRoom s offset (length v + 2)
    → (t : DataStream) × (write_string_lau v offset s ≡ ok tt t)
      × ((u : DataStream) × (read_string_lau utf16 (at t s.byte_offset)
            ≡ ok (trim_ascii_terminator v) u))
read_string_lau-write_string_lau utf16 v s offset room =
    let room' : HasRoom s offset (length (lau v)) = room_lau v s offset room in
    (
      written s (lau v),
      write_lau v s offset room,
      read_lau utf16 v (drop (length (lau v)) (drop s.byte_offset s.bytes)) (written s (lau v))
          s.byte_offset (drop-written (lau v) s offset room')
          (bit_offset-written (lau v) s offset room')
          (omega (arith, room'.in_stream, length-written (lau v) s offset room'))
          (omega (arith, room.short, length-written (lau v) s offset room'))
          (omega (arith, room.in_payload)),
    )
