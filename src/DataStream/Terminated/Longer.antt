-- ===== src/DataStream/Terminated/Longer.antt =====
-- internal/pgn/writedatastream.go and readdatastream.go: what is read of a string that was written with its
-- length and a zero.
use n2k.Prelude.{
  ◌++◌, ge→ltb, gt→leb, lt→ltb, ℕ, zero, suc, ◌+◌, ◌-◌, ◌*◌, ◌/◌, ◌^◌, ◌≤◌, ◌<◌, ◌≡◌, ◌⊎◌, inl, inr,
  refl, sym, ap, subst, ◌∙◌, true, false, [], ◌∷◌, All, some, ◌==◌, ltb, leb, length, get_or, set,
  take, drop, replicate, u8, Bytes, arith, length-append, length-replicate, append_assoc,
}
use n2k.DataStream.{DataStream, ok, err, not_terminated}
use n2k.DataStream.Lau.{at, read_binary_data_lem}
use n2k.DataStream.Bytes.Lau.{drop-drop}
use n2k.DataStream.Bytes.Fixed.{
  HasRoom, written, drop-written, length-written, bit_offset-written, write_binary_lem,
}
use n2k.DataStream.Terminated.{
  put_runes, rune_width, field_bytes, write_string_with_length, content_bits, without_end,
  read_string_with_length,
}

abbrev pub IsAscii : ℕ → Type 0
IsAscii b = b < 0x80

abbrev zeros : ℕ → Bytes
zeros m = replicate {A = ℕ} m 0

one_byte : (b : ℕ) (bs : Bytes) → b < 0x80 → rune_width (b ∷ bs) ≡ 1
unfolding rune_width
one_byte b bs small = rw (lt→ltb b 0x80 small) refl

set-middle :
    (pre rest : Bytes) (b c : ℕ) → set (pre ++ (b ∷ rest)) (length pre) c ≡ pre ++ (c ∷ rest)
set-middle [] rest b c = refl
set-middle (x ∷ pre) rest b c = ap (λ (t : Bytes). x ∷ t) (set-middle pre rest b c)

-- The runes of one byte take their places.
put_runes_lem :
    (v pre : Bytes) (i m : ℕ)
    → All IsAscii v
    → length pre ≡ suc i
    → put_runes 0 i v (pre ++ zeros (length v + m)) ≡ some (pre ++ (v ++ zeros m))
unfolding put_runes
put_runes_lem [] pre i m ascii at_i = ap (λ (j : ℕ). some (pre ++ zeros j)) (omega arith)
put_runes_lem (b ∷ v) pre i m (small, ascii) at_i =
    let more : suc (length v) + m ≡ suc (length v + m) = omega arith in
    let inside : leb (length (pre ++ zeros (suc (length v + m)))) (suc i) ≡ false =
      gt→leb (length (pre ++ zeros (suc (length v + m)))) (suc i)
        (omega (arith, length-append pre (zeros (suc (length v + m))), at_i)) in
    let put : set (pre ++ zeros (suc (length v + m))) (suc i) b
        ≡ (pre ++ (b ∷ [])) ++ zeros (length v + m) =
      ap (λ (j : ℕ). set (pre ++ zeros (suc (length v + m))) j b) (sym at_i)
      ∙ set-middle pre (zeros (length v + m)) 0 b
      ∙ sym (append_assoc pre (b ∷ []) (zeros (length v + m))) in
    let later =
      put_runes_lem v (pre ++ (b ∷ [])) (suc i) m ascii
        (length-append pre (b ∷ []) ∙ omega (arith, at_i)) in
    rw (more, one_byte b v small)
      (simp (inside, put, later)
        (ap (λ (t : Bytes). some t) (append_assoc pre (b ∷ []) (v ++ zeros m))))

-- The bytes of a field: the length with its zero, the text and zeros.
filled : Bytes → ℕ → Bytes
filled v m = suc (length v) ∷ (v ++ zeros m)

field_lem :
    (v : Bytes) (m : ℕ)
    → All IsAscii v
    → field_bytes (suc (length v)) (suc (length v + m)) v ≡ some (filled v m)
unfolding filled
field_lem v m ascii =
    let there : (suc (length v + m) == 0) ≡ false = ground arith in
    simp there (put_runes_lem v (suc (length v) ∷ []) 0 m ascii refl)

length-filled : (v : Bytes) (m : ℕ) → length (filled v m) ≡ suc (length v + m)
unfolding filled
length-filled v m = omega (arith, length-append v (zeros m), length-replicate {A = ℕ} m 0)

write_lem :
    (v : Bytes) (m : ℕ) (s : DataStream) (offset : ℕ)
    → All IsAscii v
    → 0 < m
    → HasRoom s offset (length (filled v m))
    → write_string_with_length v (length (filled v m) * 8) offset s ≡ ok tt (written s (filled v m))
unfolding write_string_with_length
write_lem v m s offset ascii some_zero room =
    let full = length-filled v m in
    let size : u8 (u8 (length v) + 1) ≡ suc (length v) = omega (arith, room.in_payload, full) in
    let field : u8 (length (filled v m) * 8 / 8) ≡ suc (length v + m) =
      omega (arith, room.in_payload, full) in
    let fits : ltb (suc (length v + m)) (u8 (suc (length v) + 1)) ≡ false =
      ge→ltb (suc (length v + m)) (u8 (suc (length v) + 1))
        (omega (arith, room.in_payload, full, some_zero)) in
    simp (size, field, fits, field_lem v m ascii) (write_binary_lem (filled v m) s offset room)

content_two : (n m : ℕ) → n + m < 221 → content_bits (suc n) ((n + 3 + m) * 8) ≡ (n + 2) * 8
unfolding content_bits
content_two n m small = ground (arith, small)

content_one : (n : ℕ) → n < 222 → content_bits (suc n) ((n + 2) * 8) ≡ (n + 1) * 8
unfolding content_bits
content_one n small = ground (arith, small)

get-second : (v : Bytes) → get_or (v ++ (0 ∷ 0 ∷ [])) (suc (length v)) 0 ≡ 0
get-second [] = refl
get-second (b ∷ v) = get-second v

take-first : (v : Bytes) → take (suc (length v)) (v ++ (0 ∷ 0 ∷ [])) ≡ v ++ (0 ∷ [])
take-first [] = refl
take-first (b ∷ v) = ap (λ (t : Bytes). b ∷ t) (take-first v)

end_lem :
    (v : Bytes) (s : DataStream)
    → length v < 224
    → without_end (suc (length v)) (v ++ (0 ∷ 0 ∷ [])) s ≡ ok (v ++ (0 ∷ [])) s
unfolding without_end
end_lem v s small =
    let size = length-append v (0 ∷ 0 ∷ []) in
    let there : (length (v ++ (0 ∷ 0 ∷ [])) == 0) ≡ false = ground (arith, size) in
    let whole : ltb (length (v ++ (0 ∷ 0 ∷ []))) (u8 (suc (length v) + 1)) ≡ false =
      ge→ltb (length (v ++ (0 ∷ 0 ∷ []))) (u8 (suc (length v) + 1)) (omega (arith, size, small)) in
    simp (there, whole, get-second v, take-first v) refl

short_lem :
    (v : Bytes) (s : DataStream)
    → length v < 224
    → without_end (suc (length v)) (v ++ (0 ∷ [])) s ≡ err not_terminated s
unfolding without_end
short_lem v s small =
    let size = length-append v (0 ∷ []) in
    let there : (length (v ++ (0 ∷ [])) == 0) ≡ false = ground (arith, size) in
    let short : ltb (length (v ++ (0 ∷ []))) (u8 (suc (length v) + 1)) ≡ true =
      lt→ltb (length (v ++ (0 ∷ []))) (u8 (suc (length v) + 1)) (omega (arith, size, small)) in
    simp (there, short) refl

-- Reading at a place where the bytes of a field stand, of which the reader takes `bs`.
read_lem :
    (v bs rest : Bytes) (n : ℕ) (s : DataStream) (i : ℕ)
    → drop i s.bytes ≡ suc (length v) ∷ (bs ++ rest)
    → s.bit_offset ≡ 0
    → i + 1 + length bs ≤ length s.bytes
    → length s.bytes < 2 ^ 16
    → content_bits (suc (length v)) n ≡ length bs * 8
    → read_string_with_length n (at s i)
      ≡ without_end (suc (length v)) bs (at s (i + 1 + length bs))
unfolding read_string_with_length
read_lem v bs rest n s i here aligned room small content =
    let head =
      read_binary_data_lem s (suc (length v) ∷ []) (bs ++ rest) i 8 here aligned
        (omega (arith, room)) (omega (arith, room, small)) refl in
    let text =
      read_binary_data_lem s bs rest (i + 1) (content_bits (suc (length v)) n)
        (sym (drop-drop i 1 s.bytes) ∙ ap (λ (t : Bytes). drop 1 t) here) aligned room
        (omega (arith, room, small)) content in
    let there : (suc (length v) == 0) ≡ false = ground arith in simp (head, there, text) refl

-- What is read of a field of `k` bytes: the text with a zero more, or, where it fills the field, an error.
abbrev pub IsLonger : Bytes → ℕ → DataStream → Type 0
IsLonger v k s =
    ((length v + 3 ≤ k)
      × ((u : DataStream) × (read_string_with_length (k * 8) s ≡ ok (v ++ (0 ∷ [])) u)))
    ⊎ ((length v + 2 ≡ k)
        × ((u : DataStream) × (read_string_with_length (k * 8) s ≡ err not_terminated u)))

split_one : (v rest : Bytes) → filled v 1 ++ rest ≡ suc (length v) ∷ ((v ++ (0 ∷ [])) ++ rest)
unfolding filled
split_one v rest = refl

split_two :
    (v : Bytes) (m : ℕ) (rest : Bytes)
    → filled v (suc (suc m)) ++ rest ≡ suc (length v) ∷ ((v ++ (0 ∷ 0 ∷ [])) ++ (zeros m ++ rest))
unfolding filled
split_two v m rest =
    ap (λ (t : Bytes). suc (length v) ∷ t)
      (append_assoc v (0 ∷ 0 ∷ zeros m) rest ∙ sym (append_assoc v (0 ∷ 0 ∷ []) (zeros m ++ rest)))

longer :
    (v : Bytes) (m : ℕ) (s : DataStream) (offset : ℕ)
    → HasRoom s offset (length (filled v (suc m)))
    → IsLonger v (length (filled v (suc m))) (at (written s (filled v (suc m))) s.byte_offset)
longer v zero s offset room =
    let f = filled v 1 in
    let full = length-filled v 1 in
    let t = written s f in
    let bs = v ++ (0 ∷ []) in
    let size = length-append v (0 ∷ []) in
    let rest = drop (length f) (drop s.byte_offset s.bytes) in
    let n : length f ≡ length v + 2 = omega (arith, full) in
    let content : content_bits (suc (length v)) (length f * 8) ≡ length bs * 8 =
      ap (λ (k : ℕ). content_bits (suc (length v)) (k * 8)) n
      ∙ content_one (length v) (omega (arith, room.in_payload, full))
      ∙ omega (arith, size) in
    let got =
      read_lem v bs rest (length f * 8) t s.byte_offset
        (drop-written f s offset room ∙ split_one v rest) (bit_offset-written f s offset room)
        (omega (arith, size, full, room.in_stream, length-written f s offset room))
        (omega (arith, room.short, length-written f s offset room)) content in
    inr (sym n, (_, got ∙ short_lem v _ (omega (arith, room.in_payload, full))))
longer v (suc m) s offset room =
    let f = filled v (suc (suc m)) in
    let full = length-filled v (suc (suc m)) in
    let t = written s f in
    let bs = v ++ (0 ∷ 0 ∷ []) in
    let size = length-append v (0 ∷ 0 ∷ []) in
    let rest = drop (length f) (drop s.byte_offset s.bytes) in
    let n : length f ≡ length v + 3 + m = omega (arith, full) in
    let content : content_bits (suc (length v)) (length f * 8) ≡ length bs * 8 =
      ap (λ (k : ℕ). content_bits (suc (length v)) (k * 8)) n
      ∙ content_two (length v) m (omega (arith, room.in_payload, full))
      ∙ omega (arith, size) in
    let got =
      read_lem v bs (zeros m ++ rest) (length f * 8) t s.byte_offset
        (drop-written f s offset room ∙ split_two v m rest) (bit_offset-written f s offset room)
        (omega (arith, size, full, room.in_stream, length-written f s offset room))
        (omega (arith, room.short, length-written f s offset room)) content in
    inl (omega (arith, n), (_, got ∙ end_lem v _ (omega (arith, room.in_payload, full))))

-- A text of bytes below 0x80 in a field of `k` bytes, two more than the text at least, on an aligned stream of
-- less than 2 ^ 16 bytes with room for it, at no offset or the cursor's, within the 223 bytes of a payload: it is
-- written without error, but reading the field from there gives the text with a zero byte more, or, where the
-- field has just two bytes more than the text, the error of a string that is not terminated.
pub read_string_with_length-write_string_with_length :
    (v : Bytes) (k : ℕ) (s : DataStream) (offset : ℕ)
    → All IsAscii v
    → length v + 2 ≤ k
    → HasRoom s offset k
    → (t : DataStream) × (write_string_with_length v (k * 8) offset s ≡ ok tt t)
      × IsLonger v k (at t s.byte_offset)
read_string_with_length-write_string_with_length v k s offset ascii fits room =
    let m = k - length v - 2 in
    let full : length (filled v (suc m)) ≡ k = length-filled v (suc m) ∙ omega (arith, fits) in
    let room' : HasRoom s offset (length (filled v (suc m))) =
      subst (HasRoom s offset) (sym full) room in
    (
      written s (filled v (suc m)),
      ap (λ (n : ℕ). write_string_with_length v (n * 8) offset s) (sym full)
          ∙ write_lem v (suc m) s offset ascii (omega arith) room',
      subst (λ n. IsLonger v n (at (written s (filled v (suc m))) s.byte_offset)) full
          (longer v m s offset room'),
    )
