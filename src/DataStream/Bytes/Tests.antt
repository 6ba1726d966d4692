-- ===== src/DataStream/Bytes/Tests.antt =====
-- internal/pgn/writedatastream.go and readdatastream.go, strings on concrete streams.
use n2k.Prelude.{ℕ, ◌≡◌, refl, inr, List, [], ◌∷◌, Bytes, arith}
use n2k.DataStream.{DataStream, ok, panic}
use n2k.DataStream.Binary.{read_string_lau}
use n2k.DataStream.Lau.{at}
use n2k.DataStream.Bytes.{
  write_count, write_bytes, write_binary, write_string_fix, read_fixed_string, write_string_lau,
}
use n2k.DataStream.Bytes.Fixed.{HasRoom, read_fixed_string-write_string_fix}
use n2k.DataStream.Bytes.Lau.{read_string_lau-write_string_lau}

-- Six bytes, with the first written.
abbrev six_bytes : DataStream
six_bytes = record {
  bytes = 7 ∷ 0 ∷ 0 ∷ 0 ∷ 0 ∷ 0 ∷ [];
  capacity = 6;
  byte_offset = 1;
  bit_offset = 0;
}

six_bytes-HasRoom : HasRoom six_bytes 8 4
six_bytes-HasRoom = record {
  aligned = refl;
  at_offset = inr refl;
  in_payload = omega arith;
  in_stream = omega arith;
  short = omega arith;
}

-- "AB" in four bytes, at bit 8.
read_fixed_string-write_string_fix_example :
    (t : DataStream) × (write_string_fix (65 ∷ 66 ∷ []) 32 8 six_bytes ≡ ok tt t)
    × (read_fixed_string 32 (at t 1) ≡ ok (65 ∷ 66 ∷ []) t)
read_fixed_string-write_string_fix_example =
    read_fixed_string-write_string_fix (65 ∷ 66 ∷ []) 4 six_bytes 8
      ((refl, refl, refl), ((refl, refl, refl), tt)) (omega arith) six_bytes-HasRoom

-- No text is in UTF-16.
no_runes : List ℕ → Bytes
no_runes units = []

read_string_lau-write_string_lau_example :
    (t : DataStream) × (write_string_lau (65 ∷ 66 ∷ []) 8 six_bytes ≡ ok tt t)
    × ((u : DataStream) × (read_string_lau no_runes (at t 1) ≡ ok (65 ∷ 66 ∷ []) u))
read_string_lau-write_string_lau_example =
    read_string_lau-write_string_lau no_runes (65 ∷ 66 ∷ []) six_bytes 8 six_bytes-HasRoom

-- Twelve bits: the second byte keeps its low half, and the cursor stands in it.
twelve_bits :
    write_binary (0xFF ∷ 0xFF ∷ []) 12 0 six_bytes
    ≡ ok tt (record {
      bytes = 7 ∷ 0xFF ∷ 0x0F ∷ 0 ∷ 0 ∷ 0 ∷ [];
      capacity = 6;
      byte_offset = 2;
      bit_offset = 4;
    })
unfolding write_binary write_count write_bytes
twelve_bits = refl

-- A value that is longer than the stream panics.
off_end : write_binary (1 ∷ 2 ∷ 3 ∷ 4 ∷ 5 ∷ 6 ∷ []) 0 0 six_bytes ≡ panic
unfolding write_binary write_count write_bytes
off_end = refl
