-- ===== src/DataStream/Terminated/Tests.antt =====
-- internal/pgn/writedatastream.go and readdatastream.go, strings with a length byte on concrete streams.
use n2k.Prelude.{ℕ, ◌≡◌, refl, inl, [], ◌∷◌, replicate, some, arith}
use n2k.DataStream.{DataStream, ok, new_data_stream}
use n2k.DataStream.Lau.{at}
use n2k.DataStream.Bytes.Fixed.{HasRoom}
use n2k.DataStream.Terminated.{rune_width, put_runes, write_string_with_length, field_bytes}
use n2k.DataStream.Terminated.Longer.{IsLonger, read_string_with_length-write_string_with_length}

abbrev eight_bytes : DataStream
eight_bytes = new_data_stream (replicate {A = ℕ} 8 0)

eight_bytes-HasRoom : HasRoom eight_bytes 0 8
eight_bytes-HasRoom = record {
  aligned = refl;
  at_offset = inl refl;
  in_payload = omega arith;
  in_stream = omega arith;
  short = omega arith;
}

-- "ABC" in eight bytes.
read_string_with_length-write_string_with_length_example :
    (t : DataStream) × (write_string_with_length (65 ∷ 66 ∷ 67 ∷ []) 64 0 eight_bytes ≡ ok tt t)
    × IsLonger (65 ∷ 66 ∷ 67 ∷ []) 8 (at t 0)
read_string_with_length-write_string_with_length_example =
    read_string_with_length-write_string_with_length (65 ∷ 66 ∷ 67 ∷ []) 8 eight_bytes 0
      (omega arith, (omega arith, (omega arith, tt))) (omega arith) eight_bytes-HasRoom

-- Of "é", two bytes in UTF-8, the first is written alone.
two_byte_rune : field_bytes 4 6 (0xC3 ∷ 0xA9 ∷ 65 ∷ []) ≡ some (4 ∷ 0xC3 ∷ 0 ∷ 65 ∷ 0 ∷ 0 ∷ [])
unfolding put_runes rune_width
two_byte_rune = refl
