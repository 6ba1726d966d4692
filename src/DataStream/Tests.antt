-- ===== src/DataStream/Tests.antt =====
-- internal/pgn/readdatastream.go and writedatastream.go on concrete streams.
use n2k.Prelude.{true, false, none, some, inr, ◌≡◌, refl, List, [], ◌∷◌, arith}
use n2k.DataStream.{DataStream, ok, new_data_stream, get_number_raw, reset_to_start}
use n2k.DataStream.Cursor.{IsValid, at_cursor}
use n2k.DataStream.Get.{get_number_raw_lem}
use n2k.DataStream.Raw.{FieldSpec, read_raw, write_raw}
use n2k.DataStream.Raw.Nullable.{read_raw-write_raw}
use n2k.DataStream.Raw.Signed.{read_raw-write_raw_signed}
use n2k.DataStream.RoundTrip.{Field, put_fields, get_fields, blank, get_fields-put_fields}

-- Two bytes, with the cursor at bit 3.
abbrev two_bytes : DataStream
two_bytes = at_cursor (new_data_stream (0xF5 ∷ 0x02 ∷ [])) 3

two_bytes-IsValid : IsValid two_bytes
two_bytes-IsValid = record {
  all_bytes = (omega arith, (omega arith, tt));
  short = omega arith;
  within = omega arith;
}

get_number_raw_example : get_number_raw 7 two_bytes ≡ ok 0x5E (at_cursor two_bytes 10)
get_number_raw_example = get_number_raw_lem 7 two_bytes two_bytes-IsValid (omega arith)

-- Three bytes, with five bits written.
abbrev three_bytes : DataStream
three_bytes = at_cursor (new_data_stream (0x15 ∷ 0 ∷ 0 ∷ [])) 5

-- A bit, a field that crosses two bytes, and a value wider than its field.
abbrev three_fields : List Field
three_fields =
    record { bits = 1; value = 1 }
    ∷ record { bits = 12; value = 0xABC }
    ∷ record { bits = 3; value = 13 }
    ∷ []

get_fields-put_fields_example :
    (t : DataStream) × (put_fields 0 three_fields (blank 2) ≡ ok tt t)
    × (get_fields three_fields (reset_to_start t) ≡ ok (1 ∷ 0xABC ∷ 5 ∷ []) t)
get_fields-put_fields_example =
    get_fields-put_fields three_fields 2 (omega arith)
      (omega arith, (omega arith, (omega arith, tt))) (omega arith) (omega arith)

-- An eight-bit field with two reserved values, that is missing.
abbrev byte_field : FieldSpec
byte_field = record {
  bit_length = 8;
  max_raw_value = 253;
  missing_value = 255;
  offset = 0;
  is_signed = false;
  reserved_count = 2;
}

read_raw-write_raw_example :
    (t : DataStream) × (write_raw byte_field none three_bytes ≡ ok tt t)
    × (read_raw 8 byte_field (at_cursor t 5) ≡ ok none t)
read_raw-write_raw_example =
    read_raw-write_raw byte_field 8 none three_bytes refl refl (omega arith)
      (omega arith, omega arith, omega arith)
      (record {
        all_bytes = (omega arith, (omega arith, (omega arith, tt)));
        short = omega arith;
        within = omega arith;
      })
      (omega arith) (omega arith) (omega arith)

-- A signed field of eight bits with two reserved values, that holds -3.
abbrev signed_field : FieldSpec
signed_field = record {
  bit_length = 8;
  max_raw_value = 125;
  missing_value = 127;
  offset = 0;
  is_signed = true;
  reserved_count = 2;
}

read_raw-write_raw_signed_example :
    (t : DataStream) × (write_raw signed_field (some 0xFFFF_FFFF_FFFF_FFFD) three_bytes ≡ ok tt t)
    × (read_raw 8 signed_field (at_cursor t 5) ≡ ok (some 0xFD) t)
read_raw-write_raw_signed_example =
    read_raw-write_raw_signed signed_field 7 refl (omega arith) 8 0xFFFF_FFFF_FFFF_FFFD three_bytes
      refl refl (inr (omega arith, omega arith, omega arith))
      (record {
        all_bytes = (omega arith, (omega arith, (omega arith, tt)));
        short = omega arith;
        within = omega arith;
      })
      (omega arith) (omega arith) (omega arith)
