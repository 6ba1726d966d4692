-- ===== src/Converter/Raw/Tests.antt =====
-- Runs of internal/converter/converter.go: the line of a rapid engine frame, and a payload of ten bytes. A
-- time is printed as the letter T.
use n2k.Prelude.{
  ℕ, ◌≡◌, ◌≤◌, ◌<◌, ◌*◌, refl, List, [], ◌∷◌, ◌++◌, map, replicate, length, take, Bytes, arith,
}
use n2k.Prelude.Results.{ok, err}
use n2k.Converter.{Frame, can_id_from_data, decode_can_id}
use n2k.Converter.Raw.{
  split, parse_uint, parse_digits, digit_value, can_frame_from_raw, frames_from, frames_of,
  single_frame, more_frames, parse_bytes, raw_line, raw_from_can_frame, decimal, hex_digit,
  print_hex, insufficient_elements, invalid_byte, data_of,
}
use n2k.Converter.Raw.Line.{can_frame_from_raw-raw_line}
use n2k.Converter.Raw.Frames.{payload_bytes, Uniform, Numbered, frames_of_fast, more_frames_ends}

abbrev time_text : ℕ → Bytes
time_text now = b'T' ∷ []

-- T,2,127488,
abbrev front : Bytes
front = b'T' ∷ 44 ∷ b'2' ∷ 44 ∷ b'1' ∷ b'2' ∷ b'7' ∷ b'4' ∷ b'8' ∷ b'8' ∷ 44 ∷ []

-- 0,255,2,0a,fF
abbrev two_bytes : Bytes
two_bytes =
    front ++ b'0' ∷ 44 ∷ b'2' ∷ b'5' ∷ b'5' ∷ 44 ∷ b'2' ∷ 44 ∷ b'0' ∷ b'a' ∷ 44 ∷ b'f' ∷ b'F' ∷ []

read_two_bytes :
    can_frame_from_raw two_bytes
    ≡ ok (record { id = 0x89F2_0000; length = 2; bytes = 10 ∷ 255 ∷ replicate 6 0 } ∷ [])
unfolding can_frame_from_raw split frames_from parse_uint parse_digits digit_value frames_of
    single_frame parse_bytes can_id_from_data
read_two_bytes = refl

short_line : can_frame_from_raw front ≡ err insufficient_elements
unfolding can_frame_from_raw split frames_from
short_line = refl

abbrev engine : Frame
engine = record { id = 0x89F2_0023; length = 8; bytes = 1 ∷ 2 ∷ 3 ∷ 4 ∷ 5 ∷ 160 ∷ 7 ∷ 255 ∷ [] }

-- The newline belongs to the last data byte, so the printed line is read after it is cut off.
newline_stays : can_frame_from_raw (raw_from_can_frame time_text 0 engine) ≡ err (invalid_byte 7)
unfolding can_frame_from_raw split frames_from parse_uint parse_digits digit_value frames_of
    single_frame parse_bytes raw_from_can_frame raw_line decimal hex_digit decode_can_id
newline_stays = refl

can_frame_from_raw-raw_line_example :
    can_frame_from_raw (raw_line time_text 0 engine)
    ≡ ok (record { id = 0x89F2_0023; length = 8; bytes = data_of engine.bytes } ∷ [])
can_frame_from_raw-raw_line_example =
    can_frame_from_raw-raw_line time_text 0 engine (refl, tt) (omega arith) refl (omega arith)

abbrev ten : List ℕ
ten = 1 ∷ 2 ∷ 3 ∷ 4 ∷ 5 ∷ 6 ∷ 7 ∷ 8 ∷ 9 ∷ 10 ∷ []

frames_of_fast_example :
    (fs : List Frame) × (frames_of 2 129029 35 255 10 (map print_hex ten) ≡ ok fs)
    × (take 10 (payload_bytes fs) ≡ ten)
    × Uniform (can_id_from_data 129029 35 2 255) fs
    × Numbered 0 fs
    × (7 * length fs < 18)
    × (11 ≤ 7 * length fs)
frames_of_fast_example =
    frames_of_fast 2 129029 35 255 ten (omega arith) (omega arith) (omega arith) (omega arith)
      (omega arith) (omega arith) (omega arith)

-- The loop with the rounds of the code, and with more, on an element that is no byte.
more_frames_ends_example :
    more_frames 3 7 1 3 12 (print_hex 1 ∷ [] ∷ print_hex 3 ∷ [])
    ≡ more_frames 9 7 1 3 12 (print_hex 1 ∷ [] ∷ print_hex 3 ∷ [])
more_frames_ends_example =
    more_frames_ends 3 9 7 1 3 12 (print_hex 1 ∷ [] ∷ print_hex 3 ∷ []) (omega arith) (omega arith)
