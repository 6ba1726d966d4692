-- ===== src/Converter/Raw.antt =====
-- internal/converter/converter.go: a line of the RAW format to frames and back, with what Go's library does of it:
-- strings.Split with a comma, strconv.ParseUint of a base without prefixes, and the verbs %d and %02x.
pub mod Digits
pub mod Line
pub mod Frames
mod Tests
use n2k.Prelude.{
  ℕ, zero, suc, ◌+◌, ◌-◌, ◌*◌, ◌/◌, ◌%◌, ◌^◌, bit_and, bit_or, min, Bool, true, false, ◌&&◌, List,
  [], ◌∷◌, ◌++◌, Option, none, some, ltb, leb, ◌==◌, if◌then◌else◌, length, get_or, take, drop,
  replicate, u8, u32, ◌<<<◌, Bytes,
}
use n2k.Prelude.Results.{Result, ok, err}
use n2k.Converter.{Frame, can_id_from_data, decode_can_id}

abbrev pub comma : ℕ
comma = 44

-- A byte before the pieces of the rest.
abbrev pub onto_first : ℕ → List Bytes → List Bytes
onto_first b [] = (b ∷ []) ∷ []
onto_first b (p ∷ ps) = (b ∷ p) ∷ ps

-- `strings.Split(in, ",")`.
unfoldable pub split : Bytes → List Bytes
split [] = [] ∷ []
split (b ∷ bs) = let rest = split bs in if b == comma then [] ∷ rest else onto_first b rest

unfoldable pub digit_value : ℕ → Option ℕ
digit_value b =
    if leb 48 b && leb b 57
    then some (b - 48)
    else if leb 97 b && leb b 102
    then some (b - 87)
    else if leb 65 b && leb b 70
    then some (b - 55)
    else none

-- The digit, where it is one of the base.
abbrev pub in_base : ℕ → Option ℕ → Option ℕ
in_base base none = none
in_base base (some d) = if ltb d base then some d else none

unfoldable pub parse_digits : ℕ → ℕ → Bytes → Option ℕ
parse_digits base value [] = some value
parse_digits base value (b ∷ bs) = elim (in_base base (digit_value b)) [
  | none ↦ none
  | some d ↦ parse_digits base (value * base + d) bs
]

abbrev pub fitting : ℕ → Option ℕ → Option ℕ
fitting bits none = none
fitting bits (some n) = if ltb n (2 ^ bits) then some n else none

-- `strconv.ParseUint`, with `none` for its errors.
unfoldable pub parse_uint : ℕ → ℕ → Bytes → Option ℕ
parse_uint base bits [] = none
parse_uint base bits (b ∷ bs) = fitting bits (parse_digits base 0 (b ∷ bs))

pub data Field : Type 0 where
  priority pgn source destination length_field : Field

pub data RawError : Type 0 where
  insufficient_elements too_few_bytes : RawError
  invalid : Field → RawError
  invalid_byte : ℕ → RawError

-- The next `n` data bytes, of which the first has this position in the error; a line is checked first to have
-- enough elements.
unfoldable pub parse_bytes : ℕ → ℕ → List Bytes → Result RawError (List ℕ)
parse_bytes position zero elems = ok []
parse_bytes position (suc n) [] = ok []
parse_bytes position (suc n) (e ∷ es) = elim (parse_uint 16 8 e) [
  | none ↦ err (invalid_byte position)
  | some b ↦ elim (parse_bytes (position + 1) n es) [ err x ↦ err x | ok bs ↦ ok (u8 b ∷ bs) ]
]

-- A frame's eight bytes, which are zero before they are set.
abbrev pub data_of : List ℕ → List ℕ
data_of bs = bs ++ replicate (8 - length bs) 0

unfoldable pub single_frame : ℕ → ℕ → List Bytes → Result RawError (List Frame)
single_frame id len elems = elim (parse_bytes 0 len elems) [
  | err x ↦ err x
  | ok bs ↦ ok (record { id = id; length = u8 len; bytes = data_of bs } ∷ [])
]

-- A consecutive frame with its bytes, before the frames after it.
unfoldable pub add_frame :
    ℕ → ℕ → Result RawError (List ℕ) → Result RawError (List Frame) → Result RawError (List Frame)
add_frame id frame_num (err x) rest = err x
add_frame id frame_num (ok bs) (err x) = err x
add_frame id frame_num (ok bs) (ok fs) =
    ok (
      record { id = id; length = 8; bytes = data_of (bit_or 0 (bit_and frame_num 0x1F) ∷ bs) } ∷ fs)

-- The loop over the consecutive frames, with as many rounds as bytes are left; `index` is where in the
-- elements of the line it stands.
unfoldable pub more_frames : ℕ → ℕ → ℕ → ℕ → ℕ → List Bytes → Result RawError (List Frame)
more_frames zero id frame_num remaining index elems = ok []
more_frames (suc fuel) id frame_num remaining index elems =
    let copy = min 7 remaining in
    let rest =
      more_frames fuel id (u8 (frame_num + 1)) (remaining - copy) (index + copy)
        (drop copy elems) in
    if remaining == 0 then ok [] else add_frame id frame_num (parse_bytes index copy elems) rest

unfoldable pub fast_frames : ℕ → ℕ → List Bytes → Result RawError (List Frame)
fast_frames id len elems = elim (parse_bytes 0 (min 6 len) elems) [
  | err x ↦ err x
  | ok bs ↦ elim (more_frames (len - 6) id 1 (len - 6) 12 (drop 6 elems)) [
    | err x ↦ err x
    | ok fs ↦ ok (record { id = id; length = 8; bytes = data_of (0 ∷ u8 len ∷ bs) } ∷ fs)
  ]
]

-- What the five numbers of a line give, and the elements after them.
unfoldable pub frames_of : ℕ → ℕ → ℕ → ℕ → ℕ → List Bytes → Result RawError (List Frame)
frames_of p g s d len elems =
    let id = can_id_from_data (u32 g) (u8 s) (u8 p) (u8 d) in
    if ltb (length elems) len
    then err too_few_bytes
    else if leb len 8
    then single_frame id len elems
    else fast_frames id len elems

-- A number, or the error that names its field.
abbrev pub number : {A : Type 0} → Field → Option ℕ → (ℕ → Result RawError A) → Result RawError A
number f none k = err (invalid f)
number f (some n) k = k n

unfoldable pub frames_from : List Bytes → Result RawError (List Frame)
frames_from (t ∷ ep ∷ eg ∷ es ∷ ed ∷ el ∷ elems) = number priority (parse_uint 10 8 ep) λ p.
    number pgn (parse_uint 10 32 eg) λ g. number source (parse_uint 10 8 es) λ s.
      number destination (parse_uint 10 8 ed)
        λ d. number length_field (parse_uint 10 8 el) λ len. frames_of p g s d len elems
frames_from _ = err insufficient_elements

unfoldable pub can_frame_from_raw : Bytes → Result RawError (List Frame)
can_frame_from_raw line = frames_from (split line)

-- `%d`, with a fuel that is at least the number of digits.
unfoldable pub decimal : ℕ → ℕ → Bytes → Bytes
decimal zero n rest = rest
decimal (suc fuel) n rest =
    let longer = decimal fuel (n / 10) ((48 + n % 10) ∷ rest) in
    if ltb n 10 then (48 + n) ∷ rest else longer

abbrev pub print_decimal : ℕ → Bytes
print_decimal n = decimal 20 n []

unfoldable pub hex_digit : ℕ → ℕ
hex_digit d = if ltb d 10 then 48 + d else 87 + d

-- `%02x` of a byte.
abbrev pub print_hex : ℕ → Bytes
print_hex b = hex_digit (b / 16) ∷ hex_digit (b % 16) ∷ []

-- The text of the bytes, a comma before each.
abbrev pub print_bytes : List ℕ → Bytes
print_bytes [] = []
print_bytes (b ∷ bs) = comma ∷ (print_hex b ++ print_bytes bs)

module _ (format_time : ℕ → Bytes) where
  -- The line without its newline.
  unfoldable pub raw_line : ℕ → Frame → Bytes
  raw_line now f =
      let h = decode_can_id now f.id in
      format_time h.time_stamp
      ++ (comma
          ∷ (print_decimal h.priority
              ++ (comma
                  ∷ (print_decimal h.pgn
                      ++ (comma
                          ∷ (print_decimal h.source_id
                              ++ (comma
                                  ∷ (print_decimal h.target_id
                                      ++ (comma
                                          ∷ (print_decimal f.length ++ print_bytes f.bytes))))))))))

  unfoldable pub raw_from_can_frame : ℕ → Frame → Bytes
  raw_from_can_frame now f = raw_line now f ++ (10 ∷ [])
