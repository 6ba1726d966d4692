-- ===== src/Converter/Raw/Line.antt =====
-- internal/converter/converter.go: a frame that RawFromCanFrame prints, and CanFrameFromRaw reads again.
use n2k.Prelude.{
  ℕ, zero, suc, ◌+◌, ◌%◌, ◌^◌, ◌≤◌, ◌<◌, ◌≡◌, refl, ◌∙◌, ap, false, List, [], ◌∷◌, ◌++◌, map,
  append-nil, some, ltb, ge→ltb, le→leb, All, Bytes, arith, length, take, u8, u32,
}
use n2k.Prelude.Results.{ok}
use n2k.Converter.{Frame, FrameHeader, decode_can_id, can_id_from_data}
use n2k.Converter.CanId.{decode_can_id-FitsId, can_id_from_data-decode_can_id}
use n2k.Converter.Raw.{
  comma, split, print_bytes, print_hex, print_decimal, parse_uint, parse_bytes, single_frame,
  data_of, frames_of, frames_from, can_frame_from_raw, raw_line,
}
use n2k.Converter.Raw.Digits.{
  NoComma, parse_uint-print_decimal, print_decimal-NoComma, parse_uint-print_hex, print_hex-NoComma,
}

split_last : (bs : Bytes) → NoComma bs → split bs ≡ bs ∷ []
unfolding split
split_last [] h = refl
split_last (b ∷ bs) h = rw (h.0, split_last bs h.1) refl

split_piece : (bs rest : Bytes) → NoComma bs → split (bs ++ (comma ∷ rest)) ≡ bs ∷ split rest
unfolding split
split_piece [] rest h = refl
split_piece (b ∷ bs) rest h = rw (h.0, split_piece bs rest h.1) refl

split-print_bytes :
    (first : Bytes) (bs : List ℕ)
    → NoComma first
    → split (first ++ print_bytes bs) ≡ first ∷ map print_hex bs
split-print_bytes first [] h = ap split (append-nil first) ∙ split_last first h
split-print_bytes first (b ∷ bs) h =
    split_piece first (print_hex b ++ print_bytes bs) h
    ∙ ap (λ ps. first ∷ ps) (split-print_bytes (print_hex b) bs (print_hex-NoComma b))

abbrev pub IsByte : ℕ → Type 0
IsByte b = b < 256

parse_bytes_step :
    (position n b : ℕ) (e : Bytes) (es : List Bytes) (bs : List ℕ)
    → parse_uint 16 8 e ≡ some b
    → parse_bytes (position + 1) n es ≡ ok bs
    → parse_bytes position (suc n) (e ∷ es) ≡ ok (u8 b ∷ bs)
unfolding parse_bytes
parse_bytes_step position n b e es bs p q = simp (parse_bytes, p, q)

pub parse_bytes-map :
    (position n : ℕ) (bs : List ℕ)
    → All IsByte bs
    → parse_bytes position n (map print_hex bs) ≡ ok (take n bs)
unfolding parse_bytes
parse_bytes-map position zero bs h = refl
parse_bytes-map position (suc n) [] h = refl
parse_bytes-map position (suc n) (b ∷ bs) h =
    let small : u8 b ≡ b = omega (arith, h.0) in
    parse_bytes_step position n b (print_hex b) (map print_hex bs) (take n bs)
      (parse_uint-print_hex b h.0) (parse_bytes-map (position + 1) n bs h.1)
    ∙ ap (λ (x : ℕ). ok (x ∷ take n bs)) small

pub length-map {ℓ κ} :
    {A : Type ℓ} {B : Type κ} (f : A → B) (xs : List A) → length (map f xs) ≡ length xs
length-map f [] = refl
length-map f (x ∷ xs) = ap suc (length-map f xs)

single_frame_lem :
    (id len : ℕ) (bs : List ℕ)
    → All IsByte bs
    → len < 256
    → single_frame id len (map print_hex bs)
      ≡ ok (record { id = id; length = len; bytes = data_of (take len bs) } ∷ [])
unfolding single_frame
single_frame_lem id len bs h small =
    let fits : u8 len ≡ len = omega (arith, small) in
    simp (single_frame, parse_bytes-map 0 len bs h, fits)

frames_of_single :
    (p g s d len : ℕ) (bs : List ℕ)
    → p < 256
    → g < 2 ^ 32
    → s < 256
    → d < 256
    → len ≤ 8
    → length bs ≡ 8
    → All IsByte bs
    → frames_of p g s d len (map print_hex bs)
      ≡ ok (
          record { id = can_id_from_data g s p d; length = len; bytes = data_of (take len bs) }
          ∷ [])
unfolding frames_of
frames_of_single p g s d len bs hp hg hs hd short eight h =
    let fp : u8 p ≡ p = omega arith in
    let fg : u32 g ≡ g = omega arith in
    let fs : u8 s ≡ s = omega arith in
    let fd : u8 d ≡ d = omega arith in
    let there : ltb (length (map print_hex bs)) len ≡ false =
      ge→ltb (length (map print_hex bs)) len (omega (arith, length-map print_hex bs)) in
    simp (
      frames_of,
      there,
      le→leb len 8 short,
      fp,
      fg,
      fs,
      fd,
      single_frame_lem (can_id_from_data g s p d) len bs h (omega arith),
    )

frames_from_numbers :
    (t : Bytes) (p g s d len : ℕ) (elems : List Bytes)
    → p < 256
    → g < 2 ^ 32
    → s < 256
    → d < 256
    → len < 256
    → frames_from (
        t
        ∷ print_decimal p
        ∷ print_decimal g
        ∷ print_decimal s
        ∷ print_decimal d
        ∷ print_decimal len
        ∷ elems)
      ≡ frames_of p g s d len elems
unfolding frames_from
frames_from_numbers t p g s d len elems hp hg hs hd hl = simp (
  frames_from,
  parse_uint-print_decimal 8 p (omega arith) hp,
  parse_uint-print_decimal 32 g hg hg,
  parse_uint-print_decimal 8 s (omega arith) hs,
  parse_uint-print_decimal 8 d (omega arith) hd,
  parse_uint-print_decimal 8 len (omega arith) hl,
)

module _ (format_time : ℕ → Bytes) (now : ℕ) (f : Frame) where
  abbrev header : FrameHeader
  header = decode_can_id now f.id

  abbrev tail_pieces : List Bytes
  tail_pieces = print_decimal f.length ∷ map print_hex f.bytes

  split_line :
      NoComma (format_time header.time_stamp)
      → split (raw_line format_time now f)
        ≡ format_time header.time_stamp
          ∷ print_decimal header.priority
          ∷ print_decimal header.pgn
          ∷ print_decimal header.source_id
          ∷ print_decimal header.target_id
          ∷ tail_pieces
  unfolding raw_line
  split_line h =
      split_piece (format_time header.time_stamp) _ h
      ∙ ap (λ ps. format_time header.time_stamp ∷ ps)
          (split_piece (print_decimal header.priority) _ (print_decimal-NoComma header.priority)
            ∙ ap (λ ps. print_decimal header.priority ∷ ps)
                (split_piece (print_decimal header.pgn) _ (print_decimal-NoComma header.pgn)
                  ∙ ap (λ ps. print_decimal header.pgn ∷ ps)
                      (split_piece (print_decimal header.source_id) _
                          (print_decimal-NoComma header.source_id)
                        ∙ ap (λ ps. print_decimal header.source_id ∷ ps)
                            (split_piece (print_decimal header.target_id) _
                                (print_decimal-NoComma header.target_id)
                              ∙ ap (λ ps. print_decimal header.target_id ∷ ps)
                                  (split-print_bytes (print_decimal f.length) f.bytes
                                    (print_decimal-NoComma f.length))))))

  -- A frame of at most eight bytes in use that is printed, and read without the newline, is the frame again: its
  -- identifier with the flag of an extended frame, its length, and the bytes in use with zeros behind them.
  pub can_frame_from_raw-raw_line :
      NoComma (format_time header.time_stamp)
      → f.length ≤ 8
      → length f.bytes ≡ 8
      → All IsByte f.bytes
      → can_frame_from_raw (raw_line format_time now f)
        ≡ ok (
            record {
              id = 2 ^ 31 + f.id % 2 ^ 29;
              length = f.length;
              bytes = data_of (take f.length f.bytes);
            }
            ∷ [])
  unfolding can_frame_from_raw
  can_frame_from_raw-raw_line h short eight bytes =
      let fits = decode_can_id-FitsId now f.id in
      ap frames_from (split_line h)
      ∙ frames_from_numbers (format_time header.time_stamp) header.priority header.pgn
          header.source_id header.target_id f.length (map print_hex f.bytes)
          (omega (arith, fits.priority_fits)) (omega (arith, fits.pgn_fits)) fits.source_fits
          fits.destination_fits (omega arith)
      ∙ frames_of_single header.priority header.pgn header.source_id header.target_id f.length
          f.bytes (omega (arith, fits.priority_fits)) (omega (arith, fits.pgn_fits))
          fits.source_fits fits.destination_fits short eight bytes
      ∙ ap
          (λ (i : ℕ).
            ok (record { id = i; length = f.length; bytes = data_of (take f.length f.bytes) } ∷ []))
          (can_id_from_data-decode_can_id now f.id)
