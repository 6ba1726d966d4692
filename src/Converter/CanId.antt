-- ===== src/Converter/CanId.antt =====
-- internal/converter/converter.go: what the two directions of the CAN identifier compute.
use n2k.Prelude.{
  ℕ, ◌⊎◌, ◌+◌, ◌*◌, ◌/◌, ◌%◌, ◌^◌, ◌≤◌, ◌<◌, bit_and, bit_or, ◌≡◌, none, some, ltb, arith,
  if◌then◌else◌, ◌≢◌, ◌∙◌,
}
use n2k.Prelude.Bits.{bit_or_high, bit_or_low, bit_and_mask, bit_and_shifted}
use n2k.Converter.{pdu_format, can_id_from_data, can_id_from_data_with_validation, decode_can_id}

-- What goes through the parameters of an identifier unchanged: the widths of its fields.
pub record FitsId (pgn source_id priority destination : ℕ) : Type 0 where
  pub pgn_fits : pgn < 2 ^ 18
  pub source_fits : source_id < 2 ^ 8
  pub priority_fits : priority < 2 ^ 3
  pub destination_fits : destination < 2 ^ 8

format_lem : (pgn : ℕ) → pdu_format pgn ≡ pgn / 256 % 256
format_lem pgn = omega (arith, bit_and_shifted 8 pgn 255, bit_and_mask 8 (pgn / 256))

page_lem : (pgn : ℕ) → bit_and pgn 0xFFF00 ≡ pgn / 256 % 4096 * 256
page_lem pgn = omega (arith, bit_and_shifted 8 pgn 0xFFF, bit_and_mask 12 (pgn / 256))

-- The parameter group number that an identifier carries: PDU1 has the destination as its low byte.
pub wire_pgn : ℕ → ℕ → ℕ
wire_pgn pgn destination = if ltb (pgn / 256 % 256) 240 then pgn / 256 * 256 + destination else pgn

wire_pgn-lt :
    (pgn destination : ℕ) → pgn < 2 ^ 18 → destination < 2 ^ 8 → wire_pgn pgn destination < 2 ^ 18
unfolding wire_pgn
wire_pgn-lt pgn destination p q = ground arith

addressed_lem :
    (pgn destination : ℕ)
    → pgn < 2 ^ 18
    → destination < 2 ^ 8
    → (if ltb (pdu_format pgn) 240 then bit_or (bit_and pgn 0xFFF00) destination else pgn)
      ≡ wire_pgn pgn destination
unfolding wire_pgn
addressed_lem pgn destination p q =
    rw (format_lem, page_lem, bit_or_low 8 (pgn / 256 % 4096) destination q) (ground arith)

shifted_fields :
    (p source_id priority : ℕ)
    → p < 2 ^ 18
    → source_id < 2 ^ 8
    → priority < 2 ^ 3
    → bit_or
        (bit_or (bit_or source_id (p * 2 ^ 8 % 2 ^ 32)) (priority * 2 ^ 26 % 2 ^ 32))
        0x8000_0000
      ≡ 2 ^ 31 + priority * 2 ^ 26 + p * 2 ^ 8 + source_id
shifted_fields p source_id priority hp hs hq =
    let low : p * 2 ^ 8 % 2 ^ 32 ≡ p * 2 ^ 8 = omega arith in
    let high : priority * 2 ^ 26 % 2 ^ 32 ≡ priority * 2 ^ 26 = omega arith in
    rw
      (
        low,
        high,
        bit_or_high 8 source_id p hs,
        bit_or_high 26 (source_id + p * 2 ^ 8) priority (omega arith),
        bit_or_high 31 (source_id + p * 2 ^ 8 + priority * 2 ^ 26) 1 (omega arith),
      )
      (omega arith)

-- An identifier is the sum of its four fields and the extended-frame flag.
pub can_id_sum :
    (pgn source_id priority destination : ℕ)
    → FitsId pgn source_id priority destination
    → can_id_from_data pgn source_id priority destination
      ≡ 2 ^ 31 + priority * 2 ^ 26 + wire_pgn pgn destination * 2 ^ 8 + source_id
unfolding can_id_from_data
can_id_sum pgn source_id priority destination f =
    rw (addressed_lem pgn destination f.pgn_fits f.destination_fits) (
      shifted_fields (wire_pgn pgn destination) source_id priority
        (wire_pgn-lt pgn destination f.pgn_fits f.destination_fits) f.source_fits f.priority_fits)

-- The group number in an identifier, before the destination is taken out.
abbrev carried : ℕ → ℕ
carried id = id / 256 % 2 ^ 18

carried_lem : (id : ℕ) → bit_and id 0x3FFFF00 / 2 ^ 8 ≡ carried id
carried_lem id = omega (arith, bit_and_shifted 8 id 0x3FFFF, bit_and_mask 18 (id / 256))

priority_lem : (id : ℕ) → bit_and id 0x1C00_0000 / 2 ^ 26 % 2 ^ 8 ≡ id / 2 ^ 26 % 8
priority_lem id = omega (arith, bit_and_shifted 26 id 7, bit_and_mask 3 (id / 2 ^ 26))

low_byte : (n : ℕ) → bit_and n 0xFF % 2 ^ 8 ≡ n % 256
low_byte n = omega (arith, bit_and_mask 8 n)

decode_fields :
    (now id : ℕ)
    → decode_can_id now id ≡ record {
      time_stamp = now;
      source_id = id % 256;
      pgn = if ltb (carried id / 256 % 256) 240 then carried id / 256 % 4096 * 256 else carried id;
      priority = id / 2 ^ 26 % 8;
      target_id = if ltb (carried id / 256 % 256) 240 then carried id % 256 else 255;
    }
unfolding decode_can_id
decode_fields now id = simp (carried_lem, priority_lem, low_byte, format_lem, page_lem)

-- Decoding an identifier gives back the fields that it was made from, where they fit their widths: a
-- PDU2 group as it is, with destination 255; a PDU1 group without its low byte, with the destination.
pub decode_can_id-can_id_from_data :
    (now pgn source_id priority destination : ℕ)
    → FitsId pgn source_id priority destination
    → decode_can_id now (can_id_from_data pgn source_id priority destination) ≡ record {
      time_stamp = now;
      source_id = source_id;
      pgn = if ltb (pgn / 256 % 256) 240 then pgn / 256 * 256 else pgn;
      priority = priority;
      target_id = if ltb (pgn / 256 % 256) 240 then destination else 255;
    }
unfolding wire_pgn
decode_can_id-can_id_from_data now pgn source_id priority destination f =
    rw (decode_fields, can_id_sum pgn source_id priority destination f) (ground arith)

-- Encoding what any identifier decodes to gives its 29 bits back, with the flag of an extended frame.
pub can_id_from_data-decode_can_id :
    (now id : ℕ)
    → let h = decode_can_id now id in
      can_id_from_data h.pgn h.source_id h.priority h.target_id ≡ 2 ^ 31 + id % 2 ^ 29
unfolding wire_pgn
can_id_from_data-decode_can_id now id =
    rw (decode_fields now id) (can_id_sum _ _ _ _ (ground arith) ∙ ground arith)

-- The validating encoder refuses exactly a PDU2 group with a destination other than 0 and 255, and
-- otherwise gives what the plain encoder gives.
pub can_id_from_data_with_validation_lem :
    (pgn source_id priority destination : ℕ)
    → let id = can_id_from_data_with_validation pgn source_id priority destination in
      ((240 ≤ pgn / 256 % 256) × (destination ≢ 0) × (destination ≢ 255) × (id ≡ none))
      ⊎ (((pgn / 256 % 256 < 240) ⊎ (destination ≡ 0) ⊎ (destination ≡ 255))
          × (id ≡ some (can_id_from_data pgn source_id priority destination)))
unfolding can_id_from_data_with_validation
can_id_from_data_with_validation_lem pgn source_id priority destination =
    rw format_lem (ground arith)

-- The fields of an identifier fit their widths.
pub decode_can_id-FitsId :
    (now id : ℕ) → let h = decode_can_id now id in FitsId h.pgn h.source_id h.priority h.target_id
decode_can_id-FitsId now id = rw (decode_fields now id) (ground arith)
