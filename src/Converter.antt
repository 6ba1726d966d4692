-- ===== src/Converter.antt =====
-- internal/converter/converter.go: the 29-bit CAN identifier of an NMEA 2000 frame, and `can.Frame`
-- of the CAN library with the fields that the program sets.
pub mod CanId
pub mod Raw
mod Tests
use n2k.Prelude.{
  ℕ, ◌*◌, ◌/◌, ◌^◌, bit_and, bit_or, Bool, true, ◌&&◌, not, List, Option, none, some, ltb, leb,
  ◌==◌, if◌then◌else◌, u8, u32, ◌<<<◌, ◌>>>◌,
}

-- `can.Frame`: the identifier, the number of bytes in use and the eight data bytes.
pub record Frame : Type 0 where
  pub id : ℕ
  pub length : ℕ
  pub bytes : List ℕ

pub record CanIdData : Type 0 where
  pub pgn : ℕ
  pub source_id : ℕ
  pub priority : ℕ
  pub destination : ℕ

pub record FrameHeader : Type 0 where
  pub time_stamp : ℕ
  pub source_id : ℕ
  pub pgn : ℕ
  pub priority : ℕ
  pub target_id : ℕ

-- The PDU format byte, which both directions compute the same way.
abbrev pub pdu_format : ℕ → ℕ
pdu_format pgn = u8 (bit_and pgn 0xFF00 >>> 8)

unfoldable pub can_id_from_data : ℕ → ℕ → ℕ → ℕ → ℕ
can_id_from_data pgn source_id priority destination =
    let addressed =
      if ltb (pdu_format pgn) 240 then bit_or (bit_and pgn 0xFFF00) destination else pgn in
    let can_id = bit_or (bit_or source_id (u32 (addressed <<< 8))) (u32 (priority <<< 26)) in
    bit_or can_id 0x8000_0000

unfoldable pub can_id_from_struct : CanIdData → ℕ
can_id_from_struct d = can_id_from_data d.pgn d.source_id d.priority d.destination

-- `none` is the error of a PDU2 group with a destination other than 0 or 255.
pub can_id_from_data_with_validation : ℕ → ℕ → ℕ → ℕ → Option ℕ
can_id_from_data_with_validation pgn source_id priority destination =
    if leb 240 (pdu_format pgn) && (not (destination == 0) && not (destination == 255))
    then none
    else some (can_id_from_data pgn source_id priority destination)

pub can_id_from_struct_with_validation : CanIdData → Option ℕ
can_id_from_struct_with_validation d =
    can_id_from_data_with_validation d.pgn d.source_id d.priority d.destination

-- `now` is what `time.Now()` returns.
unfoldable pub decode_can_id : ℕ → ℕ → FrameHeader
decode_can_id now id =
    let pgn = bit_and id 0x3FFFF00 >>> 8 in
    let pdu1 = ltb (pdu_format pgn) 240 in
    record {
      time_stamp = now;
      source_id = u8 (bit_and id 0xFF);
      pgn = if pdu1 then bit_and pgn 0xFFF00 else pgn;
      priority = u8 (bit_and id 0x1C00_0000 >>> 26);
      target_id = if pdu1 then u8 (bit_and pgn 0xFF) else 255;
    }
