-- ===== src/Packet/Handler.antt =====
-- internal/pkt/packetstruct.go and unknownpgn.go: a packet becomes the struct that its decoder makes
-- of it, or an `UnknownPGN` with the errors; and internal/pgn/write.go, the way out.
use n2k.Prelude.{
  ℕ, false, ◌&&◌, List, [], ◌∷◌, ◌++◌, map, Option, none, some, ltb, leb, if◌then◌else◌, length,
  take, replicate, Bytes,
}
use n2k.Prelude.Results.{Result, ok, err}
use n2k.Packet.{MessageInfo, ParseError, Packet}
use n2k.Pgn.{is_proprietary_pgn}
use n2k.DataStream.{DataStream, StreamError, Outcome, new_data_stream}
use n2k.DataStream.Raw.{FieldSpec, read_raw}

-- A packet's parse errors, with those of the decoders, of type `E`.
pub data PacketError (E : Type 0) : Type 0 where
  parse : ParseError → PacketError E
  no_matching_decoder : ℕ → E → PacketError E
  decoding : E → PacketError E

-- The errors whose texts are joined, or the error of the manufacturer code.
pub data Reason (E : Type 0) : Type 0 where
  merged : List (PacketError E) → Reason E
  reading : StreamError → Reason E

pub record UnknownPgn (E : Type 0) : Type 0 where
  pub info : MessageInfo
  pub payload : Bytes
  pub manufacturer_code : ℕ
  pub industry_code : ℕ
  pub reason : Reason E

abbrev pub manufacturer_spec : FieldSpec
manufacturer_spec = record {
  bit_length = 11;
  max_raw_value = 0;
  missing_value = 0;
  offset = 0;
  is_signed = false;
  reserved_count = 0;
}

-- The code that was read: a nil pointer is followed where there is none.
abbrev pub with_manufacturer :
    {E : Type 0} → UnknownPgn E → Outcome (Option ℕ) → Option (UnknownPgn E)
with_manufacturer u (Outcome.ok (some code) s) = some (record u { manufacturer_code = code })
with_manufacturer u o = none

-- `buildUnknownPGN`; `none` is a panic.
unfoldable pub build_unknown_pgn :
    {E : Type 0} → MessageInfo → Bytes → List (PacketError E) → Option (UnknownPgn E)
build_unknown_pgn info payload errors =
    let u : UnknownPgn _ = record {
      info = info;
      payload = payload;
      manufacturer_code = 0;
      industry_code = 0;
      reason = merged errors;
    } in
    if is_proprietary_pgn info.pgn && ltb 2 (length payload)
    then with_manufacturer u (read_raw 16 manufacturer_spec (new_data_stream payload))
    else some u

-- What `HandleStruct` is given.
pub data Delivered (E V : Type 0) : Type 0 where
  decoded : V → Delivered E V
  unknown : UnknownPgn E → Delivered E V

abbrev pub deliver_unknown : {E V : Type 0} → Option (UnknownPgn E) → Option (Delivered E V)
deliver_unknown none = none
deliver_unknown (some u) = some (unknown u)

-- What the decoder makes of the packet.
unfoldable pub handle_decoded : {E V : Type 0} → Packet → Result E V → Option (Delivered E V)
handle_decoded p (ok v) = some (decoded v)
handle_decoded p (err e) =
    deliver_unknown
      (build_unknown_pgn p.info p.payload (map parse p.parse_errors ++ (decoding e ∷ [])))

-- The decoder that is found, or the error of the search.
unfoldable pub handle_found :
    {E V : Type 0} → Packet → Result E (MessageInfo → Result E V) → Option (Delivered E V)
handle_found p (ok decoder) = handle_decoded p (decoder p.info)
handle_found p (err e) = deliver_unknown (
    build_unknown_pgn p.info p.payload
      (map parse p.parse_errors ++ (no_matching_decoder p.info.pgn e ∷ [])))

-- `HandlePacket`, with what it gives to the handler that is set; `none` is a panic. `find_decoder` is
-- FindDecoder with the stream, and the decoder it finds reads on from there.
unfoldable pub handle_packet :
    {E V : Type 0}
    → (DataStream → ℕ → Result E (MessageInfo → Result E V))
    → Packet
    → Option (Delivered E V)
handle_packet find_decoder p = handle_found p (find_decoder (new_data_stream p.payload) p.info.pgn)

-- `Publisher.Write`: what is handed to the writer, or the encoder's error; `none` is a panic, of the slice up
-- to the offset. `encode_struct` is EncodeStruct, with the stream it leaves.
unfoldable pub publish :
    {E A : Type 0}
    → (A → DataStream → Result E (MessageInfo × DataStream))
    → A
    → Option (Result E (MessageInfo × Bytes))
publish encode_struct a = elim (encode_struct a (new_data_stream (replicate 223 0))) [
  | err e ↦ some (err e)
  | ok (info, s) ↦
      if leb s.byte_offset 223 then some (ok (info, take s.byte_offset s.bytes)) else none
]
