-- ===== src/Packet/Unknown.antt =====
-- internal/pkt/packetstruct.go and unknownpgn.go: what the packet handler gives on.
use n2k.Prelude.{
  ℕ, ◌%◌, ◌^◌, ◌<◌, ◌≡◌, refl, ap, ◌∙◌, inl, inr, ◌&&◌, [], ◌∷◌, ◌++◌, map, some, ltb,
  if◌then◌else◌, length, Bytes, All, arith, Bool-cases, ltb→lt,
}
use n2k.Prelude.Results.{Result, ok, err}
use n2k.Packet.{MessageInfo, Packet}
use n2k.Pgn.{is_proprietary_pgn}
use n2k.DataStream.{DataStream, Outcome, new_data_stream, get_number_raw}
use n2k.DataStream.Value.{IsByte, le_value}
use n2k.DataStream.Cursor.{at_cursor}
use n2k.DataStream.RoundTrip.{get_number_raw_at}
use n2k.DataStream.Raw.{read_raw}
use n2k.Packet.Handler.{
  PacketError, parse, no_matching_decoder, decoding, merged, UnknownPgn, manufacturer_spec,
  build_unknown_pgn, Delivered, decoded, unknown, deliver_unknown, handle_decoded, handle_found,
  handle_packet,
}

-- The manufacturer code of a proprietary group of three bytes or more: its low eleven bits.
abbrev pub code_of : ℕ → Bytes → ℕ
code_of pgn payload =
    if is_proprietary_pgn pgn && ltb 2 (length payload) then le_value payload % 2 ^ 11 else 0

abbrev pub unknown_of : {E : Type 0} → Packet → PacketError E → UnknownPgn E
unknown_of p e = record {
  info = p.info;
  payload = p.payload;
  manufacturer_code = code_of p.info.pgn p.payload;
  industry_code = 0;
  reason = merged (map parse p.parse_errors ++ (e ∷ []));
}

code_read :
    (payload : Bytes)
    → All IsByte payload
    → length payload < 2 ^ 16
    → 2 < length payload
    → (s : DataStream) × (read_raw 16 manufacturer_spec (new_data_stream payload)
        ≡ Outcome.ok (some (le_value payload % 2 ^ 11)) s)
unfolding read_raw
code_read payload all short long =
    let s = new_data_stream payload in
    let v = le_value payload % 2 ^ 11 in
    let number : get_number_raw 11 s ≡ Outcome.ok v (at_cursor s 11) =
      get_number_raw_at s 0 11 all short (omega arith) (omega (arith, long))
      ∙ ap (λ (x : ℕ). Outcome.ok (x % 2 ^ 11) (at_cursor s 11)) {y = le_value payload}
          (omega arith) in
    let cut : v % 2 ^ 16 ≡ v = omega arith in (at_cursor s 11, rw (number, cut) refl)

build_unknown_pgn_lem :
    {E : Type 0} (p : Packet) (e : PacketError E)
    → All IsByte p.payload
    → length p.payload < 2 ^ 16
    → build_unknown_pgn p.info p.payload (map parse p.parse_errors ++ (e ∷ []))
      ≡ some (unknown_of p e)
unfolding build_unknown_pgn
build_unknown_pgn_lem p e all short =
    elim (Bool-cases (is_proprietary_pgn p.info.pgn && ltb 2 (length p.payload))) [
      | inl coded ↦
          let long : 2 < length p.payload = ltb→lt 2 (length p.payload) (ground (arith, coded)) in
          let (s, read) = code_read p.payload all short long in simp (coded, read) refl
      | inr plain ↦ simp plain refl
    ]

-- What a packet is to be given on as, whether a decoder is found and what it makes of the packet.
abbrev pub given_decoded : {E V : Type 0} → Packet → Result E V → Delivered E V
given_decoded p (ok v) = decoded v
given_decoded p (err e) = unknown (unknown_of p (decoding e))

abbrev pub given : {E V : Type 0} → Packet → Result E (MessageInfo → Result E V) → Delivered E V
given p (ok decoder) = given_decoded p (decoder p.info)
given p (err e) = unknown (unknown_of p (no_matching_decoder p.info.pgn e))

module _ {E V : Type 0} (p : Packet) (all : All IsByte p.payload)
    (short : length p.payload < 2 ^ 16) where
  handle_decoded_lem : (r : Result E V) → handle_decoded p r ≡ some (given_decoded p r)
  unfolding handle_decoded
  handle_decoded_lem (ok v) = refl
  handle_decoded_lem (err e) = ap deliver_unknown (build_unknown_pgn_lem p (decoding e) all short)

  handle_found_lem : (r : Result E (MessageInfo → Result E V)) → handle_found p r ≡ some (given p r)
  unfolding handle_found
  handle_found_lem (ok decoder) = handle_decoded_lem (decoder p.info)
  handle_found_lem (err e) =
      ap deliver_unknown (build_unknown_pgn_lem p (no_matching_decoder p.info.pgn e) all short)

-- A packet of less than 2 ^ 16 bytes is given on as one struct, without a panic: what the decoder that is found
-- makes of it, or, where none is found or it fails, an unknown group with the packet's information and
-- bytes, all errors, and for a proprietary group of three bytes or more its low eleven bits as the manufacturer.
pub handle_packet_lem :
    {E V : Type 0} (find_decoder : DataStream → ℕ → Result E (MessageInfo → Result E V))
    (p : Packet)
    → All IsByte p.payload
    → length p.payload < 2 ^ 16
    → handle_packet find_decoder p
      ≡ some (given p (find_decoder (new_data_stream p.payload) p.info.pgn))
unfolding handle_packet
handle_packet_lem find_decoder p all short =
    handle_found_lem p all short (find_decoder (new_data_stream p.payload) p.info.pgn)
