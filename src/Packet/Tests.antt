-- ===== src/Packet/Tests.antt =====
-- Runs of internal/pkt/pkt.go.
use n2k.Prelude.{true, some, arith, ℕ, ◌≡◌, refl, [], ◌∷◌}
use n2k.Prelude.Results.{Result, err}
use n2k.DataStream.{DataStream}
use n2k.Pgn.{is_proprietary_pgn}
use n2k.Packet.Handler.{handle_packet, unknown, merged, no_matching_decoder}
use n2k.Packet.Unknown.{handle_packet_lem}
use n2k.Packet.{MessageInfo, Packet, new_packet, pgn_zero, data_empty}

abbrev no_group : MessageInfo
no_group = record { timestamp = 0; priority = 0; pgn = 0; source_id = 0; target_id = 255 }

both_errors : (new_packet no_group []).parse_errors ≡ pgn_zero ∷ data_empty ∷ []
unfolding new_packet
both_errors = refl

-- A proprietary packet of manufacturer 137, for which there is no decoder.
abbrev proprietary : Packet
proprietary = record {
  info = record no_group { pgn = 61184 };
  payload = 137 ∷ 152 ∷ 7 ∷ [];
  seq_id = 0;
  frame_num = 0;
  proprietary = true;
  complete = true;
  parse_errors = [];
}

abbrev no_decoder : DataStream → ℕ → Result ℕ (MessageInfo → Result ℕ ℕ)
no_decoder s pgn = err pgn

handle_packet_lem_example :
    handle_packet no_decoder proprietary
    ≡ some (
        unknown (record {
          info = proprietary.info;
          payload = proprietary.payload;
          manufacturer_code = 137;
          industry_code = 0;
          reason = merged (no_matching_decoder 61184 61184 ∷ []);
        }))
unfolding is_proprietary_pgn
handle_packet_lem_example =
    handle_packet_lem no_decoder proprietary (omega arith, (omega arith, (omega arith, tt)))
      (omega arith)
