-- ===== src/Adapter/Sequence/Tests.antt =====
-- Runs of internal/adapter/canadapter/sequence.go.
use n2k.Prelude.{false, [], ◌∷◌}
use n2k.Packet.{Packet}

-- Frame 0 of a payload of twelve bytes.
abbrev frame_zero : Packet
frame_zero = record {
  info = record { timestamp = 0; priority = 3; pgn = 129029; source_id = 35; target_id = 255 };
  payload = 0 ∷ 12 ∷ 1 ∷ 2 ∷ 3 ∷ 4 ∷ 5 ∷ 6 ∷ [];
  seq_id = 0;
  frame_num = 0;
  proprietary = false;
  complete = false;
  parse_errors = [];
}
