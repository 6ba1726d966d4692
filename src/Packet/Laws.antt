-- ===== src/Packet/Laws.antt =====
-- internal/pkt/pkt.go: what a new packet holds, and what the first byte of a frame says.
use n2k.Prelude.{
  ℕ, ◌/◌, ◌%◌, ◌^◌, ◌<◌, ◌≡◌, ◌≢◌, ◌↔◌, List, [], some, arith, length, get_or, get_elem?-get_or,
  bit_and, false, ne→==,
}
use n2k.Prelude.Bits.{bit_and_shifted, bit_and_mask}
use n2k.Pgn.{is_proprietary_pgn}
use n2k.Packet.{MessageInfo, Packet, new_packet, get_seq_frame}

-- The packet with the sequence id and frame number of a first byte.
abbrev pub numbered : Packet → Packet
numbered p = record p {
  seq_id = get_or p.payload 0 0 / 32 % 8;
  frame_num = get_or p.payload 0 0 % 32;
}

pub get_seq_frame_lem : (p : Packet) → 0 < length p.payload → get_seq_frame p ≡ some (numbered p)
unfolding get_seq_frame
get_seq_frame_lem p h =
    let first = get_or p.payload 0 0 in
    let high : bit_and first 0xE0 / 2 ^ 5 ≡ first / 32 % 8 =
      omega (arith, bit_and_shifted 5 first 7, bit_and_mask 3 (first / 32)) in
    rw (get_elem?-get_or p.payload 0 0 h, high, bit_and_mask 5 first)

-- A packet of a known group with a payload has no parse error.
abbrev pub fresh_packet : MessageInfo → List ℕ → Packet
fresh_packet info payload = record {
  info = info;
  payload = payload;
  seq_id = 0;
  frame_num = 0;
  proprietary = is_proprietary_pgn info.pgn;
  complete = false;
  parse_errors = [];
}

pub new_packet_lem :
    (info : MessageInfo) (payload : List ℕ)
    → info.pgn ≢ 0
    → 0 < length payload
    → new_packet info payload ≡ fresh_packet info payload
unfolding new_packet
new_packet_lem info payload known full =
    simp (ne→== info.pgn 0 known, ne→== (length payload) 0 (λ e. omega arith))

-- A new packet has no parse error exactly where its group is not 0 and its payload is not empty.
pub parse_errors-new_packet :
    (info : MessageInfo) (payload : List ℕ)
    → ((new_packet info payload).parse_errors ≡ []) ↔ ((info.pgn ≢ 0) × (0 < length payload))
unfolding new_packet
parse_errors-new_packet info payload = (λ h. (ground arith, ground arith), λ h. ground arith)
