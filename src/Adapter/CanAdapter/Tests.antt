-- ===== src/Adapter/CanAdapter/Tests.antt =====
-- Runs of internal/adapter/canadapter: a GNSS position message of 15 bytes in three frames, and the
-- theorems at such inputs.
use n2k.Prelude.{
  Option, ℕ, ◌+◌, ◌≡◌, refl, true, false, List, [], ◌∷◌, none, some, arith, get_or, replicate,
}
use n2k.Prelude.Fault.{◌>>=◌}
use n2k.Converter.{Frame, can_id_from_data, can_id_from_struct, decode_can_id}
use n2k.Pgn.{is_fast, is_proprietary_pgn, fast_pgn_bits}
use n2k.Packet.{MessageInfo, Packet, new_packet, get_seq_frame}
use n2k.Adapter.Sequence
use n2k.Adapter.Sequence.{Sequence, complete}
use n2k.Adapter.MultiBuilder.{Sequences, seq_for}
use n2k.Adapter.MultiBuilder
use n2k.Adapter.MultiBuilder.Laws.{AllValid}
use n2k.Adapter.CanAdapter.{
  CanAdapter, can_frame, new_can_adapter, set_writer, set_output, extract_message_info, assemble,
  has_errors, handle_packet, handle_message, calc_frames_required, fill, start_frame, build_frames,
  send_fast, send_single, write_pgn,
}
use n2k.Adapter.CanAdapter.Receiving.{receive, delivered}
use n2k.Adapter.CanAdapter.Sending.{IsCanonical, IsArrangement, arriving, receive-write_pgn_fast}
use n2k.Adapter.CanAdapter.Branches.{handle_message-AllValid}

program : Unit {0}
unfolding can_id_from_data can_id_from_struct decode_can_id is_fast fast_pgn_bits is_proprietary_pgn
    new_packet get_seq_frame Sequence.add complete seq_for MultiBuilder.add extract_message_info
    assemble has_errors handle_packet handle_message calc_frames_required fill start_frame
    build_frames send_fast send_single write_pgn receive
program = tt

abbrev position : MessageInfo
position = record { timestamp = 0; priority = 3; pgn = 129029; source_id = 35; target_id = 255 }

abbrev fifteen : List ℕ
fifteen = 1 ∷ 2 ∷ 3 ∷ 4 ∷ 5 ∷ 6 ∷ 7 ∷ 8 ∷ 9 ∷ 10 ∷ 11 ∷ 12 ∷ 13 ∷ 14 ∷ 15 ∷ []

abbrev ready : CanAdapter
ready = set_output (set_writer new_can_adapter)

abbrev times : ℕ → ℕ
times k = 100 + k

third_frame :
    get_or (write_pgn ready position fifteen).frames 2 (record { id = 0; length = 0; bytes = [] })
    ≡ record { id = 0x8DF8_0523; length = 8; bytes = 2 ∷ 14 ∷ 15 ∷ replicate 5 0xFF }
unfolding program
third_frame = refl

position_is_fast : is_fast 129029 ≡ true
unfolding program
position_is_fast = refl

position-IsCanonical : IsCanonical position
position-IsCanonical = omega arith

new-AllValid : AllValid ready.multi
new-AllValid a b c s e = cc

swapped : IsArrangement (calc_frames_required 15) (2 ∷ 1 ∷ [])
unfolding calc_frames_required
swapped = record {
  each = (omega arith, omega arith, refl, (omega arith, omega arith, refl, tt));
  size = refl;
  covers = λ k lo hi. ground arith;
}

receive-write_pgn_fast_example :
    let sent = write_pgn ready position fifteen in
    (sent.error ≡ none)
    × (m : Sequences) × AllValid m
    × (receive ready (arriving sent.frames times (0 ∷ 2 ∷ 1 ∷ []))
        ≡ some (
          record ready { multi = m },
          delivered (record position { timestamp = 101 }) 0 fifteen 1 ∷ [],
        ))
receive-write_pgn_fast_example =
    receive-write_pgn_fast ready ready position fifteen times (2 ∷ 1 ∷ []) refl (omega arith) refl
      new-AllValid position-IsCanonical position_is_fast (omega arith) swapped

handle_message-AllValid_example :
    (r : CanAdapter × List Packet) × (handle_message ready 7
        (can_frame (record { id = 0x8DF8_0523; length = 8; bytes = 1 ∷ replicate 7 0 }))
      ≡ some r)
    × AllValid r.0.multi
handle_message-AllValid_example = handle_message-AllValid ready 7 _ new-AllValid refl

abbrev depth : MessageInfo
depth = record { timestamp = 0; priority = 3; pgn = 128267; source_id = 35; target_id = 255 }

depth_is_single : is_fast 128267 ≡ false
unfolding program
depth_is_single = refl

-- Frames 0, 1 and 5 of a payload of twenty bytes: enough bytes have come, but those of frame 2 have
-- not. The sequence is dropped, and the handler gets nothing.
abbrev frame : List ℕ → Frame
frame bytes = record { id = 0x8DF8_0523; length = 8; bytes = bytes }

abbrev with_gap : List (ℕ × Frame)
with_gap =
    (0, frame (0x40 ∷ 20 ∷ replicate 6 1))
    ∷ (1, frame (0x41 ∷ replicate 7 2))
    ∷ (2, frame (0x45 ∷ replicate 7 3))
    ∷ []

abbrev outcome : CanAdapter × List Packet → Option (List Packet × Option Sequence)
outcome (c, out) = some (out, c.multi 35 129029 2)

gap_is_silent : (receive ready with_gap >>= outcome) ≡ some ([], none)
unfolding program
gap_is_silent = refl
