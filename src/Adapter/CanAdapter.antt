-- ===== src/Adapter/CanAdapter.antt =====
-- internal/adapter/canadapter/canadapter.go: frames from the endpoint to packets for the handler,
-- and messages to frames for the endpoint.
pub mod Frames
pub mod Receiving
pub mod Reassembly
pub mod Sending
pub mod Branches
mod Tests
use n2k.Prelude.{
  ℕ, zero, suc, ◌+◌, ◌-◌, ◌/◌, ◌%◌, bit_or, Bool, true, false, ◌&&◌, not, List, [], ◌∷◌, ◌++◌,
  Option, none, some, ltb, leb, ◌==◌, if◌then◌else◌, length, get_or, set, replicate, u8, ◌<<<◌,
}
use n2k.Prelude.Fault.{◌>>=◌}
use n2k.Converter.{Frame, can_id_from_struct, decode_can_id}
use n2k.Pgn.{is_fast}
use n2k.Packet.{MessageInfo, Packet, new_packet}
use n2k.Adapter.Sequence.{max_frame_num}
use n2k.Adapter.MultiBuilder.{Sequences, new_multi_builder}
use n2k.Adapter.MultiBuilder

-- `handler` and `writer` tell whether one is set; what they are handed is in the results below.
pub record CanAdapter : Type 0 where
  pub multi : Sequences
  pub handler : Bool
  pub writer : Bool
  pub seq_id_map : ℕ → ℕ → ℕ

-- `NewCANAdapter`; a sequence id that the map does not hold counts as 0.
abbrev pub new_can_adapter : CanAdapter
new_can_adapter = record {
  multi = new_multi_builder;
  handler = false;
  writer = false;
  seq_id_map = λ _ _. 0;
}

abbrev pub set_writer : CanAdapter → CanAdapter
set_writer c = record c { writer = true }

abbrev pub set_output : CanAdapter → CanAdapter
set_output c = record c { handler = true }

unfoldable pub extract_message_info : ℕ → Frame → MessageInfo
extract_message_info now f =
    let h = decode_can_id now f.id in
    record {
      timestamp = h.time_stamp;
      priority = h.priority;
      pgn = h.pgn;
      source_id = h.source_id;
      target_id = h.target_id;
    }

-- The packets that go to the handler.
abbrev pub packet_ready : CanAdapter → Packet → List Packet
packet_ready c p = if c.handler then p ∷ [] else []

-- An endpoint's message: a frame, or a value of another type, which is only logged.
pub data Message : Type 0 where
  can_frame : Frame → Message
  other : Message

-- The packet after the step that depends on its group: `none` is a panic.
unfoldable pub assemble : Sequences → Packet → Option (Sequences × Packet)
assemble m p =
    if is_fast p.info.pgn then MultiBuilder.add m p else some (m, record p { complete = true })

unfoldable pub has_errors : Packet → Bool
has_errors p = not (length p.parse_errors == 0)

unfoldable pub handle_packet : CanAdapter → Packet → Option (CanAdapter × List Packet)
handle_packet c p =
    if has_errors p
    then some (c, packet_ready c p)
    else (assemble c.multi p >>= λ (m, p').
        some (record c { multi = m }, if p'.complete then packet_ready c p' else []))

unfoldable pub handle_message : CanAdapter → ℕ → Message → Option (CanAdapter × List Packet)
handle_message c now (can_frame f) =
    handle_packet c (new_packet (extract_message_info now f) f.bytes)
handle_message c now other = some (c, [])

pub data WriteError : Type 0 where
  too_long_fast too_long_single : ℕ → WriteError

-- The frames after frame 0 that a payload needs.
unfoldable pub calc_frames_required : ℕ → ℕ
calc_frames_required total =
    if leb total 6
    then 0
    else if ltb 0 ((total - 6) % 7)
    then (total - 6) / 7 + 1
    else (total - 6) / 7

module _ (payload : List ℕ) where
  -- The inner loop: it fills the buffer from `offset` on, in `rounds` rounds, with 0xFF past the end.
  unfoldable pub fill : ℕ → ℕ → ℕ → List ℕ → List ℕ × ℕ
  fill zero offset index buffer = (buffer, index)
  fill (suc rounds) offset index buffer =
      let byte = if leb (length payload) index then 0xFF else get_or payload index 0 in
      fill rounds (offset + 1) (index + 1) (set buffer offset byte)

module _ (seq_id : ℕ) (payload : List ℕ) where
  -- The bytes before the payload: one, or two in frame 0, with where the payload goes on.
  unfoldable pub start_frame : ℕ → List ℕ → List ℕ × ℕ
  start_frame frame_num buffer =
      let marked = set buffer 0 (bit_or (u8 (seq_id <<< 5)) (u8 frame_num)) in
      if frame_num == 0 then (set marked 1 (u8 (length payload)), 2) else (marked, 1)

module _ (seq_id can_id : ℕ) (payload : List ℕ) where
  -- The outer loop, with the frames that are left to build.
  unfoldable pub build_frames : ℕ → ℕ → ℕ → List ℕ → List Frame
  build_frames zero frame_num index buffer = []
  build_frames (suc left) frame_num index buffer =
      let (started, offset) = start_frame seq_id payload frame_num buffer in
      let (filled, index') = fill payload (8 - offset) offset index started in
      record { id = can_id; length = 8; bytes = filled }
      ∷ build_frames left (frame_num + 1) index' filled

-- What `writer.WriteFrame` gets: nothing where no writer is set.
abbrev pub written : CanAdapter → List Frame → List Frame
written c frames = if c.writer then frames else []

pub record Sent : Type 0 where
  pub adapter : CanAdapter
  pub frames : List Frame
  pub error : Option WriteError

abbrev pub update_seq : (ℕ → ℕ → ℕ) → ℕ → ℕ → ℕ → ℕ → ℕ → ℕ
update_seq ids source pgn v source' pgn' =
    if source' == source && pgn' == pgn then v else ids source' pgn'

unfoldable pub send_fast : CanAdapter → ℕ → ℕ → ℕ → List ℕ → Sent
send_fast c source pgn can_id payload =
    let frames_required = calc_frames_required (length payload) in
    let seq_id = c.seq_id_map source pgn in
    let next_id = u8 (seq_id + 1) % 7 in
    if ltb max_frame_num frames_required
    then record { adapter = c; frames = []; error = some (too_long_fast (length payload)) }
    else record {
      adapter = record c { seq_id_map = update_seq c.seq_id_map source pgn next_id };
      frames =
          written c (build_frames seq_id can_id payload (frames_required + 1) 0 0 (replicate 8 0));
      error = none;
    }

unfoldable pub send_single : CanAdapter → ℕ → List ℕ → Sent
send_single c can_id payload =
    if ltb 8 (length payload)
    then record { adapter = c; frames = []; error = some (too_long_single (length payload)) }
    else record {
      adapter = c;
      frames = written c (
          record {
            id = can_id;
            length = u8 (length payload);
            bytes = payload ++ replicate (8 - length payload) 0xFF;
          }
          ∷ []);
      error = none;
    }

unfoldable pub write_pgn : CanAdapter → MessageInfo → List ℕ → Sent
write_pgn c info payload =
    let can_id = can_id_from_struct (record {
      pgn = info.pgn;
      source_id = info.source_id;
      priority = info.priority;
      destination = info.target_id;
    }) in
    if is_fast info.pgn
    then send_fast c info.source_id info.pgn can_id payload
    else send_single c can_id payload
