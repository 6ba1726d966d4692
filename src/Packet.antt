-- ===== src/Packet.antt =====
-- internal/pkt/pkt.go: the packet between the adapter and the decoders, and pkg/pgn's
-- `MessageInfo`, which it carries.
pub mod Laws
pub mod Handler
pub mod Unknown
mod Tests
use n2k.Prelude.{
  ℕ, ◌/◌, ◌*◌, ◌^◌, bit_and, Bool, true, false, List, [], ◌∷◌, ◌++◌, Option, none, some, ◌==◌,
  if◌then◌else◌, length, get_elem?, ◌>>>◌, ◌&&◌, not,
}
use n2k.Prelude.Fault.{◌>>=◌}
use n2k.Pgn.{is_proprietary_pgn}

pub record MessageInfo : Type 0 where
  pub timestamp : ℕ
  pub priority : ℕ
  pub pgn : ℕ
  pub source_id : ℕ
  pub target_id : ℕ

pub data ParseError : Type 0 where
  pgn_zero data_empty sparse_data : ParseError

pub record Packet : Type 0 where
  pub info : MessageInfo
  pub payload : List ℕ
  pub seq_id : ℕ
  pub frame_num : ℕ
  pub proprietary : Bool
  pub complete : Bool
  pub parse_errors : List ParseError

-- `Valid` appends to the errors that the packet has, and returns its verdict.
pub valid : Packet → Packet × Bool
valid p =
    let no_pgn = p.info.pgn == 0 in
    let no_data = length p.payload == 0 in
    let p₁ = if no_pgn then record p { parse_errors = p.parse_errors ++ (pgn_zero ∷ []) } else p in
    let p₂ =
      if no_data then record p₁ { parse_errors = p₁.parse_errors ++ (data_empty ∷ []) } else p₁ in
    (p₂, not no_pgn && not no_data)

unfoldable pub new_packet : MessageInfo → List ℕ → Packet
unfolding valid
new_packet info payload =
    let (p, is_valid) = valid (record {
      info = info;
      payload = payload;
      seq_id = 0;
      frame_num = 0;
      proprietary = false;
      complete = false;
      parse_errors = [];
    }) in
    if is_valid then record p { proprietary = is_proprietary_pgn p.info.pgn } else p

-- The sequence id and the frame number of a fast packet's frame, from its first byte.
unfoldable pub get_seq_frame : Packet → Option Packet
get_seq_frame p = do
  first ← get_elem? p.payload 0
  some (record p { seq_id = bit_and first 0xE0 >>> 5; frame_num = bit_and first 0x1F })
