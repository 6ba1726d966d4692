-- ===== src/Adapter/CanAdapter/Receiving.antt =====
-- internal/adapter/canadapter/canadapter.go, `HandleMessage`: the frames of one payload, frame 0
-- first and the others in any order.
use n2k.Prelude.{
  ℕ, zero, suc, ◌+◌, ◌*◌, ◌/◌, ◌%◌, ◌≤◌, ◌<◌, ◌≡◌, ◌≢◌, refl, true, false, List, [], ◌∷◌, ◌++◌,
  Option, some, arith,
}
use n2k.Prelude.Fault.{◌>>=◌}
use n2k.Converter.{Frame}
use n2k.Packet.{MessageInfo, Packet}
use n2k.Packet.Laws.{numbered, fresh_packet}
use n2k.Adapter.Sequence.Progress.{contains, IsFrame}
use n2k.Adapter.CanAdapter.{CanAdapter, can_frame, handle_message}
use n2k.Adapter.CanAdapter.Frames.{frame_bytes}

-- Messages one after the other, with the times at which they come.
unfoldable pub receive : CanAdapter → List (ℕ × Frame) → Option (CanAdapter × List Packet)
receive c [] = some (c, [])
receive c ((now, f) ∷ fs) = handle_message c now (can_frame f) >>= λ (c₁, out).
    (receive c₁ fs >>= λ (c₂, outs). some (c₂, out ++ outs))

-- Frame numbers from 1 to `n`, none of them seen before.
abbrev pub Fresh : ℕ → List ℕ → List ℕ → Type 0
Fresh n seen [] = Unit {0}
Fresh n seen (k ∷ ks) = (k ≢ 0) × (k ≤ n) × (contains seen k ≡ false) × Fresh n (k ∷ seen) ks

abbrev pub seen_after : List ℕ → List ℕ → List ℕ
seen_after seen [] = seen
seen_after seen (k ∷ ks) = seen_after (k ∷ seen) ks

-- The frame that comes last.
abbrev pub last : ℕ → List ℕ → ℕ
last k [] = k
last k (j ∷ js) = last j js

-- What `get_seq_frame` makes of frame `k`.
abbrev pub packet_of : MessageInfo → ℕ → List ℕ → ℕ → Packet
packet_of info seq_id d k = record (fresh_packet info (frame_bytes seq_id d k)) {
  seq_id = seq_id;
  frame_num = k;
}

-- The packet that goes to the handler, once frame `k` has completed it.
abbrev pub delivered : MessageInfo → ℕ → List ℕ → ℕ → Packet
delivered info seq_id d k = record (packet_of info seq_id d k) { payload = d; complete = true }

module _ (info : MessageInfo) (seq_id : ℕ) (d : List ℕ) (seq_fits : seq_id < 8) where
  pub numbered_lem :
      (k : ℕ)
      → k < 32
      → numbered (fresh_packet info (frame_bytes seq_id d k)) ≡ packet_of info seq_id d k
  numbered_lem zero small =
      let high : seq_id * 32 / 32 % 8 ≡ seq_id = omega arith in
      let low : seq_id * 32 % 32 ≡ 0 = omega arith in rw (high, low)
  numbered_lem (suc k) small =
      let high : (seq_id * 32 + suc k) / 32 % 8 ≡ seq_id = omega arith in
      let low : (seq_id * 32 + suc k) % 32 ≡ suc k = omega arith in rw (high, low)

  pub packet_of-IsFrame : (k : ℕ) → IsFrame d k (packet_of info seq_id d k)
  packet_of-IsFrame zero = record {
    eight = refl;
    number = refl;
    total = λ e. refl;
    first = λ e. refl;
    later = λ ne. absurd (ne refl);
  }
  packet_of-IsFrame (suc k) = record {
    eight = refl;
    number = refl;
    total = λ e. absurd (omega arith);
    first = λ e. absurd (omega arith);
    later = λ ne. refl;
  }
