-- ===== src/Adapter/MultiBuilder.antt =====
-- internal/adapter/canadapter/multibuilder.go: the sequences in progress, for each source, parameter
-- group and sequence id. The three nested maps are one function of the three keys.
pub mod Laws
use n2k.Prelude.{ℕ, ◌&&◌, Option, none, some, ◌==◌, if◌then◌else◌}
use n2k.Prelude.Fault.{◌>>=◌}
use n2k.Packet.{Packet, get_seq_frame}
use n2k.Adapter.Sequence.{Sequence, new_sequence, complete}
use n2k.Adapter.Sequence

abbrev pub Sequences : Type 0
Sequences = ℕ → ℕ → ℕ → Option Sequence

-- `NewMultiBuilder`.
abbrev pub new_multi_builder : Sequences
new_multi_builder source pgn seq = none

abbrev pub update : Sequences → ℕ → ℕ → ℕ → Option Sequence → Sequences
update m source pgn seq entry source' pgn' seq' =
    if source' == source && (pgn' == pgn && seq' == seq) then entry else m source' pgn' seq'

-- The sequence of a packet, which is new where there is none.
unfoldable pub seq_for : Sequences → Packet → Sequence
seq_for m p = elim (m p.info.source_id p.info.pgn p.seq_id) [ some s ↦ s | none ↦ new_sequence ]

-- `Add` returns the packet, which it changes in place. A sequence that is done is deleted.
unfoldable pub add : Sequences → Packet → Option (Sequences × Packet)
add m p = do
  p₁ ← get_seq_frame p
  s ← Sequence.add (seq_for m p₁) p₁
  (done, p₂) ← complete s p₁
  some (update m p₂.info.source_id p₂.info.pgn p₂.seq_id (if done then none else some s), p₂)
