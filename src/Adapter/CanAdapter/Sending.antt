-- ===== src/Adapter/CanAdapter/Sending.antt =====
-- internal/adapter/canadapter/canadapter.go, `WritePgn`: the frames of a message, and what the
-- receiving side makes of them.
use n2k.Prelude.{
  ℕ, zero, suc, ◌+◌, ◌/◌, ◌%◌, ◌≤◌, ◌<◌, ◌≡◌, refl, ap, ap₂, ◌∙◌, inl, inr, ◌⊎◌, true, List, [],
  ◌∷◌, map, none, some, arith, ◌==◌, Bool-cases, length, get_or, replicate, ge→ltb,
}
use n2k.Prelude.Tabulate.{tabulate}
use n2k.Converter.{Frame, can_id_from_struct, can_id_from_data}
use n2k.Converter.CanId.{FitsId, decode_can_id-can_id_from_data}
use n2k.Pgn.{is_fast}
use n2k.Pgn.Ranges.{is_fast_range}
use n2k.Packet.{MessageInfo}
use n2k.Adapter.Sequence.Progress.{contains}
use n2k.Adapter.Sequence.Complete.{frames_after}
use n2k.Adapter.MultiBuilder.{Sequences}
use n2k.Adapter.MultiBuilder.Laws.{AllValid}
use n2k.Adapter.CanAdapter.{
  CanAdapter, extract_message_info, calc_frames_required, send_fast, write_pgn,
}
use n2k.Adapter.CanAdapter.Frames.{frame_of, build_frames_lem}
use n2k.Adapter.CanAdapter.Receiving.{receive, Fresh, seen_after, last, delivered}
use n2k.Adapter.CanAdapter.Reassembly.{receive_all}

-- The information that an identifier carries unchanged: a PDU1 group has a clear low byte, and a
-- PDU2 group goes to every node.
pub record IsCanonical (info : MessageInfo) : Type 0 where
  pub fits : FitsId info.pgn info.source_id info.priority info.target_id
  pub addressed : info.pgn / 256 % 256 < 240 → info.pgn % 256 ≡ 0
  pub global : 240 ≤ info.pgn / 256 % 256 → info.target_id ≡ 255

abbrev pub id_of : MessageInfo → ℕ
id_of info = can_id_from_data info.pgn info.source_id info.priority info.target_id

decodes :
    (info : MessageInfo) (t : ℕ) (f : Frame)
    → IsCanonical info
    → f.id ≡ id_of info
    → extract_message_info t f ≡ record info { timestamp = t }
unfolding extract_message_info
decodes info t f c e = rw (e, decode_can_id-can_id_from_data t _ _ _ _ c.fits) (ground arith)

-- More than 31 frames after frame 0 are needed exactly for more than 223 bytes.
pub frames_required_le : (n : ℕ) → n ≤ 223 → calc_frames_required n ≤ 31
unfolding calc_frames_required
frames_required_le n h = ground arith

pub frames_required_gt : (n : ℕ) → 223 < n → 31 < calc_frames_required n
unfolding calc_frames_required
frames_required_gt n h = ground arith

-- The frames of a fast packet, and the sequence id for the next.
pub write_pgn_fast :
    (c : CanAdapter) (info : MessageInfo) (d : List ℕ)
    → c.writer ≡ true
    → c.seq_id_map info.source_id info.pgn < 8
    → is_fast info.pgn ≡ true
    → length d ≤ 223
    → ((write_pgn c info d).error ≡ none)
      × ((write_pgn c info d).frames
          ≡ tabulate
              (frame_of (c.seq_id_map info.source_id info.pgn) (id_of info) d)
              0
              (frames_after d + 1))
unfolding write_pgn send_fast can_id_from_struct
write_pgn_fast c info d writing seq_fits fast small =
    rw (fast, ge→ltb 31 (frames_after d) few, writing)
      (
        refl,
        build_frames_lem (c.seq_id_map info.source_id info.pgn) (id_of info) d seq_fits
            (omega arith) (frames_after d + 1) 0 (replicate 8 0) refl (omega (arith, few)),
      )
  where
    few : frames_after d ≤ 31
    few = frames_required_le (length d) small

get_or-tabulate {ℓ} :
    {A : Type ℓ} (f : ℕ → A) (n i k : ℕ) (x : A) → k < n → get_or (tabulate f i n) k x ≡ f (i + k)
get_or-tabulate f zero i k x h = elim h [ ]
get_or-tabulate f (suc n) i zero x h = ap f (omega arith)
get_or-tabulate f (suc n) i (suc k) x h =
    get_or-tabulate f n (i + 1) k x (omega arith) ∙ ap f (omega arith)

-- Each of the frames 1 to `n` once, in any order.
pub record IsArrangement (n : ℕ) (order : List ℕ) : Type 0 where
  pub each : Fresh n [] order
  pub size : length order ≡ n
  pub covers : (k : ℕ) → 1 ≤ k → k ≤ n → contains order k ≡ true

-- Frames picked by their numbers from the list that was sent, with the times at which they come.
abbrev pub arriving : List Frame → (ℕ → ℕ) → List ℕ → List (ℕ × Frame)
arriving frames times order =
    map (λ k. (times k, get_or frames k (record { id = 0; length = 0; bytes = [] }))) order

contains-seen :
    (order seen : List ℕ) (k : ℕ)
    → (contains seen k ≡ true) ⊎ (contains order k ≡ true)
    → contains (seen_after seen order) k ≡ true
contains-seen [] seen k (inl h) = h
contains-seen [] seen k (inr h) = cc
contains-seen (j ∷ order) seen k (inl h) = contains-seen order (j ∷ seen) k (inl (ground arith))
contains-seen (j ∷ order) seen k (inr h) = elim (Bool-cases (j == k)) [
  | inl e ↦ contains-seen order (j ∷ seen) k (inl (rw e))
  | inr e ↦ contains-seen order (j ∷ seen) k (inr (rw e at h))
]

arriving-tabulate :
    (f : ℕ → Frame) (times : ℕ → ℕ) (n : ℕ) (seen order : List ℕ)
    → Fresh n seen order
    → arriving (tabulate f 0 (n + 1)) times order ≡ map (λ k. (times k, f k)) order
arriving-tabulate f times n seen [] h = refl
arriving-tabulate f times n seen (k ∷ order) (_, small, _, h) =
    ap₂ ◌∷◌
      (ap (λ x. (times k, x)) (get_or-tabulate f (n + 1) 0 k _ (omega arith) ∙ ap f (omega arith)))
      (arriving-tabulate f times n (k ∷ seen) order h)

picked :
    (f : ℕ → Frame) (times : ℕ → ℕ) (n : ℕ) (order : List ℕ)
    → Fresh n [] order
    → arriving (tabulate f 0 (n + 1)) times (0 ∷ order) ≡ map (λ k. (times k, f k)) (0 ∷ order)
picked f times n order h =
    ap₂ ◌∷◌ (ap (λ x. (times 0, x)) (get_or-tabulate f (n + 1) 0 0 _ (omega arith)))
      (arriving-tabulate f times n [] order h)

-- A fast packet goes through. The sender has a writer and a sequence id below 8, the receiver a
-- handler and valid sequences in progress, and the message is of a fast group, with at most 223 bytes
-- and information that an identifier carries unchanged. Then `write_pgn` returns no error, and when
-- frame 0 of what it sends comes first and the others once each in any order, the receiver hands out
-- exactly one packet, with the payload and the information as they were sent and the time of the
-- last frame; its sequences stay valid.
pub receive-write_pgn_fast :
    (sender receiver : CanAdapter) (info : MessageInfo) (d : List ℕ) (times : ℕ → ℕ)
    (order : List ℕ)
    → sender.writer ≡ true
    → sender.seq_id_map info.source_id info.pgn < 8
    → receiver.handler ≡ true
    → AllValid receiver.multi
    → IsCanonical info
    → is_fast info.pgn ≡ true
    → length d ≤ 223
    → IsArrangement (calc_frames_required (length d)) order
    → let sent = write_pgn sender info d in
      let at_end = record info { timestamp = times (last 0 order) } in
      (sent.error ≡ none)
      × (m : Sequences) × AllValid m
      × (receive receiver (arriving sent.frames times (0 ∷ order))
          ≡ some (
            record receiver { multi = m },
            delivered at_end (sender.seq_id_map info.source_id info.pgn) d (last 0 order) ∷ [],
          ))
receive-write_pgn_fast sender receiver info d times order writing seq_fits listening v c fast small
      arr =
    let f = frame_of (sender.seq_id_map info.source_id info.pgn) (id_of info) d in
    let (no_error, sent) = write_pgn_fast sender info d writing seq_fits fast small in
    let (m, mv, received) =
      receive_all info (id_of info) (sender.seq_id_map info.source_id info.pgn) d times seq_fits
        fast (λ e. absurd (omega (arith, is_fast_range info.pgn fast)))
        (frames_required_le (length d) small) (λ t k. decodes info t (f k) c refl) order receiver
        listening v arr.each arr.size
        (λ k lo hi. contains-seen order [] k (inr (arr.covers k lo hi))) in
    (
      no_error,
      m,
      mv,
      ap (λ fs. receive receiver (arriving fs times (0 ∷ order))) sent
          ∙ ap (receive receiver) (picked f times (frames_after d) order arr.each)
          ∙ received,
    )
