-- ===== src/Adapter/CanAdapter/Branches.antt =====
-- internal/adapter/canadapter/canadapter.go: every branch of `HandleMessage` and of `WritePgn`.
use n2k.Prelude.{
  ℕ, ◌&&◌, ◌==◌, ◌+◌, ◌-◌, ◌%◌, ◌≤◌, ◌<◌, ◌≡◌, ◌≢◌, refl, ap, ◌∙◌, inl, inr, ◌⊎◌, true, false, List,
  [], ◌∷◌, ◌++◌, none, some, arith, ltb, if◌then◌else◌, Bool-cases, length, replicate, ge→ltb,
  lt→ltb, ltb→lt, ltb→ge,
}
use n2k.Converter.{can_id_from_struct}
use n2k.Pgn.{is_fast}
use n2k.Packet.{MessageInfo, Packet, new_packet}
use n2k.Adapter.MultiBuilder.{Sequences}
use n2k.Adapter.MultiBuilder.Laws.{AllValid, add-AllValid}
use n2k.Adapter.CanAdapter.{
  CanAdapter, Message, can_frame, other, extract_message_info, assemble, has_errors, packet_ready,
  handle_packet, handle_message, send_fast, send_single, write_pgn,
}
use n2k.Adapter.CanAdapter.Sending.{frames_required_le, frames_required_gt, id_of}

-- What a CAN frame is: eight data bytes, of which `length` are in use.
abbrev pub IsFull : Message → Type 0
IsFull (can_frame f) = length f.bytes ≡ 8
IsFull other = Unit {0}

payload-new_packet : (info : MessageInfo) (d : List ℕ) → (new_packet info d).payload ≡ d
unfolding new_packet
payload-new_packet info d = ground arith

assemble-AllValid :
    (m : Sequences) (p : Packet)
    → AllValid m
    → length p.payload ≡ 8
    → (r : Sequences × Packet) × (assemble m p ≡ some r) × AllValid r.0
unfolding assemble
assemble-AllValid m p v eight = elim (Bool-cases (is_fast p.info.pgn)) [
  | inl fast ↦ rw fast (add-AllValid m p v eight)
  | inr single ↦ rw single ((m, record p { complete = true }), refl, v)
]

handle_packet-AllValid :
    (c : CanAdapter) (p : Packet)
    → AllValid c.multi
    → length p.payload ≡ 8
    → (r : CanAdapter × List Packet) × (handle_packet c p ≡ some r) × AllValid r.0.multi
unfolding handle_packet
handle_packet-AllValid c p v eight = elim (Bool-cases (has_errors p)) [
  | inl bad ↦ rw bad ((c, packet_ready c p), refl, v)
  | inr good ↦
      let ((m, p'), assembled, mv) = assemble-AllValid c.multi p v eight in
      (
        (record c { multi = m }, if p'.complete then packet_ready c p' else []),
        rw (good, assembled),
        mv,
      )
]

-- While the sequences in progress are valid, no message makes `handle_message` panic, a frame having
-- eight data bytes, and the sequences stay valid.
pub handle_message-AllValid :
    (c : CanAdapter) (now : ℕ) (msg : Message)
    → AllValid c.multi
    → IsFull msg
    → (r : CanAdapter × List Packet) × (handle_message c now msg ≡ some r) × AllValid r.0.multi
unfolding handle_message
handle_message-AllValid c now (can_frame f) v full =
    let info = extract_message_info now f in
    handle_packet-AllValid c (new_packet info f.bytes) v
      (ap length (payload-new_packet info f.bytes) ∙ full)
handle_message-AllValid c now other v full = ((c, []), refl, v)

-- `write_pgn` refuses exactly a fast payload of more than 223 bytes and a single one of more than 8:
-- it then returns an error, sends nothing and leaves the adapter as it was, and otherwise returns no
-- error.
pub write_pgn_refuses :
    (c : CanAdapter) (info : MessageInfo) (d : List ℕ)
    → let sent = write_pgn c info d in
      let limit : ℕ = if is_fast info.pgn then 223 else 8 in
      ((limit < length d) × (sent.error ≢ none) × (sent.frames ≡ []) × (sent.adapter ≡ c))
      ⊎ ((length d ≤ limit) × (sent.error ≡ none))
unfolding write_pgn send_fast send_single
write_pgn_refuses c info d = elim (Bool-cases (is_fast info.pgn)) [
  | inl fast ↦ rw fast (elim (Bool-cases (ltb 223 (length d))) [
    | inl big ↦
        let over : 223 < length d = ltb→lt _ _ big in
        rw (lt→ltb 31 _ (frames_required_gt (length d) over)) (inl (over, (λ e. cc), refl, refl))
    | inr small ↦
        let under : length d ≤ 223 = ltb→ge _ _ small in
        rw (ge→ltb 31 _ (frames_required_le (length d) under)) (inr (under, refl))
  ])
  | inr single ↦ rw single (elim (Bool-cases (ltb 8 (length d))) [
    | inl big ↦ rw big (inl (ltb→lt _ _ big, (λ e. cc), refl, refl))
    | inr small ↦ rw small (inr (ltb→ge _ _ small, refl))
  ])
]

-- With a writer set, a payload of at most 8 bytes of a group that is not fast goes out as one frame, with
-- the identifier, the length, the payload and 0xFF in the bytes that are left, and the adapter does not change.
pub write_pgn_single :
    (c : CanAdapter) (info : MessageInfo) (d : List ℕ)
    → c.writer ≡ true
    → is_fast info.pgn ≡ false
    → length d ≤ 8
    → ((write_pgn c info d).frames
        ≡ record { id = id_of info; length = length d; bytes = d ++ replicate (8 - length d) 0xFF }
          ∷ [])
      × ((write_pgn c info d).adapter ≡ c)
unfolding write_pgn send_single can_id_from_struct
write_pgn_single c info d writing single small =
    let size : length d % 256 ≡ length d = omega arith in
    rw (single, ge→ltb 8 (length d) small, writing, size) (refl, refl)

-- A fast packet of at most 223 bytes takes the sequence id of its source and group, where it is below 8,
-- to the next of 0 to 6, and leaves those of other sources and groups.
pub write_pgn_seq_id :
    (c : CanAdapter) (info : MessageInfo) (d : List ℕ) (source pgn : ℕ)
    → is_fast info.pgn ≡ true
    → length d ≤ 223
    → c.seq_id_map info.source_id info.pgn < 8
    → (write_pgn c info d).adapter.seq_id_map source pgn ≡ (
        if source == info.source_id && pgn == info.pgn
        then (c.seq_id_map info.source_id info.pgn + 1) % 7
        else c.seq_id_map source pgn)
unfolding write_pgn send_fast
write_pgn_seq_id c info d source pgn fast small seq_fits =
    rw (fast, ge→ltb 31 _ (frames_required_le (length d) small)) (ground arith)
