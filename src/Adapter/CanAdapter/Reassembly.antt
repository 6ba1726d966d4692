-- ===== src/Adapter/CanAdapter/Reassembly.antt =====
-- internal/adapter/canadapter/canadapter.go, `HandleMessage`: one payload is handed out once, when
-- its last frame has come.
use n2k.Prelude.{
  ℕ, ◌+◌, ◌≤◌, ◌<◌, ◌≡◌, ◌≢◌, refl, sym, subst, Bool, true, false, List, [], ◌∷◌, ◌++◌, map, Option,
  none, some, arith, if◌then◌else◌, length, ==_refl,
}
use mathlib.Core.Option.{some-injective}
use n2k.Converter.{Frame}
use n2k.Pgn.{is_fast}
use n2k.Packet.{MessageInfo, Packet, new_packet}
use n2k.Packet.Laws.{numbered, fresh_packet, new_packet_lem}
use n2k.Adapter.Sequence
use n2k.Adapter.Sequence.{Sequence, complete}
use n2k.Adapter.Sequence.Invariant.{IsValid}
use n2k.Adapter.Sequence.Progress.{contains, Progress, add-Progress_zero, add-Progress_next}
use n2k.Adapter.Sequence.Complete.{frames_after, complete-short, complete-done}
use n2k.Adapter.MultiBuilder.{Sequences, update, seq_for}
use n2k.Adapter.MultiBuilder.Laws.{AllValid, seq_for-IsValid, update-AllValid, add_steps}
use n2k.Adapter.CanAdapter.{
  CanAdapter, can_frame, extract_message_info, assemble, has_errors, handle_packet, handle_message,
}
use n2k.Adapter.CanAdapter.Frames.{frame_bytes, frame_of, length-frame_bytes}
use n2k.Adapter.CanAdapter.Receiving.{
  receive, Fresh, seen_after, last, packet_of, delivered, numbered_lem, packet_of-IsFrame,
}

module _ (info : MessageInfo) (seq_id : ℕ) (d : List ℕ) (seq_fits : seq_id < 8)
    (fast : is_fast info.pgn ≡ true) (known : info.pgn ≢ 0) where
  -- A frame's packet, before and after its first byte is read.
  abbrev raw : ℕ → Packet
  raw k = fresh_packet info (frame_bytes seq_id d k)

  assemble_steps :
      (m : Sequences) (k : ℕ) (s : Sequence) (done : Bool) (p : Packet)
      → k < 32
      → Sequence.add (seq_for m (packet_of info seq_id d k)) (packet_of info seq_id d k) ≡ some s
      → complete s (packet_of info seq_id d k) ≡ some (done, p)
      → assemble m (raw k)
        ≡ some (update m p.info.source_id p.info.pgn p.seq_id (if done then none else some s), p)
  unfolding assemble
  assemble_steps m k s done p small added completed = rw fast (
      add_steps m (raw k) p s done (omega (arith, length-frame_bytes seq_id d k))
        (subst (λ q. Sequence.add (seq_for m q) q ≡ some s) (sym same) added)
        (subst (λ q. complete s q ≡ some (done, p)) (sym same) completed))
    where
      same : numbered (raw k) ≡ packet_of info seq_id d k
      same = numbered_lem info seq_id d seq_fits k small

  new_raw : (k : ℕ) → new_packet info (frame_bytes seq_id d k) ≡ raw k
  new_raw k =
      new_packet_lem info (frame_bytes seq_id d k) known
        (omega (arith, length-frame_bytes seq_id d k))

  handle_more :
      (c : CanAdapter) (k : ℕ) (s : Sequence)
      → k < 32
      → Sequence.add (seq_for c.multi (packet_of info seq_id d k)) (packet_of info seq_id d k)
        ≡ some s
      → complete s (packet_of info seq_id d k)
        ≡ some (false, record (packet_of info seq_id d k) { complete = false })
      → handle_packet c (new_packet info (frame_bytes seq_id d k))
        ≡ some (record c { multi = update c.multi info.source_id info.pgn seq_id (some s) }, [])
  unfolding handle_packet has_errors
  handle_more c k s small added completed =
      rw (new_raw k, assemble_steps c.multi k s false _ small added completed)

  handle_last :
      (c : CanAdapter) (k : ℕ) (s : Sequence)
      → c.handler ≡ true
      → k < 32
      → Sequence.add (seq_for c.multi (packet_of info seq_id d k)) (packet_of info seq_id d k)
        ≡ some s
      → complete s (packet_of info seq_id d k) ≡ some (true, delivered info seq_id d k)
      → handle_packet c (new_packet info (frame_bytes seq_id d k))
        ≡ some (
          record c { multi = update c.multi info.source_id info.pgn seq_id none },
          delivered info seq_id d k ∷ [],
        )
  unfolding handle_packet has_errors
  handle_last c k s listening small added completed =
      rw (new_raw k, assemble_steps c.multi k s true _ small added completed, listening)

update_self :
    (m : Sequences) (a b c : ℕ) (entry : Option Sequence) → update m a b c entry a b c ≡ entry
update_self m a b c entry = rw (==_refl a, ==_refl b, ==_refl c)

entry-AllValid :
    (m : Sequences) (a b c : ℕ) (s : Sequence)
    → AllValid m
    → IsValid s
    → AllValid (update m a b c (some s))
entry-AllValid m a b c s v w =
    update-AllValid m a b c (some s) v (λ t e. subst IsValid (some-injective s t e) w)

seq_for-some :
    (m : Sequences) (p : Packet) (s : Sequence)
    → m p.info.source_id p.info.pgn p.seq_id ≡ some s
    → seq_for m p ≡ s
unfolding seq_for
seq_for-some m p s e = rw (e, seq_for)

module _ (info : MessageInfo) (can_id seq_id : ℕ) (d : List ℕ) (times : ℕ → ℕ)
    (seq_fits : seq_id < 8) (fast : is_fast info.pgn ≡ true) (known : info.pgn ≢ 0)
    (few : frames_after d ≤ 31)
    (decodes : (t k : ℕ)
      → extract_message_info t (frame_of seq_id can_id d k) ≡ record info { timestamp = t }) where
  abbrev at : ℕ → MessageInfo
  at k = record info { timestamp = times k }

  abbrev timed : ℕ → ℕ × Frame
  timed k = (times k, frame_of seq_id can_id d k)

  message_lem :
      (c : CanAdapter) (k : ℕ)
      → handle_message c (times k) (can_frame (frame_of seq_id can_id d k))
        ≡ handle_packet c (new_packet (at k) (frame_bytes seq_id d k))
  unfolding handle_message
  message_lem c k = rw (decodes (times k) k)

  receive_step :
      (c c₁ c₂ : CanAdapter) (k : ℕ) (fs : List (ℕ × Frame)) (out outs : List Packet)
      → handle_packet c (new_packet (at k) (frame_bytes seq_id d k)) ≡ some (c₁, out)
      → receive c₁ fs ≡ some (c₂, outs)
      → receive c (timed k ∷ fs) ≡ some (c₂, out ++ outs)
  receive_step c c₁ c₂ k fs out outs first rest =
      unfold receive in rw (message_lem c k, first, rest)

  -- One more frame into its sequence.
  advance :
      (c : CanAdapter) (k : ℕ) (order : List ℕ) (s : Sequence)
      → c.multi info.source_id info.pgn seq_id ≡ some s
      → Progress d order s
      → k ≢ 0
      → k ≤ frames_after d
      → contains order k ≡ false
      → (s' : Sequence) × (Sequence.add
            (seq_for c.multi (packet_of (at k) seq_id d k))
            (packet_of (at k) seq_id d k)
          ≡ some s')
        × Progress d (k ∷ order) s'
  advance c k order s entry pr later small new =
      rw (seq_for-some c.multi (packet_of (at k) seq_id d k) s entry) (
        add-Progress_next d s (packet_of (at k) seq_id d k) order k pr
          (packet_of-IsFrame (at k) seq_id d seq_fits k) later (omega arith) new)

  receive_rest :
      (ks order : List ℕ) (k₀ : ℕ) (c : CanAdapter) (s : Sequence)
      → c.handler ≡ true
      → AllValid c.multi
      → c.multi info.source_id info.pgn seq_id ≡ some s
      → Progress d order s
      → Fresh (frames_after d) order ks
      → length order + length ks ≡ frames_after d
      → ((k : ℕ) → 1 ≤ k → k ≤ frames_after d → contains (seen_after order ks) k ≡ true)
      → 0 < length ks
      → (m : Sequences) × AllValid m
        × (receive c (map timed ks)
            ≡ some (record c { multi = m }, delivered (at (last k₀ ks)) seq_id d (last k₀ ks) ∷ []))
  receive_rest [] order k₀ c s listening v entry pr fresh size covers some_left =
      absurd (omega arith)
  receive_rest (k ∷ []) order k₀ c s listening v entry pr (later, small, new, _) size covers
        some_left =
      let (s', added, pr') = advance c k order s entry pr later small new in
      let done =
        complete-done d s' (packet_of (at k) seq_id d k) (k ∷ order) pr' (omega arith) few covers in
      (
        update c.multi info.source_id info.pgn seq_id none,
        update-AllValid c.multi info.source_id info.pgn seq_id none v (λ t e. cc),
        receive_step c _ _ k [] _ []
            (handle_last (at k) seq_id d seq_fits fast known c k s' listening (omega arith) added
              done)
            (unfold receive in refl),
      )
  receive_rest (k ∷ j ∷ ks) order k₀ c s listening v entry pr (later, small, new, fresh) size covers
        some_left =
      let (s', added, pr') = advance c k order s entry pr later small new in
      let waits = complete-short d s' (packet_of (at k) seq_id d k) (k ∷ order) pr' (omega arith) in
      let m₁ = update c.multi info.source_id info.pgn seq_id (some s') in
      let (m, mv, received) =
        receive_rest (j ∷ ks) (k ∷ order) k (record c { multi = m₁ }) s' listening
          (entry-AllValid c.multi info.source_id info.pgn seq_id s' v pr'.is_valid)
          (update_self c.multi info.source_id info.pgn seq_id (some s')) pr' fresh (omega arith)
          covers (omega arith) in
      (
        m,
        mv,
        receive_step c (record c { multi = m₁ }) (record c { multi = m }) k (map timed (j ∷ ks)) []
            _ (handle_more (at k) seq_id d seq_fits fast known c k s' (omega arith) added waits)
            received,
      )

  -- Frame 0 into its sequence, whatever that holds.
  begin :
      (c : CanAdapter)
      → AllValid c.multi
      → (s : Sequence) × (Sequence.add
            (seq_for c.multi (packet_of (at 0) seq_id d 0))
            (packet_of (at 0) seq_id d 0)
          ≡ some s)
        × Progress d [] s
  begin c v =
      add-Progress_zero d (seq_for c.multi (packet_of (at 0) seq_id d 0))
        (packet_of (at 0) seq_id d 0) (seq_for-IsValid c.multi (packet_of (at 0) seq_id d 0) v)
        (packet_of-IsFrame (at 0) seq_id d seq_fits 0)

  -- Frame 0 and then the others in any order: the payload is handed out once, with the last of them.
  pub receive_all :
      (ks : List ℕ) (c : CanAdapter)
      → c.handler ≡ true
      → AllValid c.multi
      → Fresh (frames_after d) [] ks
      → length ks ≡ frames_after d
      → ((k : ℕ) → 1 ≤ k → k ≤ frames_after d → contains (seen_after [] ks) k ≡ true)
      → (m : Sequences) × AllValid m
        × (receive c (map timed (0 ∷ ks))
            ≡ some (record c { multi = m }, delivered (at (last 0 ks)) seq_id d (last 0 ks) ∷ []))
  receive_all [] c listening v fresh size covers =
      let (s, added, pr) = begin c v in
      let done = complete-done d s (packet_of (at 0) seq_id d 0) [] pr size few covers in
      (
        update c.multi info.source_id info.pgn seq_id none,
        update-AllValid c.multi info.source_id info.pgn seq_id none v (λ t e. cc),
        receive_step c _ _ 0 [] _ []
            (handle_last (at 0) seq_id d seq_fits fast known c 0 s listening (omega arith) added
              done)
            (unfold receive in refl),
      )
  receive_all (k ∷ ks) c listening v fresh size covers =
      let (s, added, pr) = begin c v in
      let waits = complete-short d s (packet_of (at 0) seq_id d 0) [] pr (omega arith) in
      let m₁ = update c.multi info.source_id info.pgn seq_id (some s) in
      let (m, mv, received) =
        receive_rest (k ∷ ks) [] 0 (record c { multi = m₁ }) s listening
          (entry-AllValid c.multi info.source_id info.pgn seq_id s v pr.is_valid)
          (update_self c.multi info.source_id info.pgn seq_id (some s)) pr fresh (omega arith)
          covers (omega arith) in
      (
        m,
        mv,
        receive_step c (record c { multi = m₁ }) (record c { multi = m }) 0 (map timed (k ∷ ks)) []
            _ (handle_more (at 0) seq_id d seq_fits fast known c 0 s (omega arith) added waits)
            received,
      )
