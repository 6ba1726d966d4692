-- ===== src/Endpoint/SocketCan.antt =====
-- pkg/endpoint/socketcanendpoint/socketcanendpoint.go: the way of a frame to the SocketCAN channel, through
-- two queues and one goroutine that writes. A time is a number of nanoseconds of one clock; the channel's
-- answers are arguments.
pub mod Retry
pub mod Sound
pub mod Reachable
pub mod Balance
pub mod Ordered
pub mod Sending
mod Tests
use n2k.Prelude.{
  ℕ, zero, suc, ◌+◌, ◌-◌, ◌*◌, bit_or, Bool, true, false, ◌&&◌, ◌||◌, not, List, [], ◌∷◌, ◌++◌,
  Option, none, some, ltb, leb, ◌==◌, if◌then◌else◌, length, get_or, ◌≡◌, ◌<<<◌,
}
use n2k.Converter.{Frame, decode_can_id}

-- `outboundSocketCANFrame`; no time is the zero time.
pub record Outbound : Type 0 where
  pub frame : Frame
  pub enqueued_at : Option ℕ
  pub attempt : ℕ

-- `socketCANOutboundQueueSize`.
abbrev pub queue_size : ℕ
queue_size = 2048

-- `socketCANOutboundLagTTL`.
abbrev pub lag_ttl : ℕ
lag_ttl = 5_000_000_000

-- `requestedPGNFromISORequestFrame`.
unfoldable pub requested_pgn : Frame → Option ℕ
requested_pgn f =
    if ltb f.length 3
    then none
    else some (
        bit_or (bit_or (get_or f.bytes 0 0) (get_or f.bytes 1 0 <<< 8)) (get_or f.bytes 2 0 <<< 16))

-- `isDiscoveryRequestedPGN`.
unfoldable pub is_discovery : ℕ → Bool
is_discovery pgn = pgn == 60928 || (pgn == 126996 || (pgn == 126998 || pgn == 126464))

abbrev pub is_discovery_request : Option ℕ → Bool
is_discovery_request none = false
is_discovery_request (some pgn) = is_discovery pgn

-- `isLowPrioritySocketCANFrame`. The time of decoding is not used.
unfoldable pub is_low_priority : Frame → Bool
is_low_priority f =
    let pgn = (decode_can_id 0 f.id).pgn in
    if pgn == 59904
    then is_discovery_request (requested_pgn f)
    else (pgn == 126996 || (pgn == 126998 || pgn == 126464))

-- `socketCANRetryPolicy`.
pub record RetryPolicy : Type 0 where
  pub initial_delay : ℕ
  pub max_delay : ℕ
  pub requeue_delay : Bool

-- `retryPolicyForSocketCANFrame`.
unfoldable pub retry_policy : Frame → RetryPolicy
retry_policy f =
    if is_low_priority f
    then record { initial_delay = 250_000_000; max_delay = 2_000_000_000; requeue_delay = true }
    else record { initial_delay = 1_000_000; max_delay = 50_000_000; requeue_delay = false }

-- The loop of `socketCANRetryPolicy.delay`.
unfoldable pub delay_loop : ℕ → ℕ → ℕ → ℕ
delay_loop zero max_delay d = d
delay_loop (suc n) max_delay d =
    let rest = delay_loop n max_delay (d * 2) in if leb max_delay (d * 2) then max_delay else rest

-- `socketCANRetryPolicy.delay`.
abbrev pub delay : RetryPolicy → ℕ → ℕ
delay p attempt = delay_loop attempt p.max_delay p.initial_delay

-- Where the goroutine of `runOutboundWriter` stands: before the select that looks for an end, after it, in the
-- last select, with a frame for the channel, or in the timer before its next attempt.
pub data Writer : Type 0 where
  gone top looking waiting : Writer
  sending delaying : Outbound → Writer

-- Where `Run` stands: not called, before `Start`, after it, in `channel.Run`, behind it, or in `<-done`.
pub data Stage : Type 0 where
  idle starting started reading stopping joining : Stage

-- `SocketCANEndpoint`. `done` is whether the channel `done` is closed. `entered` are the calls of WriteFrame
-- before their select, `blocked` those in the select without a default, `requeued` the goroutines of
-- requeueLowPriorityFrame. The contexts of the writers are numbered: `run` is the last, and `ended` says which
-- are over.
pub record SocketCan : Type 0 where
  pub closed : Bool
  pub done : Bool
  pub running : Bool
  pub stage : Stage
  pub entered : List Outbound
  pub blocked : List Outbound
  pub high : List Outbound
  pub low : List Outbound
  pub requeued : List (Outbound × ℕ)
  pub writer : Writer
  pub run : ℕ
  pub ended : ℕ → Bool
  pub lag : ℕ
  pub lag_updated : ℕ
  pub output : Option ℕ

-- `NewSocketCANEndpoint`.
abbrev pub new_socket_can : SocketCan
new_socket_can = record {
  closed = false;
  done = false;
  running = false;
  stage = idle;
  entered = [];
  blocked = [];
  high = [];
  low = [];
  requeued = [];
  writer = gone;
  run = 0;
  ended = λ r. false;
  lag = 0;
  lag_updated = 0;
  output = none;
}

-- `SetOutput`. The handlers are numbered.
abbrev pub set_output : ℕ → SocketCan → SocketCan
set_output handler s = record s { output = some handler }

-- `frameReady`: the handler that is called with the frame.
abbrev pub frame_ready : Frame → SocketCan → List (ℕ × Frame)
frame_ready f s = elim s.output [ none ↦ [] | some handler ↦ (handler, f) ∷ [] ]

-- What happens to a frame: it is in a queue, it was dropped or given up before it was in one, the channel took
-- it or failed, its writer ended while it was delayed, or it found no
-- room when it came back.
pub data Event : Type 0 where
  accepted dropped refused sent failed abandoned lost : Frame → Event

-- Whether a select with an arm that sends and one that waits for `done` sends: where both are ready, either.
abbrev pub sends : Bool → List Outbound → SocketCan → Bool
sends done_first queue s = ltb (length queue) queue_size && not (s.done && done_first)

-- The select of `WriteFrame`.
unfoldable pub offer : Bool → Outbound → SocketCan → List Event × SocketCan
offer done_first item s =
    if is_low_priority item.frame
    then (if sends done_first s.low s
        then (accepted item.frame ∷ [], record s { low = s.low ++ (item ∷ []) })
        else if s.done
        then (refused item.frame ∷ [], s)
        else (dropped item.frame ∷ [], s))
    else if sends done_first s.high s
    then (accepted item.frame ∷ [], record s { high = s.high ++ (item ∷ []) })
    else if s.done
    then (refused item.frame ∷ [], s)
    else ([], record s { blocked = s.blocked ++ (item ∷ []) })

-- Whether the goroutine that writes is to end.
abbrev pub is_over : SocketCan → Bool
is_over s = s.ended s.run || s.done

-- The first select of `runOutboundWriter`.
unfoldable pub check_end : SocketCan → SocketCan
check_end s = record s { writer = if is_over s then gone else looking }

-- The start of `writeQueuedFrame`.
abbrev pub stamp : ℕ → Outbound → Outbound
stamp now item = record item {
  enqueued_at = some (elim item.enqueued_at [ none ↦ now | some t ↦ t ]);
}

-- The second select of `runOutboundWriter`, of the high queue.
abbrev pub look_at : ℕ → List Outbound → SocketCan → SocketCan
look_at now [] s = record s { writer = waiting }
look_at now (item ∷ items) s = record s { high = items; writer = sending (stamp now item) }

unfoldable pub look : ℕ → SocketCan → SocketCan
look now s = look_at now s.high s

-- `recordOutboundLag`, with the clock at its two calls. A lag that would be negative is 0.
unfoldable pub record_outbound_lag : ℕ → ℕ → Outbound → SocketCan → SocketCan
record_outbound_lag now later item s = record s {
  lag = elim item.enqueued_at [ none ↦ s.lag | some t ↦ now - t ];
  lag_updated = elim item.enqueued_at [ none ↦ s.lag_updated | some t ↦ later ];
}

-- `OutboundQueueLag`.
unfoldable pub outbound_queue_lag : ℕ → SocketCan → ℕ
outbound_queue_lag now s =
    if s.lag_updated == 0 || ltb lag_ttl (now - s.lag_updated) then 0 else s.lag

-- What `channel.WriteFrame` returns: nil, an error of a full buffer, or another.
pub data Answer : Type 0 where
  taken full broken : Answer

-- A round of `writeQueuedFrame` up to its timer.
unfoldable pub write_queued_frame : Answer → ℕ → ℕ → Outbound → SocketCan → List Event × SocketCan
write_queued_frame taken now later item s =
    (sent item.frame ∷ [], record (record_outbound_lag now later item s) { writer = top })
write_queued_frame broken now later item s = (failed item.frame ∷ [], record s { writer = top })
write_queued_frame full now later item s =
    let s' = record_outbound_lag now later item s in
    if (retry_policy item.frame).requeue_delay
    then (
      [],
      record s' {
        requeued = s.requeued ++ ((record item { attempt = suc item.attempt }, s.run) ∷ []);
        writer = top;
      },
    )
    else ([], record s' { writer = delaying item })

-- The last select of `requeueLowPriorityFrame`: where the context is over too, either arm.
unfoldable pub requeue : Bool → Outbound → ℕ → SocketCan → List Event × SocketCan
requeue end_first item r s =
    if ltb (length s.low) queue_size && not (s.ended r && end_first)
    then ([], record s { low = s.low ++ (item ∷ []) })
    else if s.ended r
    then (abandoned item.frame ∷ [], s)
    else (lost item.frame ∷ [], s)

-- The context of a writer ends.
unfoldable pub end_context : ℕ → SocketCan → SocketCan
end_context r s = record s { ended = λ k. if k == r then true else s.ended k }

-- A step of a caller of WriteFrame, the writer, Run, Close, or a context, with what it makes of a frame.
pub data Step (s : SocketCan) (es : List Event) (t : SocketCan) : Type 0 where
  -- WriteFrame, with the select after the look at `closed`.
  enter :
      (f : Frame) (now : ℕ)
      → s.closed ≡ false
      → es ≡ []
      → t ≡ record s {
        entered = s.entered ++ (record { frame = f; enqueued_at = some now; attempt = 0 } ∷ []);
      }
      → Step s es t
  offers :
      (done_first : Bool) (item : Outbound) (xs ys : List Outbound)
      → s.entered ≡ xs ++ (item ∷ ys)
      → es ≡ (offer done_first item (record s { entered = xs ++ ys })).0
      → t ≡ (offer done_first item (record s { entered = xs ++ ys })).1
      → Step s es t
  unblock :
      (item : Outbound) (xs ys : List Outbound)
      → s.blocked ≡ xs ++ (item ∷ ys)
      → ltb (length s.high) queue_size ≡ true
      → es ≡ accepted item.frame ∷ []
      → t ≡ record s { blocked = xs ++ ys; high = s.high ++ (item ∷ []) }
      → Step s es t
  give_up :
      (item : Outbound) (xs ys : List Outbound)
      → s.blocked ≡ xs ++ (item ∷ ys)
      → s.done ≡ true
      → es ≡ refused item.frame ∷ []
      → t ≡ record s { blocked = xs ++ ys }
      → Step s es t
  -- The goroutine that writes.
  checks : s.writer ≡ top → es ≡ [] → t ≡ check_end s → Step s es t
  looks : (now : ℕ) → s.writer ≡ looking → es ≡ [] → t ≡ look now s → Step s es t
  takes_high :
      (now : ℕ) (item : Outbound) (items : List Outbound)
      → s.writer ≡ waiting
      → s.high ≡ item ∷ items
      → es ≡ []
      → t ≡ record s { high = items; writer = sending (stamp now item) }
      → Step s es t
  takes_low :
      (now : ℕ) (item : Outbound) (items : List Outbound)
      → s.writer ≡ waiting
      → s.low ≡ item ∷ items
      → es ≡ []
      → t ≡ record s { low = items; writer = sending (stamp now item) }
      → Step s es t
  ends :
      s.writer ≡ waiting → is_over s ≡ true → es ≡ [] → t ≡ record s { writer = gone } → Step s es t
  writes :
      (answer : Answer) (now later : ℕ) (item : Outbound)
      → s.writer ≡ sending item
      → es ≡ (write_queued_frame answer now later item s).0
      → t ≡ (write_queued_frame answer now later item s).1
      → Step s es t
  retries :
      (item : Outbound)
      → s.writer ≡ delaying item
      → es ≡ []
      → t ≡ record s { writer = sending (record item { attempt = suc item.attempt }) }
      → Step s es t
  abandons :
      (item : Outbound)
      → s.writer ≡ delaying item
      → s.ended s.run ≡ true
      → es ≡ abandoned item.frame ∷ []
      → t ≡ record s { writer = top }
      → Step s es t
  requeues :
      (end_first : Bool) (item : Outbound) (r : ℕ) (xs ys : List (Outbound × ℕ))
      → s.requeued ≡ xs ++ ((item, r) ∷ ys)
      → es ≡ (requeue end_first item r (record s { requeued = xs ++ ys })).0
      → t ≡ (requeue end_first item r (record s { requeued = xs ++ ys })).1
      → Step s es t
  forgets :
      (item : Outbound) (r : ℕ) (xs ys : List (Outbound × ℕ))
      → s.requeued ≡ xs ++ ((item, r) ∷ ys)
      → s.ended r ≡ true
      → es ≡ abandoned item.frame ∷ []
      → t ≡ record s { requeued = xs ++ ys }
      → Step s es t
  -- `Run`, and the contexts.
  begins :
      s.running ≡ false
      → s.closed ≡ false
      → es ≡ []
      → t ≡ record s { running = true; stage = starting }
      → Step s es t
  start_fails :
      s.stage ≡ starting → es ≡ [] → t ≡ record s { running = false; stage = idle } → Step s es t
  starts :
      s.stage ≡ starting
      → s.closed ≡ false
      → es ≡ []
      → t ≡ record s { stage = started }
      → Step s es t
  spawns :
      s.stage ≡ started
      → es ≡ []
      → t ≡ record s { writer = top; run = suc s.run; stage = reading }
      → Step s es t
  channel_ends : s.stage ≡ reading → es ≡ [] → t ≡ record s { stage = stopping } → Step s es t
  stops :
      s.stage ≡ stopping
      → es ≡ []
      → t ≡ record (end_context s.run s) { stage = joining }
      → Step s es t
  joins :
      s.stage ≡ joining
      → s.writer ≡ gone
      → es ≡ []
      → t ≡ record s { running = false; stage = idle }
      → Step s es t
  nothing_to_stop :
      s.stage ≡ stopping
      → s.writer ≡ gone
      → es ≡ []
      → t ≡ record s { running = false; stage = idle }
      → Step s es t
  context_ends : (r : ℕ) → es ≡ [] → t ≡ end_context r s → Step s es t
  -- `Close`, before and after the channel `done` is closed.
  closes : es ≡ [] → t ≡ record s { closed = true } → Step s es t
  close_ends : s.closed ≡ true → es ≡ [] → t ≡ record s { done = true } → Step s es t

pub data Run (s : SocketCan) : List Event → SocketCan → Type 0 where
  here : Run s [] s
  next :
      {t u : SocketCan} {ds : List Event} (es fs : List Event)
      → Run s ds t
      → Step t fs u
      → es ≡ ds ++ fs
      → Run s es u
