-- ===== src/Service/Handling.antt =====
-- internal/n2kinternal/n2kinternal.go: a live message on its way through the queue, the adapter, the decoders and
-- the subscribers, with what is counted and measured on the way.
pub mod Kept
pub mod Enqueue
pub mod Pipeline
pub mod Ordered
pub mod Behind
pub mod Dropped
pub mod Stale
mod Tests
use n2k.Prelude.{
  ℕ, suc, ◌+◌, ◌-◌, ◌*◌, ◌^◌, ◌%◌, Bool, true, false, ◌&&◌, not, List, [], ◌∷◌, ◌++◌, Option, none,
  some, ltb, leb, ◌==◌, if◌then◌else◌, u64, Bytes,
}
use n2k.Prelude.Fault.{◌>>=◌}
use n2k.Prelude.Results.{Result}
use n2k.Converter.{Frame, decode_can_id}
use n2k.DataStream.{DataStream}
use n2k.Packet.{MessageInfo, Packet}
use n2k.Packet.Handler
use n2k.Packet.Handler.{Delivered}
use n2k.Adapter.CanAdapter
use n2k.Adapter.CanAdapter.{
  CanAdapter, Message, can_frame, other, new_can_adapter, set_output, set_writer,
}
use n2k.Subscribe
use n2k.Subscribe.{SubscribeManager, Name, Call, new_manager}
use n2k.Service.Queue.{
  QueuedMessage, MessageQueue, MessageQueueStats, new_message_queue, stats, max_duration,
  enqueue_if_current, discard,
}
use n2k.Service.Metrics.{
  ProcessingMetrics, ProcessingMetricsSnapshot, Text, new_processing_metrics, observe_frame,
  observe_packet, observe_subscriber, observe_callback, callback_started, callback_finished,
  observe_queue_wait, snapshot,
}

-- What is not the service's own: the readings of the clock, one after the other; the generated decoders; what reflection
-- tells; and the formatting.
pub record Environment (E V : Type 0) : Type 1 where
  pub clock : ℕ → ℕ
  pub find_decoder : DataStream → ℕ → Result E (MessageInfo → Result E V)
  pub type_of : Delivered E V → ℕ
  pub name_of : ℕ → Name
  pub implements : ℕ → ℕ → Bool
  pub callback_name : ℕ → Bytes
  pub text : Text

pub record QueueSnapshot : Type 0 where
  pub depth : ℕ
  pub oldest_age : ℕ
  pub processing_age : ℕ
  pub lag : ℕ

-- The fields of the line that says that the queue is falling behind.
pub record Warning : Type 0 where
  pub queue : QueueSnapshot
  pub max_age : ℕ
  pub dropped_interval : ℕ
  pub dropped_total : ℕ
  pub backlog_dropped_interval : ℕ
  pub backlog_dropped_total : ℕ
  pub stale_dropped_interval : ℕ
  pub stale_dropped_total : ℕ
  pub metrics : ProcessingMetricsSnapshot

-- What the service does to others: the hook's calls, the callbacks' calls and the lines of the log.
pub data Event (E V : Type 0) : Type 0 where
  hooked : Frame → Event E V
  called : Delivered E V → Call → Event E V
  warned : Warning → Event E V

pub record QueueLog : Type 0 where
  pub last_log : Option ℕ
  pub last_dropped : ℕ
  pub last_backlog_dropped : ℕ
  pub last_stale_dropped : ℕ

-- `running` tells whether `processorCancel` is set, `waiting_count` is the count of the wait group, and `reads`
-- the number of times that the clock was read.
pub record N2kService (E V : Type 0) : Type 0 where
  pub adapter : CanAdapter
  pub replay_adapter : Option CanAdapter
  pub subscriber : SubscribeManager
  pub hook : Bool
  pub logger : Bool
  pub queue : MessageQueue Message
  pub max_age : ℕ
  pub processing_nano : ℕ
  pub dropped : ℕ
  pub backlog_dropped : ℕ
  pub stale_dropped : ℕ
  pub waiting_count : ℕ
  pub metrics : ProcessingMetrics
  pub running : Bool
  pub log : QueueLog
  pub reads : ℕ
  pub events : List (Event E V)

abbrev pub message_queue_log_interval : ℕ
message_queue_log_interval = 1_000_000_000

abbrev pub default_message_queue_max_age : ℕ
default_message_queue_max_age = 500_000_000

module _ {E V : Type 0} (env : Environment E V) where
  -- `time.Now()`.
  abbrev pub now : N2kService E V → ℕ
  now s = env.clock s.reads

  abbrev pub tick : N2kService E V → N2kService E V
  tick s = record s { reads = suc s.reads }

  -- `NewN2kService`; the metrics read the clock.
  unfoldable pub new_n2k_service : Bool → ℕ → N2kService E V
  new_n2k_service logger max_age = record {
    adapter = set_writer (set_output new_can_adapter);
    replay_adapter = none;
    subscriber = new_manager;
    hook = false;
    logger = logger;
    queue = new_message_queue;
    max_age = max_age;
    processing_nano = 0;
    dropped = 0;
    backlog_dropped = 0;
    stale_dropped = 0;
    waiting_count = 0;
    metrics = new_processing_metrics (env.clock 0);
    running = false;
    log = record {
      last_log = none;
      last_dropped = 0;
      last_backlog_dropped = 0;
      last_stale_dropped = 0;
    };
    reads = 1;
    events = [];
  }

  abbrev pub measure : (ProcessingMetrics → ProcessingMetrics) → N2kService E V → N2kService E V
  measure f s = record s { metrics = f s.metrics }

  -- A call of a callback, between the reports to the observer.
  unfoldable pub observe_call : Delivered E V → Name → Call → N2kService E V → N2kService E V
  observe_call v name c s =
      let callback = env.callback_name c.function in
      let start = now s in
      let started = measure (callback_started name callback (now (tick s))) (tick (tick s)) in
      let ended =
        measure callback_finished
          (record started { events = started.events ++ (called v c ∷ []) }) in
      measure (observe_callback name callback (now ended - start)) (tick ended)

  unfoldable pub observe_calls : Delivered E V → Name → List Call → N2kService E V → N2kService E V
  observe_calls v name [] s = s
  observe_calls v name (c ∷ cs) s = observe_calls v name cs (observe_call v name c s)

  -- `HandleStruct`; `none` is a panic.
  unfoldable pub handle_struct : Delivered E V → N2kService E V → Option (N2kService E V)
  handle_struct v s =
      let t = env.type_of v in
      let (calls, through) = Subscribe.handle_struct env.implements t env.name_of s.subscriber in
      let called = observe_calls v (env.name_of t) calls (tick s) in
      if through
      then some (measure (observe_subscriber (now called - now s)) (tick called))
      else none

  unfoldable pub handle_packet : Packet → N2kService E V → Option (N2kService E V)
  handle_packet p s = do
    v ← Handler.handle_packet env.find_decoder p
    after ← handle_struct v (tick s)
    some (measure (observe_packet (now after - now s)) (tick after))

  unfoldable pub handle_packets : List Packet → N2kService E V → Option (N2kService E V)
  handle_packets [] s = some s
  handle_packets (p ∷ ps) s = handle_packet p s >>= handle_packets ps

  -- `messagePGN`, whose decoding reads the clock.
  unfoldable pub message_pgn : Message → N2kService E V → Option ℕ × N2kService E V
  message_pgn (can_frame f) s = (some (decode_can_id (now s) f.id).pgn, tick s)
  message_pgn other s = (none, s)

  abbrev pub tick_message : Message → N2kService E V → N2kService E V
  tick_message (can_frame f) s = tick s
  tick_message other s = s

  -- The adapter's `HandleMessage`, which reads the clock for a frame, and the packets that it hands on.
  unfoldable pub adapt : Message → N2kService E V → Option (N2kService E V)
  adapt m s = do
    (c, packets) ← CanAdapter.handle_message s.adapter (now s) m
    handle_packets packets (record (tick_message m s) { adapter = c })

  unfoldable pub process_message : Message → N2kService E V → Option (N2kService E V)
  process_message m s = do
    let (pgn, s') = message_pgn m s
    after ← adapt m (tick s')
    some (measure (observe_frame pgn (now after - now s')) (tick after))

  -- The age of a message that is processed: a time of 0 stands for none.
  unfoldable pub message_queue_processing_age : ℕ → N2kService E V → ℕ
  message_queue_processing_age t s = if s.processing_nano == 0 then 0 else t - s.processing_nano

  unfoldable pub message_queue_stats : ℕ → N2kService E V → QueueSnapshot
  message_queue_stats t s =
      let queue_stats = stats t s.queue in
      let processing_age = message_queue_processing_age t s in
      record {
        depth = queue_stats.depth;
        oldest_age = queue_stats.oldest_age;
        processing_age = processing_age;
        lag = max_duration queue_stats.oldest_age processing_age;
      }

  -- Whether a line was logged less than a second ago.
  abbrev pub logged_recently : ℕ → Option ℕ → Bool
  logged_recently t none = false
  logged_recently t (some last) = ltb (t - last) message_queue_log_interval

  -- The difference of two counters of 64 bits.
  abbrev pub interval_of : ℕ → ℕ → ℕ
  interval_of total last = u64 (total + 2 ^ 64 - last)

  unfoldable pub log_backlog : ℕ → QueueSnapshot → N2kService E V → N2kService E V
  log_backlog t queue_stats s =
      let (seen, metrics) = snapshot env.text t s.metrics in
      record s {
        log = record {
          last_log = some t;
          last_dropped = s.dropped;
          last_backlog_dropped = s.backlog_dropped;
          last_stale_dropped = s.stale_dropped;
        };
        metrics = metrics;
        events =
            s.events
            ++ (warned (record {
              queue = queue_stats;
              max_age = s.max_age;
              dropped_interval = interval_of s.dropped s.log.last_dropped;
              dropped_total = s.dropped;
              backlog_dropped_interval = interval_of s.backlog_dropped s.log.last_backlog_dropped;
              backlog_dropped_total = s.backlog_dropped;
              stale_dropped_interval = interval_of s.stale_dropped s.log.last_stale_dropped;
              stale_dropped_total = s.stale_dropped;
              metrics = seen;
            })
                ∷ []);
      }

  unfoldable pub maybe_log_message_queue_backlog : N2kService E V → N2kService E V
  maybe_log_message_queue_backlog s =
      let t = now s in
      let queue_stats = message_queue_stats t s in
      let quiet = interval_of s.dropped s.log.last_dropped == 0 && leb queue_stats.lag s.max_age in
      if not s.logger
      then s
      else if logged_recently t s.log.last_log
      then tick s
      else if quiet
      then tick s
      else log_backlog t queue_stats (tick s)

  -- The hook gets the frames that come in live.
  unfoldable pub run_hook : Message → N2kService E V → N2kService E V
  run_hook (can_frame f) s = if s.hook then record s { events = s.events ++ (hooked f ∷ []) } else s
  run_hook other s = s

  -- A message that the queue refuses.
  unfoldable pub drop_backlog : N2kService E V → N2kService E V
  drop_backlog s =
      maybe_log_message_queue_backlog
        (record s { dropped = u64 (s.dropped + 1); backlog_dropped = u64 (s.backlog_dropped + 1) })

  unfoldable pub enqueue_message : ℕ → Message → N2kService E V → N2kService E V
  enqueue_message enqueued_at m s =
      let ((accepted, seen), q) =
        enqueue_if_current (record { message = some m; enqueued_at = enqueued_at }) s.max_age
          (message_queue_processing_age enqueued_at s) s.queue in
      let queued = record s { queue = q; waiting_count = s.waiting_count + 1 } in
      if not accepted
      then drop_backlog (record s { queue = q })
      else if ltb s.max_age seen.lag
      then maybe_log_message_queue_backlog queued
      else queued

  -- Whether the message is handled at once or queued; its copy is the message, for frames are values here.
  unfoldable pub handle_message : Message → N2kService E V → Option (N2kService E V)
  handle_message m s =
      let s' = run_hook m s in
      if s.running then some (enqueue_message (now s') m (tick s')) else process_message m (tick s')

  -- The start of `processQueuedMessage`, up to the decision, which is whether the message goes on.
  unfoldable pub begin_queued : QueuedMessage Message → N2kService E V → Bool × N2kService E V
  begin_queued queued s =
      let queue_wait = now s - queued.enqueued_at in
      let s' =
        measure (observe_queue_wait queue_wait)
          (tick (record s { processing_nano = queued.enqueued_at })) in
      if ltb s.max_age queue_wait
      then (
        false,
        maybe_log_message_queue_backlog (record s' {
          dropped = u64 (s.dropped + 1);
          stale_dropped = u64 (s.stale_dropped + 1);
        }),
      )
      else (true, s')

  abbrev pub process_present : Option Message → N2kService E V → Option (N2kService E V)
  process_present none s = process_message other s
  process_present (some m) s = process_message m s

  abbrev pub clear_processing : N2kService E V → N2kService E V
  clear_processing s = record s { processing_nano = 0 }

  -- The rest of it.
  unfoldable pub end_queued :
      Bool → QueuedMessage Message → N2kService E V → Option (N2kService E V)
  end_queued false queued s = some (clear_processing s)
  end_queued true queued s =
      process_present queued.message s >>= λ after. some (clear_processing after)

  unfoldable pub process_queued_message :
      QueuedMessage Message → N2kService E V → Option (N2kService E V)
  process_queued_message queued s =
      let (current, begun) = begin_queued queued s in end_queued current queued begun

  -- `messageQueueWG.Done()`, and the log line where the ticker has a tick.
  unfoldable pub finish_round : Bool → N2kService E V → N2kService E V
  finish_round ticked s =
      let finished = record s { waiting_count = s.waiting_count - 1 } in
      if ticked then maybe_log_message_queue_backlog finished else finished

  unfoldable pub discard_queued_messages : N2kService E V → N2kService E V
  discard_queued_messages s =
      let (count, q) = discard s.queue in
      record s { queue = q; waiting_count = s.waiting_count - count }

  abbrev pub replay : Option CanAdapter → CanAdapter
  replay none = set_output new_can_adapter
  replay (some c) = c

  -- The replay adapter's frames go the way of the live ones from the adapter on.
  unfoldable pub handle_replay_can_frame : Frame → N2kService E V → Option (N2kService E V)
  handle_replay_can_frame f s = do
    (c, packets) ← CanAdapter.handle_message (replay s.replay_adapter) (now s) (can_frame f)
    handle_packets packets (record (tick s) { replay_adapter = some c })

  abbrev pub message_queue_lag : N2kService E V → ℕ
  message_queue_lag s = (message_queue_stats (now s) s).lag

  abbrev pub set_received_can_frame_hook : N2kService E V → N2kService E V
  set_received_can_frame_hook s = record s { hook = true }
