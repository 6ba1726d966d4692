-- ===== src/Service/Metrics.antt =====
-- internal/n2kinternal/processing_metrics.go: what is measured between two log lines. A duration is a number of
-- nanoseconds, which 63 bits hold for 292 years; the clock is monotonic, so that none is negative.
pub mod Top
pub mod Totals
mod Tests
use n2k.Prelude.{
  ℕ, ◌+◌, ◌-◌, ◌/◌, ◌*◌, ◌^◌, ◌%◌, Bool, true, false, ◌&&◌, not, List, [], ◌∷◌, ◌++◌, Option, none,
  some, ltb, leb, ◌==◌, if◌then◌else◌, length, u64, Bytes, bytes_eq, take, map,
}

pub record DurationStats : Type 0 where
  pub count : ℕ
  pub total : ℕ
  pub max : ℕ

-- `durationStats{}`.
abbrev pub no_stats : DurationStats
no_stats = record { count = 0; total = 0; max = 0 }

unfoldable pub observe : ℕ → DurationStats → DurationStats
observe duration s = record {
  count = u64 (s.count + 1);
  total = s.total + duration;
  max = if ltb s.max duration then duration else s.max;
}

abbrev pub max_int64 : ℕ
max_int64 = 2 ^ 63 - 1

unfoldable pub avg : DurationStats → ℕ
avg s = if s.count == 0 then 0 else if ltb max_int64 s.count then 0 else s.total / s.count

-- The entries of the two maps, in the order in which the keys came; the code's order is any.
pub record PgnCount : Type 0 where
  pub pgn : ℕ
  pub count : ℕ

pub record CallbackStats : Type 0 where
  pub name : Bytes
  pub stats : DurationStats

-- `m.pgns[pgn]++`.
unfoldable pub count_pgn : ℕ → List PgnCount → List PgnCount
count_pgn pgn [] = record { pgn = pgn; count = 1 } ∷ []
count_pgn pgn (x ∷ xs) =
    let rest = count_pgn pgn xs in
    if x.pgn == pgn then record x { count = u64 (x.count + 1) } ∷ xs else x ∷ rest

-- The stats of the name, which are made where there are none.
unfoldable pub observe_name : Bytes → ℕ → List CallbackStats → List CallbackStats
observe_name name duration [] = record { name = name; stats = observe duration no_stats } ∷ []
observe_name name duration (x ∷ xs) =
    let rest = observe_name name duration xs in
    if bytes_eq x.name name then record x { stats = observe duration x.stats } ∷ xs else x ∷ rest

-- The zero time of `inFlightCallbackStart` is `none`.
pub record ProcessingMetrics : Type 0 where
  pub window_start : ℕ
  pub frame_stats : DurationStats
  pub packet_stats : DurationStats
  pub subscriber_stats : DurationStats
  pub callback_stats : DurationStats
  pub queue_wait_stats : DurationStats
  pub pgns : List PgnCount
  pub callbacks : List CallbackStats
  pub in_flight_callback : Bytes
  pub in_flight_callback_start : Option ℕ

unfoldable pub new_processing_metrics : ℕ → ProcessingMetrics
new_processing_metrics now = record {
  window_start = now;
  frame_stats = no_stats;
  packet_stats = no_stats;
  subscriber_stats = no_stats;
  callback_stats = no_stats;
  queue_wait_stats = no_stats;
  pgns = [];
  callbacks = [];
  in_flight_callback = [];
  in_flight_callback_start = none;
}

-- The group of a message that is a frame.
unfoldable pub observe_frame : Option ℕ → ℕ → ProcessingMetrics → ProcessingMetrics
observe_frame none duration m = record m { frame_stats = observe duration m.frame_stats }
observe_frame (some pgn) duration m = record m {
  frame_stats = observe duration m.frame_stats;
  pgns = count_pgn pgn m.pgns;
}

unfoldable pub observe_packet : ℕ → ProcessingMetrics → ProcessingMetrics
observe_packet duration m = record m { packet_stats = observe duration m.packet_stats }

unfoldable pub observe_subscriber : ℕ → ProcessingMetrics → ProcessingMetrics
observe_subscriber duration m = record m { subscriber_stats = observe duration m.subscriber_stats }

-- `structName + "/" + callbackName`.
unfoldable pub callback_key : Bytes → Bytes → Bytes
callback_key struct_name callback_name = struct_name ++ (47 ∷ callback_name)

unfoldable pub observe_callback : Bytes → Bytes → ℕ → ProcessingMetrics → ProcessingMetrics
observe_callback struct_name callback_name duration m = record m {
  callback_stats = observe duration m.callback_stats;
  callbacks = observe_name (callback_key struct_name callback_name) duration m.callbacks;
}

unfoldable pub callback_started : Bytes → Bytes → ℕ → ProcessingMetrics → ProcessingMetrics
callback_started struct_name callback_name now m = record m {
  in_flight_callback = callback_key struct_name callback_name;
  in_flight_callback_start = some now;
}

unfoldable pub callback_finished : ProcessingMetrics → ProcessingMetrics
callback_finished m = record m { in_flight_callback = []; in_flight_callback_start = none }

unfoldable pub observe_queue_wait : ℕ → ProcessingMetrics → ProcessingMetrics
observe_queue_wait duration m = record m { queue_wait_stats = observe duration m.queue_wait_stats }

abbrev pub processing_metrics_top_count : ℕ
processing_metrics_top_count = 5

-- `items[i]` before `items[j]`.
unfoldable pub pgn_before : PgnCount → PgnCount → Bool
pgn_before x y = if x.count == y.count then ltb x.pgn y.pgn else ltb y.count x.count

-- `<` on strings.
unfoldable pub bytes_before : Bytes → Bytes → Bool
bytes_before [] [] = false
bytes_before [] (y ∷ ys) = true
bytes_before (x ∷ xs) [] = false
bytes_before (x ∷ xs) (y ∷ ys) = let rest = bytes_before xs ys in if x == y then rest else ltb x y

unfoldable pub callback_before : CallbackStats → CallbackStats → Bool
callback_before x y =
    if x.stats.total == y.stats.total
    then bytes_before x.name y.name
    else ltb y.stats.total x.stats.total

pub record ProcessingMetricsSnapshot : Type 0 where
  pub interval : ℕ
  pub frame_stats : DurationStats
  pub packet_stats : DurationStats
  pub subscriber_stats : DurationStats
  pub callback_stats : DurationStats
  pub queue_wait_stats : DurationStats
  pub top_pgns : Bytes
  pub top_callbacks : Bytes
  pub in_flight_callback : Bytes
  pub in_flight_callback_age : ℕ

-- `sort.Slice`, `fmt.Sprintf` and `strings.Join`.
pub record Text : Type 1 where
  pub sort : {A : Type 0} → (A → A → Bool) → List A → List A
  pub pgn_text : PgnCount → Bytes
  pub callback_text : CallbackStats → Bytes
  pub join : Bytes → List Bytes → Bytes

-- `items[:limit]` where there are more.
abbrev pub limited {ℓ} : {A : Type ℓ} → ℕ → List A → List A
limited limit items = if ltb limit (length items) then take limit items else items

unfoldable pub format_top_pgns : Text → List PgnCount → ℕ → Bytes
format_top_pgns t counts limit =
    t.join (44 ∷ []) (map t.pgn_text (limited limit (t.sort pgn_before counts)))

unfoldable pub format_top_callbacks : Text → List CallbackStats → ℕ → Bytes
format_top_callbacks t callbacks limit =
    t.join (59 ∷ 32 ∷ []) (map t.callback_text (limited limit (t.sort callback_before callbacks)))

abbrev pub age_since : ℕ → Option ℕ → ℕ
age_since now none = 0
age_since now (some start) = now - start

-- The snapshot, and the metrics that go on: a callback that runs is kept.
unfoldable pub snapshot :
    Text → ℕ → ProcessingMetrics → ProcessingMetricsSnapshot × ProcessingMetrics
snapshot t now m = (
  record {
    interval = now - m.window_start;
    frame_stats = m.frame_stats;
    packet_stats = m.packet_stats;
    subscriber_stats = m.subscriber_stats;
    callback_stats = m.callback_stats;
    queue_wait_stats = m.queue_wait_stats;
    top_pgns = format_top_pgns t m.pgns processing_metrics_top_count;
    top_callbacks = format_top_callbacks t m.callbacks processing_metrics_top_count;
    in_flight_callback = m.in_flight_callback;
    in_flight_callback_age = age_since now m.in_flight_callback_start;
  },
  record m {
    window_start = now;
    frame_stats = no_stats;
    packet_stats = no_stats;
    subscriber_stats = no_stats;
    callback_stats = no_stats;
    queue_wait_stats = no_stats;
    pgns = [];
    callbacks = [];
  },
)
