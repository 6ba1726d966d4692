-- ===== src/Service/Queue/Tests.antt =====
-- Runs of internal/n2kinternal/n2kinternal.go, `messageQueue`: the messages are numbers, and the limit is 500.
use n2k.Prelude.{ℕ, ◌≡◌, refl, true, false, List, [], ◌∷◌, some, arith}
use n2k.Service.Queue.{
  QueuedMessage, MessageQueue, new_message_queue, got, blank, dequeue, discard, enqueue_if_current,
  enqueue_locked, stats_locked, oldest_age_locked, depth_locked, max_duration, compact_locked,
  take_head, signal,
}
use n2k.Service.Queue.Compact.{IsValid, waiting}
use n2k.Service.Queue.Fifo.{
  Op, offer, take_next, throw_away, offered, taken, thrown_away, empty, apply, after_dequeue, run,
  list_run, run_refines,
}
use n2k.Service.Queue.Wakeup
use n2k.Service.Queue.Wakeup.{
  System, new_system, Run, here, next, produce, fall_asleep, IsNoticed, Run-IsNoticed, Takes,
  reaches_oldest,
}

abbrev sent : ℕ → ℕ → QueuedMessage ℕ
sent m now = record { message = some m; enqueued_at = now }

-- The second message comes within the limit, the third when the first has waited for too long.
abbrev session : List (Op ℕ)
session =
    offer (sent 1 1000) 500 0
    ∷ offer (sent 2 1500) 500 0
    ∷ offer (sent 3 1501) 500 0
    ∷ take_next
    ∷ offer (sent 4 1600) 500 0
    ∷ take_next
    ∷ throw_away
    ∷ take_next
    ∷ []

session_runs :
    (run session new_message_queue).1
    ≡ offered true (record { depth = 1; oldest_age = 0; lag = 0 })
      ∷ offered true (record { depth = 2; oldest_age = 500; lag = 500 })
      ∷ offered false (record { depth = 2; oldest_age = 501; lag = 501 })
      ∷ taken (sent 1 1000)
      ∷ offered true (record { depth = 2; oldest_age = 100; lag = 100 })
      ∷ taken (sent 2 1500)
      ∷ thrown_away 1
      ∷ empty
      ∷ []
unfolding run apply after_dequeue enqueue_if_current enqueue_locked stats_locked oldest_age_locked
    depth_locked max_duration dequeue take_head compact_locked discard signal
session_runs = refl

-- Two of five slots are dead, so the third `dequeue` moves the rest down.
abbrev full : MessageQueue ℕ
full = record {
  messages = blank ∷ blank ∷ sent 3 7 ∷ sent 4 8 ∷ sent 5 9 ∷ [];
  head = 2;
  notify = false;
}

dequeue-full :
    dequeue full
    ≡ got (sent 3 7) (record { messages = sent 4 8 ∷ sent 5 9 ∷ []; head = 0; notify = false })
unfolding dequeue take_head compact_locked depth_locked
dequeue-full = refl

full-IsValid : IsValid full
full-IsValid = record { inside = omega arith; cleared = (refl, (refl, tt)); compact = omega arith }

run_refines_example :
    IsValid (run session full).0
    × ((waiting (run session full).0, (run session full).1) ≡ list_run session (waiting full))
run_refines_example = run_refines session full full-IsValid

-- A producer that has added a message before the processor fell asleep, and another after.
abbrev dozing : System ℕ
dozing = record { queue = new_message_queue; signals = 0; consumer = Wakeup.asleep }

abbrev unsignalled : System ℕ
unsignalled = record {
  queue = record new_message_queue { messages = sent 1 1000 ∷ [] };
  signals = 1;
  consumer = Wakeup.asleep;
}

unsignalled-Run : Run new_system unsignalled
unfolding dequeue depth_locked Wakeup.offer enqueue_locked stats_locked oldest_age_locked
    max_duration
unsignalled-Run =
    let sleeps : Run new_system dozing = next here (fall_asleep refl refl refl) in
    next sleeps (produce (sent 1 1000) 500 0 refl)

reaches_oldest_example : Takes (sent 1 1000) [] unsignalled
unfolding waiting
reaches_oldest_example = reaches_oldest unsignalled (sent 1 1000) [] unsignalled-Run (λ x. cc) refl
