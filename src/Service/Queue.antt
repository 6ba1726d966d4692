-- ===== src/Service/Queue.antt =====
-- internal/n2kinternal/n2kinternal.go, `messageQueue`: the queue of live messages before the handler. A time is
-- a number of nanoseconds of one clock, so an age that would be negative is the 0 that the code makes of it.
pub mod Compact
pub mod Fifo
pub mod Wakeup
mod Tests
use n2k.Prelude.{
  ℕ, ◌+◌, ◌-◌, ◌*◌, Bool, true, false, ◌&&◌, List, [], ◌∷◌, ◌++◌, Option, none, some, ltb, ◌==◌,
  if◌then◌else◌, length, get_elem?, set, take, drop, replicate,
}

-- No message is the nil of the slots that were cleared.
pub record QueuedMessage (M : Type 0) : Type 0 where
  pub message : Option M
  pub enqueued_at : ℕ

-- `notify` is a channel with one place: whether it is taken.
pub record MessageQueue (M : Type 0) : Type 0 where
  pub messages : List (QueuedMessage M)
  pub head : ℕ
  pub notify : Bool

-- A round of the loop of `dequeue`.
pub data Dequeued (M : Type 0) : Type 0 where
  got : QueuedMessage M → MessageQueue M → Dequeued M
  wait panic : Dequeued M

pub record MessageQueueStats : Type 0 where
  pub depth : ℕ
  pub oldest_age : ℕ
  pub lag : ℕ

unfoldable pub max_duration : ℕ → ℕ → ℕ
max_duration a b = if ltb b a then a else b

module _ {M : Type 0} where
  -- `queuedMessage{}`.
  abbrev pub blank : QueuedMessage M
  blank = record { message = none; enqueued_at = 0 }

  abbrev pub new_message_queue : MessageQueue M
  new_message_queue = record { messages = []; head = 0; notify = false }

  unfoldable pub depth_locked : MessageQueue M → ℕ
  depth_locked q = length q.messages - q.head

  abbrev pub age_of : ℕ → Option (QueuedMessage M) → ℕ
  age_of now none = 0
  age_of now (some m) = now - m.enqueued_at

  -- With a depth above 0 the head is an index of the slice.
  unfoldable pub oldest_age_locked : ℕ → MessageQueue M → ℕ
  oldest_age_locked now q =
      if depth_locked q == 0 then 0 else age_of now (get_elem? q.messages q.head)

  unfoldable pub stats_locked : ℕ → ℕ → MessageQueue M → MessageQueueStats
  stats_locked now processing_age q = record {
    depth = depth_locked q;
    oldest_age = oldest_age_locked now q;
    lag = max_duration (oldest_age_locked now q) processing_age;
  }

  unfoldable pub stats : ℕ → MessageQueue M → MessageQueueStats
  stats now q = stats_locked now 0 q

  -- `copy(xs, xs[h:])`: the front is written over, the rest stays.
  abbrev pub copy_down : ℕ → List (QueuedMessage M) → List (QueuedMessage M)
  copy_down h xs = drop h xs ++ drop (length xs - h) xs

  -- `clear(xs[n:])`.
  abbrev pub clear_from : ℕ → List (QueuedMessage M) → List (QueuedMessage M)
  clear_from n xs = take n xs ++ replicate (length xs - n) blank

  unfoldable pub compact_locked : MessageQueue M → MessageQueue M
  compact_locked q =
      let new_len = length q.messages - q.head in
      if q.head == 0
      then q
      else if ltb q.head 1024 && ltb (q.head * 2) (length q.messages)
      then q
      else record q {
        messages = take new_len (clear_from new_len (copy_down q.head q.messages));
        head = 0;
      }

  unfoldable pub signal : MessageQueue M → MessageQueue M
  signal q = record q { notify = true }

  -- `enqueueIfCurrent` while it holds the lock: whether the message is taken, and the state of the queue then.
  unfoldable pub enqueue_locked :
      QueuedMessage M → ℕ → ℕ → MessageQueue M → (Bool × MessageQueueStats) × MessageQueue M
  enqueue_locked message max_age processing_age q =
      let refused = stats_locked message.enqueued_at processing_age q in
      let q' = record q { messages = q.messages ++ (message ∷ []) } in
      if ltb max_age refused.lag
      then ((false, refused), q)
      else ((true, stats_locked message.enqueued_at processing_age q'), q')

  -- A message that is taken is signalled after the lock.
  unfoldable pub enqueue_if_current :
      QueuedMessage M → ℕ → ℕ → MessageQueue M → (Bool × MessageQueueStats) × MessageQueue M
  enqueue_if_current message max_age processing_age q =
      let ((accepted, seen), q') = enqueue_locked message max_age processing_age q in
      ((accepted, seen), if accepted then signal q' else q')

  unfoldable pub take_head : MessageQueue M → Option (QueuedMessage M) → Dequeued M
  take_head q none = panic
  take_head q (some m) =
      got m
        (compact_locked (record q { messages = set q.messages q.head blank; head = q.head + 1 }))

  unfoldable pub dequeue : MessageQueue M → Dequeued M
  dequeue q = if ltb 0 (depth_locked q) then take_head q (get_elem? q.messages q.head) else wait

  -- With the number of the messages that are thrown away.
  unfoldable pub discard : MessageQueue M → ℕ × MessageQueue M
  discard q = (depth_locked q, record q { messages = []; head = 0 })
