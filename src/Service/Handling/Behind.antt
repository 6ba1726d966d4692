-- ===== src/Service/Handling/Behind.antt =====
-- internal/n2kinternal/n2kinternal.go, `enqueueIfCurrent` and `messageQueueProcessingAge`: when the processor is
-- too far behind for another message.
use n2k.Prelude.{
  ℕ, ◌-◌, ◌<◌, ◌≤◌, ◌≡◌, refl, true, false, inl, inr, ◌⊎◌, List, [], ◌∷◌, ltb, ltb→lt, ltb→ge,
  get_elem?, arith,
}
use n2k.Adapter.CanAdapter.{Message}
use n2k.Service.Queue.{QueuedMessage, age_of, max_duration, oldest_age_locked, stats_locked}
use n2k.Service.Queue.Compact.{waiting}
use n2k.Service.Queue.Fifo.{oldest_age_lem}
use n2k.Service.Handling.{Environment, N2kService, message_queue_processing_age}
use n2k.Service.Handling.Kept.{Core, core}
use n2k.Service.Handling.Enqueue.{lag}

-- At the time `t`, the first message that waits, or the one that is processed, is older than the limit. A time of 0
-- stands for no message that is processed.
abbrev pub IsBehind : ℕ → Core → Type 0
IsBehind t c =
    ((q : QueuedMessage Message) × (rest : List (QueuedMessage Message)) × (waiting c.queue
        ≡ q ∷ rest)
      × (c.max_age < t - q.enqueued_at))
    ⊎ ((0 < c.processing_nano) × (c.max_age < t - c.processing_nano))

-- Neither is.
abbrev pub IsInTime : ℕ → Core → Type 0
IsInTime t c =
    ((waiting c.queue ≡ [])
      ⊎ ((q : QueuedMessage Message) × (rest : List (QueuedMessage Message)) × (waiting c.queue
            ≡ q ∷ rest)
          × (t - q.enqueued_at ≤ c.max_age)))
    × ((c.processing_nano ≡ 0) ⊎ (t - c.processing_nano ≤ c.max_age))

max_duration-lt : (a b limit : ℕ) → limit < max_duration a b → (limit < a) ⊎ (limit < b)
unfolding max_duration
max_duration-lt a b limit h = ground arith

max_duration-le : (a b limit : ℕ) → max_duration a b ≤ limit → (a ≤ limit) × (b ≤ limit)
unfolding max_duration
max_duration-le a b limit h = ground arith

first-lt :
    (t limit : ℕ) (xs : List (QueuedMessage Message))
    → limit < age_of t (get_elem? xs 0)
    → (q : QueuedMessage Message) × (rest : List (QueuedMessage Message)) × (xs ≡ q ∷ rest)
      × (limit < t - q.enqueued_at)
first-lt t limit [] h = absurd (omega arith)
first-lt t limit (q ∷ xs) h = (q, xs, refl, h)

first-le :
    (t limit : ℕ) (xs : List (QueuedMessage Message))
    → age_of t (get_elem? xs 0) ≤ limit
    → (xs ≡ [])
      ⊎ ((q : QueuedMessage Message) × (rest : List (QueuedMessage Message)) × (xs ≡ q ∷ rest)
          × (t - q.enqueued_at ≤ limit))
first-le t limit [] h = inl refl
first-le t limit (q ∷ xs) h = inr (q, xs, refl, h)

module _ {E V : Type 0} (env : Environment E V) (t : ℕ) (m : Message) (s : N2kService E V) where
  abbrev oldest : ℕ
  oldest = oldest_age_locked t s.queue

  processing-lt :
      s.max_age < message_queue_processing_age env t s
      → (0 < s.processing_nano) × (s.max_age < t - s.processing_nano)
  unfolding message_queue_processing_age
  processing-lt h = ground arith

  processing-le :
      message_queue_processing_age env t s ≤ s.max_age
      → (s.processing_nano ≡ 0) ⊎ (t - s.processing_nano ≤ s.max_age)
  unfolding message_queue_processing_age
  processing-le h = ground arith

  pub lag-IsBehind : ltb s.max_age (lag env t m s) ≡ true → IsBehind t (core s)
  unfolding stats_locked
  lag-IsBehind e =
      elim (max_duration-lt oldest (message_queue_processing_age env t s) s.max_age
        (ltb→lt _ _ e)) [
          | inl old ↦ inl (
              first-lt t s.max_age (waiting s.queue) (omega (arith, old, oldest_age_lem t s.queue)))
          | inr late ↦ inr (processing-lt late)
        ]

  pub lag-IsInTime : ltb s.max_age (lag env t m s) ≡ false → IsInTime t (core s)
  unfolding stats_locked
  lag-IsInTime e =
      let (young, fast) =
        max_duration-le oldest (message_queue_processing_age env t s) s.max_age (ltb→ge _ _ e) in
      (
        first-le t s.max_age (waiting s.queue) (omega (arith, young, oldest_age_lem t s.queue)),
        processing-le fast,
      )
