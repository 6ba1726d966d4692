-- ===== src/Service/Queue/Wakeup.antt =====
-- internal/n2kinternal/n2kinternal.go: the loop of `dequeue` and the channel `notify`, with producers that may
-- stop between the lock of `enqueueIfCurrent` and the signal.
use n2k.Prelude.{
  ℕ, suc, ◌-◌, ◌<◌, ◌≡◌, ◌≢◌, refl, subst, ◌⊎◌, inl, inr, Bool, true, false, List, [], ◌∷◌,
  if◌then◌else◌, arith, Bool-cases, ltb, ◌∙◌,
}
use n2k.Service.Queue.{
  QueuedMessage, MessageQueue, got, wait, new_message_queue, signal, enqueue_locked, stats_locked,
  dequeue, discard,
}
use n2k.Service.Queue.Compact.{
  IsValid, waiting, grown-IsValid, signal-IsValid, waiting-signal, dequeue_lem, dequeue_got,
  discard-IsValid,
}

-- The goroutine of the processor: before it looks, in the `select`, with a message, or after the context's end.
pub data Consumer (M : Type 0) : Type 0 where
  looking asleep stopped : Consumer M
  holding : QueuedMessage M → Consumer M

-- `signals`: the producers that have added a message and not signalled yet.
pub record System (M : Type 0) : Type 0 where
  pub queue : MessageQueue M
  pub signals : ℕ
  pub consumer : Consumer M

module _ {M : Type 0} where
  abbrev pub new_system : System M
  new_system = record { queue = new_message_queue; signals = 0; consumer = looking }

  unfoldable pub offer : QueuedMessage M → ℕ → ℕ → System M → System M
  offer m max_age processing_age s =
      let ((accepted, _), q) = enqueue_locked m max_age processing_age s.queue in
      record s { queue = q; signals = if accepted then suc s.signals else s.signals }

-- A step of a producer or of the processor.
pub data Step {M : Type 0} (s t : System M) : Type 0 where
  produce :
      (m : QueuedMessage M) (max_age processing_age : ℕ)
      → t ≡ offer m max_age processing_age s
      → Step s t
  raise :
      (k : ℕ) → s.signals ≡ suc k → t ≡ record s { queue = signal s.queue; signals = k } → Step s t
  take_message :
      (m : QueuedMessage M) (q : MessageQueue M)
      → s.consumer ≡ looking
      → dequeue s.queue ≡ got m q
      → t ≡ record s { queue = q; consumer = holding m }
      → Step s t
  fall_asleep :
      s.consumer ≡ looking → dequeue s.queue ≡ wait → t ≡ record s { consumer = asleep } → Step s t
  wake :
      s.consumer ≡ asleep
      → s.queue.notify ≡ true
      → t ≡ record s { queue = record s.queue { notify = false }; consumer = looking }
      → Step s t
  finish :
      (m : QueuedMessage M)
      → s.consumer ≡ holding m
      → t ≡ record s { consumer = looking }
      → Step s t
  cancel :
      s.consumer ≡ asleep
      → t ≡ record s { queue = (discard s.queue).1; consumer = stopped }
      → Step s t

pub data Run {M : Type 0} (s : System M) : System M → Type 0 where
  here : Run s s
  next : {t u : System M} → Run s t → Step t u → Run s u

module _ {M : Type 0} where
  -- A message does not wait unnoticed.
  pub IsNoticed : System M → Type 0
  IsNoticed s =
      (s.consumer ≢ asleep) ⊎ (waiting s.queue ≡ []) ⊎ (s.queue.notify ≡ true) ⊎ (0 < s.signals)

  Inv : System M → Type 0
  Inv s = IsValid s.queue × IsNoticed s

  raised : (q : MessageQueue M) → (signal q).notify ≡ true
  unfolding signal
  raised q = refl

  dequeue_wait : (q : MessageQueue M) → IsValid q → dequeue q ≡ wait → waiting q ≡ []
  dequeue_wait q v d = elim (dequeue_lem q v) [
    | inl (e, _) ↦ e
    | inr (m', r, d', _, _, _) ↦ absurd cc
  ]

  token_lem : (q : MessageQueue M) (b : Bool) → IsValid q → IsValid (record q { notify = b })
  token_lem q b v = record { inside = v.inside; cleared = v.cleared; compact = v.compact }

  offer-Inv :
      (m : QueuedMessage M) (max_age processing_age : ℕ) (s : System M)
      → Inv s
      → Inv (offer m max_age processing_age s)
  unfolding Inv IsNoticed offer enqueue_locked
  offer-Inv m max_age processing_age s (v, n) =
      elim (Bool-cases (ltb max_age (stats_locked m.enqueued_at processing_age s.queue).lag)) [
        | inl e ↦ simp (enqueue_locked, e) (v, n)
        | inr e ↦
            simp (enqueue_locked, e) (grown-IsValid m s.queue v, inr (inr (inr (omega arith))))
      ]

  Step-Inv : {s t : System M} → Step s t → Inv s → Inv t
  unfolding Inv IsNoticed
  Step-Inv {s} (produce m max_age processing_age e) i =
      rw e (offer-Inv m max_age processing_age s i)
  Step-Inv {s} (raise k h e) (v, n) =
      rw e (signal-IsValid s.queue v, inr (inr (inl (raised s.queue))))
  Step-Inv {s} (take_message m q h d e) (v, n) = rw e ((dequeue_got s.queue q m v d).0, inl λ x. cc)
  Step-Inv {s} (fall_asleep h d e) (v, n) = rw e (v, inr (inl (dequeue_wait s.queue v d)))
  Step-Inv {s} (wake h k e) (v, n) = rw e (token_lem s.queue false v, inl λ x. cc)
  Step-Inv {s} (finish m h e) (v, n) = rw e (v, inl λ x. cc)
  Step-Inv {s} (cancel h e) (v, n) = rw e (discard-IsValid s.queue, inl λ x. cc)

  Run-Inv : {s t : System M} → Inv s → Run s t → Inv t
  Run-Inv i here = i
  Run-Inv i (next r st) = Step-Inv st (Run-Inv i r)

  new-Inv : (s : System M) → s ≡ new_system → Inv s
  unfolding Inv IsNoticed
  new-Inv s e =
      rw e (record { inside = omega arith; cleared = tt; compact = inl refl }, inl λ x. cc)

  -- While the processor sleeps, a message that waits has its signal in the channel, or a producer that will put
  -- it there: no wake-up is lost, however producers and processor interleave.
  pub Run-IsNoticed : (s : System M) → Run new_system s → IsNoticed s
  unfolding Inv
  Run-IsNoticed s r = (Run-Inv (new-Inv _ refl) r).1

  -- Steps from here lead to the processor holding `m`, with `ms` left in the queue.
  pub Takes : QueuedMessage M → List (QueuedMessage M) → System M → Type 0
  Takes m ms s = (t : System M) × Run s t × (t.consumer ≡ holding m) × (waiting t.queue ≡ ms)

  looking-Takes :
      (s : System M) (m : QueuedMessage M) (ms : List (QueuedMessage M))
      → IsValid s.queue
      → waiting s.queue ≡ m ∷ ms
      → s.consumer ≡ looking
      → Takes m ms s
  unfolding Takes
  looking-Takes s m ms v w c = elim (dequeue_lem s.queue v) [
    | inl (e, _) ↦ absurd cc
    | inr (m', q, d, e, _, _) ↦
        let first : m' ≡ m = cc in
        (
          record s { queue = q; consumer = holding m },
          next here (take_message m q c (subst (λ x. dequeue s.queue ≡ got x q) first d) refl),
          refl,
          cc,
        )
  ]

  first_step : {s t u : System M} → Step s t → Run t u → Run s u
  first_step st here = next here st
  first_step st (next r st') = next (first_step st r) st'

  after_step :
      {s t : System M} (m : QueuedMessage M) (ms : List (QueuedMessage M))
      → Step s t
      → Takes m ms t
      → Takes m ms s
  unfolding Takes
  after_step m ms st (u, r, h, k) = (u, first_step st r, h, k)

  module _ (s : System M) (m : QueuedMessage M) (ms : List (QueuedMessage M)) (v : IsValid s.queue)
      (w : waiting s.queue ≡ m ∷ ms) where
    wake-Takes : s.consumer ≡ asleep → s.queue.notify ≡ true → Takes m ms s
    unfolding waiting
    wake-Takes c k =
        after_step m ms (wake c k refl) (looking-Takes _ m ms (token_lem s.queue false v) w refl)

    finish-Takes : (held : QueuedMessage M) → s.consumer ≡ holding held → Takes m ms s
    finish-Takes held c = after_step m ms (finish held c refl) (looking-Takes _ m ms v w refl)

  raise-Takes :
      (s : System M) (m : QueuedMessage M) (ms : List (QueuedMessage M)) (k : ℕ)
      → IsValid s.queue
      → waiting s.queue ≡ m ∷ ms
      → s.consumer ≡ asleep
      → s.signals ≡ suc k
      → Takes m ms s
  raise-Takes s m ms k v w c h =
      after_step m ms (raise k h refl) (
        wake-Takes _ m ms (signal-IsValid s.queue v) (waiting-signal s.queue ∙ w) c
          (raised s.queue))

  asleep-Takes :
      (s : System M) (m : QueuedMessage M) (ms : List (QueuedMessage M))
      → Inv s
      → waiting s.queue ≡ m ∷ ms
      → s.consumer ≡ asleep
      → Takes m ms s
  unfolding Inv IsNoticed
  asleep-Takes s m ms (v, inl n) w c = absurd (n c)
  asleep-Takes s m ms (v, inr (inl e)) w c = absurd cc
  asleep-Takes s m ms (v, inr (inr (inl k))) w c = wake-Takes s m ms v w c k
  asleep-Takes s m ms (v, inr (inr (inr h))) w c =
      raise-Takes s m ms (s.signals - 1) v w c (omega arith)

  consumer_cases :
      (c : Consumer M)
      → c ≢ stopped
      → (c ≡ looking) ⊎ (c ≡ asleep) ⊎ ((m : QueuedMessage M) × (c ≡ holding m))
  consumer_cases looking h = inl refl
  consumer_cases asleep h = inr (inl refl)
  consumer_cases stopped h = absurd (h refl)
  consumer_cases (holding m) h = inr (inr (m, refl))

  -- Wherever a run of producers and processor stands while the processor is not stopped and messages wait, some
  -- steps lead to the processor holding the oldest of them, with exactly the others left in the queue.
  pub reaches_oldest :
      (s : System M) (m : QueuedMessage M) (ms : List (QueuedMessage M))
      → Run new_system s
      → s.consumer ≢ stopped
      → waiting s.queue ≡ m ∷ ms
      → Takes m ms s
  unfolding Inv
  reaches_oldest s m ms r c w =
      let i = Run-Inv (new-Inv _ refl) r in
      elim (consumer_cases s.consumer c) [
        | inl e ↦ looking-Takes s m ms i.0 w e
        | inr (inl e) ↦ asleep-Takes s m ms i w e
        | inr (inr (held, e)) ↦ finish-Takes s m ms i.0 w held e
      ]
