-- ===== src/Service/Handling/Ordered.antt =====
-- internal/n2kinternal/n2kinternal.go: the processor's loop with messages that come in between its steps.
use n2k.Prelude.{
  ℕ, ◌+◌, ◌-◌, ◌≡◌, refl, sym, ◌∙◌, ap, subst, Bool, true, false, List, [], ◌∷◌, ◌++◌, some,
  Bool-cases, inl, inr, ltb, if◌then◌else◌, length, length-append, append_assoc, arith,
}
use n2k.Prelude.Fault.{some_inj}
use n2k.Adapter.CanAdapter.{Message}
use n2k.Service.Queue.{
  signal, new_message_queue, QueuedMessage, MessageQueue, got, dequeue, enqueue_if_current,
}
use n2k.Service.Queue.Compact.{
  IsValid, waiting, grown, grown-IsValid, waiting-grown, signal-IsValid, waiting-signal,
  dequeue_got,
}
use n2k.Service.Queue.Fifo.{refused_lem, accepted_lem}
use n2k.Service.Handling.Enqueue.{
  lag, core-enqueue_message_refused, core-enqueue_message_accepted, wait_of,
  core-begin_queued_stale, core-begin_queued_current, core-end_queued, core-finish_round,
}
use n2k.Service.Handling.{
  Environment, N2kService, now, tick, message_queue_processing_age, run_hook, handle_message,
  begin_queued, end_queued, finish_round, enqueue_message,
}
use n2k.Service.Handling.Kept.{Core, core, core-run_hook}

-- Where the processor stands in a round: before it, with a message from the queue, or after the decision on it.
pub data Stage : Type 0 where
  idle : Stage
  taken : QueuedMessage Message → Stage
  begun : Bool → QueuedMessage Message → Stage

pub held : Stage → List (QueuedMessage Message)
held idle = []
held (taken q) = q ∷ []
held (begun b q) = q ∷ []

-- With the messages that the queue has taken, and those whose round is over, in the order in which this came.
pub record Live (E V : Type 0) : Type 0 where
  pub service : N2kService E V
  pub stage : Stage
  pub accepted : List (QueuedMessage Message)
  pub finished : List (QueuedMessage Message)

module _ {E V : Type 0} (env : Environment E V) where
  abbrev pub stamped : Message → N2kService E V → QueuedMessage Message
  stamped m s = record { message = some m; enqueued_at = now env (run_hook env m s) }

  -- Whether the queue takes the message.
  pub accepts : Message → N2kService E V → Bool
  accepts m s =
      let q = stamped m s in
      let s' = tick env (run_hook env m s) in
      let age = message_queue_processing_age env q.enqueued_at s' in
      (enqueue_if_current q s'.max_age age s'.queue).0.0

  abbrev pub start : N2kService E V → Live E V
  start s = record { service = s; stage = idle; accepted = []; finished = [] }

  -- A message that comes in, or a step of the processor, at whose end the ticker may have a tick.
  pub data Step (x y : Live E V) : Type 0 where
    receive :
        (m : Message) (s : N2kService E V)
        → x.service.running ≡ true
        → handle_message env m x.service ≡ some s
        → y ≡ record x {
          service = s;
          accepted =
              if accepts m x.service then x.accepted ++ (stamped m x.service ∷ []) else x.accepted;
        }
        → Step x y
    take_message :
        (m : QueuedMessage Message) (q : MessageQueue Message)
        → x.stage ≡ idle
        → dequeue x.service.queue ≡ got m q
        → y ≡ record x { service = record x.service { queue = q }; stage = taken m }
        → Step x y
    begin :
        (m : QueuedMessage Message)
        → x.stage ≡ taken m
        → y ≡ record x {
          service = (begin_queued env m x.service).1;
          stage = begun (begin_queued env m x.service).0 m;
        }
        → Step x y
    finish :
        (b : Bool) (m : QueuedMessage Message) (s : N2kService E V) (ticked : Bool)
        → x.stage ≡ begun b m
        → end_queued env b m x.service ≡ some s
        → y ≡ record x {
          service = finish_round env ticked s;
          stage = idle;
          finished = x.finished ++ (m ∷ []);
        }
        → Step x y

  pub data Run (x : Live E V) : Live E V → Type 0 where
    here : Run x x
    next : {y z : Live E V} → Run x y → Step y z → Run x z

-- What was accepted is what is finished, what the processor holds and what waits, in this order, and the wait
-- group counts the last two.
pub record IsOrdered (c : Core) (stage : Stage) (accepted finished : List (QueuedMessage Message))
    : Type 0 where
  pub valid : IsValid c.queue
  pub order : accepted ≡ finished ++ (held stage ++ waiting c.queue)
  pub counted : c.waiting_count ≡ length (held stage) + length (waiting c.queue)

-- A message more in the queue.
more_lem :
    (m : QueuedMessage Message) (c : Core) (stage : Stage)
    (accepted finished : List (QueuedMessage Message))
    → IsOrdered c stage accepted finished
    → IsOrdered
        (record c { queue = signal (grown m c.queue); waiting_count = c.waiting_count + 1 })
        stage
        (accepted ++ (m ∷ []))
        finished
more_lem m c stage accepted finished o =
    let after = waiting-signal (grown m c.queue) ∙ waiting-grown m c.queue o.valid in
    record {
      valid = signal-IsValid (grown m c.queue) (grown-IsValid m c.queue o.valid);
      order =
          ap (λ xs. xs ++ (m ∷ [])) o.order
          ∙ append_assoc finished (held stage ++ waiting c.queue) (m ∷ [])
          ∙ ap (λ xs. finished ++ xs)
              (append_assoc (held stage) (waiting c.queue) (m ∷ [])
                ∙ ap (λ xs. held stage ++ xs) (sym after));
      counted = rw after (omega (arith, o.counted, length-append (waiting c.queue) (m ∷ [])));
    }

module _ {E V : Type 0} (env : Environment E V) where
  Holds : Live E V → Type 0
  Holds x = IsOrdered (core x.service) x.stage x.accepted x.finished

  module _ (m : Message) (s : N2kService E V) where
    abbrev pub hooked : N2kService E V
    hooked = tick env (run_hook env m s)

    abbrev pub received_at : ℕ
    received_at = now env (run_hook env m s)

    abbrev age : ℕ
    age = message_queue_processing_age env received_at hooked

    accepts_refused :
        ltb hooked.max_age (lag env received_at m hooked) ≡ true → accepts env m s ≡ false
    unfolding accepts
    accepts_refused e =
        ap (λ r. r.0.0) (refused_lem (stamped env m s) hooked.max_age age hooked.queue e)

    accepts_accepted :
        ltb hooked.max_age (lag env received_at m hooked) ≡ false → accepts env m s ≡ true
    unfolding accepts
    accepts_accepted e =
        ap (λ r. r.0.0) (accepted_lem (stamped env m s) hooked.max_age age hooked.queue e)

    receive_lem :
        (stage : Stage) (accepted finished : List (QueuedMessage Message))
        → IsOrdered (core s) stage accepted finished
        → IsOrdered
            (core (enqueue_message env received_at m hooked))
            stage
            (if accepts env m s then accepted ++ (stamped env m s ∷ []) else accepted)
            finished
    receive_lem stage accepted finished o =
        let o' = subst (λ c. IsOrdered c stage accepted finished) (sym (core-run_hook env m s)) o in
        elim (Bool-cases (ltb hooked.max_age (lag env received_at m hooked))) [
          | inl e ↦
              rw (core-enqueue_message_refused env received_at m hooked e, accepts_refused e)
                (record { valid = o'.valid; order = o'.order; counted = o'.counted })
          | inr e ↦
              rw (core-enqueue_message_accepted env received_at m hooked e, accepts_accepted e)
                (more_lem (stamped env m s) (core hooked) stage accepted finished o')
        ]

  begin_lem :
      (q : QueuedMessage Message) (s : N2kService E V)
      (accepted finished : List (QueuedMessage Message))
      → IsOrdered (core s) (taken q) accepted finished
      → IsOrdered
          (core (begin_queued env q s).1)
          (begun (begin_queued env q s).0 q)
          accepted
          finished
  unfolding held
  begin_lem q s accepted finished o = elim (Bool-cases (ltb s.max_age (wait_of env q s))) [
    | inl e ↦
        rw ((core-begin_queued_stale env q s e).0, (core-begin_queued_stale env q s e).1)
          (record { valid = o.valid; order = o.order; counted = o.counted })
    | inr e ↦
        rw ((core-begin_queued_current env q s e).0, (core-begin_queued_current env q s e).1)
          (record { valid = o.valid; order = o.order; counted = o.counted })
  ]

  finish_lem :
      (b ticked : Bool) (q : QueuedMessage Message) (s t : N2kService E V)
      (accepted finished : List (QueuedMessage Message))
      → end_queued env b q s ≡ some t
      → IsOrdered (core s) (begun b q) accepted finished
      → IsOrdered (core (finish_round env ticked t)) idle accepted (finished ++ (q ∷ []))
  unfolding held
  finish_lem b ticked q s t accepted finished e o =
      let counted_down =
        core-finish_round env ticked t
        ∙ ap (λ (c : Core). record c { waiting_count = c.waiting_count - 1 })
            (core-end_queued env b q s t e) in
      subst (λ c. IsOrdered c idle accepted (finished ++ (q ∷ []))) (sym counted_down)
        (record {
          valid = o.valid;
          order = o.order ∙ sym (append_assoc finished (q ∷ []) (waiting s.queue));
          counted = omega (arith, o.counted);
        })

  take_lem :
      (m : QueuedMessage Message) (q : MessageQueue Message) (s : N2kService E V)
      (accepted finished : List (QueuedMessage Message))
      → dequeue s.queue ≡ got m q
      → IsOrdered (core s) idle accepted finished
      → IsOrdered (record (core s) { queue = q }) (taken m) accepted finished
  unfolding held
  take_lem m q s accepted finished e o =
      let (v, w) = dequeue_got s.queue q m o.valid e in
      record {
        valid = v;
        order = o.order ∙ ap (λ xs. finished ++ xs) w;
        counted = omega (arith, o.counted, ap length w);
      }

  pub handle_message_running :
      (m : Message) (s : N2kService E V)
      → s.running ≡ true
      → handle_message env m s ≡ some (enqueue_message env (received_at m s) m (hooked m s))
  unfolding handle_message
  handle_message_running m s r = simp (handle_message, r)

  at_stage :
      (x : Live E V) (stage : Stage)
      → x.stage ≡ stage
      → Holds x
      → IsOrdered (core x.service) stage x.accepted x.finished
  unfolding Holds
  at_stage x stage i o = subst (λ st. IsOrdered (core x.service) st x.accepted x.finished) i o

  Step-Holds : {x y : Live E V} → Step env x y → Holds x → Holds y
  unfolding Holds
  Step-Holds {x} (receive m s r h e) o =
      let same = some_inj (sym h ∙ handle_message_running m x.service r) in
      rw (e, same) (receive_lem m x.service x.stage x.accepted x.finished o)
  Step-Holds {x} (take_message m q i h e) o =
      rw e (take_lem m q x.service x.accepted x.finished h (at_stage x idle i o))
  Step-Holds {x} (begin m i e) o =
      rw e (begin_lem m x.service x.accepted x.finished (at_stage x (taken m) i o))
  Step-Holds {x} (finish b m s ticked i h e) o =
      rw e (finish_lem b ticked m x.service s x.accepted x.finished h (at_stage x (begun b m) i o))

  Run-Holds : {x y : Live E V} → Run env x y → Holds x → Holds y
  Run-Holds here o = o
  Run-Holds (next r st) o = Step-Holds st (Run-Holds r o)

  -- However messages come in between the steps of the processor, from a service with an empty queue on, the
  -- messages that the queue accepted are those whose round is over, then the one that the processor holds, then those
  -- that wait, in the order in which they came, and the wait group counts those that are not over.
  pub Run-IsOrdered :
      (s : N2kService E V) (x : Live E V)
      → s.queue ≡ new_message_queue
      → s.waiting_count ≡ 0
      → Run env (start env s) x
      → IsOrdered (core x.service) x.stage x.accepted x.finished
  unfolding Holds held waiting
  Run-IsOrdered s x e z r = Run-Holds r (record {
    valid = rw e (record { inside = omega arith; cleared = tt; compact = inl refl });
    order = rw e refl;
    counted = rw e (omega (arith, z));
  })
