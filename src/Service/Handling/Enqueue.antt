-- ===== src/Service/Handling/Enqueue.antt =====
-- internal/n2kinternal/n2kinternal.go, `HandleMessage` while the processor runs, and `processQueuedMessage`: what
-- they change of the queue and of its counters.
use n2k.Prelude.{
  ℕ, ◌+◌, ◌-◌, ◌≡◌, refl, sym, ◌∙◌, ap, Bool, true, false, Option, none, some, ltb, if◌then◌else◌,
  u64,
}
use n2k.Prelude.Fault.{bind_inv, some_inj}
use n2k.Adapter.CanAdapter.{Message, other}
use n2k.Service.Queue.{QueuedMessage, signal, stats_locked}
use n2k.Service.Queue.Compact.{grown}
use n2k.Service.Queue.Fifo.{refused_lem, accepted_lem}
use n2k.Service.Handling.{
  Environment, N2kService, now, message_queue_processing_age, maybe_log_message_queue_backlog,
  drop_backlog, enqueue_message, begin_queued, end_queued, finish_round, process_present,
}
use n2k.Service.Handling.Kept.{
  Core, core, core-process_message, core-maybe_log_message_queue_backlog,
}

module _ {E V : Type 0} (env : Environment E V) where
  core-logged_if :
      (b : Bool) (s : N2kService E V)
      → core (if b then maybe_log_message_queue_backlog env s else s) ≡ core s
  core-logged_if true s = core-maybe_log_message_queue_backlog env s
  core-logged_if false s = refl

  module _ (t : ℕ) (m : Message) (s : N2kService E V) where
    abbrev pub incoming : QueuedMessage Message
    incoming = record { message = some m; enqueued_at = t }

    -- How far behind the service is when the message comes.
    abbrev pub lag : ℕ
    lag = (stats_locked t (message_queue_processing_age env t s) s.queue).lag

    pub core-enqueue_message_refused :
        ltb s.max_age lag ≡ true
        → core (enqueue_message env t m s) ≡ record (core s) {
          dropped = u64 (s.dropped + 1);
          backlog_dropped = u64 (s.backlog_dropped + 1);
        }
    unfolding enqueue_message drop_backlog
    core-enqueue_message_refused e =
        simp
          (
            enqueue_message,
            refused_lem incoming s.max_age (message_queue_processing_age env t s) s.queue e,
          )
          (core-maybe_log_message_queue_backlog env _)

    pub core-enqueue_message_accepted :
        ltb s.max_age lag ≡ false
        → core (enqueue_message env t m s) ≡ record (core s) {
          queue = signal (grown incoming s.queue);
          waiting_count = s.waiting_count + 1;
        }
    unfolding enqueue_message
    core-enqueue_message_accepted e =
        simp
          (
            enqueue_message,
            accepted_lem incoming s.max_age (message_queue_processing_age env t s) s.queue e,
          )
          (core-logged_if _ _)

  module _ (q : QueuedMessage Message) (s : N2kService E V) where
    -- How long the message has waited when the processor reads the clock.
    abbrev pub wait_of : ℕ
    wait_of = now env s - q.enqueued_at

    pub core-begin_queued_stale :
        ltb s.max_age wait_of ≡ true
        → ((begin_queued env q s).0 ≡ false)
          × (core (begin_queued env q s).1 ≡ record (core s) {
            processing_nano = q.enqueued_at;
            dropped = u64 (s.dropped + 1);
            stale_dropped = u64 (s.stale_dropped + 1);
          })
    unfolding begin_queued
    core-begin_queued_stale e =
        simp (begin_queued, e) (refl, core-maybe_log_message_queue_backlog env _)

    pub core-begin_queued_current :
        ltb s.max_age wait_of ≡ false
        → ((begin_queued env q s).0 ≡ true)
          × (core (begin_queued env q s).1 ≡ record (core s) { processing_nano = q.enqueued_at })
    unfolding begin_queued
    core-begin_queued_current e = simp (begin_queued, e) (refl, refl)

  core-process_present :
      (o : Option Message) (s t : N2kService E V)
      → process_present env o s ≡ some t
      → core t ≡ core s
  core-process_present none s t e = core-process_message env other s t e
  core-process_present (some m) s t e = core-process_message env m s t e

  pub core-end_queued :
      (b : Bool) (q : QueuedMessage Message) (s t : N2kService E V)
      → end_queued env b q s ≡ some t
      → core t ≡ record (core s) { processing_nano = 0 }
  unfolding end_queued
  core-end_queued false q s t e = ap core (sym (some_inj e))
  core-end_queued true q s t e =
      let (u, h, g) = bind_inv (process_present env q.message s) _ t e in
      ap core (sym (some_inj g))
      ∙ ap (λ (c : Core). record c { processing_nano = 0 }) (core-process_present q.message s u h)

  pub core-finish_round :
      (ticked : Bool) (s : N2kService E V)
      → core (finish_round env ticked s) ≡ record (core s) { waiting_count = s.waiting_count - 1 }
  unfolding finish_round
  core-finish_round ticked s = core-logged_if ticked _
