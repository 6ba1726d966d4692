-- ===== src/Service/Handling/Stale.antt =====
-- internal/n2kinternal/n2kinternal.go, `processQueuedMessage`: a message that has waited for too long.
use n2k.Service.Metrics.{observe_queue_wait}
use n2k.Prelude.{
  suc, ◌+◌, ◌<◌, ◌≡◌, refl, sym, subst, ap, Bool, true, false, [], ◌∷◌, ◌++◌, some, inl, inr, ◌⊎◌,
  not, if◌then◌else◌, ltb, lt→ltb, u64,
}
use n2k.Adapter.CanAdapter.{Message}
use n2k.Service.Queue.{QueuedMessage}
use n2k.Service.Handling.{
  Environment, N2kService, warned, Warning, tick, maybe_log_message_queue_backlog, log_backlog,
  begin_queued, end_queued, process_queued_message,
}
use n2k.Service.Handling.Kept.{Core, core}
use n2k.Service.Handling.Enqueue.{wait_of, core-begin_queued_stale}

-- No callback is called and no frame is decoded: at most a line is logged.
pub record Quiet {E V : Type 0} (s r : N2kService E V) : Type 0 where
  pub adapter : r.adapter ≡ s.adapter
  pub events : (r.events ≡ s.events) ⊎ ((w : Warning) × (r.events ≡ s.events ++ (warned w ∷ [])))

Quiet-if :
    {E V : Type 0} (b : Bool) (s x y : N2kService E V)
    → Quiet s x
    → Quiet s y
    → Quiet s (if b then x else y)
Quiet-if true s x y p q = p
Quiet-if false s x y p q = q

module _ {E V : Type 0} (env : Environment E V) where
  still_ticked : (s : N2kService E V) → Quiet s (tick env s)
  still_ticked s = record { adapter = refl; events = inl refl }

  -- The service that has counted the drop.
  abbrev counted : QueuedMessage Message → N2kService E V → N2kService E V
  counted q s = record s {
    processing_nano = q.enqueued_at;
    metrics = observe_queue_wait (wait_of env q s) s.metrics;
    reads = suc s.reads;
    dropped = u64 (s.dropped + 1);
    stale_dropped = u64 (s.stale_dropped + 1);
  }

  begun_lem :
      (q : QueuedMessage Message) (s : N2kService E V)
      → ltb s.max_age (wait_of env q s) ≡ true
      → (begin_queued env q s).1 ≡ maybe_log_message_queue_backlog env (counted q s)
  unfolding begin_queued
  begun_lem q s e = simp (begin_queued, e)

  maybe_log-Quiet : (s : N2kService E V) → Quiet s (maybe_log_message_queue_backlog env s)
  unfolding maybe_log_message_queue_backlog log_backlog
  maybe_log-Quiet s =
      let still : Quiet s s = record { adapter = refl; events = inl refl } in
      Quiet-if (not s.logger) s _ _ still (
        Quiet-if _ s _ _ (still_ticked s)
          (Quiet-if _ s _ _ (still_ticked s) (record { adapter = refl; events = inr (_, refl) })))

  -- A message that has waited longer than the limit when its turn comes is dropped without a panic: no callback is
  -- called and the adapter stays, the counters of drops and of stale drops go up, and no time of processing is left.
  pub process_queued_message_stale :
      (q : QueuedMessage Message) (s : N2kService E V)
      → s.max_age < wait_of env q s
      → (r : N2kService E V) × (process_queued_message env q s ≡ some r)
        × Quiet s r
        × (core r ≡ record (core s) {
          processing_nano = 0;
          dropped = u64 (s.dropped + 1);
          stale_dropped = u64 (s.stale_dropped + 1);
        })
  unfolding process_queued_message end_queued
  process_queued_message_stale q s h =
      let late = lt→ltb s.max_age (wait_of env q s) h in
      let begun = (begin_queued env q s).1 in
      let quiet =
        subst (Quiet (counted q s)) (sym (begun_lem q s late)) (maybe_log-Quiet (counted q s)) in
      let (stops, counts) = core-begin_queued_stale env q s late in
      let ended : process_queued_message env q s ≡ some (record begun { processing_nano = 0 }) =
        simp (process_queued_message, stops) in
      (
        record begun { processing_nano = 0 },
        ended,
        record { adapter = quiet.adapter; events = quiet.events },
        ap (λ (c : Core). record c { processing_nano = 0 }) counts,
      )
