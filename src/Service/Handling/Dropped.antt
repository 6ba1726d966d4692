-- ===== src/Service/Handling/Dropped.antt =====
-- internal/n2kinternal/n2kinternal.go: which messages are dropped, and how they are counted.
use n2k.Prelude.{
  ℕ, ◌+◌, ◌≡◌, refl, sym, ◌∙◌, ap, subst, Bool, true, some, Bool-cases, inl, inr, ◌⊎◌, ltb, u64,
  arith, [], ◌∷◌, ◌++◌,
}
use n2k.Prelude.Fault.{some_inj}
use n2k.Adapter.CanAdapter.{Message}
use n2k.Service.Queue.{QueuedMessage, MessageQueue, signal}
use n2k.Service.Handling.{
  Environment, N2kService, handle_message, enqueue_message, begin_queued, end_queued, finish_round,
}
use n2k.Service.Handling.Kept.{Core, core, core-run_hook}
use n2k.Service.Handling.Enqueue.{
  lag, core-enqueue_message_refused, core-enqueue_message_accepted, wait_of,
  core-begin_queued_stale, core-begin_queued_current, core-end_queued, core-finish_round,
}
use n2k.Service.Handling.Behind.{IsBehind, IsInTime, lag-IsBehind, lag-IsInTime}
use n2k.Service.Handling.Ordered.{
  Live, Step, Run, start, here, next, receive, take_message, begin, finish, hooked, received_at,
  handle_message_running,
}

-- The counter of the drops is the sum of the two that tell why, in 64 bits.
unfoldable pub IsCounted : Core → Type 0
IsCounted c = c.dropped ≡ u64 (c.backlog_dropped + c.stale_dropped)

abbrev refused_core : Core → Core
refused_core c = record c {
  dropped = u64 (c.dropped + 1);
  backlog_dropped = u64 (c.backlog_dropped + 1);
}

refused-IsCounted : (c : Core) → IsCounted c → IsCounted (refused_core c)
unfolding IsCounted
refused-IsCounted c h = omega (arith, h)

-- The queue with the message of the time `t` behind the others, signalled.
abbrev pub with_last : Message → ℕ → MessageQueue Message → MessageQueue Message
with_last m t q = record q {
  messages = q.messages ++ (record { message = some m; enqueued_at = t } ∷ []);
  notify = true;
}

abbrev accepted_core : Message → ℕ → Core → Core
accepted_core m t c = record c {
  queue = with_last m t c.queue;
  waiting_count = c.waiting_count + 1;
}

stale-IsCounted :
    (c : Core) (nano : ℕ)
    → IsCounted c
    → IsCounted (record c {
      processing_nano = nano;
      dropped = u64 (c.dropped + 1);
      stale_dropped = u64 (c.stale_dropped + 1);
    })
unfolding IsCounted
stale-IsCounted c nano h = omega (arith, h)

-- The other fields do not count.
same-IsCounted :
    (c d : Core)
    → d.dropped ≡ c.dropped
    → d.backlog_dropped ≡ c.backlog_dropped
    → d.stale_dropped ≡ c.stale_dropped
    → IsCounted c
    → IsCounted d
unfolding IsCounted
same-IsCounted c d p q r h = rw (p, q, r) h

module _ {E V : Type 0} (env : Environment E V) where
  -- While the processor runs, a message that comes in is refused exactly where the first message that waits in
  -- the queue, or the one that is processed, is older than the limit when the clock is read. Then the two counters of
  -- drops go up and the queue stays; else the message is the last of the queue, with the time that was read, is
  -- signalled and counted by the wait group, and no drop is counted.
  pub handle_message_refuses :
      (m : Message) (s : N2kService E V)
      → s.running ≡ true
      → let t = received_at env m s in
        (r : N2kService E V) × (handle_message env m s ≡ some r)
        × ((IsBehind t (core s)
              × (core r ≡ record (core s) {
                dropped = u64 (s.dropped + 1);
                backlog_dropped = u64 (s.backlog_dropped + 1);
              }))
            ⊎ (IsInTime t (core s)
                × (core r ≡ record (core s) {
                  queue = with_last m t s.queue;
                  waiting_count = s.waiting_count + 1;
                })))
  unfolding signal
  handle_message_refuses m s r =
      let before = core-run_hook env m s in
      let t = received_at env m s in
      let s' = hooked env m s in
      elim (Bool-cases (ltb s'.max_age (lag env t m s'))) [
        | inl e ↦ (
          enqueue_message env t m s',
          handle_message_running env m s r,
          inl (
            subst (IsBehind t) before (lag-IsBehind env t m s' e),
            core-enqueue_message_refused env t m s' e ∙ ap refused_core before,
          ),
        )
        | inr e ↦ (
          enqueue_message env t m s',
          handle_message_running env m s r,
          inr (
            subst (IsInTime t) before (lag-IsInTime env t m s' e),
            core-enqueue_message_accepted env t m s' e ∙ ap (accepted_core m t) before,
          ),
        )
      ]

  enqueue-IsCounted :
      (t : ℕ) (m : Message) (s : N2kService E V)
      → IsCounted (core s)
      → IsCounted (core (enqueue_message env t m s))
  enqueue-IsCounted t m s c = elim (Bool-cases (ltb s.max_age (lag env t m s))) [
    | inl e ↦ rw (core-enqueue_message_refused env t m s e) (refused-IsCounted (core s) c)
    | inr e ↦
        rw (core-enqueue_message_accepted env t m s e) (same-IsCounted (core s) _ refl refl refl c)
  ]

  begin-IsCounted :
      (q : QueuedMessage Message) (s : N2kService E V)
      → IsCounted (core s)
      → IsCounted (core (begin_queued env q s).1)
  begin-IsCounted q s c = elim (Bool-cases (ltb s.max_age (wait_of env q s))) [
    | inl e ↦ rw ((core-begin_queued_stale env q s e).1) (stale-IsCounted (core s) q.enqueued_at c)
    | inr e ↦
        rw ((core-begin_queued_current env q s e).1) (same-IsCounted (core s) _ refl refl refl c)
  ]

  finish-IsCounted :
      (b ticked : Bool) (q : QueuedMessage Message) (s t : N2kService E V)
      → end_queued env b q s ≡ some t
      → IsCounted (core s)
      → IsCounted (core (finish_round env ticked t))
  finish-IsCounted b ticked q s t e c = rw (core-finish_round env ticked t) (
      same-IsCounted (core t) _ refl refl refl
        (rw (core-end_queued env b q s t e) (same-IsCounted (core s) _ refl refl refl c)))

  Step-IsCounted :
      {x y : Live E V} → Step env x y → IsCounted (core x.service) → IsCounted (core y.service)
  Step-IsCounted {x} (receive m s r h e) c =
      let same = some_inj (sym h ∙ handle_message_running env m x.service r) in
      let hooked_c = subst IsCounted (sym (core-run_hook env m x.service)) c in
      rw (e, same)
        (enqueue-IsCounted (received_at env m x.service) m (hooked env m x.service) hooked_c)
  Step-IsCounted {x} (take_message m q i h e) c =
      rw e (same-IsCounted (core x.service) _ refl refl refl c)
  Step-IsCounted {x} (begin m i e) c = rw e (begin-IsCounted m x.service c)
  Step-IsCounted {x} (finish b m s ticked i h e) c =
      rw e (finish-IsCounted b ticked m x.service s h c)

  -- However messages come in between the steps of the processor, from a service on whose counter of all drops is
  -- the sum of the two others, in 64 bits, it stays so.
  pub Run-IsCounted :
      (s : N2kService E V) (x : Live E V)
      → IsCounted (core s)
      → Run env (start env s) x
      → IsCounted (core x.service)
  Run-IsCounted s x c here = c
  Run-IsCounted s x c (next r st) = Step-IsCounted st (Run-IsCounted s _ c r)
