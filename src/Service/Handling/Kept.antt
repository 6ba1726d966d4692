-- ===== src/Service/Handling/Kept.antt =====
-- internal/n2kinternal/n2kinternal.go: what the way of a message through the adapter and the subscribers leaves alone.
use n2k.Prelude.{ℕ, ◌≡◌, refl, sym, ◌∙◌, ap, Bool, List, [], ◌∷◌, some, arith}
use n2k.Prelude.Fault.{bind_inv, some_inj, if_some}
use n2k.Packet.{Packet}
use n2k.Packet.Handler
use n2k.Packet.Handler.{Delivered}
use n2k.Adapter.CanAdapter
use n2k.Adapter.CanAdapter.{CanAdapter, Message, can_frame, other}
use n2k.Subscribe
use n2k.Subscribe.{Name, Call}
use n2k.Service.Queue.{MessageQueue}
use n2k.Service.Handling.{
  Environment, N2kService, now, tick, observe_call, observe_calls, handle_struct, handle_packet,
  handle_packets, message_pgn, adapt, process_message, log_backlog, maybe_log_message_queue_backlog,
  run_hook,
}

-- The queue, its limit and its counters.
pub record Core : Type 0 where
  pub queue : MessageQueue Message
  pub max_age : ℕ
  pub processing_nano : ℕ
  pub dropped : ℕ
  pub backlog_dropped : ℕ
  pub stale_dropped : ℕ
  pub waiting_count : ℕ
  pub running : Bool

module _ {E V : Type 0} where
  abbrev pub core : N2kService E V → Core
  core s = record {
    queue = s.queue;
    max_age = s.max_age;
    processing_nano = s.processing_nano;
    dropped = s.dropped;
    backlog_dropped = s.backlog_dropped;
    stale_dropped = s.stale_dropped;
    waiting_count = s.waiting_count;
    running = s.running;
  }

module _ {E V : Type 0} (env : Environment E V) where
  core-observe_calls :
      (v : Delivered E V) (name : Name) (cs : List Call) (s : N2kService E V)
      → core (observe_calls env v name cs s) ≡ core s
  unfolding observe_calls observe_call
  core-observe_calls v name [] s = refl
  core-observe_calls v name (c ∷ cs) s = core-observe_calls v name cs (observe_call env v name c s)

  core-handle_struct :
      (v : Delivered E V) (s t : N2kService E V) → handle_struct env v s ≡ some t → core t ≡ core s
  unfolding handle_struct
  core-handle_struct v s t e =
      let (calls, through) =
        Subscribe.handle_struct env.implements (env.type_of v) env.name_of s.subscriber in
      let name = env.name_of (env.type_of v) in
      ap core (sym (if_some through _ t e)) ∙ core-observe_calls v name calls (tick env s)

  core-handle_packet :
      (p : Packet) (s t : N2kService E V) → handle_packet env p s ≡ some t → core t ≡ core s
  unfolding handle_packet
  core-handle_packet p s t e =
      let (v, _, f) = bind_inv (Handler.handle_packet env.find_decoder p) _ t e in
      let (u, h, g) = bind_inv (handle_struct env v (tick env s)) _ t f in
      ap core (sym (some_inj g)) ∙ core-handle_struct v (tick env s) u h

  core-handle_packets :
      (ps : List Packet) (s t : N2kService E V) → handle_packets env ps s ≡ some t → core t ≡ core s
  unfolding handle_packets
  core-handle_packets [] s t e = ap core (sym (some_inj e))
  core-handle_packets (p ∷ ps) s t e =
      let (u, h, g) = bind_inv (handle_packet env p s) _ t e in
      core-handle_packets ps u t g ∙ core-handle_packet p s u h

  core-adapt : (m : Message) (s t : N2kService E V) → adapt env m s ≡ some t → core t ≡ core s
  unfolding adapt
  core-adapt (can_frame f) s t e =
      let ((c, ps), _, g) =
        bind_inv (CanAdapter.handle_message s.adapter (now env s) (can_frame f)) _ t e in
      core-handle_packets ps _ t g
  core-adapt other s t e =
      let ((c, ps), _, g) =
        bind_inv (CanAdapter.handle_message s.adapter (now env s) other) _ t e in
      core-handle_packets ps _ t g

  pub core-process_message :
      (m : Message) (s t : N2kService E V) → process_message env m s ≡ some t → core t ≡ core s
  unfolding process_message message_pgn
  core-process_message (can_frame f) s t e =
      let (u, h, g) = bind_inv (adapt env (can_frame f) (tick env (tick env s))) _ t e in
      ap core (sym (some_inj g)) ∙ core-adapt (can_frame f) _ u h
  core-process_message other s t e =
      let (u, h, g) = bind_inv (adapt env other (tick env s)) _ t e in
      ap core (sym (some_inj g)) ∙ core-adapt other _ u h

  pub core-maybe_log_message_queue_backlog :
      (s : N2kService E V) → core (maybe_log_message_queue_backlog env s) ≡ core s
  unfolding maybe_log_message_queue_backlog log_backlog
  core-maybe_log_message_queue_backlog s = ground arith

  pub core-run_hook : (m : Message) (s : N2kService E V) → core (run_hook env m s) ≡ core s
  unfolding run_hook
  core-run_hook (can_frame f) s = ground arith
  core-run_hook other s = refl
