-- ===== src/Service/Handling/Pipeline.antt =====
-- internal/n2kinternal/n2kinternal.go: a frame's way from the adapter through its decoder to the callbacks.
use n2k.Prelude.{
  suc, ◌+◌, ◌-◌, ◌%◌, ◌^◌, ◌≡◌, refl, sym, ◌∙◌, Bool, true, List, [], ◌∷◌, ◌++◌, map, some, length,
  append_assoc, append-nil, arith,
}
use n2k.Converter.{Frame, decode_can_id}
use n2k.Packet.{Packet}
use n2k.Packet.Handler
use n2k.Packet.Handler.{Delivered}
use n2k.Adapter.CanAdapter
use n2k.Adapter.CanAdapter.{CanAdapter, Message, can_frame, other}
use n2k.Subscribe
use n2k.Subscribe.{SubscribeManager, Name, Call}
use n2k.Service.Metrics.{
  observe, observe_callback, observe_frame, observe_packet, observe_subscriber, callback_started,
  callback_finished,
}
use n2k.Service.Handling.{
  Environment, N2kService, called, now, tick, measure, observe_call, observe_calls, handle_struct,
  handle_packet, handle_packets, message_pgn, adapt, process_message,
}
use n2k.Service.Handling.Kept.{core, core-process_message}

-- `r` is `s` after these calls with `v` and nothing else that others see, each call counted.
pub record Made {E V : Type 0} (v : Delivered E V) (cs : List Call) (s r : N2kService E V)
    : Type 0 where
  pub events : r.events ≡ s.events ++ map (called v) cs
  pub adapter : r.adapter ≡ s.adapter
  pub counted :
      r.metrics.callback_stats.count % 2 ^ 64
      ≡ (s.metrics.callback_stats.count + length cs) % 2 ^ 64

module _ {E V : Type 0} (env : Environment E V) where
  -- The callbacks are called in the order of the list.
  observe_calls_lem :
      (v : Delivered E V) (name : Name) (cs : List Call) (s : N2kService E V)
      → Made v cs s (observe_calls env v name cs s)
  unfolding observe_calls observe_call observe_callback observe callback_started callback_finished
  observe_calls_lem v name [] s = record {
    events = sym (append-nil s.events);
    adapter = refl;
    counted = omega arith;
  }
  observe_calls_lem v name (c ∷ cs) s =
      let later = observe_calls_lem v name cs (observe_call env v name c s) in
      record {
        events = later.events ∙ append_assoc s.events (called v c ∷ []) (map (called v) cs);
        adapter = later.adapter;
        counted = omega (arith, later.counted);
      }

  -- What reflection and the subscriptions plan for a struct.
  abbrev pub planned : Delivered E V → SubscribeManager → List Call × Bool
  planned v m = Subscribe.handle_struct env.implements (env.type_of v) env.name_of m

  handle_struct_lem :
      (v : Delivered E V) (cs : List Call) (s : N2kService E V)
      → planned v s.subscriber ≡ (cs, true)
      → (r : N2kService E V) × (handle_struct env v s ≡ some r) × Made v cs s r
  unfolding handle_struct observe_subscriber
  handle_struct_lem v cs s e =
      let name = env.name_of (env.type_of v) in
      let made = observe_calls_lem v name cs (tick env s) in
      let end = observe_calls env v name cs (tick env s) in
      (
        measure env (observe_subscriber (now env end - now env s)) (tick env end),
        simp (handle_struct, e),
        record { events = made.events; adapter = made.adapter; counted = made.counted },
      )

  handle_packet_lem :
      (p : Packet) (v : Delivered E V) (cs : List Call) (s : N2kService E V)
      → Handler.handle_packet env.find_decoder p ≡ some v
      → planned v s.subscriber ≡ (cs, true)
      → (r : N2kService E V) × (handle_packet env p s ≡ some r) × Made v cs s r
  unfolding handle_packet observe_packet
  handle_packet_lem p v cs s d e =
      let (r, h, made) = handle_struct_lem v cs (tick env s) e in
      (
        measure env (observe_packet (now env r - now env s)) (tick env r),
        simp (handle_packet, d, h),
        record { events = made.events; adapter = made.adapter; counted = made.counted },
      )

  -- A frame that completes a packet is decoded, and the callbacks that are planned for its struct are called with it, in
  -- their order; nothing else is called or logged, each call is counted, the adapter is left as its own
  -- `HandleMessage` leaves it, and the queue and its counters stay.
  pub process_message_delivers :
      (f : Frame) (c : CanAdapter) (p : Packet) (v : Delivered E V) (cs : List Call)
      (s : N2kService E V)
      → CanAdapter.handle_message s.adapter (env.clock (suc (suc s.reads))) (can_frame f)
        ≡ some (c, p ∷ [])
      → Handler.handle_packet env.find_decoder p ≡ some v
      → planned v s.subscriber ≡ (cs, true)
      → (r : N2kService E V) × (process_message env (can_frame f) s ≡ some r)
        × (r.events ≡ s.events ++ map (called v) cs)
        × (r.adapter ≡ c)
        × (core r ≡ core s)
        × (r.metrics.callback_stats.count % 2 ^ 64
            ≡ (s.metrics.callback_stats.count + length cs) % 2 ^ 64)
  unfolding process_message message_pgn adapt handle_packets observe_frame
  process_message_delivers f c p v cs s a d e =
      let (r, h, made) =
        handle_packet_lem p v cs (record (tick env (tick env (tick env s))) { adapter = c }) d e in
      let begun = tick env s in
      let end =
        measure env
          (observe_frame (some (decode_can_id (now env s) f.id).pgn) (now env r - now env begun))
          (tick env r) in
      let runs : process_message env (can_frame f) s ≡ some end =
        simp (process_message, adapt, handle_packets, a, h) in
      (
        end,
        runs,
        made.events,
        made.adapter,
        core-process_message env (can_frame f) s end runs,
        made.counted,
      )
