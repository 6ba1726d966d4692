-- ===== src/Service/Handling/Tests.antt =====
-- Runs of internal/n2kinternal/n2kinternal.go: a water depth frame, with one callback for its struct, and a clock
-- that goes on by 100 at each reading.
use n2k.Prelude.{
  ℕ, ◌+◌, ◌*◌, ◌%◌, ◌^◌, ◌≡◌, refl, ◌⊎◌, Bool, true, false, [], ◌∷◌, ◌++◌, some, u64, if◌then◌else◌,
}
use n2k.Prelude.Results.{ok}
use n2k.Converter.{Frame, decode_can_id}
use n2k.Packet.{Packet, new_packet}
use n2k.Packet.Handler
use n2k.Packet.Handler.{Delivered, decoded}
use n2k.Adapter.CanAdapter
use n2k.Adapter.CanAdapter.{Message, can_frame, extract_message_info, assemble, has_errors}
use n2k.Pgn.{fast_pgn_bits, is_fast, is_proprietary_pgn}
use n2k.Subscribe
use n2k.Subscribe.{
  SubscribeManager, new_manager, func, struct_of, Call, call_list, dispatch, plan, add_subscription,
}
use n2k.Service.Queue.{QueuedMessage}
use n2k.Service.Metrics.{new_processing_metrics}
use n2k.Service.Handling.{
  Environment, N2kService, called, new_n2k_service, process_message, handle_message,
  enqueue_message,
}
use n2k.Service.Handling.Kept.{core}
use n2k.Service.Handling.Behind.{IsBehind, IsInTime}
use n2k.Service.Handling.Pipeline.{process_message_delivers}
use n2k.Service.Handling.Ordered.{
  Live, Run, start, accepts, stamped, hooked, received_at, handle_message_running, here, next,
  receive, idle, IsOrdered, Run-IsOrdered,
}
use n2k.Service.Handling.Dropped.{handle_message_refuses, with_last}

abbrev env : Environment Bool ℕ
env = record {
  clock = λ n. 1000 + n * 100;
  find_decoder = λ s pgn. ok (λ info. ok (info.pgn + 1));
  type_of = λ v. 1;
  name_of = λ t. 65 ∷ [];
  implements = λ t i. true;
  callback_name = λ f. f ∷ [];
  text = record {
    sort = λ before xs. xs;
    pgn_text = λ c. [];
    callback_text = λ c. [];
    join = λ sep parts. [];
  };
}

abbrev subscriber : SubscribeManager
subscriber = (add_subscription (65 ∷ []) (func 9 (struct_of 1 ∷ [])) new_manager).0

abbrev idle_service : N2kService Bool ℕ
idle_service = record (new_n2k_service env true 250) { subscriber = subscriber }

abbrev running_service : N2kService Bool ℕ
running_service = record idle_service { running = true }

abbrev depth_frame : Frame
depth_frame = record { id = 0x8DF5_0B23; length = 8; bytes = 1 ∷ 2 ∷ 3 ∷ 4 ∷ 5 ∷ 6 ∷ 7 ∷ 8 ∷ [] }

abbrev depth_packet : Packet
depth_packet = record (new_packet (extract_message_info 1300 depth_frame) depth_frame.bytes) {
  complete = true;
}

abbrev plain_call : Call
plain_call = record { function = 9; by_pointer = false }

process_message_delivers_example :
    (r : N2kService Bool ℕ) × (process_message env (can_frame depth_frame) idle_service ≡ some r)
    × (r.events ≡ called (decoded 128268) plain_call ∷ [])
    × (r.adapter ≡ idle_service.adapter)
    × (core r ≡ core idle_service)
    × (r.metrics.callback_stats.count % 2 ^ 64 ≡ 1)
unfolding new_n2k_service CanAdapter.handle_message CanAdapter.handle_packet has_errors assemble
    is_fast Handler.handle_packet Handler.handle_found Handler.handle_decoded new_packet
    extract_message_info decode_can_id is_proprietary_pgn Subscribe.handle_struct call_list dispatch
    plan add_subscription fast_pgn_bits new_processing_metrics
process_message_delivers_example =
    process_message_delivers env depth_frame idle_service.adapter depth_packet (decoded 128268)
      (plain_call ∷ []) idle_service refl refl refl

abbrev depth_message : Message
depth_message = can_frame depth_frame

-- The message of a second ago is processed while the depth frame comes in.
abbrev late_service : N2kService Bool ℕ
late_service = record running_service { processing_nano = 500 }

handle_message_refuses_example :
    let t = received_at env depth_message late_service in
    (r : N2kService Bool ℕ) × (handle_message env depth_message late_service ≡ some r)
    × ((IsBehind t (core late_service)
          × (core r ≡ record (core late_service) {
            dropped = u64 (late_service.dropped + 1);
            backlog_dropped = u64 (late_service.backlog_dropped + 1);
          }))
        ⊎ (IsInTime t (core late_service)
            × (core r ≡ record (core late_service) {
              queue = with_last depth_message t late_service.queue;
              waiting_count = late_service.waiting_count + 1;
            })))
handle_message_refuses_example = handle_message_refuses env depth_message late_service refl

abbrev with_frame : N2kService Bool ℕ
with_frame =
    enqueue_message env (received_at env depth_message running_service) depth_message
      (hooked env depth_message running_service)

-- The processor holds nothing yet.
abbrev received : Live Bool ℕ
received = record {
  service = with_frame;
  stage = idle;
  accepted =
      if accepts env depth_message running_service
      then [] ++ (stamped env depth_message running_service ∷ [])
      else [];
  finished = [];
}

received-Run : Run env (start env running_service) received
unfolding new_n2k_service
received-Run = next here (
    receive depth_message with_frame refl
      (handle_message_running env depth_message running_service refl) refl)

Run-IsOrdered_example : IsOrdered (core received.service) received.stage received.accepted []
unfolding new_n2k_service
Run-IsOrdered_example = Run-IsOrdered env running_service received refl refl received-Run

-- The frame has waited since 100 when the clock says 1100.
abbrev old_message : QueuedMessage Message
old_message = record { message = some depth_message; enqueued_at = 100 }
