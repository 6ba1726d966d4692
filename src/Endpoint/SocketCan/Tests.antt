-- ===== src/Endpoint/SocketCan/Tests.antt =====
-- pkg/endpoint/socketcanendpoint/socketcanendpoint.go on concrete frames.
use n2k.Prelude.{◌*◌, ◌^◌, ◌≤◌, ◌≡◌, refl, sym, min, true, false, [], ◌∷◌, ◌++◌, some}
use n2k.Converter.{Frame, decode_can_id}
use n2k.Endpoint.SocketCan.{
  Outbound, Writer, SocketCan, new_socket_can, Event, Step, Run, offer, is_low_priority,
  requested_pgn, is_discovery, retry_policy, delay, delay_loop, write_queued_frame,
  record_outbound_lag, outbound_queue_lag, Answer, set_output, frame_ready,
}
use n2k.Endpoint.SocketCan.Retry.{delay_lem}
use n2k.Endpoint.SocketCan.Sound.{IsSound}
use n2k.Endpoint.SocketCan.Reachable.{Run-new_socket_can-IsSound}
use n2k.Endpoint.SocketCan.Balance.{entry, exit, pick, held}
use n2k.Endpoint.SocketCan.Ordered.{Run-keeps_order}
use n2k.Endpoint.SocketCan.Sending.{Sends, reaches_oldest_high}

-- A request of a product information, and a position.
abbrev request : Frame
request = record {
  id = 0x98EA_FF01;
  length = 3;
  bytes = 0x14 ∷ 0xF0 ∷ 0x01 ∷ 0 ∷ 0 ∷ 0 ∷ 0 ∷ 0 ∷ [];
}

abbrev position : Frame
position = record { id = 0x89F8_0101; length = 8; bytes = 1 ∷ 2 ∷ 3 ∷ 4 ∷ 5 ∷ 6 ∷ 7 ∷ 8 ∷ [] }

request_low : is_low_priority request ≡ true
unfolding is_low_priority decode_can_id requested_pgn is_discovery
request_low = refl

position_high : is_low_priority position ≡ false
unfolding is_low_priority decode_can_id requested_pgn is_discovery
position_high = refl

delay_lem_example :
    (delay (retry_policy request) 2
      ≡ min ((retry_policy request).initial_delay * 2 ^ 2) (retry_policy request).max_delay)
    × ((retry_policy request).initial_delay ≤ delay (retry_policy request) 2)
    × (delay (retry_policy request) 2 ≤ (retry_policy request).max_delay)
delay_lem_example = delay_lem request 2

-- A second later, and at the limit.
third_attempt : delay (retry_policy request) 2 ≡ 1_000_000_000
unfolding retry_policy delay_loop is_low_priority decode_can_id requested_pgn is_discovery
third_attempt = refl

sixth_attempt : delay (retry_policy position) 6 ≡ 50_000_000
unfolding retry_policy delay_loop is_low_priority decode_can_id requested_pgn is_discovery
sixth_attempt = refl

-- A frame of high priority that comes in while `Run` starts, and is written.
abbrev queued : Outbound
queued = record { frame = position; enqueued_at = some 10; attempt = 0 }

abbrev entered : SocketCan
entered = record new_socket_can { entered = queued ∷ [] }

abbrev offered : SocketCan
offered = record new_socket_can { high = queued ∷ [] }

offered_lem : (offer false queued new_socket_can).1 ≡ offered
unfolding offer is_low_priority decode_can_id requested_pgn is_discovery
offered_lem = refl

offered_event : (offer false queued new_socket_can).0 ≡ Event.accepted position ∷ []
unfolding offer is_low_priority decode_can_id requested_pgn is_discovery
offered_event = refl

offered-Run : Run new_socket_can (Event.accepted position ∷ []) offered
offered-Run =
    Run.next _ _
      (Run.next {t = new_socket_can} {u = entered} [] [] Run.here
        (Step.enter position 10 refl refl refl) refl)
      (Step.offers false queued [] [] refl (sym offered_event) (sym offered_lem)) refl

Run-new_socket_can-IsSound_example : IsSound offered
Run-new_socket_can-IsSound_example =
    Run-new_socket_can-IsSound offered (Event.accepted position ∷ []) offered-Run

Run-keeps_order_example :
    pick entry (Event.accepted position ∷ [])
    ≡ pick exit (Event.accepted position ∷ []) ++ (held Writer.gone ++ (position ∷ []))
Run-keeps_order_example = Run-keeps_order offered (Event.accepted position ∷ []) offered-Run

reaches_oldest_high_example : Sends queued [] (record offered { writer = Writer.top })
reaches_oldest_high_example =
    reaches_oldest_high queued [] (record offered { writer = Writer.top }) (λ g. cc) refl refl

-- A full buffer: the frame of low priority comes back later, the other waits in the writer.
full_low :
    (write_queued_frame Answer.full 30 31 (record queued { frame = request }) new_socket_can).1
    ≡ record new_socket_can {
      requeued = (record { frame = request; enqueued_at = some 10; attempt = 1 }, 0) ∷ [];
      writer = Writer.top;
      lag = 20;
      lag_updated = 31;
    }
unfolding write_queued_frame record_outbound_lag retry_policy is_low_priority decode_can_id
    requested_pgn is_discovery
full_low = refl

-- The lag is told for five seconds.
old_lag :
    outbound_queue_lag 5_000_000_032 (record new_socket_can { lag = 20; lag_updated = 31 }) ≡ 0
unfolding outbound_queue_lag
old_lag = refl

-- A frame of the channel goes to the handler that was set last.
handed_on : frame_ready position (set_output 2 (set_output 1 new_socket_can)) ≡ (2, position) ∷ []
handed_on = refl
