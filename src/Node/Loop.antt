-- ===== src/Node/Loop.antt =====
-- pkg/node/node.go, `process`: the processing loop, one step at a time, with the calls of the
-- node's owner between its steps.
use n2k.Prelude.{
  Bytes, ℕ, ◌+◌, ◌≡◌, Bool, true, false, ◌&&◌, not, List, [], ◌∷◌, ◌++◌, Option, some, ◌==◌,
  if◌then◌else◌, u8,
}
use n2k.Prelude.Results.{Result, ok, err}
use n2k.Node.{
  Node, claimed, is_claiming, claim_address, set_device_info, set_product_info,
  set_configuration_provider, set_supported_pgns, set_heartbeat_interval, enable_heartbeat,
  stopped_node, new_node, Struct, with_info, NodeWriteError, write,
}
use n2k.Node.Name.{DeviceInfo}
use n2k.Node.Devices.{ProductInfo, ConfigurationInfo}
use n2k.Node.Devices.Updates.{
  update_from_product_info, update_from_configuration_info, update_from_pgn_list,
}
use n2k.Node.Messages.{
  Incoming, iso_request, nmea_request, nmea_command, nmea_write_fields, nmea_read_fields,
  iso_acknowledgement, iso_address_claim, iso_commanded_address, product_information,
  configuration_information, pgn_list, Message, heartbeat, heartbeat_pgn, info_of,
}
use n2k.Node.Claims.{
  Outcome, stay, send_address_claim, process_iso_address_claim, process_iso_commanded_address,
}
use n2k.Node.Groups.{process_nmea_command, process_nmea_write_fields, process_nmea_read_fields}
use n2k.Node.Requests.{process_iso_request, process_nmea_request}

-- Where the loop is: at its top, before either of the two sends, at the `select`, or not running.
pub data Phase : Type 0 where
  top select stopped : Phase
  claim_due : Bool → Bool → Phase
  heartbeat_due : Bool → Phase

-- Whether each ticker is there.
pub record Loop (P : Type 0) : Type 0 where
  pub node : Node P
  pub claim_ticker : Bool
  pub heartbeat_ticker : Bool
  pub phase : Phase

abbrev pub new_loop : {P : Type 0} → Loop P
new_loop = record {
  node = new_node;
  claim_ticker = false;
  heartbeat_ticker = false;
  phase = stopped;
}

-- The top of the loop, under the lock: a node that is claiming has a ticker for the address that
-- it prefers, and a node that may send heartbeats has a ticker for them.
unfoldable pub prepare : {P : Type 0} → Loop P → Loop P
prepare l =
    let n = l.node in
    let is_running = l.claim_ticker && n.network_address == n.preferred_address in
    let starts = is_claiming n.address_state && not is_running in
    let beats = n.heartbeat_enabled && n.address_claimed in
    record {
      node = if starts then record n { network_address = n.preferred_address } else n;
      claim_ticker = is_claiming n.address_state;
      heartbeat_ticker = beats;
      phase = claim_due starts (beats && not l.heartbeat_ticker);
    }

-- The heartbeat that passes the guards of `write`.
abbrev pub published : {F : Type 0} → Result NodeWriteError (Struct (Option ℕ)) → List (Message F)
published (ok (with_info i seq)) = heartbeat (record { info = i; sequence_counter = seq }) ∷ []
published (ok s) = []
published (err e) = []

-- `sendHeartbeat`.
unfoldable pub send_heartbeat : {P F : Type 0} → Node P → Node P × List (Message F)
send_heartbeat n = (
  record n { heartbeat_seq = u8 (n.heartbeat_seq + 1) },
  published
      (write n (with_info (info_of heartbeat_pgn n.network_address 0) (some n.heartbeat_seq)) 255),
)

-- `sendProcessResponses`.
unfoldable pub send_process_responses :
    {P F : Type 0} → Node P → List (Message F) → List (Message F)
send_process_responses n responses = if n.read_only then [] else responses

-- The arm of the claim ticker.
unfoldable pub claim_tick : {P : Type 0} → Node P → Node P
claim_tick n =
    if is_claiming n.address_state
    then record n { address_state = claimed; address_claimed = true }
    else n

-- The conversions of floats and strings, and the provider's answers.
module _ {P F : Type 0} (hundredths : F → ℕ) (over_hundred : ℕ → F) (utf16 : List ℕ → Bytes)
    (configuration : P → Option ConfigurationInfo) (accepts : P → ConfigurationInfo → Bool) where
  -- `processPGN`, at the time `now`: what a handler does, and the responses that it returns.
  unfoldable pub process_pgn : ℕ → Incoming F → Node P → Outcome P F × List (Message F)
  process_pgn now (iso_request r) n = (stay n, process_iso_request over_hundred configuration n r)
  process_pgn now (nmea_request r) n = (stay n, process_nmea_request over_hundred configuration n r)
  process_pgn now (nmea_command c) n =
      let (responses, stored) = process_nmea_command over_hundred utf16 configuration accepts n c in
      (record (stay n) { stored = stored }, responses)
  process_pgn now (nmea_write_fields w) n =
      let (responses, stored) =
        process_nmea_write_fields over_hundred utf16 configuration accepts n w in
      (record (stay n) { stored = stored }, responses)
  process_pgn now (nmea_read_fields r) n =
      (stay n, process_nmea_read_fields over_hundred utf16 configuration accepts n r)
  process_pgn now (iso_acknowledgement a) n = (stay n, [])
  process_pgn now (iso_address_claim c) n = (process_iso_address_claim now c n, [])
  process_pgn now (iso_commanded_address c) n = (stay (process_iso_commanded_address c n), [])
  process_pgn now (product_information p) n =
      let updated = update_from_product_info hundredths now p n.devices in
      (
        record {
          node = record n { devices = updated.0 };
          sent = [];
          changes = updated.1;
          stored = [];
        },
        [],
      )
  process_pgn now (configuration_information i c) n =
      let updated = update_from_configuration_info now i.source_id c n.devices in
      (
        record {
          node = record n { devices = updated.0 };
          sent = [];
          changes = updated.1;
          stored = [];
        },
        [],
      )
  process_pgn now (pgn_list p) n =
      let updated = update_from_pgn_list now p n.devices in
      (
        record {
          node = record n { devices = updated.0 };
          sent = [];
          changes = updated.1;
          stored = [];
        },
        [],
      )

  -- The arm of the queue.
  unfoldable pub receive : ℕ → Incoming F → Node P → Outcome P F
  receive now m n =
      let (o, responses) = process_pgn now m n in
      record o { sent = o.sent ++ send_process_responses o.node responses }

-- A step of the loop, or a call of its owner's, with the messages that it hands to the publisher.
pub data Step {P F : Type 0} (hundredths : F → ℕ) (over_hundred : ℕ → F)
    : Loop P → List (Message F) → Loop P → Type 0 where
  call_claim_address :
      (l : Loop P) (a : ℕ) (n : Node P)
      → claim_address a l.node ≡ ok n
      → Step hundredths over_hundred l [] (record l { node = n })
  call_set_device_info :
      (l : Loop P) (info : DeviceInfo) (n : Node P)
      → set_device_info info l.node ≡ ok n
      → Step hundredths over_hundred l [] (record l { node = n })
  call_set_product_info :
      (l : Loop P) (info : ProductInfo)
      → Step hundredths over_hundred l [] (record l { node = set_product_info info l.node })
  call_set_configuration_provider :
      (l : Loop P) (p : Option P)
      → Step hundredths over_hundred l [] (record l { node = set_configuration_provider p l.node })
  call_set_supported_pgns :
      (l : Loop P) (transmit receive : List ℕ)
      → Step hundredths over_hundred l []
          (record l { node = set_supported_pgns transmit receive l.node })
  call_set_heartbeat_interval :
      (l : Loop P) (interval : ℕ)
      → Step hundredths over_hundred l []
          (record l { node = set_heartbeat_interval interval l.node })
  call_enable_heartbeat :
      (l : Loop P) (b : Bool)
      → Step hundredths over_hundred l [] (record l { node = enable_heartbeat b l.node })
  start :
      (l : Loop P)
      → l.phase ≡ stopped
      → Step hundredths over_hundred l []
          (record l { claim_ticker = false; heartbeat_ticker = false; phase = top })
  stop :
      (l : Loop P)
      → l.phase ≡ select
      → Step hundredths over_hundred l [] (record l { node = stopped_node l.node; phase = stopped })
  at_top : (l : Loop P) → l.phase ≡ top → Step hundredths over_hundred l [] (prepare l)
  claim_sent :
      (l : Loop P) (due beats : Bool)
      → l.phase ≡ claim_due due beats
      → Step hundredths over_hundred l
          (if due then send_address_claim l.node else [])
          (record l { phase = heartbeat_due beats })
  heartbeat_sent :
      (l : Loop P)
      → l.phase ≡ heartbeat_due true
      → Step hundredths over_hundred l
          (send_heartbeat l.node).1
          (record l { node = (send_heartbeat {F = F} l.node).0; phase = select })
  no_heartbeat :
      (l : Loop P)
      → l.phase ≡ heartbeat_due false
      → Step hundredths over_hundred l [] (record l { phase = select })
  received :
      (l : Loop P) (utf16 : List ℕ → Bytes) (configuration : P → Option ConfigurationInfo)
      (accepts : P → ConfigurationInfo → Bool) (now : ℕ) (m : Incoming F)
      → l.phase ≡ select
      → Step hundredths over_hundred l
          (receive hundredths over_hundred utf16 configuration accepts now m l.node).sent
          (record l {
            node = (receive hundredths over_hundred utf16 configuration accepts now m l.node).node;
            phase = top;
          })
  claim_ticked :
      (l : Loop P)
      → l.phase ≡ select
      → l.claim_ticker ≡ true
      → Step hundredths over_hundred l [] (record l { node = claim_tick l.node; phase = top })
  heartbeat_ticked :
      (l : Loop P)
      → l.phase ≡ select
      → l.heartbeat_ticker ≡ true
      → Step hundredths over_hundred l
          (send_heartbeat l.node).1
          (record l { node = (send_heartbeat {F = F} l.node).0; phase = top })
  woken :
      (l : Loop P)
      → l.phase ≡ select
      → l.node.wake_up ≡ true
      → Step hundredths over_hundred l []
          (record l { node = record l.node { wake_up = false }; phase = top })

-- A run, with all that it hands to the publisher, in order.
pub data Run {P F : Type 0} (hundredths : F → ℕ) (over_hundred : ℕ → F)
    : Loop P → List (Message F) → Loop P → Type 0 where
  done : (l : Loop P) → Run hundredths over_hundred l [] l
  step :
      (l l' l'' : Loop P) (ms ms' : List (Message F))
      → Step hundredths over_hundred l ms l'
      → Run hundredths over_hundred l' ms' l''
      → Run hundredths over_hundred l (ms ++ ms') l''
