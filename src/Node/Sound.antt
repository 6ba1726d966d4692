-- ===== src/Node/Sound.antt =====
-- pkg/node/node.go: what holds of a node in every state that its loop and its owner's calls lead to.
use n2k.Prelude.{Bool, Bytes, ℕ, ◌≡◌, refl, true, false, List, Option, arith}
use n2k.Prelude.Results.{ok}
use n2k.Node.{
  Node, unclaimed, claimed, lost, claim_address, set_device_info, stopped_node, new_node,
}
use n2k.Node.Name.{DeviceInfo, AddressClaim, CommandedAddress, compute_name}
use n2k.Node.Devices.{ConfigurationInfo}
use n2k.Node.Messages.{
  Message, Incoming, iso_request, nmea_request, nmea_command, nmea_write_fields, nmea_read_fields,
  iso_acknowledgement, iso_address_claim, iso_commanded_address, product_information,
  configuration_information, pgn_list,
}
use n2k.Node.Claims.{yield_address, process_iso_address_claim, process_iso_commanded_address}
use n2k.Node.Loop.{
  Loop, new_loop, prepare, send_heartbeat, claim_tick, process_pgn, receive, Step,
  call_claim_address, call_set_device_info, call_set_product_info, call_set_configuration_provider,
  call_set_supported_pgns, call_set_heartbeat_interval, call_enable_heartbeat, start, stop, at_top,
  claim_sent, heartbeat_sent, no_heartbeat, received, claim_ticked, heartbeat_ticked, woken, Run,
  done, step,
}

pub record IsSound {P : Type 0} (n : Node P) : Type 0 where
  pub passive :
      n.address_state ≡ unclaimed
      → (n.read_only ≡ true) × (n.address_claimed ≡ false) × (n.network_address ≡ 255)
  pub read_only : n.read_only ≡ true → n.address_state ≡ unclaimed
  pub claimed : n.address_state ≡ claimed → n.address_claimed ≡ true
  pub lost : n.address_state ≡ lost → (n.address_claimed ≡ false) × (n.network_address ≡ 255)
  pub configured : n.read_only ≡ false → n.device_info_set ≡ true
  pub named : n.device_info_set ≡ true → compute_name n.device_info ≡ ok n.name

new_node-IsSound : {P : Type 0} → IsSound (new_node {P = P})
new_node-IsSound = ground arith

module _ {P : Type 0} (n : Node P) (s : IsSound n) where
  claim_address-IsSound : (a : ℕ) (m : Node P) → claim_address a n ≡ ok m → IsSound m
  unfolding claim_address
  claim_address-IsSound a m e = ground arith

  set_device_info-IsSound : (d : DeviceInfo) (m : Node P) → set_device_info d n ≡ ok m → IsSound m
  unfolding set_device_info
  set_device_info-IsSound d m e = ground arith

  yield_address-IsSound : n.read_only ≡ false → IsSound (yield_address n)
  unfolding yield_address
  yield_address-IsSound writes = ground arith

  claim_tick-IsSound : IsSound (claim_tick n)
  unfolding claim_tick
  claim_tick-IsSound = ground arith

  process_iso_commanded_address-IsSound :
      (c : CommandedAddress) → IsSound (process_iso_commanded_address c n)
  unfolding process_iso_commanded_address
  process_iso_commanded_address-IsSound c = ground arith

  prepare-IsSound : (l : Loop P) → l.node ≡ n → IsSound (prepare l).node
  unfolding prepare
  prepare-IsSound l e = ground arith

  stopped_node-IsSound : IsSound (stopped_node n)
  unfolding stopped_node
  stopped_node-IsSound = ground arith

  process_iso_address_claim-IsSound :
      (F : Type 0) (now : ℕ) (c : AddressClaim)
      → IsSound (process_iso_address_claim {F = F} now c n).node
  unfolding process_iso_address_claim yield_address
  process_iso_address_claim-IsSound F now c = ground arith

module _ {P F : Type 0} (hundredths : F → ℕ) (over_hundred : ℕ → F) (utf16 : List ℕ → Bytes)
    (configuration : P → Option ConfigurationInfo) (accepts : P → ConfigurationInfo → Bool) where
  receive-IsSound :
      (now : ℕ) (m : Incoming F) (n : Node P)
      → IsSound n
      → IsSound (receive hundredths over_hundred utf16 configuration accepts now m n).node
  unfolding receive process_pgn
  receive-IsSound now (iso_address_claim c) n s = process_iso_address_claim-IsSound n s F now c
  receive-IsSound now (iso_commanded_address c) n s = process_iso_commanded_address-IsSound n s c
  receive-IsSound now (iso_request r) n s = s
  receive-IsSound now (nmea_request r) n s = s
  receive-IsSound now (nmea_command c) n s = s
  receive-IsSound now (nmea_write_fields w) n s = s
  receive-IsSound now (nmea_read_fields r) n s = s
  receive-IsSound now (iso_acknowledgement a) n s = s
  receive-IsSound now (product_information p) n s = ground arith
  receive-IsSound now (configuration_information i c) n s = ground arith
  receive-IsSound now (pgn_list p) n s = ground arith

module _ {P F : Type 0} (hundredths : F → ℕ) (over_hundred : ℕ → F) where
  Step-IsSound :
      (l l' : Loop P) (ms : List (Message F))
      → Step hundredths over_hundred l ms l'
      → IsSound l.node
      → IsSound l'.node
  unfolding send_heartbeat
  Step-IsSound _ _ _ (call_claim_address l a n e) s = claim_address-IsSound l.node s a n e
  Step-IsSound _ _ _ (call_set_device_info l info n e) s = set_device_info-IsSound l.node s info n e
  Step-IsSound _ _ _ (call_set_product_info l info) s = ground arith
  Step-IsSound _ _ _ (call_set_configuration_provider l p) s = ground arith
  Step-IsSound _ _ _ (call_set_supported_pgns l t r) s = ground arith
  Step-IsSound _ _ _ (call_set_heartbeat_interval l i) s = ground arith
  Step-IsSound _ _ _ (call_enable_heartbeat l b) s = ground arith
  Step-IsSound _ _ _ (start l e) s = s
  Step-IsSound _ _ _ (stop l e) s = stopped_node-IsSound l.node s
  Step-IsSound _ _ _ (at_top l e) s = prepare-IsSound l.node s l refl
  Step-IsSound _ _ _ (claim_sent l d b e) s = s
  Step-IsSound _ _ _ (heartbeat_sent l e) s = ground arith
  Step-IsSound _ _ _ (no_heartbeat l e) s = s
  Step-IsSound _ _ _ (received l utf16 c accepts now m e) s =
      receive-IsSound hundredths over_hundred utf16 c accepts now m l.node s
  Step-IsSound _ _ _ (claim_ticked l e e') s = claim_tick-IsSound l.node s
  Step-IsSound _ _ _ (heartbeat_ticked l e e') s = ground arith
  Step-IsSound _ _ _ (woken l e e') s = ground arith

  -- Every step keeps a node sound.
  pub Run-IsSound :
      (l l' : Loop P) (ms : List (Message F))
      → Run hundredths over_hundred l ms l'
      → IsSound l.node
      → IsSound l'.node
  Run-IsSound _ _ _ (done l) s = s
  Run-IsSound _ _ _ (step l l' l'' ms ms' e r) s =
      Run-IsSound l' l'' ms' r (Step-IsSound l l' ms e s)

  -- In every state that a run from a new node leads to, the node is sound: it is read-only exactly while
  -- unclaimed; unclaimed or lost, its flag of a claimed address is not set and its address is 255; claimed, the
  -- flag is set, while claiming it may be either; and a node that writes has its device information set and the
  -- NAME computed from it.
  pub Run-new-IsSound :
      (l : Loop P) (ms : List (Message F))
      → Run hundredths over_hundred new_loop ms l
      → IsSound l.node
  Run-new-IsSound l ms r = Run-IsSound new_loop l ms r new_node-IsSound
