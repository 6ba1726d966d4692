-- ===== src/Node/Claims.antt =====
-- pkg/node/node.go: the claims and commands that a node receives, and the claim that it sends.
use n2k.Prelude.{
  ℕ, ◌-◌, ◌^◌, bit_and, true, false, not, List, [], ◌∷◌, none, some, ltb, ◌==◌, if◌then◌else◌,
}
use n2k.Node.{Node, claiming, lost, is_active}
use n2k.Node.Name.{
  AddressClaim, CommandedAddress, build_address_claim, compute_name_from_claim,
  compute_name_from_command,
}
use n2k.Node.Devices.{ConfigurationInfo, DeviceChange, update_from_claim}
use n2k.Node.Devices.Available.{next_available_address}
use n2k.Node.Messages.{Message, iso_address_claim}

-- What a handler leaves: the node, the messages for the publisher in order, the device changes
-- that its subscribers are told, and what it hands to the provider's SetConfigurationInfo.
pub record Outcome (P F : Type 0) : Type 0 where
  pub node : Node P
  pub sent : List (Message F)
  pub changes : List DeviceChange
  pub stored : List ConfigurationInfo

abbrev pub stay : {P F : Type 0} → Node P → Outcome P F
stay n = record { node = n; sent = []; changes = []; stored = [] }

-- `sendAddressClaim`; a failure of the publisher is only logged.
unfoldable pub send_address_claim : {P F : Type 0} → Node P → List (Message F)
send_address_claim n =
    if n.read_only
    then []
    else iso_address_claim (build_address_claim n.device_info n.network_address) ∷ []

abbrev pub lose : {P : Type 0} → Node P → Node P
lose n = record n {
  address_claimed = false;
  address_state = lost;
  network_address = 255;
  wake_up = true;
}

-- The other device has the higher priority: another address, or none.
unfoldable pub yield_address : {P : Type 0} → Node P → Node P
yield_address n =
    if n.device_info.arbitrary_address_capable
    then elim (next_available_address n.network_address n.devices) [
      | some next ↦ record n {
        address_claimed = false;
        preferred_address = next;
        address_state = claiming;
        wake_up = true;
      }
      | none ↦ lose n
    ]
    else lose n

-- `processIsoAddressClaim`, of a claim received at the time `now`.
unfoldable pub process_iso_address_claim : {P F : Type 0} → ℕ → AddressClaim → Node P → Outcome P F
process_iso_address_claim now claim n =
    let incoming = compute_name_from_claim claim in
    let updated = update_from_claim now claim.info.source_id incoming n.devices in
    let n₁ = record n { devices = updated.0 } in
    if not (is_active n.address_state)
    then record { node = n₁; sent = []; changes = updated.1; stored = [] }
    else if not (claim.info.source_id == n.network_address)
    then record { node = n₁; sent = []; changes = updated.1; stored = [] }
    else if ltb incoming n.name
    then record { node = yield_address n₁; sent = []; changes = updated.1; stored = [] }
    else record { node = n₁; sent = send_address_claim n₁; changes = updated.1; stored = [] }

-- `processIsoCommandedAddress`.
unfoldable pub process_iso_commanded_address : {P : Type 0} → CommandedAddress → Node P → Node P
process_iso_commanded_address command n =
    if n.read_only
    then n
    else if not (compute_name_from_command command == bit_and n.name (2 ^ 63 - 1))
    then n
    else elim command.new_source_address [
      | none ↦ n
      | some address ↦ record n {
        preferred_address = address;
        address_state = claiming;
        address_claimed = false;
      }
    ]
