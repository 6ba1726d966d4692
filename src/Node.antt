-- ===== src/Node.antt =====
-- pkg/node/node.go: a node of the network, its configuration and the state of its address.
pub mod Name
pub mod Devices
pub mod Messages
pub mod Claims
pub mod Requests
pub mod Groups
pub mod Loop
pub mod Sound
pub mod Answers
pub mod Sent
pub mod Arbitration
pub mod Turns
pub mod Settles
pub mod Lists
mod Tests
use n2k.Prelude.{
  ℕ, ◌≤◌, ◌<◌, Bool, true, false, ◌&&◌, not, List, [], Option, none, some, ltb, ◌==◌, if◌then◌else◌,
}
use n2k.Prelude.Results.{Result, ok, err}
use n2k.Packet.{MessageInfo}
use Name.{DeviceInfo, NameError, compute_name}
use Devices.{ProductInfo, no_devices}

pub data AddressState : Type 0 where
  unclaimed claiming claimed lost : AddressState

abbrev pub is_claiming : AddressState → Bool
is_claiming claiming = true
is_claiming s = false

-- `currentState == stateClaiming || currentState == stateClaimed`.
abbrev pub is_active : AddressState → Bool
is_active claiming = true
is_active claimed = true
is_active s = false

-- The configuration provider is a value of type `P`; `wake_up` is whether the channel holds a token.
pub record Node (P : Type 0) : Type 0 where
  pub device_info : DeviceInfo
  pub device_info_set : Bool
  pub product_info : ProductInfo
  pub config_provider : Option P
  pub name : ℕ
  pub network_address : ℕ
  pub preferred_address : ℕ
  pub address_claimed : Bool
  pub address_state : AddressState
  pub read_only : Bool
  pub transmit_pgns : List ℕ
  pub receive_pgns : List ℕ
  pub devices : Devices.Devices
  pub heartbeat_enabled : Bool
  pub heartbeat_interval : ℕ
  pub heartbeat_seq : ℕ
  pub wake_up : Bool

abbrev pub zero_device_info : DeviceInfo
zero_device_info = record {
  unique_number = 0;
  manufacturer_code = 0;
  device_function = 0;
  device_class = 0;
  device_instance_lower = 0;
  device_instance_upper = 0;
  system_instance = 0;
  industry_group = 0;
  arbitrary_address_capable = false;
}

abbrev pub zero_product_info : ProductInfo
zero_product_info = record {
  nmea2000_version = 0;
  product_code = 0;
  model_id = [];
  software_version_code = [];
  model_version = [];
  model_serial_code = [];
  certification_level = 0;
  load_equivalency = 0;
}

-- `ReadOnlyAddress`.
abbrev pub read_only_address : ℕ
read_only_address = 255

-- The interval is in milliseconds.
abbrev pub new_node : {P : Type 0} → Node P
new_node = record {
  device_info = zero_device_info;
  device_info_set = false;
  product_info = zero_product_info;
  config_provider = none;
  name = 0;
  network_address = 255;
  preferred_address = 128;
  address_claimed = false;
  address_state = unclaimed;
  read_only = true;
  transmit_pgns = [];
  receive_pgns = [];
  devices = no_devices;
  heartbeat_enabled = false;
  heartbeat_interval = 60000;
  heartbeat_seq = 0;
  wake_up = false;
}

pub data ClaimError : Type 0 where
  no_device_info : ClaimError
  out_of_range : ℕ → ClaimError

-- `ClaimAddress`. On an error the node stays as it was.
unfoldable pub claim_address : {P : Type 0} → ℕ → Node P → Result ClaimError (Node P)
claim_address preferred n =
    if preferred == read_only_address
    then ok (record n {
      preferred_address = preferred;
      network_address = read_only_address;
      address_state = unclaimed;
      address_claimed = false;
      read_only = true;
      wake_up = true;
    })
    else if not n.device_info_set
    then err no_device_info
    else if ltb 253 preferred
    then err (out_of_range preferred)
    else ok (record n {
      preferred_address = preferred;
      read_only = false;
      address_state = claiming;
      wake_up = true;
    })

-- `SetDeviceInfo`.
unfoldable pub set_device_info : {P : Type 0} → DeviceInfo → Node P → Result NameError (Node P)
set_device_info info n = elim (compute_name info) [
  | ok name ↦ ok (record n { device_info = info; device_info_set = true; name = name })
  | err e ↦ err e
]

abbrev pub set_product_info : {P : Type 0} → ProductInfo → Node P → Node P
set_product_info info n = record n { product_info = info }

abbrev pub set_configuration_provider : {P : Type 0} → Option P → Node P → Node P
set_configuration_provider provider n = record n { config_provider = provider }

abbrev pub set_supported_pgns : {P : Type 0} → List ℕ → List ℕ → Node P → Node P
set_supported_pgns transmit receive n = record n {
  transmit_pgns = transmit;
  receive_pgns = receive;
}

abbrev pub set_heartbeat_interval : {P : Type 0} → ℕ → Node P → Node P
set_heartbeat_interval interval n = record n { heartbeat_interval = interval; wake_up = true }

abbrev pub enable_heartbeat : {P : Type 0} → Bool → Node P → Node P
enable_heartbeat enable n = record n { heartbeat_enabled = enable; wake_up = true }

-- What `Stop` leaves, once the processing loop has ended.
unfoldable pub stopped_node : {P : Type 0} → Node P → Node P
stopped_node n = record n {
  address_state = unclaimed;
  address_claimed = false;
  network_address = 255;
  read_only = true;
}

-- What `setMessageInfo` finds by reflection in the value that it is given: a pointer to a struct with
-- an `Info` field of the right type, or what it refuses.
pub data Struct (A : Type 0) : Type 0 where
  not_struct_pointer no_info other_info : Struct A
  with_info : MessageInfo → A → Struct A

pub data NodeWriteError : Type 0 where
  read_only address_not_claimed not_struct_pointer no_info other_info : NodeWriteError

abbrev pub set_message_info : {A : Type 0} → Struct A → ℕ → ℕ → Result NodeWriteError (Struct A)
set_message_info not_struct_pointer source destination = err not_struct_pointer
set_message_info no_info source destination = err no_info
set_message_info other_info source destination = err other_info
set_message_info (with_info i a) source destination =
    ok (with_info (record i { source_id = source; target_id = destination }) a)

-- `write`: what is handed to the publisher, whose result `write` returns, or the error before that.
unfoldable pub write : {P A : Type 0} → Node P → Struct A → ℕ → Result NodeWriteError (Struct A)
write n s destination =
    if n.read_only
    then err read_only
    else if not n.address_claimed
    then err address_not_claimed
    else set_message_info s n.network_address destination
