-- ===== src/Node/Devices.antt =====
-- pkg/node/node.go: the devices that a node has observed, by NAME and by address.
pub mod Updates
pub mod Available
pub mod Table
pub mod Observed
pub mod Null
mod Tests
use n2k.Prelude.{
  ℕ, zero, suc, ◌+◌, ◌%◌, ◌^◌, Bool, true, false, ◌&&◌, ◌||◌, not, List, [], ◌∷◌, ◌++◌, Option,
  none, some, ltb, leb, ◌==◌, if◌then◌else◌, length, u8, Bytes, bytes_eq, Map, put, is_some,
  or_else,
}

pub record ProductInfo : Type 0 where
  pub nmea2000_version : ℕ
  pub product_code : ℕ
  pub model_id : Bytes
  pub software_version_code : Bytes
  pub model_version : Bytes
  pub model_serial_code : Bytes
  pub certification_level : ℕ
  pub load_equivalency : ℕ

pub record ConfigurationInfo : Type 0 where
  pub installation_description1 : Bytes
  pub installation_description2 : Bytes
  pub manufacturer_information : Bytes

-- A list of groups is `none` where Go has a nil slice, and the time 0 is the zero time.
pub record KnownDevice : Type 0 where
  pub address : ℕ
  pub name : ℕ
  pub last_seen : ℕ
  pub product_info : Option ProductInfo
  pub config_info : Option ConfigurationInfo
  pub transmit_pgns : Option (List ℕ)
  pub receive_pgns : Option (List ℕ)

pub data DeviceChangeKind : Type 0 where
  observed address_changed product_info_changed configuration_info_changed pgn_lists_changed
        expired :
      DeviceChangeKind

pub record DeviceChange : Type 0 where
  pub kind : DeviceChangeKind
  pub device : KnownDevice
  pub old_address : Option ℕ
  pub changed_pgns : Option (List ℕ)

-- `knownDevices`, `knownDeviceNamesByAddress` and `unknownKnownDevicesByAddress`.
pub record Devices : Type 0 where
  pub known : Map KnownDevice
  pub names : Map ℕ
  pub unknown : Map KnownDevice

abbrev pub no_devices : Devices
no_devices = record { known = λ _. none; names = λ _. none; unknown = λ _. none }

abbrev pub zero_device : KnownDevice
zero_device = record {
  address = 0;
  name = 0;
  last_seen = 0;
  product_info = none;
  config_info = none;
  transmit_pgns = none;
  receive_pgns = none;
}

-- `a` if it is there, and `b` otherwise.
abbrev pub first_some {ℓ} : {A : Type ℓ} → Option A → Option A → Option A
first_some none b = b
first_some (some a) b = some a

-- An empty slice that is copied by `append` to nil is nil.
abbrev pub copied : Option (List ℕ) → Option (List ℕ)
copied none = none
copied (some []) = none
copied (some (x ∷ xs)) = some (x ∷ xs)

unfoldable pub merge_known_device : KnownDevice → KnownDevice → KnownDevice
merge_known_device d overlay = record d {
  address = if d.address == 0 then overlay.address else d.address;
  last_seen =
      if d.last_seen == 0 || ltb d.last_seen overlay.last_seen
      then overlay.last_seen
      else d.last_seen;
  product_info = first_some d.product_info overlay.product_info;
  config_info = first_some d.config_info overlay.config_info;
  transmit_pgns = first_some d.transmit_pgns (copied overlay.transmit_pgns);
  receive_pgns = first_some d.receive_pgns (copied overlay.receive_pgns);
}

abbrev pub clone_known_device : KnownDevice → KnownDevice
clone_known_device d = record d {
  transmit_pgns = copied d.transmit_pgns;
  receive_pgns = copied d.receive_pgns;
}

abbrev pub change : DeviceChangeKind → KnownDevice → DeviceChange
change kind d = record {
  kind = kind;
  device = clone_known_device d;
  old_address = none;
  changed_pgns = none;
}

-- The device that held the address under another NAME loses it: address 255.
abbrev pub displace : Devices → ℕ → ℕ → Map KnownDevice
displace t address name = elim (t.names address) [
  | none ↦ t.known
  | some previous ↦
      if previous == name
      then t.known
      else put previous (some (record (or_else zero_device (t.known previous)) { address = 255 }))
          t.known
]

-- The entry of the claimed NAME, with what was observed of the address under no NAME.
abbrev pub claiming_device : Devices → ℕ → ℕ → ℕ → KnownDevice
claiming_device t now address name =
    let device = or_else zero_device (t.known name) in
    let merged : KnownDevice = elim (t.unknown address) [
      | none ↦ device
      | some u ↦ merge_known_device device u
    ] in
    record merged { address = address; name = name; last_seen = now }

-- `updateKnownDeviceFromClaim`, of a claim of `name` from `address`.
unfoldable pub update_from_claim : ℕ → ℕ → ℕ → Devices → Devices × List DeviceChange
update_from_claim now address name t =
    let known_name = is_some (t.known name) in
    let old_address = (or_else zero_device (t.known name)).address in
    let device = claiming_device t now address name in
    let moved = known_name && (leb old_address 253 && not (old_address == address)) in
    (
      record {
        known = put name (some device) (displace t address name);
        names = put address (some name) (if moved then put old_address none t.names else t.names);
        unknown = put address none t.unknown;
      },
      if not known_name
          then change observed device ∷ []
          else if not (old_address == address)
          then record (change address_changed device) { old_address = some old_address } ∷ []
          else [],
    )

unfoldable pub known_device_for_address : ℕ → Devices → KnownDevice
known_device_for_address address t = elim (t.names address) [
  | some name ↦ or_else zero_device (t.known name)
  | none ↦ or_else (record zero_device { address = address }) (t.unknown address)
]

unfoldable pub set_known_device_for_address : ℕ → KnownDevice → Devices → Devices
set_known_device_for_address address d t =
    if d.name == 0 then record t { unknown = put address (some d) t.unknown } else record {
      known = put d.name (some d) t.known;
      names = put address (some d.name) t.names;
      unknown = put address none t.unknown;
    }
