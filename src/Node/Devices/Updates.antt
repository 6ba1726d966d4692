-- ===== src/Node/Devices/Updates.antt =====
-- pkg/node/node.go: what a node learns of a device from the groups that the device sends.
use n2k.Prelude.{
  ℕ, Bool, false, ◌&&◌, List, [], ◌∷◌, Option, none, some, ◌==◌, if◌then◌else◌, u8, Bytes, bytes_eq,
  or_else,
}
use n2k.Packet.{MessageInfo}
use n2k.Node.Devices.{
  ProductInfo, ConfigurationInfo, KnownDevice, DeviceChange, product_info_changed,
  configuration_info_changed, pgn_lists_changed, Devices, change, copied, known_device_for_address,
  set_known_device_for_address,
}

-- `ProductInformation`; the version is a float of type `F`.
pub record ProductInformation (F : Type 0) : Type 0 where
  pub info : MessageInfo
  pub nmea2000_version : Option F
  pub product_code : Option ℕ
  pub model_id : Bytes
  pub software_version_code : Bytes
  pub model_version : Bytes
  pub model_serial_code : Bytes
  pub certification_level : ℕ
  pub load_equivalency : Option ℕ

pub data ListCode : Type 0 where
  transmit_pgn_list receive_pgn_list : ListCode
  other_list : ℕ → ListCode

-- `PGNListTransmitAndReceive`, with the repeated `PGN` fields.
pub record PgnList : Type 0 where
  pub info : MessageInfo
  pub function_code : ListCode
  pub repeating1 : List (Option ℕ)

abbrev pub product_eq : ProductInfo → ProductInfo → Bool
product_eq a b =
    a.nmea2000_version == b.nmea2000_version
    && (a.product_code == b.product_code
        && (bytes_eq a.model_id b.model_id
            && (bytes_eq a.software_version_code b.software_version_code
                && (bytes_eq a.model_version b.model_version
                    && (bytes_eq a.model_serial_code b.model_serial_code
                        && (a.certification_level == b.certification_level
                            && a.load_equivalency == b.load_equivalency))))))

abbrev pub config_eq : ConfigurationInfo → ConfigurationInfo → Bool
config_eq a b =
    bytes_eq a.installation_description1 b.installation_description1
    && (bytes_eq a.installation_description2 b.installation_description2
        && bytes_eq a.manufacturer_information b.manufacturer_information)

-- Whether an option holds a value that equals `b`.
abbrev pub holds {ℓ} : {A : Type ℓ} → (A → A → Bool) → Option A → A → Bool
holds eq none b = false
holds eq (some a) b = eq a b

-- The device of an address, seen now.
abbrev pub seen : ℕ → ℕ → Devices → KnownDevice
seen now address t = record (known_device_for_address address t) {
  address = address;
  last_seen = now;
}

-- `hundredths` is `uint16(v * 100)`, in floating point.
module _ {F : Type 0} (hundredths : F → ℕ) where
  abbrev pub product_info_of : ProductInformation F → ProductInfo
  product_info_of p = record {
    nmea2000_version = elim p.nmea2000_version [ none ↦ 0 | some v ↦ hundredths v ];
    product_code = or_else 0 p.product_code;
    model_id = p.model_id;
    software_version_code = p.software_version_code;
    model_version = p.model_version;
    model_serial_code = p.model_serial_code;
    certification_level = u8 p.certification_level;
    load_equivalency = or_else 0 p.load_equivalency;
  }

  -- `updateKnownDeviceFromProductInfo`.
  unfoldable pub update_from_product_info :
      ℕ → ProductInformation F → Devices → Devices × List DeviceChange
  update_from_product_info now p t =
      let d = seen now p.info.source_id t in
      let new = product_info_of p in
      if holds product_eq d.product_info new
      then (set_known_device_for_address p.info.source_id d t, [])
      else (
        set_known_device_for_address p.info.source_id (record d { product_info = some new }) t,
        change product_info_changed (record d { product_info = some new }) ∷ [],
      )

-- `updateKnownDeviceFromConfigurationInfo`.
unfoldable pub update_from_configuration_info :
    ℕ → ℕ → ConfigurationInfo → Devices → Devices × List DeviceChange
update_from_configuration_info now source new t =
    let d = seen now source t in
    if holds config_eq d.config_info new then (set_known_device_for_address source d t, []) else (
      set_known_device_for_address source (record d { config_info = some new }) t,
      change configuration_info_changed (record d { config_info = some new }) ∷ [],
    )

-- The groups that are there.
abbrev pub list_values : List (Option ℕ) → List ℕ
list_values [] = []
list_values (none ∷ xs) = list_values xs
list_values (some p ∷ xs) = p ∷ list_values xs

-- A list that is set: the change is told only where the copy of the new list is not nil.
abbrev pub list_change : KnownDevice → List ℕ → List DeviceChange
list_change d new = elim (copied (some new)) [
  | none ↦ []
  | some xs ↦ record (change pgn_lists_changed d) { changed_pgns = some xs } ∷ []
]

-- `updateKnownDeviceFromPgnList`.
unfoldable pub update_from_pgn_list : ℕ → PgnList → Devices → Devices × List DeviceChange
update_from_pgn_list now p t =
    let d = seen now p.info.source_id t in
    let new = list_values p.repeating1 in
    let transmits = record d { transmit_pgns = some new } in
    let receives = record d { receive_pgns = some new } in
    elim p.function_code [
      | transmit_pgn_list ↦
          if holds bytes_eq d.transmit_pgns new
          then (set_known_device_for_address p.info.source_id d t, [])
          else (
            set_known_device_for_address p.info.source_id transmits t,
            list_change transmits new,
          )
      | receive_pgn_list ↦
          if holds bytes_eq d.receive_pgns new
          then (set_known_device_for_address p.info.source_id d t, [])
          else (set_known_device_for_address p.info.source_id receives t, list_change receives new)
      | other_list code ↦ (t, [])
    ]
