-- ===== src/Node/Name.antt =====
-- pkg/node/node.go: the 64-bit NAME of a device, computed from its configuration, from an address claim and
-- from a commanded address.
pub mod Fields
use n2k.Prelude.{
  ℕ, ◌*◌, ◌^◌, ◌<◌, ◌+◌, bit_and, bit_or, Bool, true, false, List, [], ◌∷◌, Option, none, some, ltb,
  leb, ◌==◌, if◌then◌else◌, u64, ◌<<<◌,
}
use n2k.Prelude.Results.{Result, ok, err}
use n2k.Packet.{MessageInfo}

abbrev pub iso_address_claim_pgn : ℕ
iso_address_claim_pgn = 60928

pub record DeviceInfo : Type 0 where
  pub unique_number : ℕ
  pub manufacturer_code : ℕ
  pub device_function : ℕ
  pub device_class : ℕ
  pub device_instance_lower : ℕ
  pub device_instance_upper : ℕ
  pub system_instance : ℕ
  pub industry_group : ℕ
  pub arbitrary_address_capable : Bool

-- `ISOAddressClaim`, as it is decoded: a pointer field is an option.
pub record AddressClaim : Type 0 where
  pub info : MessageInfo
  pub unique_number : Option ℕ
  pub manufacturer_code : ℕ
  pub device_instance_lower : Option ℕ
  pub device_instance_upper : Option ℕ
  pub device_function : ℕ
  pub device_class : ℕ
  pub system_instance : Option ℕ
  pub industry_group : ℕ
  pub arbitrary_address_capable : ℕ

-- `ISOCommandedAddress`.
pub record CommandedAddress : Type 0 where
  pub info : MessageInfo
  pub unique_number : List ℕ
  pub manufacturer_code : ℕ
  pub device_instance_lower : Option ℕ
  pub device_instance_upper : Option ℕ
  pub device_function : ℕ
  pub device_class : ℕ
  pub system_instance : Option ℕ
  pub industry_code : ℕ
  pub new_source_address : Option ℕ

-- The field that is too large.
pub data NameError : Type 0 where
  unique_number manufacturer_code device_instance_lower device_instance_upper device_function
        device_class system_instance industry_group :
      ℕ → NameError

-- The fields at their bits. The bit 48 is reserved.
unfoldable pub pack_name : DeviceInfo → ℕ
pack_name d =
    let name =
      bit_or
        (bit_or
          (bit_or
            (bit_or
              (bit_or
                (bit_or (bit_or d.unique_number (u64 (d.manufacturer_code <<< 21)))
                  (u64 (d.device_instance_lower <<< 32)))
                (u64 (d.device_instance_upper <<< 35)))
              (u64 (d.device_function <<< 40)))
            (u64 (d.device_class <<< 49)))
          (u64 (d.system_instance <<< 56)))
        (u64 (d.industry_group <<< 60)) in
    if d.arbitrary_address_capable then bit_or name (2 ^ 63) else name

unfoldable pub compute_name : DeviceInfo → Result NameError ℕ
compute_name d =
    if ltb 0x1F_FFFF d.unique_number
    then err (unique_number d.unique_number)
    else if ltb 0x7FF d.manufacturer_code
    then err (manufacturer_code d.manufacturer_code)
    else if ltb 7 d.device_instance_lower
    then err (device_instance_lower d.device_instance_lower)
    else if ltb 31 d.device_instance_upper
    then err (device_instance_upper d.device_instance_upper)
    else if ltb 255 d.device_function
    then err (device_function d.device_function)
    else if ltb 127 d.device_class
    then err (device_class d.device_class)
    else if ltb 15 d.system_instance
    then err (system_instance d.system_instance)
    else if ltb 7 d.industry_group
    then err (industry_group d.industry_group)
    else ok (pack_name d)

-- `name |= uint64(field) << k`, under the test of a pointer or of a number for 0.
unfoldable pub or_option : ℕ → Option ℕ → ℕ → ℕ
or_option name none k = name
or_option name (some x) k = bit_or name (u64 (x <<< k))

unfoldable pub or_nonzero : ℕ → ℕ → ℕ → ℕ
or_nonzero name x k = if x == 0 then name else bit_or name (u64 (x <<< k))

unfoldable pub compute_name_from_claim : AddressClaim → ℕ
compute_name_from_claim c =
    let n₁ = or_nonzero (or_option 0 c.unique_number 0) c.manufacturer_code 21 in
    let n₂ = or_option (or_option n₁ c.device_instance_lower 32) c.device_instance_upper 35 in
    let n₃ = or_nonzero (or_nonzero n₂ c.device_function 40) c.device_class 49 in
    let n₄ = or_nonzero (or_option n₃ c.system_instance 56) c.industry_group 60 in
    if c.arbitrary_address_capable == 1 then bit_or n₄ (2 ^ 63) else n₄

-- The unique number of a command comes as bytes; fewer than three are not read.
abbrev pub unique_of_bytes : List ℕ → ℕ
unique_of_bytes (a ∷ b ∷ c ∷ bs) = bit_or (bit_or a (b <<< 8)) (c <<< 16)
unique_of_bytes bs = 0

unfoldable pub compute_name_from_command : CommandedAddress → ℕ
compute_name_from_command c =
    let n₁ = or_nonzero (bit_or 0 (unique_of_bytes c.unique_number)) c.manufacturer_code 21 in
    let n₂ = or_option (or_option n₁ c.device_instance_lower 32) c.device_instance_upper 35 in
    let n₃ = or_nonzero (or_nonzero n₂ c.device_function 40) c.device_class 49 in
    or_nonzero (or_option n₃ c.system_instance 56) c.industry_code 60

-- The claim that a node sends.
unfoldable pub build_address_claim : DeviceInfo → ℕ → AddressClaim
build_address_claim d address = record {
  info = record {
    timestamp = 0;
    priority = 6;
    pgn = iso_address_claim_pgn;
    source_id = address;
    target_id = 255;
  };
  unique_number = some d.unique_number;
  manufacturer_code = d.manufacturer_code;
  device_instance_lower = some d.device_instance_lower;
  device_instance_upper = some d.device_instance_upper;
  device_function = d.device_function;
  device_class = d.device_class;
  system_instance = some d.system_instance;
  industry_group = d.industry_group;
  arbitrary_address_capable = if d.arbitrary_address_capable then 1 else 0;
}
