-- ===== src/Node/Name/Fields.antt =====
-- pkg/node/node.go: the NAME as the sum of its fields, whichever way it is computed.
use n2k.Prelude.{
  ℕ, zero, suc, ◌+◌, ◌-◌, leb, ◌*◌, ◌/◌, ◌%◌, ◌^◌, ◌<◌, ◌≡◌, ◌↔◌, refl, sym, ap, ◌∙◌, bit_and,
  bit_or, Bool, true, false, [], ◌∷◌, some, arith, ◌==◌, if◌then◌else◌, u64, ◌<<<◌,
}
use n2k.Prelude.Bits.{bit_or_high, bit_or-zero, zero-bit_or, bit_and_mask}
use native.Mathlib.Nat.{mod-eq_of_lt}
use n2k.Prelude.Results.{ok}
use n2k.Packet.{MessageInfo}
use n2k.Node.Name.{
  DeviceInfo, CommandedAddress, pack_name, compute_name, or_option, or_nonzero,
  compute_name_from_claim, compute_name_from_command, build_address_claim,
}

-- The widths of the fields.
pub record FitsName (d : DeviceInfo) : Type 0 where
  pub unique : d.unique_number < 2 ^ 21
  pub manufacturer : d.manufacturer_code < 2 ^ 11
  pub lower : d.device_instance_lower < 2 ^ 3
  pub upper : d.device_instance_upper < 2 ^ 5
  pub function : d.device_function < 2 ^ 8
  pub class : d.device_class < 2 ^ 7
  pub system : d.system_instance < 2 ^ 4
  pub industry : d.industry_group < 2 ^ 3

-- The NAME below its top bit.
abbrev pub low_name : DeviceInfo → ℕ
low_name d =
    d.unique_number
    + d.manufacturer_code * 2 ^ 21
    + d.device_instance_lower * 2 ^ 32
    + d.device_instance_upper * 2 ^ 35
    + d.device_function * 2 ^ 40
    + d.device_class * 2 ^ 49
    + d.system_instance * 2 ^ 56
    + d.industry_group * 2 ^ 60

abbrev pub top_bit : Bool → ℕ
top_bit b = if b then 2 ^ 63 else 0

pub low_name-lt : (d : DeviceInfo) → FitsName d → low_name d < 2 ^ 63
low_name-lt d f = omega (arith, f)

or_field :
    (low x k : ℕ) → low < 2 ^ k → x * 2 ^ k < 2 ^ 64 → bit_or low (u64 (x <<< k)) ≡ low + x * 2 ^ k
or_field low x k h small = rw (mod-eq_of_lt small) (bit_or_high k low x h)

or_top :
    (low : ℕ) (b : Bool) → low < 2 ^ 63 → (if b then bit_or low (2 ^ 63) else low) ≡ low + top_bit b
or_top low true h = bit_or_high 63 low 1 h
or_top low false h = omega arith

module _ (d : DeviceInfo) (f : FitsName d) where
  -- The fields joined one after the other, from any way to write the first.
  chain :
      bit_or
        (bit_or
          (bit_or
            (bit_or
              (bit_or
                (bit_or
                  (bit_or d.unique_number (u64 (d.manufacturer_code <<< 21)))
                  (u64 (d.device_instance_lower <<< 32)))
                (u64 (d.device_instance_upper <<< 35)))
              (u64 (d.device_function <<< 40)))
            (u64 (d.device_class <<< 49)))
          (u64 (d.system_instance <<< 56)))
        (u64 (d.industry_group <<< 60))
      ≡ low_name d
  chain =
      let s₁ = d.unique_number + d.manufacturer_code * 2 ^ 21 in
      let s₂ = s₁ + d.device_instance_lower * 2 ^ 32 in
      let s₃ = s₂ + d.device_instance_upper * 2 ^ 35 in
      let s₄ = s₃ + d.device_function * 2 ^ 40 in
      let s₅ = s₄ + d.device_class * 2 ^ 49 in
      let s₆ = s₅ + d.system_instance * 2 ^ 56 in
      rw (
        or_field d.unique_number d.manufacturer_code 21 (omega (arith, f)) (omega (arith, f)),
        or_field s₁ d.device_instance_lower 32 (omega (arith, f)) (omega (arith, f)),
        or_field s₂ d.device_instance_upper 35 (omega (arith, f)) (omega (arith, f)),
        or_field s₃ d.device_function 40 (omega (arith, f)) (omega (arith, f)),
        or_field s₄ d.device_class 49 (omega (arith, f)) (omega (arith, f)),
        or_field s₅ d.system_instance 56 (omega (arith, f)) (omega (arith, f)),
        or_field s₆ d.industry_group 60 (omega (arith, f)) (omega (arith, f)),
      )

  pub pack_name_lem : pack_name d ≡ low_name d + top_bit d.arbitrary_address_capable
  unfolding pack_name
  pack_name_lem = rw chain (or_top (low_name d) d.arbitrary_address_capable (low_name-lt d f))

or_nonzero_lem : (name x k : ℕ) → or_nonzero name x k ≡ bit_or name (u64 (x <<< k))
unfolding or_nonzero
or_nonzero_lem name zero k =
    let none_set : 0 * 2 ^ k % 2 ^ 64 ≡ 0 = omega arith in
    sym (ap (bit_or name) none_set ∙ bit_or-zero name)
or_nonzero_lem name (suc x) k = ground arith

or_option-some : (name x k : ℕ) → or_option name (some x) k ≡ bit_or name (u64 (x <<< k))
unfolding or_option
or_option-some name x k = refl

first_field : (x : ℕ) → x < 2 ^ 21 → bit_or 0 (u64 (x <<< 0)) ≡ x
first_field x h = or_field 0 x 0 (omega arith) (omega arith) ∙ omega arith

-- A device is refused exactly when a field is too wide, and otherwise the NAME is the sum of its fields.
pub compute_name_iff :
    (d : DeviceInfo) (n : ℕ)
    → (compute_name d ≡ ok n)
      ↔ (FitsName d × (n ≡ low_name d + top_bit d.arbitrary_address_capable))
unfolding compute_name
compute_name_iff d n = (to, from)
  where
    to : compute_name d ≡ ok n → FitsName d × (n ≡ low_name d + top_bit d.arbitrary_address_capable)
    to e = let f : FitsName d = ground arith in (f, ground (arith, pack_name_lem d f))

    from :
        FitsName d × (n ≡ low_name d + top_bit d.arbitrary_address_capable) → compute_name d ≡ ok n
    from (f, e) = ground (arith, pack_name_lem d f, f)

flag : (b : Bool) → ((if b then 1 else 0) == 1) ≡ b
flag true = refl
flag false = refl

-- What the network computes from the claim that a node sends is the NAME that the node computed.
pub compute_name_from_claim-build_address_claim :
    (d : DeviceInfo) (address n : ℕ)
    → compute_name d ≡ ok n
    → compute_name_from_claim (build_address_claim d address) ≡ n
unfolding compute_name_from_claim build_address_claim
compute_name_from_claim-build_address_claim d address n e =
    let (f, sum) = (compute_name_iff d n).0 e in
    simp (or_nonzero_lem, or_option-some, first_field d.unique_number f.unique, chain d f, flag)
      (or_top _ _ (low_name-lt d f) ∙ sym sum)

-- The command for a device: its unique number as three bytes.
abbrev pub command_for : DeviceInfo → MessageInfo → ℕ → CommandedAddress
command_for d info address = record {
  info = info;
  unique_number =
      d.unique_number % 256 ∷ d.unique_number / 256 % 256 ∷ d.unique_number / 65536 ∷ [];
  manufacturer_code = d.manufacturer_code;
  device_instance_lower = some d.device_instance_lower;
  device_instance_upper = some d.device_instance_upper;
  device_function = d.device_function;
  device_class = d.device_class;
  system_instance = some d.system_instance;
  industry_code = d.industry_group;
  new_source_address = some address;
}

unique_bytes : (u : ℕ) → bit_or (bit_or (u % 256) ((u / 256 % 256) <<< 8)) ((u / 65536) <<< 16) ≡ u
unique_bytes u =
    ap (λ (t : ℕ). bit_or t ((u / 65536) <<< 16))
      (bit_or_high 8 (u % 256) (u / 256 % 256) (omega arith))
    ∙ bit_or_high 16 (u % 256 + u / 256 % 256 * 2 ^ 8) (u / 65536) (omega arith)
    ∙ omega arith

-- The command for a device has the device's NAME without its top bit, which is what a node
-- compares it with.
pub compute_name_from_command_lem :
    (d : DeviceInfo) (info : MessageInfo) (address n : ℕ)
    → compute_name d ≡ ok n
    → compute_name_from_command (command_for d info address) ≡ bit_and n (2 ^ 63 - 1)
unfolding compute_name_from_command
compute_name_from_command_lem d info address n e =
    let (f, sum) = (compute_name_iff d n).0 e in
    simp (or_nonzero_lem, or_option-some, unique_bytes, zero-bit_or, chain d f)
      (sym (bit_and_mask 63 n ∙ ground (arith, f, sum, low_name-lt d f)))

-- The device that a NAME describes.
unpack_name : ℕ → DeviceInfo
unpack_name n = record {
  unique_number = n % 2 ^ 21;
  manufacturer_code = n / 2 ^ 21 % 2 ^ 11;
  device_function = n / 2 ^ 40 % 2 ^ 8;
  device_class = n / 2 ^ 49 % 2 ^ 7;
  device_instance_lower = n / 2 ^ 32 % 2 ^ 3;
  device_instance_upper = n / 2 ^ 35 % 2 ^ 5;
  system_instance = n / 2 ^ 56 % 2 ^ 4;
  industry_group = n / 2 ^ 60 % 2 ^ 3;
  arbitrary_address_capable = leb (2 ^ 63) n;
}

unpack_name-name :
    (d : DeviceInfo)
    → FitsName d
    → unpack_name (low_name d + top_bit d.arbitrary_address_capable) ≡ d
unfolding unpack_name
unpack_name-name d f = ground (arith, f)

-- Two devices with the same NAME are the same.
pub compute_name_inj :
    (d e : DeviceInfo) (n : ℕ) → compute_name d ≡ ok n → compute_name e ≡ ok n → d ≡ e
compute_name_inj d e n p q =
    let (f, sum) = (compute_name_iff d n).0 p in
    let (g, sum') = (compute_name_iff e n).0 q in
    sym (unpack_name-name d f) ∙ ap unpack_name (sym sum ∙ sum') ∙ unpack_name-name e g
