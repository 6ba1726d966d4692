-- ===== src/Node/Devices/Table.antt =====
-- pkg/node/node.go: the three maps of the observed devices agree.
use n2k.Prelude.{
  ℕ, ◌≤◌, ◌≡◌, ◌≢◌, refl, inl, inr, ◌⊎◌, false, none, some, arith, ◌==◌, Bool-cases, Option-cases,
  or_else,
}
use n2k.Node.Devices.{
  KnownDevice, Devices, no_devices, zero_device, displace, claiming_device, update_from_claim,
  known_device_for_address,
}

-- An address of a device names it; a known device that has an address is named there; and a device
-- without a NAME is at an address that names no device.
pub record IsValid (t : Devices) : Type 0 where
  pub named :
      (a n : ℕ)
      → a ≤ 253
      → t.names a ≡ some n
      → (d : KnownDevice) × (t.known n ≡ some d) × (d.address ≡ a)
  pub own_name : (n : ℕ) (d : KnownDevice) → t.known n ≡ some d → (d.name ≡ n) × (n ≢ 0)
  pub located :
      (n : ℕ) (d : KnownDevice) → t.known n ≡ some d → d.address ≤ 253 → t.names d.address ≡ some n
  pub nameless :
      (a : ℕ) (d : KnownDevice) → a ≤ 253 → t.unknown a ≡ some d → (d.name ≡ 0) × (t.names a ≡ none)

pub no_devices-IsValid : IsValid no_devices
no_devices-IsValid = record {
  named = λ a n h e. cc;
  own_name = λ n d e. cc;
  located = λ n d e h. cc;
  nameless = λ a d h e. cc;
}

-- What a displacement leaves of the known devices.
displace_cases :
    (t : Devices) (a name n : ℕ)
    → ((displace t a name n ≡ t.known n) × ((n ≡ name) ⊎ (t.names a ≢ some n)))
      ⊎ ((t.names a ≡ some n)
          × (n ≢ name)
          × (displace t a name n
              ≡ some (record (or_else zero_device (t.known n)) { address = 255 })))
displace_cases t a name n = elim (Option-cases (t.names a)) [
  | inl empty ↦ inl (rw (empty, displace) refl, inr (λ e. cc))
  | inr (p, held) ↦ ground (arith, held)
]

module _ (now a name : ℕ) (t : Devices) (v : IsValid t) (low : a ≤ 253) (real : name ≢ 0) where
  abbrev after : Devices
  after = (update_from_claim now a name t).0

  -- A name that an address keeps.
  claim-away :
      (b n : ℕ)
      → b ≤ 253
      → (b == a) ≡ false
      → after.names b ≡ some n
      → (t.names b ≡ some n) × (n ≢ name)
  unfolding update_from_claim
  claim-away b n h away e = elim (Option-cases (t.known name)) [
    | inl missing ↦
        let before : t.names b ≡ some n = ground (arith, missing, away, e) in
        let (d, held, at) = v.named b n h before in (before, ground (arith, missing, held))
    | inr (d₀, present) ↦
        let before : t.names b ≡ some n = ground (arith, present, away, e) in
        let (d, held, at) = v.named b n h before in
        (before, ground (arith, present, held, at, away, e, h))
  ]

  claim-named :
      (b n : ℕ)
      → b ≤ 253
      → after.names b ≡ some n
      → (d : KnownDevice) × (after.known n ≡ some d) × (d.address ≡ b)
  unfolding update_from_claim
  claim-named b n h e = elim (Bool-cases (b == a)) [
    | inl here ↦ (claiming_device t now a name, ground (arith, here, e), ground (arith, here))
    | inr away ↦
        let (before, other) = claim-away b n h away e in
        let (d, held, at) = v.named b n h before in
        elim (displace_cases t a name n) [
          | inl (stays, why) ↦ (d, ground (arith, stays, held, other), at)
          | inr (here, fresh, gone) ↦
              let (d', held', at') = v.named a n low here in
              absurd (ground (arith, held, held', at, at', away))
        ]
  ]

  claim-own_name : (n : ℕ) (d : KnownDevice) → after.known n ≡ some d → (d.name ≡ n) × (n ≢ 0)
  unfolding update_from_claim
  claim-own_name n d e = elim (displace_cases t a name n) [
    | inl (stays, why) ↦ ground (arith, stays, e, v.own_name n d, real)
    | inr (here, fresh, gone) ↦
        let (d', held', at') = v.named a n low here in
        ground (arith, gone, held', fresh, e, v.own_name n d' held')
  ]

  claim-located :
      (n : ℕ) (d : KnownDevice)
      → after.known n ≡ some d
      → d.address ≤ 253
      → after.names d.address ≡ some n
  unfolding update_from_claim
  claim-located n d e h = elim (Bool-cases (n == name)) [
    | inl same ↦ ground (arith, same, e)
    | inr other ↦ elim (displace_cases t a name n) [
      | inl (stays, why) ↦
          let held : t.known n ≡ some d = ground (arith, stays, other, e) in
          let before = v.located n d held h in
          elim (Option-cases (t.known name)) [
            | inl missing ↦ ground (arith, missing, before, other, why)
            | inr (d₀, present) ↦
                ground (arith, present, before, other, why, v.located name d₀ present)
          ]
      | inr (here, fresh, gone) ↦ absurd (ground (arith, gone, other, e, h))
    ]
  ]

  claim-nameless :
      (b : ℕ) (d : KnownDevice)
      → b ≤ 253
      → after.unknown b ≡ some d
      → (d.name ≡ 0) × (after.names b ≡ none)
  unfolding update_from_claim
  claim-nameless b d h e = ground (arith, v.nameless b d h)

-- A claim from an address up to 253, of a NAME that is not 0, keeps the maps in agreement.
pub update_from_claim-IsValid :
    (now a name : ℕ) (t : Devices)
    → IsValid t
    → a ≤ 253
    → name ≢ 0
    → IsValid (update_from_claim now a name t).0
update_from_claim-IsValid now a name t v low real = record {
  named = claim-named now a name t v low real;
  own_name = claim-own_name now a name t v low real;
  located = claim-located now a name t v low real;
  nameless = claim-nameless now a name t v low real;
}

-- What is known of the device at an address: it has a NAME and is named there, or neither.
pub known_device_cases :
    (a : ℕ) (t : Devices)
    → IsValid t
    → a ≤ 253
    → let d = known_device_for_address a t in
      ((d.name ≢ 0) × (t.names a ≡ some d.name)) ⊎ ((d.name ≡ 0) × (t.names a ≡ none))
unfolding known_device_for_address
known_device_cases a t v low = elim (Option-cases (t.names a)) [
  | inr (n, named) ↦
      let (d, held, at) = v.named a n low named in
      let (own, real) = v.own_name n d held in inl (ground (arith, named, held, own, real))
  | inl missing ↦ elim (Option-cases (t.unknown a)) [
    | inl nothing ↦ inr (ground (arith, missing, nothing))
    | inr (d, held) ↦ inr (ground (arith, missing, held, v.nameless a d low held))
  ]
]
