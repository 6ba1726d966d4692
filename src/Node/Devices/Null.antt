-- ===== src/Node/Devices/Null.antt =====
-- pkg/node/node.go, `updateKnownDeviceFromClaim`: devices that claim from the null address, 254.
use n2k.Prelude.{ℕ, ◌≡◌, ◌≢◌, some, arith, or_else}
use n2k.Node.Devices.{Devices, update_from_claim, zero_device}

abbrev pub address_of : ℕ → Devices → ℕ
address_of n t = (or_else zero_device (t.known n)).address

module _ (now n : ℕ) (t : Devices) where
  claims :
      (a : ℕ)
      → (let u = (update_from_claim now a n t).0 in (u.names a ≡ some n) × (address_of n u ≡ a))
  unfolding update_from_claim
  claims a = (ground arith, ground arith)

  keeps_null :
      (a : ℕ)
      → address_of n t ≡ 254
      → t.names 254 ≡ some n
      → (update_from_claim now a n t).0.names 254 ≡ some n
  unfolding update_from_claim
  keeps_null a at held = ground (arith, at, held)

  loses :
      (m : ℕ) → n ≢ m → t.names 254 ≡ some n → address_of n (update_from_claim now 254 m t).0 ≡ 255
  unfolding update_from_claim
  loses m other held = ground (arith, other, held)

-- The device `n` claims from the null address, then claims `a`, and is known at `a`; then another device
-- claims from the null address, and `n` is left at the address 255.
pub update_from_claim-null :
    (now a n m : ℕ) (t : Devices)
    → n ≢ m
    → (let t₁ = (update_from_claim now 254 n t).0 in
        let t₂ = (update_from_claim now a n t₁).0 in
        let t₃ = (update_from_claim now 254 m t₂).0 in
        (address_of n t₂ ≡ a) × (address_of n t₃ ≡ 255))
update_from_claim-null now a n m t other =
    let t₁ = (update_from_claim now 254 n t).0 in
    let t₂ = (update_from_claim now a n t₁).0 in
    let (held, at) = claims now n t 254 in
    ((claims now n t₁ a).1, loses now n t₂ m other (keeps_null now n t₁ a at held))
