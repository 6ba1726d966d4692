-- ===== src/Node/Arbitration.antt =====
-- pkg/node/node.go: who keeps an address that two devices claim.
use n2k.Prelude.{ℕ, ◌<◌, ◌≡◌, ◌⊎◌, true, false}
use n2k.Node.{Node, claiming, lost}
use n2k.Node.Name.{AddressClaim, compute_name_from_claim}
use n2k.Node.Devices.{Devices, update_from_claim}
use n2k.Node.Devices.Available.{is_taken}

-- `m` is `n` after `n` gave its address up: it claims another one, which no device is known to hold, or
-- it has lost, where it may not choose an address or `a` is taken.
abbrev pub GaveUp : {P : Type 0} → ℕ → Devices → Node P → Node P → Type 0
GaveUp a t n m =
    (m.address_claimed ≡ false)
    × (((m.address_state ≡ claiming)
          × (m.preferred_address < 254)
          × (is_taken t n.network_address m.preferred_address ≡ false))
        ⊎ ((m.address_state ≡ lost)
            × (m.network_address ≡ 255)
            × ((n.device_info.arbitrary_address_capable ≡ false)
                ⊎ (is_taken t n.network_address a ≡ true))))

-- The table of a node that has received the claim of another.
abbrev pub after_claim : {P : Type 0} → ℕ → Node P → AddressClaim → Devices
after_claim now n c =
    (update_from_claim now c.info.source_id (compute_name_from_claim c) n.devices).0
