-- ===== src/Node/Devices/Tests.antt =====
-- pkg/node/node.go: devices that claim addresses and tell what they are.
use n2k.Prelude.{ℕ, ◌*◌, ◌≡◌, ◌<◌, ◌⊎◌, refl, [], ◌∷◌, none, some, arith, true, false}
use n2k.Node.Devices.{ConfigurationInfo, Devices, no_devices, update_from_claim}
use n2k.Node.Devices.Updates.{
  update_from_configuration_info, update_from_pgn_list, PgnList, transmit_pgn_list,
}
use n2k.Node.Devices.Table.{IsValid}
use n2k.Node.Devices.Observed.{
  Observed, nothing_yet, claim, configuration, pgn_list, Observed-IsValid,
}
use n2k.Node.Devices.Available.{next_available_address, next_available_address_lem, is_taken}
use n2k.Node.Devices.Null.{address_of, update_from_claim-null}

abbrev hundredths : ℕ → ℕ
hundredths v = v * 100

abbrev description : ConfigurationInfo
description = record {
  installation_description1 = 65 ∷ [];
  installation_description2 = [];
  manufacturer_information = 66 ∷ [];
}

abbrev groups : PgnList
groups = record {
  info = record { timestamp = 0; priority = 6; pgn = 126464; source_id = 11; target_id = 255 };
  function_code = transmit_pgn_list;
  repeating1 = some 127250 ∷ none ∷ [];
}

-- A description from the address 10 comes before the claim of 10, and the claimant then moves to 11.
abbrev described : Devices
described = (update_from_configuration_info 1 10 description no_devices).0

abbrev one : Devices
one = (update_from_claim 2 10 500 described).0

abbrev moved : Devices
moved = (update_from_claim 3 11 500 one).0

observed : Observed hundredths (update_from_pgn_list 4 groups moved).0
observed =
    pgn_list 4 groups moved
      (claim 3 11 500 one
        (claim 2 10 500 described
          (configuration 1 10 description no_devices nothing_yet (omega arith)) (omega arith)
          (ground arith))
        (omega arith) (ground arith))
      (omega arith)

Observed-IsValid_example : IsValid (update_from_pgn_list 4 groups moved).0
Observed-IsValid_example =
    Observed-IsValid hundredths (update_from_pgn_list 4 groups moved).0 observed

moved_keeps : (moved.names 10 ≡ none) × (moved.names 11 ≡ some 500)
unfolding update_from_claim update_from_configuration_info
moved_keeps = (refl, refl)

next_available_address_lem_example :
    ((b : ℕ) × (next_available_address 253 moved ≡ some b)
      × (b < 254)
      × (is_taken moved 253 b ≡ false))
    ⊎ ((next_available_address 253 moved ≡ none) × (is_taken moved 253 11 ≡ true))
next_available_address_lem_example =
    next_available_address_lem 253 moved 11 (omega arith) (omega arith)

update_from_claim-null_example :
    (let t = (update_from_claim 1 254 500 no_devices).0 in
      let u = (update_from_claim 1 10 500 t).0 in
      let v = (update_from_claim 1 254 600 u).0 in
      (address_of 500 u ≡ 10) × (address_of 500 v ≡ 255))
update_from_claim-null_example = update_from_claim-null 1 10 500 600 no_devices (ground arith)
