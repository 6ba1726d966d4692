-- ===== src/Node/Groups/Tests.antt =====
-- pkg/node/node.go: a command that the provider refuses, and a description that is written and read.
use n2k.Prelude.{ℕ, ◌≡◌, refl, true, false, List, [], ◌∷◌, Option, none, some, arith, Bytes}
use n2k.Packet.{MessageInfo}
use n2k.Node.{Node, new_node, claimed}
use n2k.Node.Devices.{ConfigurationInfo}
use n2k.Node.Messages.{FieldValue, configuration_information_pgn}
use n2k.Node.Groups.{may_configure, process_nmea_command, command_ack}
use n2k.Node.Groups.Commands.{process_nmea_command_acknowledged}

-- A node at the address 10, with the provider 0.
abbrev owner : Node ℕ
owner = record new_node {
  network_address = 10;
  address_claimed = true;
  address_state = claimed;
  read_only = false;
  config_provider = some 0;
}

abbrev from_seven : MessageInfo
from_seven = record { timestamp = 0; priority = 3; pgn = 126208; source_id = 7; target_id = 10 }

abbrev over_hundred : ℕ → ℕ
over_hundred v = v

-- No UTF-16 text, a provider that has no configuration, and one that takes none.
abbrev no_text : List ℕ → Bytes
no_text us = []

abbrev no_configuration : ℕ → Option ConfigurationInfo
no_configuration p = none

abbrev field : FieldValue
field = record { parameter = some 9; value = 255 ∷ [] }

may : may_configure owner from_seven [] ≡ true
unfolding may_configure
may = refl

process_nmea_command_acknowledged_example :
    (process_nmea_command {F = ℕ} over_hundred no_text no_configuration
      (λ p c. false)
      owner
      (record {
        info = from_seven;
        pgn = some configuration_information_pgn;
        repeating1 = field ∷ [];
      })).0
    ≡ command_ack over_hundred no_text no_configuration
        (λ p c. false)
        owner
        (record {
          info = from_seven;
          pgn = some configuration_information_pgn;
          repeating1 = field ∷ [];
        })
process_nmea_command_acknowledged_example =
    process_nmea_command_acknowledged over_hundred no_text no_configuration (λ p c. false) owner
      (omega arith) from_seven (field ∷ []) (omega arith) (omega arith) may

abbrev blank : ConfigurationInfo
blank = record {
  installation_description1 = [];
  installation_description2 = [];
  manufacturer_information = [];
}
