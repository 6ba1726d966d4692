-- ===== src/Node/Requests.antt =====
-- pkg/node/node.go: a node's answers to ISO requests and to NMEA request group functions.
use n2k.Prelude.{
  ℕ, Bool, false, ◌&&◌, ◌||◌, not, List, [], ◌∷◌, ◌++◌, map, Option, none, some, ◌==◌,
  if◌then◌else◌, is_some,
}
use n2k.Packet.{MessageInfo}
use n2k.Node.{Node}
use n2k.Node.Name.{build_address_claim, iso_address_claim_pgn}
use n2k.Node.Devices.{ProductInfo, ConfigurationInfo}
use n2k.Node.Devices.Updates.{
  ProductInformation, PgnList, ListCode, transmit_pgn_list, receive_pgn_list,
}
use n2k.Node.Messages.{
  IsoRequest, NmeaRequest, ParameterField, read_or_write_not_supported, Message, iso_address_claim,
  iso_acknowledgement, nmea_acknowledge, product_information, configuration_information, pgn_list,
  info_of, build_iso_nak, build_nmea_group_nak, iso_acknowledgement_pgn, iso_request_pgn,
  iso_commanded_address_pgn, nmea_group_function_pgn, pgn_list_pgn, heartbeat_pgn,
  product_information_pgn, configuration_information_pgn,
}

abbrev pub elem : ℕ → List ℕ → Bool
elem p [] = false
elem p (x ∷ xs) = x == p || elem p xs

-- One loop of `mergePGNs`: each group that is not in `merged` yet goes to its end. The keys of `seen`
-- are the elements of `merged`.
abbrev pub merge_from : List ℕ → List ℕ → List ℕ
merge_from merged [] = merged
merge_from merged (p ∷ ps) = merge_from (if elem p merged then merged else merged ++ (p ∷ [])) ps

-- `mergePGNs`.
unfoldable pub merge_pgns : List ℕ → List ℕ → List ℕ
merge_pgns configured managed = merge_from (merge_from [] configured) managed

unfoldable pub managed_transmit_pgns : List ℕ → Bool → Bool → List ℕ
managed_transmit_pgns configured has_provider heartbeat_enabled = merge_pgns configured (
    iso_acknowledgement_pgn
    ∷ iso_address_claim_pgn
    ∷ nmea_group_function_pgn
    ∷ pgn_list_pgn
    ∷ product_information_pgn
    ∷ ((if has_provider then configuration_information_pgn ∷ [] else [])
        ++ (if heartbeat_enabled then heartbeat_pgn ∷ [] else [])))

unfoldable pub managed_receive_pgns : List ℕ → List ℕ
managed_receive_pgns configured = merge_pgns configured (
    iso_acknowledgement_pgn ∷ iso_request_pgn ∷ iso_address_claim_pgn ∷ iso_commanded_address_pgn
    ∷ nmea_group_function_pgn ∷ nmea_group_function_pgn ∷ [])

-- Whether a node takes part in the bus, and a message is for it.
abbrev pub may_answer : {P : Type 0} → Node P → MessageInfo → Bool
may_answer n i =
    not n.read_only
    && (n.address_claimed && (i.target_id == 255 || i.target_id == n.network_address))

abbrev pub pgn_list_of : MessageInfo → ListCode → List ℕ → PgnList
pgn_list_of info code pgns = record {
  info = info;
  function_code = code;
  repeating1 = map some pgns;
}

-- `over_hundred` is `float32(v) / 100.0`; `configuration` is the provider's `GetConfigurationInfo`.
module _ {P F : Type 0} (over_hundred : ℕ → F) (configuration : P → Option ConfigurationInfo) where
  abbrev pub product_response : MessageInfo → ProductInfo → ProductInformation F
  product_response info p = record {
    info = info;
    nmea2000_version = some (over_hundred p.nmea2000_version);
    product_code = some p.product_code;
    model_id = p.model_id;
    software_version_code = p.software_version_code;
    model_version = p.model_version;
    model_serial_code = p.model_serial_code;
    certification_level = p.certification_level;
    load_equivalency = some p.load_equivalency;
  }

  -- The `switch` on the group that is asked for.
  unfoldable pub respond : Node P → ℕ → ℕ → List (Message F)
  respond n source requested =
      if requested == iso_address_claim_pgn
      then iso_address_claim (build_address_claim n.device_info n.network_address) ∷ []
      else if requested == product_information_pgn
      then product_information (
          product_response (info_of product_information_pgn n.network_address source)
            n.product_info)
        ∷ []
      else if requested == pgn_list_pgn
      then pgn_list (
          pgn_list_of (info_of pgn_list_pgn n.network_address source) transmit_pgn_list
            (managed_transmit_pgns n.transmit_pgns (is_some n.config_provider) n.heartbeat_enabled))
        ∷ pgn_list (
            pgn_list_of (info_of pgn_list_pgn n.network_address source) receive_pgn_list
              (managed_receive_pgns n.receive_pgns))
        ∷ []
      else if requested == configuration_information_pgn
      then elim n.config_provider [
        | none ↦ iso_acknowledgement (build_iso_nak n.network_address source requested) ∷ []
        | some provider ↦ elim (configuration provider) [
          | none ↦ iso_acknowledgement (build_iso_nak n.network_address source requested) ∷ []
          | some c ↦
              configuration_information
                (info_of configuration_information_pgn n.network_address source) c
              ∷ []
        ]
      ]
      else []

  -- `processIsoRequest`: the messages that it returns. The destination beside each, the requester,
  -- only goes into the log.
  unfoldable pub process_iso_request : Node P → IsoRequest → List (Message F)
  process_iso_request n req = elim req.pgn [
    | none ↦ []
    | some requested ↦ if may_answer n req.info then respond n req.info.source_id requested else []
  ]

  -- `processUnsupportedGroupFunction`.
  unfoldable pub process_unsupported_group_function :
      Node P → MessageInfo → ℕ → ParameterField → List (Message F)
  process_unsupported_group_function n info requested e =
      if may_answer n info && not (info.target_id == 255)
      then nmea_acknowledge (build_nmea_group_nak n.network_address info.source_id requested e) ∷ []
      else []

  -- `processNmeaRequestGroupFunction`.
  unfoldable pub process_nmea_request : Node P → NmeaRequest → List (Message F)
  process_nmea_request n req =
      let request : IsoRequest = record { info = req.info; pgn = req.pgn } in
      elim req.pgn [
        | none ↦ []
        | some requested ↦ elim req.number_of_parameters [
          | none ↦ process_iso_request n request
          | some count ↦
              if count == 0
              then process_iso_request n request
              else process_unsupported_group_function n req.info requested
                  read_or_write_not_supported
        ]
      ]
