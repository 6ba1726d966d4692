-- ===== src/Node/Messages.antt =====
-- pkg/node/node.go: the groups that a node receives and sends, with the builders of its answers.
use n2k.Prelude.{Bytes, ℕ, List, [], ◌∷◌, Option, none, some}
use n2k.Packet.{MessageInfo}
use n2k.Node.Name.{AddressClaim, CommandedAddress}
use n2k.Node.Devices.{ConfigurationInfo}
use n2k.Node.Devices.Updates.{ProductInformation, PgnList}

abbrev pub iso_acknowledgement_pgn : ℕ
iso_acknowledgement_pgn = 59392

abbrev pub iso_request_pgn : ℕ
iso_request_pgn = 59904

abbrev pub iso_commanded_address_pgn : ℕ
iso_commanded_address_pgn = 65240

abbrev pub nmea_group_function_pgn : ℕ
nmea_group_function_pgn = 126208

abbrev pub pgn_list_pgn : ℕ
pgn_list_pgn = 126464

abbrev pub heartbeat_pgn : ℕ
heartbeat_pgn = 126993

abbrev pub product_information_pgn : ℕ
product_information_pgn = 126996

abbrev pub configuration_information_pgn : ℕ
configuration_information_pgn = 126998

-- `ISORequest`.
pub record IsoRequest : Type 0 where
  pub info : MessageInfo
  pub pgn : Option ℕ

-- `NMEARequestGroupFunction`, the fields that a node reads.
pub record NmeaRequest : Type 0 where
  pub info : MessageInfo
  pub pgn : Option ℕ
  pub number_of_parameters : Option ℕ

pub data IsoControl : Type 0 where
  ack nak access_denied address_busy : IsoControl

-- `ISOAcknowledgement`.
pub record IsoAcknowledgement : Type 0 where
  pub info : MessageInfo
  pub control : IsoControl
  pub pgn : Option ℕ

pub data ParameterField : Type 0 where
  acknowledge invalid_parameter_field temporary_error parameter_out_of_range access_denied
        not_supported read_or_write_not_supported :
      ParameterField

pub data PgnErrorCode : Type 0 where
  acknowledge pgn_not_supported pgn_not_available access_denied not_supported tag_not_supported
        read_or_write_not_supported :
      PgnErrorCode

pub data TransmissionInterval : Type 0 where
  acknowledge transmit_interval_priority_not_sup transmit_interval_too_low access_denied
        not_supported :
      TransmissionInterval

-- `NMEAAcknowledgeGroupFunction`, with the parameter of each repeated field.
pub record NmeaAcknowledge : Type 0 where
  pub info : MessageInfo
  pub pgn : Option ℕ
  pub pgn_error_code : PgnErrorCode
  pub transmission_interval_priority_error_code : TransmissionInterval
  pub number_of_parameters : Option ℕ
  pub repeating1 : List ParameterField

-- `Heartbeat`; both controllers are error-active and the equipment is operational.
pub record Heartbeat : Type 0 where
  pub info : MessageInfo
  pub sequence_counter : Option ℕ

-- A repeated field of a group function: a parameter and its value on the wire.
pub record FieldValue : Type 0 where
  pub parameter : Option ℕ
  pub value : Bytes

-- `NMEACommandGroupFunction`, the fields that a node reads.
pub record NmeaCommand : Type 0 where
  pub info : MessageInfo
  pub pgn : Option ℕ
  pub repeating1 : List FieldValue

-- What the write and read group functions and their replies have in common.
pub record FieldsHeader : Type 0 where
  pub info : MessageInfo
  pub pgn : Option ℕ
  pub manufacturer_code : ℕ
  pub industry_code : ℕ
  pub unique_id : Option ℕ
  pub number_of_selection_pairs : Option ℕ
  pub number_of_parameters : Option ℕ

-- `NMEAWriteFieldsGroupFunction`.
pub record WriteFields : Type 0 where
  pub header : FieldsHeader
  pub repeating1 : List FieldValue
  pub repeating2 : List FieldValue

-- `NMEAReadFieldsGroupFunction`.
pub record ReadFields : Type 0 where
  pub header : FieldsHeader
  pub repeating1 : List FieldValue
  pub repeating2 : List (Option ℕ)

-- `NMEAWriteFieldsReplyGroupFunction` and `NMEAReadFieldsReplyGroupFunction`.
pub record FieldsReply : Type 0 where
  pub header : FieldsHeader
  pub repeating2 : List FieldValue

-- What a node hands to its publisher.
pub data Message (F : Type 0) : Type 0 where
  iso_address_claim : AddressClaim → Message F
  iso_acknowledgement : IsoAcknowledgement → Message F
  nmea_acknowledge : NmeaAcknowledge → Message F
  heartbeat : Heartbeat → Message F
  product_information : ProductInformation F → Message F
  configuration_information : MessageInfo → ConfigurationInfo → Message F
  pgn_list : PgnList → Message F
  write_fields_reply : FieldsReply → Message F
  read_fields_reply : FieldsReply → Message F

abbrev pub message_info : {F : Type 0} → Message F → MessageInfo
message_info (iso_address_claim m) = m.info
message_info (iso_acknowledgement m) = m.info
message_info (nmea_acknowledge m) = m.info
message_info (heartbeat m) = m.info
message_info (product_information m) = m.info
message_info (configuration_information i c) = i
message_info (pgn_list m) = m.info
message_info (write_fields_reply m) = m.header.info
message_info (read_fields_reply m) = m.header.info

-- What a node receives.
pub data Incoming (F : Type 0) : Type 0 where
  iso_request : IsoRequest → Incoming F
  nmea_request : NmeaRequest → Incoming F
  nmea_command : NmeaCommand → Incoming F
  nmea_write_fields : WriteFields → Incoming F
  nmea_read_fields : ReadFields → Incoming F
  iso_acknowledgement : IsoAcknowledgement → Incoming F
  iso_address_claim : AddressClaim → Incoming F
  iso_commanded_address : CommandedAddress → Incoming F
  product_information : ProductInformation F → Incoming F
  configuration_information : MessageInfo → ConfigurationInfo → Incoming F
  pgn_list : PgnList → Incoming F

-- The information of a message that is built with its group, source and target, at the priority 0.
abbrev pub info_of : ℕ → ℕ → ℕ → MessageInfo
info_of group source target = record {
  timestamp = 0;
  priority = 0;
  pgn = group;
  source_id = source;
  target_id = target;
}

unfoldable pub build_iso_nak : ℕ → ℕ → ℕ → IsoAcknowledgement
build_iso_nak source destination requested = record {
  info = record (info_of iso_acknowledgement_pgn source destination) { priority = 6 };
  control = nak;
  pgn = some requested;
}

unfoldable pub build_nmea_group_nak : ℕ → ℕ → ℕ → ParameterField → NmeaAcknowledge
build_nmea_group_nak source destination requested e = record {
  info = record (info_of nmea_group_function_pgn source destination) { priority = 3 };
  pgn = some requested;
  pgn_error_code = pgn_not_supported;
  transmission_interval_priority_error_code = TransmissionInterval.not_supported;
  number_of_parameters = none;
  repeating1 = e ∷ [];
}
