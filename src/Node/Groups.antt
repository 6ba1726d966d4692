-- ===== src/Node/Groups.antt =====
-- pkg/node/node.go: the NMEA command, write and read group functions on a node's configuration.
pub mod Replies
pub mod Commands
mod Tests
use n2k.Prelude.{
  ℕ, ◌+◌, Bool, true, false, ◌&&◌, ◌||◌, not, List, [], ◌∷◌, map, Option, none, some, ltb, ◌==◌,
  if◌then◌else◌, length, u8, is_some, Bytes,
}
use n2k.Prelude.Results.{ok, err}
use n2k.Packet.{MessageInfo}
use n2k.DataStream.{Outcome}
use n2k.DataStream.Binary.{decode_string_lau, encode_string_lau}
use n2k.Node.{Node}
use n2k.Node.Devices.{ConfigurationInfo}
use n2k.Node.Messages.{
  Message, nmea_acknowledge, write_fields_reply, read_fields_reply, FieldValue, NmeaCommand,
  FieldsHeader, WriteFields, ReadFields, FieldsReply, ParameterField, PgnErrorCode,
  TransmissionInterval, invalid_parameter_field, access_denied, read_or_write_not_supported,
  configuration_information_pgn, nmea_group_function_pgn,
}
use n2k.Node.Requests.{process_unsupported_group_function}

-- The three strings of a configuration.
abbrev pub with_parameter : ConfigurationInfo → ℕ → Bytes → Option ConfigurationInfo
with_parameter c p value =
    if p == 1
    then some (record c { installation_description1 = value })
    else if p == 2
    then some (record c { installation_description2 = value })
    else if p == 3
    then some (record c { manufacturer_information = value })
    else none

abbrev pub parameter_of : ConfigurationInfo → ℕ → Option Bytes
parameter_of c p =
    if p == 1
    then some c.installation_description1
    else if p == 2
    then some c.installation_description2
    else if p == 3
    then some c.manufacturer_information
    else none

abbrev pub decoded : Outcome Bytes → Option Bytes
decoded (Outcome.ok v s) = some v
decoded o = none

-- The loop over the fields to write, with the fields of the reply: `none` where a value does not
-- decode, or its parameter is not one of the three.
abbrev pub apply_fields :
    (List ℕ → Bytes)
    → ConfigurationInfo
    → List FieldValue
    → Option (ConfigurationInfo × List FieldValue)
apply_fields utf16 c [] = some (c, [])
apply_fields utf16 c (f ∷ fs) = elim f.parameter [
  | none ↦ apply_fields utf16 c fs
  | some p ↦ elim (decoded (decode_string_lau utf16 f.value)) [
    | none ↦ none
    | some v ↦ elim (with_parameter c p v) [
      | none ↦ none
      | some c' ↦ elim (apply_fields utf16 c' fs) [
        | none ↦ none
        | some (c'', rs) ↦ some (c'', f ∷ rs)
      ]
    ]
  ]
]

-- What the loop over the fields to read finds: a parameter that is not there, a string that is too
-- long, or the values.
pub data ReadResult : Type 0 where
  unknown too_long : ReadResult
  values : List FieldValue → ReadResult

abbrev pub read_fields : ConfigurationInfo → List (Option ℕ) → ReadResult
read_fields c [] = values []
read_fields c (none ∷ ps) = read_fields c ps
read_fields c (some p ∷ ps) = elim (parameter_of c p) [
  | none ↦ unknown
  | some v ↦ elim (encode_string_lau v) [
    | err n ↦ too_long
    | ok e ↦ elim (read_fields c ps) [
      | unknown ↦ unknown
      | too_long ↦ too_long
      | values vs ↦ values (record { parameter = some p; value = e } ∷ vs)
    ]
  ]
]

-- Whether the node takes a write or a read of its configuration.
unfoldable pub may_configure : {P : Type 0} → Node P → MessageInfo → List FieldValue → Bool
may_configure n i selections =
    not n.read_only
    && (n.address_claimed
        && (is_some n.config_provider
            && (i.target_id == n.network_address && length selections == 0)))

abbrev pub reply_header : {P : Type 0} → Node P → FieldsHeader → FieldsHeader
reply_header n h = record h {
  info = record {
    timestamp = 0;
    priority = h.info.priority;
    pgn = nmea_group_function_pgn;
    source_id = n.network_address;
    target_id = h.info.source_id;
  };
}

-- `utf16` is Go's utf16.Decode; `configuration` is the provider's GetConfigurationInfo, and `accepts` whether
-- its SetConfigurationInfo succeeds.
module _ {P F : Type 0} (over_hundred : ℕ → F) (utf16 : List ℕ → Bytes)
    (configuration : P → Option ConfigurationInfo) (accepts : P → ConfigurationInfo → Bool) where
  abbrev pub refuse : Node P → FieldsHeader → ℕ → ParameterField → List (Message F)
  refuse n h p e = process_unsupported_group_function over_hundred configuration n h.info p e

  -- The write, by a provider that is there.
  unfoldable pub write_configuration :
      Node P → P → WriteFields → ℕ → List (Message F) × List ConfigurationInfo
  write_configuration n provider req p = elim (configuration provider) [
    | none ↦ (refuse n req.header p access_denied, [])
    | some c ↦ elim (apply_fields utf16 c req.repeating2) [
      | none ↦ (refuse n req.header p invalid_parameter_field, [])
      | some (c', fields) ↦ (
        if accepts provider c'
            then write_fields_reply
                (record { header = reply_header n req.header; repeating2 = fields })
              ∷ []
            else refuse n req.header p access_denied,
        c' ∷ [],
      )
    ]
  ]

  -- `processNmeaWriteFieldsGroupFunction`: the messages that it returns, and what it hands to the
  -- provider's SetConfigurationInfo.
  unfoldable pub process_nmea_write_fields :
      Node P → WriteFields → List (Message F) × List ConfigurationInfo
  process_nmea_write_fields n req = elim req.header.pgn [
    | none ↦ ([], [])
    | some p ↦
        if not (p == configuration_information_pgn)
        then (refuse n req.header p read_or_write_not_supported, [])
        else if not (may_configure n req.header.info req.repeating1)
        then ([], [])
        else elim n.config_provider [
          | none ↦ ([], [])
          | some provider ↦ write_configuration n provider req p
        ]
  ]

  -- `processNmeaReadFieldsGroupFunction`.
  unfoldable pub process_nmea_read_fields : Node P → ReadFields → List (Message F)
  process_nmea_read_fields n req = elim req.header.pgn [
    | none ↦ []
    | some p ↦
        if not (p == configuration_information_pgn)
        then []
        else if not (may_configure n req.header.info req.repeating1)
        then []
        else elim n.config_provider [
          | none ↦ []
          | some provider ↦ elim (configuration provider) [
            | none ↦ []
            | some c ↦ elim (read_fields c req.repeating2) [
              | unknown ↦ []
              | too_long ↦ refuse n req.header p invalid_parameter_field
              | values vs ↦
                  read_fields_reply (record { header = reply_header n req.header; repeating2 = vs })
                  ∷ []
            ]
          ]
        ]
  ]

  -- The write that a command stands for.
  abbrev pub write_of_command : NmeaCommand → WriteFields
  write_of_command cmd = record {
    header = record {
      info = cmd.info;
      pgn = cmd.pgn;
      manufacturer_code = 0;
      industry_code = 0;
      unique_id = none;
      number_of_selection_pairs = some 0;
      number_of_parameters = some (u8 (length cmd.repeating1));
    };
    repeating1 = [];
    repeating2 = cmd.repeating1;
  }

  -- The acknowledgement of a command, good for each of its parameters.
  abbrev pub command_ack : Node P → NmeaCommand → List (Message F)
  command_ack n cmd =
      nmea_acknowledge (record {
        info = record {
          timestamp = 0;
          priority = 3;
          pgn = nmea_group_function_pgn;
          source_id = n.network_address;
          target_id = cmd.info.source_id;
        };
        pgn = cmd.pgn;
        pgn_error_code = PgnErrorCode.acknowledge;
        transmission_interval_priority_error_code = TransmissionInterval.acknowledge;
        number_of_parameters = some (u8 (length cmd.repeating1));
        repeating1 = map (λ f. ParameterField.acknowledge) cmd.repeating1;
      })
      ∷ []

  abbrev pub acknowledge_all : Node P → NmeaCommand → List (Message F) → List (Message F)
  acknowledge_all n cmd [] = []
  acknowledge_all n cmd (m ∷ ms) = command_ack n cmd

  -- `processNmeaCommandGroupFunction`.
  unfoldable pub process_nmea_command :
      Node P → NmeaCommand → List (Message F) × List ConfigurationInfo
  process_nmea_command n cmd = elim cmd.pgn [
    | none ↦ ([], [])
    | some p ↦
        if not (p == configuration_information_pgn) || length cmd.repeating1 == 0
        then (
          process_unsupported_group_function over_hundred configuration n cmd.info p
              read_or_write_not_supported,
          [],
        )
        else if ltb 255 (length cmd.repeating1)
        then (
          process_unsupported_group_function over_hundred configuration n cmd.info p
              invalid_parameter_field,
          [],
        )
        else (let (responses, stored) = process_nmea_write_fields n (write_of_command cmd) in
            (acknowledge_all n cmd responses, stored))
  ]
