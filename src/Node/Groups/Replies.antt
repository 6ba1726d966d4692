-- ===== src/Node/Groups/Replies.antt =====
-- pkg/node/node.go: what the command, write and read group functions return.
use n2k.Prelude.{
  length, ltb, ◌||◌, ℕ, ◌≡◌, refl, not, inl, inr, Bool, true, List, [], ◌∷◌, Option, some, arith,
  ◌==◌, Bool-cases, Option-cases, All, Bytes,
}
use n2k.Packet.{MessageInfo}
use n2k.Node.{Node}
use n2k.Node.Devices.{ConfigurationInfo}
use n2k.Node.Messages.{
  Message, NmeaCommand, WriteFields, ReadFields, FieldsHeader, FieldValue, invalid_parameter_field,
  access_denied, read_or_write_not_supported, write_fields_reply, read_fields_reply,
  configuration_information_pgn,
}
use n2k.Node.Requests.{may_answer, process_unsupported_group_function}
use n2k.Node.Answers.{IsAnswer, process_unsupported-IsAnswer}
use n2k.Node.Groups.{
  apply_fields, ReadResult, unknown, too_long, values, read_fields, may_configure, reply_header,
  write_configuration, process_nmea_write_fields, process_nmea_read_fields, process_nmea_command,
  write_of_command, acknowledge_all,
}

-- A node that takes a write or a read answers messages.
may_configure-may_answer :
    {P : Type 0} (n : Node P) (i : MessageInfo) (fs : List FieldValue)
    → may_configure n i fs ≡ true
    → may_answer n i ≡ true
unfolding may_configure
may_configure-may_answer n i fs may = ground (arith, may)

module _ {P F : Type 0} (over_hundred : ℕ → F) (utf16 : List ℕ → Bytes)
    (configuration : P → Option ConfigurationInfo) (accepts : P → ConfigurationInfo → Bool)
    (n : Node P) where
  write_reply :
      (h : FieldsHeader) (fs : List FieldValue)
      → may_answer n h.info ≡ true
      → All
          (IsAnswer {F = F} n h.info)
          (write_fields_reply (record { header = reply_header n h; repeating2 = fs }) ∷ [])
  write_reply h fs may = ((may, (refl, inl refl)), tt)

  write_configuration-IsAnswer :
      (provider : P) (req : WriteFields) (p : ℕ)
      → may_answer n req.header.info ≡ true
      → All
          (IsAnswer n req.header.info)
          (write_configuration over_hundred utf16 configuration accepts n provider req p).0
  unfolding write_configuration
  write_configuration-IsAnswer provider req p may =
      let refused = process_unsupported-IsAnswer over_hundred configuration n req.header.info p in
      elim (Option-cases (configuration provider)) [
        | inl missing ↦ rw (missing, write_configuration) (refused access_denied)
        | inr (c, there) ↦ elim (Option-cases (apply_fields utf16 c req.repeating2)) [
          | inl bad ↦ rw (write_configuration, there, bad) (refused invalid_parameter_field)
          | inr ((c', fields), good) ↦ elim (Bool-cases (accepts provider c')) [
            | inl taken ↦
                rw (write_configuration, there, good, taken) (write_reply req.header fields may)
            | inr denied ↦ rw (write_configuration, there, good, denied) (refused access_denied)
          ]
        ]
      ]

  pub process_nmea_write_fields-IsAnswer :
      (req : WriteFields)
      → All
          (IsAnswer n req.header.info)
          (process_nmea_write_fields over_hundred utf16 configuration accepts n req).0
  unfolding process_nmea_write_fields
  process_nmea_write_fields-IsAnswer req = elim (Option-cases req.header.pgn) [
    | inl missing ↦ rw missing tt
    | inr (p, asked) ↦ elim (Bool-cases (p == configuration_information_pgn)) [
      | inr other ↦
          rw (asked, other)
            (process_unsupported-IsAnswer over_hundred configuration n req.header.info p
              read_or_write_not_supported)
      | inl ours ↦ elim (Bool-cases (may_configure n req.header.info req.repeating1)) [
        | inr no_part ↦ rw (asked, ours, no_part) tt
        | inl may ↦ elim (Option-cases n.config_provider) [
          | inl without ↦ rw (asked, ours, may, without) tt
          | inr (provider, held) ↦
              simp (process_nmea_write_fields, asked, ours, may, held)
                (write_configuration-IsAnswer provider req p
                  (may_configure-may_answer n req.header.info req.repeating1 may))
        ]
      ]
    ]
  ]

  abbrev read_answer : ReadFields → ℕ → ReadResult → List (Message F)
  read_answer req p unknown = []
  read_answer req p too_long =
      process_unsupported_group_function over_hundred configuration n req.header.info p
        invalid_parameter_field
  read_answer req p (values vs) =
      read_fields_reply (record { header = reply_header n req.header; repeating2 = vs }) ∷ []

  read_result :
      (req : ReadFields) (p : ℕ)
      → may_configure n req.header.info req.repeating1 ≡ true
      → (r : ReadResult) → All (IsAnswer n req.header.info) (read_answer req p r)
  read_result req p may unknown = tt
  read_result req p may too_long =
      process_unsupported-IsAnswer over_hundred configuration n req.header.info p
        invalid_parameter_field
  read_result req p may (values vs) =
      ((may_configure-may_answer n req.header.info req.repeating1 may, (refl, inl refl)), tt)

  pub process_nmea_read_fields-IsAnswer :
      (req : ReadFields)
      → All
          (IsAnswer n req.header.info)
          (process_nmea_read_fields over_hundred utf16 configuration accepts n req)
  unfolding process_nmea_read_fields
  process_nmea_read_fields-IsAnswer req = elim (Option-cases req.header.pgn) [
    | inl missing ↦ rw missing tt
    | inr (p, asked) ↦ elim (Bool-cases (p == configuration_information_pgn)) [
      | inr other ↦ rw (asked, other) tt
      | inl ours ↦ elim (Bool-cases (may_configure n req.header.info req.repeating1)) [
        | inr no_part ↦ rw (asked, ours, no_part) tt
        | inl may ↦ elim (Option-cases n.config_provider) [
          | inl without ↦ rw (asked, ours, may, without) tt
          | inr (provider, held) ↦ elim (Option-cases (configuration provider)) [
            | inl absent ↦ simp (process_nmea_read_fields, asked, ours, may, held, absent) tt
            | inr (c, there) ↦
                simp (process_nmea_read_fields, asked, ours, may, held, there)
                  (read_result req p may (read_fields c req.repeating2))
          ]
        ]
      ]
    ]
  ]

  acknowledge_all-IsAnswer :
      (cmd : NmeaCommand) (ms : List (Message F))
      → All (IsAnswer n cmd.info) ms
      → All
          (IsAnswer n cmd.info)
          (acknowledge_all over_hundred utf16 configuration accepts n cmd ms)
  acknowledge_all-IsAnswer cmd [] a = tt
  acknowledge_all-IsAnswer cmd (m ∷ ms) ((may, a), others) = ((may, (refl, inl refl)), tt)

  pub process_nmea_command-IsAnswer :
      (cmd : NmeaCommand)
      → All
          (IsAnswer n cmd.info)
          (process_nmea_command over_hundred utf16 configuration accepts n cmd).0
  unfolding process_nmea_command
  process_nmea_command-IsAnswer cmd = elim (Option-cases cmd.pgn) [
    | inl missing ↦ rw missing tt
    | inr (p, asked) ↦
        let refused = process_unsupported-IsAnswer over_hundred configuration n cmd.info p in
        let w = write_of_command over_hundred utf16 configuration accepts cmd in
        elim (Bool-cases (not (p == configuration_information_pgn) || length cmd.repeating1 == 0)) [
          | inl other ↦ rw (asked, other) (refused read_or_write_not_supported)
          | inr ours ↦ elim (Bool-cases (ltb 255 (length cmd.repeating1))) [
            | inl long ↦ rw (asked, ours, long) (refused invalid_parameter_field)
            | inr short ↦
                simp (process_nmea_command, asked, ours, short)
                  (acknowledge_all-IsAnswer cmd _ (
                    process_nmea_write_fields-IsAnswer
                      (record w { header = record w.header { pgn = some p } })))
          ]
        ]
  ]
