-- ===== src/Node/Groups/Commands.antt =====
-- pkg/node/node.go: commands and writes on a node's configuration.
use n2k.Prelude.{
  length-take, zero, suc, ◌-◌, ge→ltb, ℕ, ◌≤◌, ◌<◌, ◌≡◌, ◌≢◌, refl, inl, inr, Bool, true, false,
  List, [], ◌∷◌, Option, none, some, arith, ◌==◌, length, ltb, Bool-cases, Option-cases, Bytes,
}
use n2k.Prelude.Results.{ok}
use n2k.Packet.{MessageInfo}
use n2k.DataStream.{DataStream, Outcome}
use n2k.DataStream.Binary.{encode_string_lau, decode_string_lau, trim_ascii_terminator}
use n2k.DataStream.Lau.{decode_string_lau-encode_string_lau}
use n2k.Node.{Node}
use n2k.Node.Devices.{ConfigurationInfo}
use n2k.Node.Messages.{
  Message, NmeaCommand, WriteFields, FieldValue, ParameterField, invalid_parameter_field,
  access_denied, configuration_information_pgn,
}
use n2k.Node.Requests.{process_unsupported_group_function}
use n2k.Node.Groups.{
  with_parameter, parameter_of, apply_fields, values, read_fields, may_configure,
  write_configuration, process_nmea_write_fields, process_nmea_command, write_of_command,
  acknowledge_all, command_ack,
}
use n2k.Node.Answers.{is_empty}

module _ {P F : Type 0} (over_hundred : ℕ → F) (utf16 : List ℕ → Bytes)
    (configuration : P → Option ConfigurationInfo) (accepts : P → ConfigurationInfo → Bool)
    (n : Node P) (own : n.network_address ≤ 253) where
  refusal_sent :
      (i : MessageInfo) (p : ℕ) (e : ParameterField)
      → may_configure n i [] ≡ true
      → is_empty (process_unsupported_group_function {F = F} over_hundred configuration n i p e)
        ≡ false
  unfolding process_unsupported_group_function may_configure
  refusal_sent i p e may = ground (arith, may, own)

  write_answered :
      (provider : P) (w : WriteFields) (p : ℕ)
      → may_configure n w.header.info [] ≡ true
      → is_empty (write_configuration over_hundred utf16 configuration accepts n provider w p).0
        ≡ false
  unfolding write_configuration
  write_answered provider w p may = elim (Option-cases (configuration provider)) [
    | inl missing ↦
        rw (write_configuration, missing) (refusal_sent w.header.info p access_denied may)
    | inr (c, there) ↦ elim (Option-cases (apply_fields utf16 c w.repeating2)) [
      | inl bad ↦
          rw (write_configuration, there, bad)
            (refusal_sent w.header.info p invalid_parameter_field may)
      | inr ((c', fields), good) ↦ elim (Bool-cases (accepts provider c')) [
        | inl taken ↦ rw (write_configuration, there, good, taken) refl
        | inr denied ↦
            rw (write_configuration, there, good, denied)
              (refusal_sent w.header.info p access_denied may)
      ]
    ]
  ]

  has_provider : (i : MessageInfo) → may_configure n i [] ≡ true → n.config_provider ≢ none
  unfolding may_configure
  has_provider i may e = ground (arith, may, e)

  write_fields_answered :
      (w : WriteFields)
      → w.header.pgn ≡ some configuration_information_pgn
      → w.repeating1 ≡ []
      → may_configure n w.header.info [] ≡ true
      → is_empty (process_nmea_write_fields over_hundred utf16 configuration accepts n w).0 ≡ false
  unfolding process_nmea_write_fields
  write_fields_answered w asked unselected may = elim (Option-cases n.config_provider) [
    | inl without ↦ absurd (has_provider w.header.info may without)
    | inr (provider, held) ↦
        simp (process_nmea_write_fields, asked, unselected, may, held)
          (write_answered provider w configuration_information_pgn may)
  ]

  acknowledged :
      (cmd : NmeaCommand) (ms : List (Message F))
      → is_empty ms ≡ false
      → acknowledge_all over_hundred utf16 configuration accepts n cmd ms
        ≡ command_ack over_hundred utf16 configuration accepts n cmd
  acknowledged cmd [] e = cc
  acknowledged cmd (m ∷ ms) e = refl

  -- A command on the configuration, with 1 to 255 parameters, that is for the node's own address, up to 253, at a
  -- node that writes, has claimed its address and has a configuration provider, is acknowledged as
  -- carried out, whatever the provider answers and the parameters hold.
  pub process_nmea_command_acknowledged :
      (i : MessageInfo) (fields : List FieldValue)
      → 0 < length fields
      → length fields ≤ 255
      → may_configure n i [] ≡ true
      → (let cmd : NmeaCommand = record {
        info = i;
        pgn = some configuration_information_pgn;
        repeating1 = fields;
      } in
          (process_nmea_command over_hundred utf16 configuration accepts n cmd).0
          ≡ command_ack over_hundred utf16 configuration accepts n cmd)
  unfolding process_nmea_command
  process_nmea_command_acknowledged i fields some_fields few may =
      let cmd : NmeaCommand = record {
        info = i;
        pgn = some configuration_information_pgn;
        repeating1 = fields;
      } in
      let w = write_of_command over_hundred utf16 configuration accepts cmd in
      let long : ltb 255 (length fields) ≡ false = ge→ltb 255 (length fields) few in
      let any : (length fields == 0) ≡ false = ground (arith, some_fields) in
      simp (process_nmea_command, any, long)
        (acknowledged cmd _ (write_fields_answered w refl refl may))

parameter_kept :
    (c : ConfigurationInfo) (p : ℕ) (t : Bytes)
    → 0 < p
    → p ≤ 3
    → (c' : ConfigurationInfo) × (with_parameter c p t ≡ some c') × (parameter_of c' p ≡ some t)
parameter_kept c zero t lo hi = absurd (omega arith)
parameter_kept c (suc zero) t lo hi = (_, refl, refl)
parameter_kept c (suc (suc zero)) t lo hi = (_, refl, refl)
parameter_kept c (suc (suc (suc zero))) t lo hi = (_, refl, refl)
parameter_kept c (suc (suc (suc (suc p)))) t lo hi = absurd (omega arith)

length-trim : (v : Bytes) → length (trim_ascii_terminator v) ≤ length v
length-trim v = ground (arith, length-take (length v - 1) v)

-- A string of at most 253 bytes, encoded.
encoded :
    (utf16 : List ℕ → Bytes) (v : Bytes)
    → length v ≤ 253
    → (e : Bytes) × (s : DataStream) × (encode_string_lau v ≡ ok e)
      × (decode_string_lau utf16 e ≡ Outcome.ok (trim_ascii_terminator v) s)
encoded utf16 v short = elim (decode_string_lau-encode_string_lau utf16 v) [
  | inl found ↦ found
  | inr (refused, long) ↦ absurd (omega (arith, short, long))
]

apply_one :
    (utf16 : List ℕ → Bytes) (c c' : ConfigurationInfo) (p : ℕ) (e t : Bytes) (s : DataStream)
    → decode_string_lau utf16 e ≡ Outcome.ok t s
    → with_parameter c p t ≡ some c'
    → apply_fields utf16 c (record { parameter = some p; value = e } ∷ [])
      ≡ some (c', record { parameter = some p; value = e } ∷ [])
apply_one utf16 c c' p e t s dec set_it = ground (arith, dec, set_it)

read_one :
    (c : ConfigurationInfo) (p : ℕ) (t e : Bytes)
    → parameter_of c p ≡ some t
    → encode_string_lau t ≡ ok e
    → read_fields c (some p ∷ []) ≡ values (record { parameter = some p; value = e } ∷ [])
read_one c p t e got enc = ground (arith, got, enc)

-- A field that is written with a string of at most 253 bytes, and then read: the configuration after the
-- write has the string without a zero byte at its end, and the read gives its encoding.
pub read_fields-apply_fields :
    (utf16 : List ℕ → Bytes) (c : ConfigurationInfo) (p : ℕ) (v : Bytes)
    → 0 < p
    → p ≤ 3
    → length v ≤ 253
    → (let t = trim_ascii_terminator v in
        (e : Bytes) × (e' : Bytes) × (c' : ConfigurationInfo) × (encode_string_lau v ≡ ok e)
        × (encode_string_lau t ≡ ok e')
        × (apply_fields utf16 c (record { parameter = some p; value = e } ∷ [])
            ≡ some (c', record { parameter = some p; value = e } ∷ []))
        × (parameter_of c' p ≡ some t)
        × (read_fields c' (some p ∷ []) ≡ values (record { parameter = some p; value = e' } ∷ [])))
read_fields-apply_fields utf16 c p v lo hi short =
    let t = trim_ascii_terminator v in
    let (e, s, enc, dec) = encoded utf16 v short in
    let (e', s', enc', dec') = encoded utf16 t (omega (arith, length-trim v, short)) in
    let (c', set_it, got) = parameter_kept c p t lo hi in
    (
      e,
      e',
      c',
      enc,
      enc',
      apply_one utf16 c c' p e t s dec set_it,
      got,
      read_one c' p t e' got enc',
    )
