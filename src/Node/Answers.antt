-- ===== src/Node/Answers.antt =====
-- pkg/node/node.go: the answers of a node to the requests that it receives.
use n2k.Prelude.{
  ℕ, ◌≡◌, ◌&&◌, not, inl, inr, ◌⊎◌, Bool, true, false, List, [], ◌∷◌, Option, none, some, arith,
  Bool-cases, Option-cases, All, All-map,
}
use n2k.Packet.{MessageInfo}
use n2k.Node.{Node}
use n2k.Node.Name.{build_address_claim, iso_address_claim_pgn}
use n2k.Node.Devices.{ConfigurationInfo}
use n2k.Node.Messages.{
  Message, iso_address_claim, message_info, IsoRequest, NmeaRequest, build_iso_nak,
  build_nmea_group_nak, ParameterField, read_or_write_not_supported, product_information_pgn,
  pgn_list_pgn, configuration_information_pgn,
}
use n2k.Node.Requests.{
  elem, may_answer, respond, process_iso_request, process_nmea_request,
  process_unsupported_group_function,
}

abbrev pub is_claim : {F : Type 0} → Message F → Bool
is_claim (iso_address_claim c) = true
is_claim m = false

-- An answer to a message: to the device that sent it, or an address claim to all.
abbrev pub Answers : {P F : Type 0} → Node P → MessageInfo → Message F → Type 0
Answers n i m =
    ((message_info m).source_id ≡ n.network_address)
    × (((message_info m).target_id ≡ i.source_id)
        ⊎ ((is_claim m ≡ true) × ((message_info m).target_id ≡ 255)))

-- The message answers one that is for the node, which writes and owns its address.
abbrev pub IsAnswer : {P F : Type 0} → Node P → MessageInfo → Message F → Type 0
IsAnswer n i m = (may_answer n i ≡ true) × Answers n i m

abbrev pub is_empty : {A : Type 0} → List A → Bool
is_empty [] = true
is_empty (x ∷ xs) = false

abbrev pub elem_of : Option ℕ → List ℕ → Bool
elem_of none ps = false
elem_of (some p) ps = elem p ps

module _ {P F : Type 0} (over_hundred : ℕ → F) (configuration : P → Option ConfigurationInfo)
    (n : Node P) where
  respond-Answers :
      (i : MessageInfo) (requested : ℕ)
      → All (Answers n i) (respond over_hundred configuration n i.source_id requested)
  unfolding respond build_address_claim build_iso_nak
  respond-Answers i requested = ground arith

  pub process_iso_request-IsAnswer :
      (r : IsoRequest)
      → All (IsAnswer n r.info) (process_iso_request over_hundred configuration n r)
  unfolding process_iso_request
  process_iso_request-IsAnswer r = elim (Option-cases r.pgn) [
    | inl missing ↦ ground (arith, missing)
    | inr (p, asked) ↦ elim (Bool-cases (may_answer n r.info)) [
      | inl may ↦
          rw (asked, may)
            (All-map _ (IsAnswer n r.info) (λ m a. (may, a)) _ (respond-Answers r.info p))
      | inr not_for_us ↦ rw (asked, not_for_us) tt
    ]
  ]

  -- A request is answered exactly where it is for the node, which writes and owns its address, and it asks for one
  -- of the four groups: the address claim, the product information, the group lists, the configuration.
  pub process_iso_request_iff :
      (r : IsoRequest)
      → is_empty (process_iso_request over_hundred configuration n r)
        ≡ not (
            may_answer n r.info
            && elem_of r.pgn (
                iso_address_claim_pgn ∷ product_information_pgn ∷ pgn_list_pgn
                ∷ configuration_information_pgn ∷ []))
  unfolding process_iso_request respond
  process_iso_request_iff r = elim (Option-cases r.pgn) [
    | inl missing ↦ ground (arith, missing)
    | inr (p, asked) ↦ elim (Bool-cases (may_answer n r.info)) [
      | inl may ↦ ground (arith, asked, may)
      | inr not_for_us ↦ ground (arith, asked, not_for_us)
    ]
  ]

  pub process_unsupported-IsAnswer :
      (i : MessageInfo) (requested : ℕ) (e : ParameterField)
      → All
          (IsAnswer {F = F} n i)
          (process_unsupported_group_function over_hundred configuration n i requested e)
  unfolding process_unsupported_group_function build_nmea_group_nak
  process_unsupported-IsAnswer i requested e = ground arith

  -- Each answer to an NMEA request comes from the node's own address, and only where the node writes, owns its
  -- address and the request is for it or for all; it goes to the device that asked, or is an address claim to all.
  pub process_nmea_request-IsAnswer :
      (r : NmeaRequest)
      → All (IsAnswer n r.info) (process_nmea_request over_hundred configuration n r)
  unfolding process_nmea_request
  process_nmea_request-IsAnswer r =
      let request = process_iso_request-IsAnswer (record { info = r.info; pgn = r.pgn }) in
      elim (Option-cases r.pgn) [
        | inl missing ↦ rw missing tt
        | inr (p, asked) ↦
            let refused = process_unsupported-IsAnswer r.info p read_or_write_not_supported in
            ground (arith, asked, request, refused)
      ]
