-- ===== src/Node/Devices/Observed.antt =====
-- pkg/node/node.go: the tables that what a node observes leads to, and their agreement.
use n2k.Prelude.{ℕ, ◌≤◌, ◌≡◌, ◌≢◌, refl, inl, inr, none, some, arith, ◌==◌, Bool-cases, bytes_eq}
use n2k.Node.Devices.{
  ConfigurationInfo, KnownDevice, Devices, no_devices, update_from_claim, known_device_for_address,
  set_known_device_for_address,
}
use n2k.Node.Devices.Updates.{
  ProductInformation, PgnList, ListCode, transmit_pgn_list, receive_pgn_list, other_list,
  product_eq, config_eq, holds, seen, product_info_of, update_from_product_info,
  update_from_configuration_info, update_from_pgn_list, list_values,
}
use n2k.Node.Devices.Table.{
  IsValid, no_devices-IsValid, update_from_claim-IsValid, known_device_cases,
}

module _ (a : ℕ) (d : KnownDevice) (t : Devices) (v : IsValid t) (low : a ≤ 253)
    (at : d.address ≡ a) where
  set_nameless : d.name ≡ 0 → t.names a ≡ none → IsValid (set_known_device_for_address a d t)
  unfolding set_known_device_for_address
  set_nameless none_yet free = rw (none_yet) (record {
    named = v.named;
    own_name = v.own_name;
    located = v.located;
    nameless = λ b d' h e. ground (arith, e, none_yet, free, v.nameless b d' h);
  })

  set_named : d.name ≢ 0 → t.names a ≡ some d.name → IsValid (set_known_device_for_address a d t)
  unfolding set_known_device_for_address
  set_named real named = record {
    named = λ b n h e. elim (Bool-cases (b == a)) [
      | inl here ↦ (d, ground (arith, real, here, e), ground (arith, here, at))
      | inr away ↦
          let before : t.names b ≡ some n = ground (arith, real, away, e) in
          let (d₀, held₀, at₀) = v.named a d.name low named in
          let (d', held, at') = v.named b n h before in
          (d', ground (arith, real, held, at', held₀, at₀, away), at')
    ];
    own_name = λ n d' e. ground (arith, real, e, v.own_name n d');
    located = λ n d' e h. ground (arith, real, e, h, at, named, v.located n d');
    nameless = λ b d' h e. ground (arith, real, e, v.nameless b d' h);
  }

-- A device that was looked up at the address and has its NAME still is put back.
put_back :
    (a : ℕ) (d : KnownDevice) (t : Devices)
    → IsValid t
    → a ≤ 253
    → d.address ≡ a
    → d.name ≡ (known_device_for_address a t).name
    → IsValid (set_known_device_for_address a d t)
put_back a d t v low at same = elim (known_device_cases a t v low) [
  | inl (real, named) ↦ set_named a d t v low at (rw same real) (rw same named)
  | inr (nameless, free) ↦ set_nameless a d t v low at (rw same nameless) free
]

-- What a node observes, from addresses up to 253 and with claims of a NAME other than 0, and what its table
-- becomes.
pub data Observed {F : Type 0} (hundredths : F → ℕ) : Devices → Type 0 where
  nothing_yet : Observed hundredths no_devices
  claim :
      (now a name : ℕ) (t : Devices)
      → Observed hundredths t
      → a ≤ 253
      → name ≢ 0
      → Observed hundredths (update_from_claim now a name t).0
  product :
      (now : ℕ) (p : ProductInformation F) (t : Devices)
      → Observed hundredths t
      → p.info.source_id ≤ 253
      → Observed hundredths (update_from_product_info hundredths now p t).0
  configuration :
      (now a : ℕ) (c : ConfigurationInfo) (t : Devices)
      → Observed hundredths t
      → a ≤ 253
      → Observed hundredths (update_from_configuration_info now a c t).0
  pgn_list :
      (now : ℕ) (p : PgnList) (t : Devices)
      → Observed hundredths t
      → p.info.source_id ≤ 253
      → Observed hundredths (update_from_pgn_list now p t).0

module _ (now : ℕ) (t : Devices) (v : IsValid t) where
  product-IsValid :
      {F : Type 0} (hundredths : F → ℕ) (p : ProductInformation F)
      → p.info.source_id ≤ 253
      → IsValid (update_from_product_info hundredths now p t).0
  unfolding update_from_product_info
  product-IsValid hundredths p low =
      elim (Bool-cases (
        holds product_eq (seen now p.info.source_id t).product_info
          (product_info_of hundredths p))) [
            | inl same ↦ rw same (put_back p.info.source_id _ t v low refl refl)
            | inr new ↦ rw new (put_back p.info.source_id _ t v low refl refl)
          ]

  configuration-IsValid :
      (a : ℕ) (c : ConfigurationInfo)
      → a ≤ 253
      → IsValid (update_from_configuration_info now a c t).0
  unfolding update_from_configuration_info
  configuration-IsValid a c low = elim (Bool-cases (holds config_eq (seen now a t).config_info c)) [
    | inl same ↦ rw same (put_back a _ t v low refl refl)
    | inr new ↦ rw new (put_back a _ t v low refl refl)
  ]

  pgn_list-IsValid :
      (p : PgnList) (code : ListCode)
      → p.function_code ≡ code
      → p.info.source_id ≤ 253
      → IsValid (update_from_pgn_list now p t).0
  unfolding update_from_pgn_list
  pgn_list-IsValid p transmit_pgn_list e low =
      elim (Bool-cases
        (holds bytes_eq (seen now p.info.source_id t).transmit_pgns (list_values p.repeating1))) [
          | inl same ↦ rw (e, same) (put_back p.info.source_id _ t v low refl refl)
          | inr differs ↦ rw (e, differs) (put_back p.info.source_id _ t v low refl refl)
        ]
  pgn_list-IsValid p receive_pgn_list e low =
      elim (Bool-cases
        (holds bytes_eq (seen now p.info.source_id t).receive_pgns (list_values p.repeating1))) [
          | inl same ↦ rw (e, same) (put_back p.info.source_id _ t v low refl refl)
          | inr differs ↦ rw (e, differs) (put_back p.info.source_id _ t v low refl refl)
        ]
  pgn_list-IsValid p (other_list code) e low = rw e v

-- Every table that observations lead to is in agreement: claims of a NAME other than 0, product and
-- configuration information and group lists, all from addresses up to 253.
pub Observed-IsValid :
    {F : Type 0} (hundredths : F → ℕ) (t : Devices) → Observed hundredths t → IsValid t
Observed-IsValid hundredths _ nothing_yet = no_devices-IsValid
Observed-IsValid hundredths _ (claim now a name t o low real) =
    update_from_claim-IsValid now a name t (Observed-IsValid hundredths t o) low real
Observed-IsValid hundredths _ (product now p t o low) =
    product-IsValid now t (Observed-IsValid hundredths t o) hundredths p low
Observed-IsValid hundredths _ (configuration now a c t o low) =
    configuration-IsValid now t (Observed-IsValid hundredths t o) a c low
Observed-IsValid hundredths _ (pgn_list now p t o low) =
    pgn_list-IsValid now t (Observed-IsValid hundredths t o) p p.function_code refl low
