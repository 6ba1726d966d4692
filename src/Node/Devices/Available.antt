-- ===== src/Node/Devices/Available.antt =====
-- pkg/node/node.go, `nextAvailableAddressLocked`: the next address that no device is known to hold.
use n2k.Prelude.{
  ℕ, zero, suc, ◌+◌, ◌-◌, ◌%◌, ◌≤◌, ◌<◌, ◌≡◌, ap, ◌∙◌, inl, inr, ◌⊎◌, Bool, true, false, ◌||◌,
  Option, none, some, arith, ◌==◌, if◌then◌else◌, Bool-cases, ==_iff, Option-cases, sym, subst,
  is_some,
}
use n2k.Node.Devices.{Devices}

-- Whether an address up to 253 is claimed.
abbrev pub is_taken : Devices → ℕ → ℕ → Bool
is_taken t after a = is_some (t.names a) || (is_some (t.unknown a) || a == after)

abbrev pub candidate : ℕ → ℕ → ℕ
candidate after i = (after + i) % 254

-- The loop, over the `count` candidates from `i` on.
unfoldable pub scan : Devices → ℕ → ℕ → ℕ → Option ℕ
scan t after zero i = none
scan t after (suc count) i =
    let rest = scan t after count (i + 1) in
    if is_taken t after (candidate after i) then rest else some (candidate after i)

unfoldable pub next_available_address : ℕ → Devices → Option ℕ
next_available_address after t = scan t after 254 1

module _ (t : Devices) (after : ℕ) where
  scan-some :
      (count i a : ℕ) → scan t after count i ≡ some a → (a < 254) × (is_taken t after a ≡ false)
  unfolding scan
  scan-some zero i a e = cc
  scan-some (suc count) i a e = elim (Bool-cases (is_taken t after (candidate after i))) [
    | inl taken ↦ scan-some count (i + 1) a (ground (arith, taken, e))
    | inr free ↦ ground (arith, free, e)
  ]

  scan-none :
      (count i j : ℕ)
      → scan t after count i ≡ none
      → i ≤ j
      → j < i + count
      → is_taken t after (candidate after j) ≡ true
  unfolding scan
  scan-none zero i j e lo hi = absurd (omega arith)
  scan-none (suc count) i j e lo hi = elim (Bool-cases (is_taken t after (candidate after i))) [
    | inl taken ↦ elim (Bool-cases (i == j)) [
      | inl here ↦
          ap (λ k. is_taken t after (candidate after k)) (sym ((==_iff i j).0 here)) ∙ taken
      | inr later ↦
          scan-none count (i + 1) j (ground (arith, taken, e)) (ground (arith, later, lo))
            (omega (arith, hi))
    ]
    | inr free ↦ absurd (ground (arith, free, e))
  ]

-- An address that is found is one of 0 to 253 that no device is known to hold, and not the address
-- itself; none is found only where each of them is held.
pub next_available_address_lem :
    (after : ℕ) (t : Devices) (a : ℕ)
    → a < 254
    → after < 256
    → ((b : ℕ) × (next_available_address after t ≡ some b)
        × (b < 254)
        × (is_taken t after b ≡ false))
      ⊎ ((next_available_address after t ≡ none) × (is_taken t after a ≡ true))
unfolding next_available_address
next_available_address_lem after t a small byte = elim (Option-cases (scan t after 254 1)) [
  | inr (b, found) ↦
      let (below, free) = scan-some t after 254 1 b found in inl (b, found, below, free)
  | inl full ↦
      let j = (a + 253 - after % 254) % 254 + 1 in
      inr (
        full,
        subst (λ (c : ℕ). is_taken t after c ≡ true) {x = candidate after j} {y = a} (omega arith)
            (scan-none t after 254 1 j full (omega arith) (omega arith)),
      )
]
