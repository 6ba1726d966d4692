-- ===== src/Adapter/Sequence/Slots.antt =====
-- internal/adapter/canadapter/sequence.go: the slots of a sequence, `contents`, and the bytes in them.
use n2k.Prelude.{
  ℕ, zero, suc, ◌+◌, ◌*◌, ◌≤◌, ◌<◌, ◌≡◌, refl, ap, ◌∙◌, inl, inr, List, [], ◌∷◌, Option, none, some,
  arith, ◌==◌, if◌then◌else◌, length, ◌⊎◌, get_elem?, set, replicate, map,
}

abbrev pub Slots : Type 0
Slots = List (Option (List ℕ))

-- Frame 0 carries six bytes of the payload and each later frame seven.
abbrev pub slot_size : ℕ → ℕ
slot_size i = if i == 0 then 6 else 7

-- Each filled slot, from index `i` on, has the size of its place.
abbrev pub SlotsFit : ℕ → Slots → Type 0
SlotsFit i [] = Unit {0}
SlotsFit i (none ∷ cs) = SlotsFit (i + 1) cs
SlotsFit i (some d ∷ cs) = (length d ≡ slot_size i) × SlotsFit (i + 1) cs

-- The number of bytes in the slots.
abbrev pub stored : Slots → ℕ
stored [] = 0
stored (none ∷ cs) = stored cs
stored (some d ∷ cs) = length d + stored cs

pub stored-le : (i : ℕ) (cs : Slots) → SlotsFit i cs → stored cs ≤ 7 * length cs
stored-le i [] h = omega arith
stored-le i (none ∷ cs) h = omega (arith, stored-le (i + 1) cs h)
stored-le i (some d ∷ cs) (e, h) = ground (arith, stored-le (i + 1) cs h)

pub set-SlotsFit :
    (i k : ℕ) (cs : Slots) (d : List ℕ)
    → SlotsFit i cs
    → length d ≡ slot_size (i + k)
    → SlotsFit i (set cs k (some d))
set-SlotsFit i k [] d h e = tt
set-SlotsFit i zero (none ∷ cs) d h e = (e ∙ ap slot_size (omega arith), h)
set-SlotsFit i zero (some x ∷ cs) d h e = (e ∙ ap slot_size (omega arith), h.1)
set-SlotsFit i (suc k) (none ∷ cs) d h e =
    set-SlotsFit (i + 1) k cs d h (e ∙ ap slot_size (omega arith))
set-SlotsFit i (suc k) (some x ∷ cs) d (e', h) e =
    (e', set-SlotsFit (i + 1) k cs d h (e ∙ ap slot_size (omega arith)))

pub stored-set :
    (k : ℕ) (cs : Slots) (d : List ℕ)
    → get_elem? cs k ≡ some none
    → stored (set cs k (some d)) ≡ stored cs + length d
stored-set k [] d h = cc
stored-set zero (none ∷ cs) d h = omega arith
stored-set zero (some x ∷ cs) d h = cc
stored-set (suc k) (none ∷ cs) d h = stored-set k cs d h
stored-set (suc k) (some x ∷ cs) d h = omega (arith, stored-set k cs d h)

pub clear_slots :
    (n : ℕ) (cs : Slots)
    → length cs ≡ n
    → map {B = Option (List ℕ)} (λ _. none) cs ≡ replicate n none
clear_slots zero [] h = refl
clear_slots zero (c ∷ cs) h = absurd (omega arith)
clear_slots (suc n) [] h = absurd (omega arith)
clear_slots (suc n) (c ∷ cs) h = ap (λ r. none ∷ r) (clear_slots n cs (omega arith))

-- A slot within bounds is free or filled.
abbrev pub Slot : Slots → ℕ → Type 0
Slot cs k = (get_elem? cs k ≡ some none) ⊎ ((d : List ℕ) × (get_elem? cs k ≡ some (some d)))

pub Slot-cases : (k : ℕ) (cs : Slots) → k < length cs → Slot cs k
Slot-cases k [] h = elim h [ ]
Slot-cases zero (none ∷ cs) h = inl refl
Slot-cases zero (some d ∷ cs) h = inr (d, refl)
Slot-cases (suc k) (c ∷ cs) h = Slot-cases k cs (omega arith)
