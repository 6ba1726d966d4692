-- ===== src/Adapter/Sequence/Invariant.antt =====
-- internal/adapter/canadapter/sequence.go: the invariant of a sequence, and that no frame of eight
-- bytes makes the code read or slice out of range.
use n2k.Prelude.{
  ℕ, zero, suc, ◌+◌, ◌≤◌, ◌<◌, ◌≡◌, ◌≢◌, refl, ap, ◌∙◌, inl, inr, List, [], ◌∷◌, ◌++◌, none, some,
  arith, leb, Bool-cases, Option-cases, length, length-append, ◌⊎◌, length-set, length-drop,
  get_elem?, get_elem?-get_or, get_or, set, drop, u8, ne→==, replicate, leb→le, le→leb,
}
use n2k.Packet.{Packet}
use n2k.Adapter.Sequence.{
  Sequence, reset, add_next, add, Gathered, sparse, gathered, consolidate, finish, complete,
}
use n2k.Adapter.Sequence.Slots.{
  Slots, SlotsFit, stored, stored-le, set-SlotsFit, stored-set, clear_slots, Slot, Slot-cases,
}

-- The empty sequence that `reset` leaves.
abbrev pub empty_sequence : Sequence
empty_sequence = record { zero = none; expected = 0; received = 0; contents = replicate 32 none }

pub record IsValid (s : Sequence) : Type 0 where
  pub slots : length s.contents ≡ 32
  pub fits : SlotsFit 0 s.contents
  pub counted : s.received ≡ stored s.contents
  pub idle : s.zero ≡ none → s ≡ empty_sequence

-- A sequence with nothing in it is valid, and `reset` makes one.
pub new_sequence-IsValid : IsValid empty_sequence
new_sequence-IsValid = record { slots = refl; fits = tt; counted = refl; idle = λ _. refl }

pub reset_lem : (s : Sequence) → IsValid s → reset s ≡ empty_sequence
unfolding reset
reset_lem s v = rw (clear_slots 32 s.contents v.slots)

-- The sequence after frame 0, and after a new later frame.
abbrev pub started : Packet → Sequence
started p = record {
  zero = some p;
  expected = get_or p.payload 1 0;
  received = 6;
  contents = some (drop 2 p.payload) ∷ replicate 31 none;
}

abbrev pub grown : Sequence → Packet → Sequence
grown s p = record s {
  received = s.received + 7;
  contents = set s.contents p.frame_num (some (drop 1 p.payload));
}

add_zero_from :
    (s : Sequence) (p : Packet)
    → length p.payload ≡ 8
    → p.frame_num ≡ 0
    → (elim s.zero [ some _ ↦ reset s | none ↦ s ] ≡ empty_sequence)
    → add s p ≡ some (started p)
unfolding add
add_zero_from s p eight at_zero fresh = rw (
  at_zero,
  fresh,
  get_elem?-get_or p.payload 1 0 (omega arith),
  le→leb 2 (length p.payload) (omega arith),
)

module _ (s : Sequence) (p : Packet) (v : IsValid s) (eight : length p.payload ≡ 8) where
  -- Frame 0 starts a sequence, whatever came before it.
  pub add-zero : p.frame_num ≡ 0 → add s p ≡ some (started p)
  add-zero at_zero = elim (Option-cases s.zero) [
    | inl idle ↦ add_zero_from s p eight at_zero (rw idle (v.idle idle))
    | inr (z, busy) ↦ add_zero_from s p eight at_zero (rw busy (reset_lem s v))
  ]

  -- A later frame before frame 0 leaves the empty sequence.
  pub add-early : p.frame_num ≢ 0 → s.zero ≡ none → add s p ≡ some empty_sequence
  unfolding add
  add-early later idle = rw (ne→== p.frame_num 0 later, idle) (ap some (reset_lem s v))

  -- A frame that came before leaves the empty sequence.
  pub add-duplicate :
      {z : Packet} {d : List ℕ}
      → p.frame_num ≢ 0
      → s.zero ≡ some z
      → get_elem? s.contents p.frame_num ≡ some (some d)
      → add s p ≡ some empty_sequence
  unfolding add
  add-duplicate later busy filled =
      simp (add_next, ne→== p.frame_num 0 later, busy, filled) (ap some (reset_lem s v))

  -- A new later frame fills its slot.
  pub add-new :
      {z : Packet}
      → p.frame_num ≢ 0
      → s.zero ≡ some z
      → get_elem? s.contents p.frame_num ≡ some none
      → add s p ≡ some (grown s p)
  unfolding add
  add-new later busy free = simp (
    add_next,
    ne→== p.frame_num 0 later,
    busy,
    free,
    le→leb 1 (length p.payload) (omega arith),
    small,
  )
    where
      small : u8 (s.received + 7) ≡ s.received + 7
      small = omega (arith, v.counted, stored-le 0 s.contents v.fits, v.slots)

-- Each branch keeps the invariant.
pub started-IsValid : (p : Packet) → length p.payload ≡ 8 → IsValid (started p)
started-IsValid p eight = record {
  slots = refl;
  fits = (omega (arith, length-drop 2 p.payload), tt);
  counted = omega (arith, length-drop 2 p.payload);
  idle = λ h. cc;
}

module _ (s : Sequence) (p : Packet) (v : IsValid s) (eight : length p.payload ≡ 8) where
  pub grown-IsValid :
      {z : Packet}
      → p.frame_num ≢ 0
      → s.zero ≡ some z
      → get_elem? s.contents p.frame_num ≡ some none
      → IsValid (grown s p)
  grown-IsValid later busy free = record {
    slots = length-set s.contents p.frame_num _ ∙ v.slots;
    fits = set-SlotsFit 0 p.frame_num s.contents (drop 1 p.payload) v.fits (
        rw (ne→== (0 + p.frame_num) 0 (λ e. later (omega arith)))
          (omega (arith, length-drop 1 p.payload)));
    counted = omega (
      arith,
      stored-set p.frame_num s.contents (drop 1 p.payload) free,
      v.counted,
      length-drop 1 p.payload,
    );
    idle = λ h. cc;
  }

  -- A frame of eight bytes with a number below 32 never makes a valid sequence's `add` panic, and
  -- the sequence stays valid.
  pub add-IsValid : p.frame_num < 32 → (s' : Sequence) × (add s p ≡ some s') × IsValid s'
  add-IsValid small = elim (dec p.frame_num) [
    | inl at_zero ↦ (started p, add-zero s p v eight at_zero, started-IsValid p eight)
    | inr later ↦ elim (Option-cases s.zero) [
      | inl idle ↦ (empty_sequence, add-early s p v eight later idle, new_sequence-IsValid)
      | inr (z, busy) ↦ elim slot [
        | inl free ↦ (grown s p, add-new s p v eight later busy free, grown-IsValid later busy free)
        | inr (d, filled) ↦
            (empty_sequence, add-duplicate s p v eight later busy filled, new_sequence-IsValid)
      ]
    ]
  ]
    where
      dec : (n : ℕ) → (n ≡ 0) ⊎ (n ≢ 0)
      dec zero = inl refl
      dec (suc n) = inr (λ e. absurd (omega arith))

      slot : Slot s.contents p.frame_num
      slot = Slot-cases p.frame_num s.contents (omega (arith, v.slots))

-- What `complete` joins is long enough to be cut at `expected`.
consolidate-length :
    (cs : Slots) (expected : ℕ) (acc results : List ℕ)
    → consolidate cs expected acc ≡ gathered results
    → expected ≤ length acc + stored cs
    → expected ≤ length results
unfolding consolidate
consolidate-length [] expected acc results h e = ground arith
consolidate-length (none ∷ cs) expected acc results h e = cc
consolidate-length (some d ∷ cs) expected acc results h e =
    ground (arith, length-append acc d, consolidate-length cs expected (acc ++ d) results)

finish-some :
    (g : Gathered) (expected : ℕ) (p : Packet)
    → ((results : List ℕ) → g ≡ gathered results → expected ≤ length results)
    → finish g expected p ≢ none
unfolding finish
finish-some sparse expected p h e = cc
finish-some (gathered results) expected p h e = ground (arith, h results refl)

-- On a valid sequence, `complete` never slices past the bytes that it joined.
pub complete-ne-none : (s : Sequence) (p : Packet) → IsValid s → complete s p ≢ none
unfolding complete
complete-ne-none s p v = elim (Option-cases s.zero) [
  | inl idle ↦ rw idle (λ e. cc)
  | inr (z, busy) ↦ rw busy (elim (Bool-cases (leb s.expected s.received)) [
    | inl enough ↦ rw enough (
        finish-some _ s.expected p (λ results g.
          consolidate-length s.contents s.expected [] results g
            (omega (arith, leb→le _ _ enough, v.counted))))
    | inr short ↦ rw short (λ e. cc)
  ])
]
