-- ===== src/Adapter/Sequence.antt =====
-- internal/adapter/canadapter/sequence.go: one fast packet while its frames come in.
pub mod Slots
pub mod Invariant
pub mod Progress
pub mod Complete
mod Tests
use n2k.Prelude.{
  ℕ, ◌+◌, Bool, true, false, List, [], ◌∷◌, ◌++◌, Option, none, some, leb, ◌==◌, if◌then◌else◌,
  length, get_elem?, set, replicate, map, u8,
}
use n2k.Prelude.Fault.{◌>>=◌, slice_from, slice_to}
use n2k.Packet.{Packet, sparse_data}

abbrev pub max_frame_num : ℕ
max_frame_num = 31

-- A slot of `contents` is `none` where Go has a nil slice.
pub record Sequence : Type 0 where
  pub zero : Option Packet
  pub expected : ℕ
  pub received : ℕ
  pub contents : List (Option (List ℕ))

-- `&sequence{}`, with its array of 32 nil slices.
abbrev pub new_sequence : Sequence
new_sequence = record {
  zero = none;
  expected = 0;
  received = 0;
  contents = replicate (max_frame_num + 1) none;
}

unfoldable pub reset : Sequence → Sequence
reset s = record { zero = none; expected = 0; received = 0; contents = map (λ _. none) s.contents }

-- Frame 0: a sequence that already has one starts anew.
unfoldable pub add_zero : Sequence → Packet → Option Sequence
unfolding reset
add_zero s p = do
  let fresh : Sequence = elim s.zero [ some _ ↦ reset s | none ↦ s ]
  total ← get_elem? p.payload 1
  rest ← slice_from 2 p.payload
  _ ← get_elem? fresh.contents p.frame_num
  some (record {
    zero = some p;
    expected = total;
    received = u8 (fresh.received + 6);
    contents = set fresh.contents p.frame_num (some rest);
  })

-- A later frame: only after frame 0, and only once.
unfoldable pub add_next : Sequence → Packet → Option Sequence
unfolding reset
add_next s p = elim s.zero [
  | none ↦ some (reset s)
  | some _ ↦ elim (get_elem? s.contents p.frame_num) [
    | none ↦ none
    | some (some _) ↦ some (reset s)
    | some none ↦ do
      rest ← slice_from 1 p.payload
      some (record s {
        received = u8 (s.received + 7);
        contents = set s.contents p.frame_num (some rest);
      })
  ]
]

unfoldable pub add : Sequence → Packet → Option Sequence
unfolding add_zero add_next
add s p = if p.frame_num == 0 then add_zero s p else add_next s p

pub data Gathered : Type 0 where
  sparse : Gathered
  gathered : List ℕ → Gathered

-- The loop of `complete` over the slots, with the bytes joined so far.
unfoldable pub consolidate : List (Option (List ℕ)) → ℕ → List ℕ → Gathered
consolidate [] expected results = gathered results
consolidate (none ∷ slots) expected results = sparse
consolidate (some d ∷ slots) expected results =
    let rest = consolidate slots expected (results ++ d) in
    if leb expected (length (results ++ d)) then gathered (results ++ d) else rest

-- What `complete` does with the bytes: `none` is a slice past the end of them.
unfoldable pub finish : Gathered → ℕ → Packet → Option (Bool × Packet)
finish sparse expected p =
    some (true, record p { parse_errors = p.parse_errors ++ (sparse_data ∷ []) })
finish (gathered results) expected p = do
  payload ← slice_to expected results
  some (true, record p { payload = payload; complete = true })

unfoldable pub complete : Sequence → Packet → Option (Bool × Packet)
unfolding consolidate finish
complete s p = elim s.zero [
  | none ↦ some (false, record p { complete = false })
  | some _ ↦
      if leb s.expected s.received
      then finish (consolidate s.contents s.expected []) s.expected p
      else some (false, record p { complete = false })
]
