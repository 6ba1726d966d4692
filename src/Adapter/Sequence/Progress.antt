-- ===== src/Adapter/Sequence/Progress.antt =====
-- internal/adapter/canadapter/sequence.go: a sequence while the frames of one payload come in, frame
-- 0 first and the others in any order.
use n2k.Prelude.{
  ℕ, ◌+◌, ◌*◌, ◌≤◌, ◌<◌, ◌≡◌, ◌≢◌, refl, sym, ap, ◌∙◌, inl, inr, Bool, false, ◌||◌, List, [], ◌∷◌,
  Option, none, some, arith, ◌==◌, if◌then◌else◌, Option-cases, length, get_elem?, get_or, set,
  drop, replicate, ne→==, ==_refl,
}
use n2k.Prelude.Tabulate.{tabulate, get_elem?-tabulate, set-tabulate}
use n2k.Packet.{Packet}
use n2k.Adapter.Sequence.{Sequence, add}
use n2k.Adapter.Sequence.Invariant.{
  IsValid, add-zero, add-new, started, grown, started-IsValid, grown-IsValid,
}
use n2k.Adapter.CanAdapter.{calc_frames_required}
use n2k.Adapter.Window.{chunk}

abbrev pub contains : List ℕ → ℕ → Bool
contains [] k = false
contains (x ∷ xs) k = x == k || contains xs k

-- The slots once frame 0 and the frames of `order` have come.
abbrev pub slot_of : List ℕ → List ℕ → ℕ → Option (List ℕ)
slot_of d order i = if i == 0 || contains order i then some (chunk d i) else none

-- A packet that is frame `k` of the payload `d`.
pub record IsFrame (d : List ℕ) (k : ℕ) (p : Packet) : Type 0 where
  pub eight : length p.payload ≡ 8
  pub number : p.frame_num ≡ k
  pub total : k ≡ 0 → get_or p.payload 1 0 ≡ length d
  pub first : k ≡ 0 → drop 2 p.payload ≡ chunk d 0
  pub later : k ≢ 0 → drop 1 p.payload ≡ chunk d k

pub record Progress (d order : List ℕ) (s : Sequence) : Type 0 where
  pub is_valid : IsValid s
  pub begun : s.zero ≢ none
  pub total : s.expected ≡ length d
  pub count : s.received ≡ 6 + 7 * length order
  pub slots : s.contents ≡ tabulate (slot_of d order) 0 32

-- The frames needed are just enough for the payload.
pub calc_frames_required_lem :
    (n : ℕ)
    → (n ≤ 7 * calc_frames_required n + 6) × ((k : ℕ) → k < calc_frames_required n → 7 * k + 6 < n)
unfolding calc_frames_required
calc_frames_required_lem n = (ground arith, λ k h. ground arith)

module _ (d : List ℕ) where
  -- Frame 0 begins, whatever the sequence held.
  pub add-Progress_zero :
      (s : Sequence) (p : Packet)
      → IsValid s
      → IsFrame d 0 p
      → (s' : Sequence) × (add s p ≡ some s') × Progress d [] s'
  add-Progress_zero s p v f = (
    started p,
    add-zero s p v f.eight f.number,
    record {
      is_valid = started-IsValid p f.eight;
      begun = λ h. cc;
      total = f.total refl;
      count = refl;
      slots = ap (λ c. some c ∷ replicate 31 none) (f.first refl);
    },
  )

  -- Each new later frame is one step.
  pub add-Progress_next :
      (s : Sequence) (p : Packet) (order : List ℕ) (k : ℕ)
      → Progress d order s
      → IsFrame d k p
      → k ≢ 0
      → k < 32
      → contains order k ≡ false
      → (s' : Sequence) × (add s p ≡ some s') × Progress d (k ∷ order) s'
  add-Progress_next s p order k pr f later small new = elim (Option-cases s.zero) [
    | inl idle ↦ absurd (pr.begun idle)
    | inr (z, busy) ↦ (
      grown s p,
      add-new s p pr.is_valid f.eight not_zero busy free,
      record {
        is_valid = grown-IsValid s p pr.is_valid f.eight not_zero busy free;
        begun = pr.begun;
        total = pr.total;
        count = omega (arith, pr.count);
        slots = rw (f.number, f.later later, pr.slots) filled;
      },
    )
  ]
    where
      not_zero : p.frame_num ≢ 0
      not_zero e = later (sym f.number ∙ e)

      slot_free : slot_of d order (0 + k) ≡ none
      slot_free = let place : 0 + k ≡ k = omega arith in rw (place, ne→== k 0 later, new)

      free : get_elem? s.contents p.frame_num ≡ some none
      free =
          rw (f.number, pr.slots, get_elem?-tabulate (slot_of d order) 32 0 k small)
            (ap some slot_free)

      here : slot_of d (k ∷ order) (0 + k) ≡ some (chunk d k)
      here = let place : 0 + k ≡ k = omega arith in rw (place, ne→== k 0 later, ==_refl k)

      apart : (j : ℕ) → j ≢ 0 + k → slot_of d (k ∷ order) j ≡ slot_of d order j
      apart j ne = rw (ne→== k j (λ e. ne (omega arith)))

      filled :
          set (tabulate (slot_of d order) 0 32) k (some (chunk d k))
          ≡ tabulate (slot_of d (k ∷ order)) 0 32
      filled =
          ap (set (tabulate (slot_of d order) 0 32) k) (sym here)
          ∙ set-tabulate (slot_of d order) (slot_of d (k ∷ order)) 32 0 k apart
