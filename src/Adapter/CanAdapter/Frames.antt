-- ===== src/Adapter/CanAdapter/Frames.antt =====
-- internal/adapter/canadapter/canadapter.go, `sendFast`: the frames that its loops build.
use n2k.Prelude.{
  ℕ, zero, suc, ◌+◌, ◌*◌, ◌%◌, ◌^◌, ◌≤◌, ◌<◌, ◌≡◌, refl, sym, ap, ap₂, ◌∙◌, bit_or, List, [], ◌∷◌,
  ◌++◌, append_assoc, append-nil, arith, leb, if◌then◌else◌, length, length-set, get_or, set, take,
  take_all, ne→==, le→leb, gt→leb,
}
use n2k.Prelude.Bits.{bit_or_low}
use n2k.Prelude.Tabulate.{tabulate}
use n2k.Converter.{Frame}
use n2k.Adapter.Window.{window, before, chunk}
use n2k.Adapter.CanAdapter.{fill, start_frame, build_frames}

take-set {ℓ} :
    {A : Type ℓ} (xs : List A) (i : ℕ) (v : A)
    → i < length xs
    → take (suc i) (set xs i v) ≡ take i xs ++ (v ∷ [])
take-set [] i v h = elim h [ ]
take-set (x ∷ xs) zero v h = refl
take-set (x ∷ xs) (suc i) v h = ap (λ r. x ∷ r) (take-set xs i v (omega arith))

-- Past the end of the payload a frame carries 0xFF.
padded_byte :
    (d : List ℕ) (i : ℕ) → (if leb (length d) i then 0xFF else get_or d i 0) ≡ get_or d i 0xFF
padded_byte [] i = rw (le→leb 0 i (omega arith))
padded_byte (x ∷ d) zero = rw (gt→leb (suc (length d)) 0 (omega arith))
padded_byte (x ∷ d) (suc i) = ground (arith, padded_byte d i)

-- The inner loop fills the rest of the buffer with the next bytes of the payload.
fill_lem :
    (d : List ℕ) (rounds offset index : ℕ) (buffer : List ℕ)
    → length buffer ≡ offset + rounds
    → fill d rounds offset index buffer
      ≡ (take offset buffer ++ window d index rounds, index + rounds)
unfolding fill
fill_lem d zero offset index buffer h =
    ap₂ (λ a b. (a, b)) (sym (append-nil _ ∙ take_all offset buffer (omega arith))) (omega arith)
fill_lem d (suc rounds) offset index buffer h = rw (padded_byte d index) (
    fill_lem d rounds (offset + 1) (index + 1) (set buffer offset (get_or d index 0xFF))
      (omega (arith, length-set buffer offset (get_or d index 0xFF)))
    ∙ ap₂ (λ a b. (a, b)) bytes (omega arith))
  where
    place : offset + 1 ≡ suc offset
    place = omega arith

    bytes :
        take (offset + 1) (set buffer offset (get_or d index 0xFF)) ++ window d (index + 1) rounds
        ≡ take offset buffer ++ window d index (suc rounds)
    bytes =
        rw (place, take-set buffer offset (get_or d index 0xFF) (omega arith))
          (append_assoc (take offset buffer) (get_or d index 0xFF ∷ [])
            (window d (index + 1) rounds))

-- The bytes of frame `k`: its number, the length of the payload in frame 0, and its chunk.
abbrev pub frame_bytes : ℕ → List ℕ → ℕ → List ℕ
frame_bytes seq_id d zero = (seq_id * 32) ∷ length d ∷ chunk d 0
frame_bytes seq_id d (suc k) = (seq_id * 32 + suc k) ∷ chunk d (suc k)

abbrev pub frame_of : ℕ → ℕ → List ℕ → ℕ → Frame
frame_of seq_id can_id d k = record { id = can_id; length = 8; bytes = frame_bytes seq_id d k }

pub length-frame_bytes : (seq_id : ℕ) (d : List ℕ) (k : ℕ) → length (frame_bytes seq_id d k) ≡ 8
length-frame_bytes seq_id d zero = refl
length-frame_bytes seq_id d (suc k) = refl

header :
    (seq_id k : ℕ)
    → seq_id < 8
    → k < 32
    → bit_or (seq_id * 2 ^ 5 % 2 ^ 8) (k % 2 ^ 8) ≡ seq_id * 32 + k
header seq_id k hs hk =
    let fits : seq_id * 2 ^ 5 % 2 ^ 8 ≡ seq_id * 2 ^ 5 = omega arith in
    let small : k % 2 ^ 8 ≡ k = omega arith in rw (fits, small, bit_or_low 5 seq_id k hk)

module _ (seq_id can_id : ℕ) (d : List ℕ) (seq_fits : seq_id < 8) (fits : length d < 256) where
  -- One round of the outer loop builds one frame.
  build_step :
      (left k : ℕ) (buffer : List ℕ)
      → length buffer ≡ 8
      → k < 32
      → build_frames seq_id can_id d (suc left) k (before k) buffer
        ≡ frame_of seq_id can_id d k
          ∷ build_frames seq_id can_id d left (k + 1) (before (suc k)) (frame_bytes seq_id d k)
  unfolding build_frames start_frame
  build_step left zero (x ∷ y ∷ buffer) h small =
      let mark : bit_or (seq_id * 2 ^ 5 % 2 ^ 8) 0 ≡ seq_id * 32 =
        header seq_id 0 seq_fits (omega arith) ∙ omega arith in
      let size : length d % 2 ^ 8 ≡ length d = omega arith in
      rw (mark, size, fill_lem d 6 2 0 ((seq_id * 32) ∷ length d ∷ buffer) h)
  build_step left (suc k) (x ∷ buffer) h small =
      let next : 7 * k + 6 + 7 ≡ 7 * suc k + 6 = omega arith in
      rw (
        ne→== (suc k) 0 (λ e. absurd (omega arith)),
        header seq_id (suc k) seq_fits small,
        fill_lem d 7 1 (7 * k + 6) ((seq_id * 32 + suc k) ∷ buffer) (omega arith),
        next,
      )
  build_step left k buffer h small = absurd (omega arith)

  pub build_frames_lem :
      (left k : ℕ) (buffer : List ℕ)
      → length buffer ≡ 8
      → k + left ≤ 32
      → build_frames seq_id can_id d left k (before k) buffer
        ≡ tabulate (frame_of seq_id can_id d) k left
  build_frames_lem zero k buffer h small = unfold build_frames in refl
  build_frames_lem (suc left) k buffer h small =
      let place : k + 1 ≡ suc k = omega arith in
      build_step left k buffer h (omega arith)
      ∙ rw place (
          ap (λ r. frame_of seq_id can_id d k ∷ r)
            (build_frames_lem left (suc k) (frame_bytes seq_id d k) (length-frame_bytes seq_id d k)
              (omega arith)))
