-- ===== src/Converter/Raw/Frames.antt =====
-- internal/converter/converter.go, CanFrameFromRaw: a payload of more than eight bytes in several frames.
use n2k.Prelude.{
  ℕ, zero, suc, ◌+◌, ◌-◌, ◌*◌, ◌%◌, ◌^◌, ◌≤◌, ◌<◌, ◌≡◌, refl, sym, ◌∙◌, ap, ap₂, ◌⊎◌, inl, inr,
  true, false, List, [], ◌∷◌, ◌++◌, map, append-nil, append_assoc, ltb, ◌==◌, Bool-cases, ge→ltb,
  gt→leb, All, Bytes, arith, length, take, drop, replicate, length-append, length-take, length-drop,
  length-replicate, take-append, take-append-drop, take_all, min, u8, u32, bit_and, bit_or,
}
use n2k.Prelude.Bits.{bit_and_mask, bit_or_low}
use n2k.Prelude.Results.{ok}
use n2k.Converter.{Frame, can_id_from_data}
use n2k.Converter.Raw.{
  print_hex, parse_bytes, data_of, add_frame, more_frames, fast_frames, frames_of,
}
use n2k.Converter.Raw.Line.{IsByte, parse_bytes-map, length-map}

-- The payload bytes of the frames after frame 0, and of a whole sequence of frames.
pub later_bytes : List Frame → List ℕ
later_bytes [] = []
later_bytes (f ∷ fs) = drop 1 f.bytes ++ later_bytes fs

pub payload_bytes : List Frame → List ℕ
payload_bytes [] = []
payload_bytes (f ∷ fs) = drop 2 f.bytes ++ later_bytes fs

-- Frames of eight bytes with this identifier.
abbrev pub Uniform : ℕ → List Frame → Type 0
Uniform id = All (λ f. (f.id ≡ id) × (f.length ≡ 8) × (length f.bytes ≡ 8))

map-drop : (n : ℕ) (bs : List ℕ) → drop n (map print_hex bs) ≡ map print_hex (drop n bs)
map-drop zero bs = refl
map-drop (suc n) [] = refl
map-drop (suc n) (b ∷ bs) = map-drop n bs

All-drop : (n : ℕ) (bs : List ℕ) → All IsByte bs → All IsByte (drop n bs)
All-drop zero bs h = h
All-drop (suc n) [] h = tt
All-drop (suc n) (b ∷ bs) h = All-drop n bs h.1

take_prefix : (n : ℕ) (xs ys : List ℕ) → n ≡ length xs → take n (xs ++ ys) ≡ xs
take_prefix n xs ys h = rw h (take-append xs ys)

take_past : (xs ys : List ℕ) (n : ℕ) → take (length xs + n) (xs ++ ys) ≡ xs ++ take n ys
take_past [] ys n = ap (λ (k : ℕ). take k ys) (omega arith)
take_past (x ∷ xs) ys n =
    let next : suc (length xs) + n ≡ suc (length xs + n) = omega arith in
    ap (λ (k : ℕ). take k (x ∷ xs ++ ys)) next ∙ ap (λ r. x ∷ r) (take_past xs ys n)

-- What a step carries, and what the rest carries, are the bytes.
carried :
    (bs zeros rest : List ℕ) (c : ℕ)
    → (length bs ≤ c) ⊎ (zeros ≡ [])
    → take (length (drop c bs)) rest ≡ drop c bs
    → take (length bs) ((take c bs ++ zeros) ++ rest) ≡ bs
carried bs zeros rest c (inl s) e =
    ap (λ xs. take (length bs) ((xs ++ zeros) ++ rest)) (take_all c bs s)
    ∙ ap (take (length bs)) (append_assoc bs zeros rest)
    ∙ take-append bs (zeros ++ rest)
carried bs zeros rest c (inr s) e =
    let size : length bs ≡ length (take c bs) + length (drop c bs) =
      omega (arith, length-take c bs, length-drop c bs) in
    ap (λ zs. take (length bs) ((take c bs ++ zs) ++ rest)) s
    ∙ ap₂ (λ (n : ℕ) xs. take n (xs ++ rest)) size (append-nil (take c bs))
    ∙ take_past (take c bs) rest (length (drop c bs))
    ∙ ap (λ xs. take c bs ++ xs) e
    ∙ take-append-drop c bs

-- The frames are numbered from `k` on, in five bits.
pub Numbered : ℕ → List Frame → Type 0
Numbered k [] = Unit {0}
Numbered k (f ∷ fs) = (take 1 f.bytes ≡ (k % 32) ∷ []) × Numbered (k + 1) fs

number_lem : (k : ℕ) → bit_or 0 (bit_and k 0x1F) ≡ k % 32
number_lem k =
    let mask : bit_and k 0x1F ≡ k % 32 = bit_and_mask 5 k in
    bit_or_low 5 0 (bit_and k 0x1F) (omega (arith, mask)) ∙ omega (arith, mask)

pub record Carries (id k : ℕ) (bs : List ℕ) (fs : List Frame) : Type 0 where
  pub payload : take (length bs) (later_bytes fs) ≡ bs
  pub uniform : Uniform id fs
  pub numbered : Numbered k fs
  pub enough : length bs ≤ 7 * length fs
  pub few : 7 * length fs < length bs + 7

eight_bytes : (bs : List ℕ) → length bs ≤ 8 → length (data_of bs) ≡ 8
eight_bytes bs h = omega (
  arith,
  length-append bs (replicate (8 - length bs) 0),
  length-replicate {A = ℕ} (8 - length bs) 0,
  h,
)

no_zeros : (k : ℕ) → k ≡ 0 → replicate {A = ℕ} k 0 ≡ []
no_zeros k e = ap (λ (j : ℕ). replicate {A = ℕ} j 0) e

module _ (id : ℕ) where
  more_step :
      (fuel k remaining index : ℕ) (elems : List Bytes) (bs : List ℕ) (fs : List Frame)
      → (remaining == 0) ≡ false
      → parse_bytes index (min 7 remaining) elems ≡ ok bs
      → more_frames fuel id
          (u8 (k + 1))
          (remaining - min 7 remaining)
          (index + min 7 remaining)
          (drop (min 7 remaining) elems)
        ≡ ok fs
      → more_frames (suc fuel) id k remaining index elems
        ≡ ok (record { id = id; length = 8; bytes = data_of (bit_or 0 (bit_and k 0x1F) ∷ bs) } ∷ fs)
  unfolding more_frames add_frame
  more_step fuel k remaining index elems bs fs z p q = simp (more_frames, add_frame, z, p, q)

  more_none : (fuel k index : ℕ) → more_frames fuel id k 0 index [] ≡ ok []
  unfolding more_frames
  more_none zero k index = refl
  more_none (suc fuel) k index = refl

  abbrev later_frame : ℕ → List ℕ → Frame
  later_frame k bs = record {
    id = id;
    length = 8;
    bytes = data_of (bit_or 0 (bit_and k 0x1F) ∷ bs);
  }

  -- One frame more at the front.
  carries_lem :
      (k c : ℕ) (bs : List ℕ) (fs : List Frame)
      → c ≡ min 7 (length bs)
      → 0 < length bs
      → Carries id (k + 1) (drop c bs) fs
      → Carries id k bs (later_frame k (take c bs) ∷ fs)
  unfolding later_bytes Numbered
  carries_lem k c bs fs e some_bytes rest =
      let here = length-take c bs in
      let behind = length-drop c bs in
      let zeros : List ℕ = replicate (8 - suc (length (take c bs))) 0 in
      let behind_last : (length bs ≤ c) ⊎ (zeros ≡ []) = elim (Bool-cases (ltb 7 (length bs))) [
        | inl h ↦ inr (no_zeros (8 - suc (length (take c bs))) (ground (arith, e, here)))
        | inr h ↦ inl (ground (arith, e))
      ] in
      record {
        payload = carried bs zeros (later_bytes fs) c behind_last rest.payload;
        uniform = (
          (
            refl,
            refl,
            eight_bytes (bit_or 0 (bit_and k 0x1F) ∷ take c bs) (omega (arith, e, here)),
          ),
          rest.uniform,
        );
        numbered = (ap (λ (n : ℕ). n ∷ []) (number_lem k), rest.numbered);
        enough = omega (arith, e, behind, rest.enough);
        few = omega (arith, e, behind, rest.few);
      }

  more_lem :
      (fuel k index : ℕ) (bs : List ℕ)
      → length bs ≤ fuel
      → k + length bs < 256
      → All IsByte bs
      → (fs : List Frame) × (more_frames fuel id k (length bs) index (map print_hex bs) ≡ ok fs)
        × Carries id k bs fs
  unfolding later_bytes Numbered
  more_lem fuel k index [] s small h = (
    [],
    more_none fuel k index,
    record { payload = refl; uniform = tt; numbered = tt; enough = omega arith; few = omega arith },
  )
  more_lem zero k index (b ∷ bs) s small h = absurd (omega arith)
  more_lem (suc fuel) k index (b ∷ bs) s small h =
      let all = b ∷ bs in
      let c = min 7 (length all) in
      let size = length-drop c all in
      let (fs, runs, rest) =
        more_lem fuel (k + 1) (index + c) (drop c all) (omega (arith, size)) (omega (arith, size))
          (All-drop c all h) in
      let next : u8 (k + 1) ≡ k + 1 = omega arith in
      let runs' : more_frames fuel id (u8 (k + 1)) (length all - c) (index + c)
            (drop c (map print_hex all))
          ≡ ok fs =
        ap
          (λ (v : ℕ).
            more_frames fuel id v (length all - c) (index + c) (drop c (map print_hex all)))
          next
        ∙ ap₂ (λ (n : ℕ) es. more_frames fuel id (k + 1) n (index + c) es) (sym size)
            (map-drop c all)
        ∙ runs in
      let counted : length (map print_hex all) ≡ length all = length-map print_hex all in
      (
        later_frame k (take c all) ∷ fs,
        more_step fuel k (length all) index (map print_hex all) (take c all) fs (ground arith)
            (parse_bytes-map index c all h) runs',
        carries_lem k c all fs refl (omega arith) rest,
      )

  -- Frame 0 with the length and six bytes, before the others.
  fast_frames_lem :
      (bs : List ℕ)
      → 8 < length bs
      → length bs < 256
      → All IsByte bs
      → (fs : List Frame) × (fast_frames id (length bs) (map print_hex bs) ≡ ok fs)
        × (take (length bs) (payload_bytes fs) ≡ bs)
        × Uniform id fs
        × Numbered 0 fs
        × (7 * length fs < length bs + 8)
        × (length bs + 1 ≤ 7 * length fs)
  unfolding fast_frames payload_bytes Numbered
  fast_frames_lem bs long small h =
      let size = length-drop 6 bs in
      let here : length (take 6 bs) ≡ 6 = omega (arith, length-take 6 bs) in
      let (fs, runs, rest) =
        more_lem (length bs - 6) 1 12 (drop 6 bs) (omega (arith, size)) (omega (arith, size))
          (All-drop 6 bs h) in
      let runs' : more_frames (length bs - 6) id 1 (length bs - 6) 12 (drop 6 (map print_hex bs))
          ≡ ok fs =
        ap₂ (λ (n : ℕ) es. more_frames (length bs - 6) id 1 n 12 es) (sym size) (map-drop 6 bs)
        ∙ runs in
      let six : min 6 (length bs) ≡ 6 = omega arith in
      let fits : u8 (length bs) ≡ length bs = omega arith in
      let filled = no_zeros (8 - suc (suc (length (take 6 bs)))) (omega (arith, here)) in
      (
        record { id = id; length = 8; bytes = data_of (0 ∷ length bs ∷ take 6 bs) } ∷ fs,
        simp (fast_frames, six, parse_bytes-map 0 6 bs h, runs', fits),
        carried bs _ (later_bytes fs) 6 (inr filled) rest.payload,
        ((refl, refl, eight_bytes (0 ∷ length bs ∷ take 6 bs) (omega (arith, here))), rest.uniform),
        (refl, rest.numbered),
        omega (arith, size, rest.few),
        omega (arith, size, rest.enough),
      )

-- A line of more than eight data bytes, at most 255, becomes frames of eight bytes with its identifier that are
-- numbered in five bits from 0 on, and of which frame 0 holds two bytes and the others one before the payload:
-- their payload bytes, one after the other, begin with the data bytes, and there are no more frames than these need.
pub frames_of_fast :
    (p g s d : ℕ) (bs : List ℕ)
    → p < 256
    → g < 2 ^ 32
    → s < 256
    → d < 256
    → 8 < length bs
    → length bs < 256
    → All IsByte bs
    → (fs : List Frame) × (frames_of p g s d (length bs) (map print_hex bs) ≡ ok fs)
      × (take (length bs) (payload_bytes fs) ≡ bs)
      × Uniform (can_id_from_data g s p d) fs
      × Numbered 0 fs
      × (7 * length fs < length bs + 8)
      × (length bs + 1 ≤ 7 * length fs)
unfolding frames_of
frames_of_fast p g s d bs hp hg hs hd long small h =
    let fp : u8 p ≡ p = omega arith in
    let fg : u32 g ≡ g = omega arith in
    let fs' : u8 s ≡ s = omega arith in
    let fd : u8 d ≡ d = omega arith in
    let there : ltb (length (map print_hex bs)) (length bs) ≡ false =
      ge→ltb (length (map print_hex bs)) (length bs) (omega (arith, length-map print_hex bs)) in
    let (fs, runs, carry, uniform, numbered, few, enough) =
      fast_frames_lem (can_id_from_data g s p d) bs long small h in
    (
      fs,
      simp (frames_of, there, gt→leb (length bs) 8 long, fp, fg, fs', fd, runs),
      carry,
      uniform,
      numbered,
      few,
      enough,
    )

-- The loop over the consecutive frames ends: for any elements of the line, more rounds than bytes that are left
-- change nothing, whether it succeeds or fails.
pub more_frames_ends :
    (f g id frame_num remaining index : ℕ) (elems : List Bytes)
    → remaining ≤ f
    → remaining ≤ g
    → more_frames f id frame_num remaining index elems
      ≡ more_frames g id frame_num remaining index elems
unfolding more_frames
more_frames_ends zero zero id k remaining index elems p q = refl
more_frames_ends zero (suc g) id k remaining index elems p q =
    let none_left : (remaining == 0) ≡ true = ground arith in simp (more_frames, none_left)
more_frames_ends (suc f) zero id k remaining index elems p q =
    let none_left : (remaining == 0) ≡ true = ground arith in simp (more_frames, none_left)
more_frames_ends (suc f) (suc g) id k remaining index elems p q =
    elim (Bool-cases (remaining == 0)) [
      | inl e ↦ simp (more_frames, e)
      | inr e ↦
          let left : 0 < remaining = ground arith in
          let n = min 7 remaining in
          let rest =
            more_frames_ends f g id (u8 (k + 1)) (remaining - n) (index + n) (drop n elems)
              (omega (arith, left)) (omega (arith, left)) in
          rw e (ap (add_frame id k (parse_bytes index n elems)) rest)
    ]
