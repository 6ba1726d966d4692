-- ===== src/DataStream/Lau.antt =====
-- internal/pgn/readdatastream.go and pkg/pgn/stringlau.go: a string that is encoded and decoded.
use n2k.Prelude.Bits.{bit_and_mask}
use n2k.Prelude.{
  ◌++◌, ge→ltb, gt→leb, ==_iff, ltb→lt, ltb→ge, append-nil, ℕ, zero, suc, ◌+◌, ◌-◌, ◌*◌, ◌/◌, ◌^◌,
  ◌≤◌, ◌<◌, ◌≡◌, refl, sym, ap, ◌∙◌, bit_and, false, List, [], ◌∷◌, ltb, leb, length, get_or, drop,
  u8, u16, Bytes, arith, inl, inr, ◌⊎◌, Bool-cases,
}
use n2k.Prelude.Results.{ok, err}
use n2k.DataStream.{DataStream, Outcome, new_data_stream}
use n2k.DataStream.Binary.{
  read_bytes, read_binary_data, trim_ascii_terminator, read_string_lau, decode_string_lau,
  encode_string_lau,
}

drop_cons :
    (i x : ℕ) (xs ys : Bytes) → drop i xs ≡ x ∷ ys → (get_or xs i 0 ≡ x) × (drop (suc i) xs ≡ ys)
drop_cons zero x [] ys e = cc
drop_cons zero x (z ∷ xs) ys e = ground (arith, e)
drop_cons (suc i) x [] ys e = cc
drop_cons (suc i) x (z ∷ xs) ys e = drop_cons i x xs ys e

abbrev pub at : DataStream → ℕ → DataStream
at s i = record s { byte_offset = i }

read_bytes_lem :
    (s : DataStream) (bs rest : Bytes) (i : ℕ)
    → drop i s.bytes ≡ bs ++ rest
    → i + length bs < 2 ^ 16
    → read_bytes (length bs) (at s i) ≡ (bs, at s (i + length bs))
read_bytes_lem s [] rest i e small = ap (λ (j : ℕ). ([], at s j)) (omega arith)
read_bytes_lem s (b ∷ bs) rest i e small =
    let (here, below) = drop_cons i b s.bytes (bs ++ rest) e in
    let next : u16 (i + 1) ≡ i + 1 = omega (arith, small) in
    let one : i + 1 ≡ suc i = omega arith in
    let below' : drop (i + 1) s.bytes ≡ bs ++ rest = ap (λ (j : ℕ). drop j s.bytes) one ∙ below in
    let later = read_bytes_lem s bs rest (i + 1) below' (omega (arith, small)) in
    let end : i + 1 + length bs ≡ i + suc (length bs) = omega arith in
    rw (here, next, later, end) refl

-- The bytes from an aligned cursor on, which are there.
pub read_binary_data_lem :
    (s : DataStream) (bs rest : Bytes) (i n : ℕ)
    → drop i s.bytes ≡ bs ++ rest
    → s.bit_offset ≡ 0
    → i + length bs ≤ length s.bytes
    → i + length bs < 2 ^ 16
    → n ≡ length bs * 8
    → read_binary_data n (at s i) ≡ Outcome.ok bs (at s (i + length bs))
unfolding read_binary_data
read_binary_data_lem s bs rest i n e aligned there small width =
    let count : (n + 7) / 8 ≡ length bs = omega (arith, width) in
    let whole : bit_and n 7 ≡ 0 = bit_and_mask 3 n ∙ omega (arith, width) in
    simp
      (
        count,
        whole,
        (==_iff s.bit_offset 0).1 aligned,
        ge→ltb (length s.bytes) (i + length bs) there,
        read_bytes_lem s bs rest i e small,
      )
      refl

decode_empty :
    (utf16 : List ℕ → Bytes)
    → decode_string_lau utf16 (2 ∷ 1 ∷ []) ≡ Outcome.ok [] (at (new_data_stream (2 ∷ 1 ∷ [])) 2)
unfolding decode_string_lau read_string_lau read_binary_data
decode_empty utf16 = refl

decode_lem :
    (utf16 : List ℕ → Bytes) (v : Bytes)
    → length v ≤ 253
    → (s : DataStream) × (decode_string_lau utf16 (u8 (length v + 2) ∷ 1 ∷ v)
        ≡ Outcome.ok (trim_ascii_terminator v) s)
unfolding decode_string_lau read_string_lau
decode_lem utf16 [] short = (_, decode_empty utf16)
decode_lem utf16 (x ∷ xs) short =
    let v = x ∷ xs in
    let s = new_data_stream (u8 (length v + 2) ∷ 1 ∷ v) in
    let header =
      read_binary_data_lem s (u8 (length v + 2) ∷ 1 ∷ []) v 0 16 refl refl (omega arith)
        (omega arith) refl in
    let text =
      read_binary_data_lem s v [] 2 (u16 ((u8 (length v + 2) - 2) * 8)) (sym (append-nil v)) refl
        (omega arith) (omega (arith, short)) (omega (arith, short)) in
    let there : leb (u8 (length v + 2)) 2 ≡ false =
      gt→leb (u8 (length v + 2)) 2 (omega (arith, short)) in
    (at s (2 + length v), rw (header, there, text) refl)

-- A string of at most 253 bytes is encoded, and decodes to itself without a zero byte at its end;
-- a longer one is refused.
pub decode_string_lau-encode_string_lau :
    (utf16 : List ℕ → Bytes) (v : Bytes)
    → ((e : Bytes) × (s : DataStream) × (encode_string_lau v ≡ ok e)
        × (decode_string_lau utf16 e ≡ Outcome.ok (trim_ascii_terminator v) s))
      ⊎ ((encode_string_lau v ≡ err (length v)) × (253 < length v))
unfolding encode_string_lau
decode_string_lau-encode_string_lau utf16 v = elim (Bool-cases (ltb 253 (length v))) [
  | inl long ↦ inr (rw long refl, ltb→lt 253 (length v) long)
  | inr short ↦
      let (s, decoded) = decode_lem utf16 v (ltb→ge 253 (length v) short) in
      inl (_, s, rw short refl, decoded)
]
