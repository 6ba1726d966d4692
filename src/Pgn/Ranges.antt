-- ===== src/Pgn/Ranges.antt =====
-- internal/pgn/pgn.go: where fast and proprietary parameter groups lie.
use n2k.Prelude.{ℕ, ◌/◌, ◌%◌, ◌≤◌, ◌<◌, ◌≡◌, ◌↔◌, ◌⊎◌, refl, true, arith, length}
use n2k.Pgn.{fast_pgn_bits, is_fast, is_proprietary_pgn}

length-fast_pgn_bits : length fast_pgn_bits ≡ 608
unfolding fast_pgn_bits
length-fast_pgn_bits = refl

-- A fast group lies in the range of the table, 126208 to 131071: all others are single frames.
pub is_fast_range : (pgn : ℕ) → is_fast pgn ≡ true → (126208 ≤ pgn) × (pgn < 131072)
unfolding is_fast
is_fast_range pgn h = ground (arith, length-fast_pgn_bits)

-- A group is proprietary exactly when its data page is 0 or 1 and its PDU format is 239 or 255.
pub is_proprietary_pgn_iff :
    (pgn : ℕ)
    → (is_proprietary_pgn pgn ≡ true)
      ↔ ((pgn / 65536 ≤ 1) × ((pgn / 256 % 256 ≡ 0xEF) ⊎ (pgn / 256 % 256 ≡ 0xFF)))
unfolding is_proprietary_pgn
is_proprietary_pgn_iff pgn = ground arith
