-- ===== src/Pgn/Tests.antt =====
-- Runs of internal/pgn/pgn.go.
use n2k.Prelude.{◌≡◌, refl, true, false}
use n2k.Pgn.{fast_pgn_bits, is_fast}

gnss_is_fast : is_fast 129029 ≡ true
unfolding is_fast fast_pgn_bits
gnss_is_fast = refl

depth_is_single : is_fast 128267 ≡ false
unfolding is_fast fast_pgn_bits
depth_is_single = refl

-- A group of the proprietary fast-packet range that the table does not know is a single frame.
unknown_proprietary_is_single : is_fast 131071 ≡ false
unfolding is_fast fast_pgn_bits
unknown_proprietary_is_single = refl
