-- ===== src/Prelude/Strings.antt =====
-- Go's strings, as lists of bytes, and their equality.
use Prim.Native.Nat.{ℕ}
use mathlib.Core.Path.{◌≡◌, refl, ap₂}
use mathlib.Core.Bool.{Bool, true, false, ◌&&◌}
use mathlib.Core.List.{List, [], ◌∷◌}
use native.Mathlib.Omega.{arith}
use n2k.Prelude.Tests.{◌==◌, ==_iff, ==_refl}

abbrev pub Bytes : Type 0
Bytes = List ℕ

abbrev pub bytes_eq : Bytes → Bytes → Bool
bytes_eq [] [] = true
bytes_eq [] (b ∷ bs) = false
bytes_eq (a ∷ r) [] = false
bytes_eq (a ∷ r) (b ∷ bs) = a == b && bytes_eq r bs

pub bytes_eq_refl : (a : Bytes) → bytes_eq a a ≡ true
bytes_eq_refl [] = refl
bytes_eq_refl (a ∷ r) = rw (==_refl a, bytes_eq_refl r)

pub bytes_eq-path : (a b : Bytes) → bytes_eq a b ≡ true → a ≡ b
bytes_eq-path [] [] h = refl
bytes_eq-path [] (b ∷ q) h = cc
bytes_eq-path (a ∷ r) [] h = cc
bytes_eq-path (a ∷ r) (b ∷ q) h =
    ap₂ ◌∷◌ ((==_iff a b).0 (ground arith)) (bytes_eq-path r q (ground arith))
