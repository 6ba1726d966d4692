-- ===== src/Prelude/Maps.antt =====
-- Go's maps over numbers, as functions, and the tests on optional values.
use Prim.Native.Nat.{ℕ}
use mathlib.Core.Bool.{Bool, true, false}
use mathlib.Core.Option.{Option, none, some}
use n2k.Prelude.Tests.{◌==◌, if◌then◌else◌}

abbrev pub Map {ℓ} : Type ℓ → Type ℓ
Map A = ℕ → Option A

-- `m[k] = v`, or `delete(m, k)` for `none`.
abbrev pub put {ℓ} : {A : Type ℓ} → ℕ → Option A → Map A → Map A
put k v m j = if j == k then v else m j

abbrev pub is_some {ℓ} : {A : Type ℓ} → Option A → Bool
is_some none = false
is_some (some a) = true

-- The value, or `d` for `nil` or a key that is not there.
abbrev pub or_else {ℓ} : {A : Type ℓ} → A → Option A → A
or_else d none = d
or_else d (some a) = a
