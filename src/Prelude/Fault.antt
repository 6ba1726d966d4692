-- ===== src/Prelude/Fault.antt =====
-- Code that may panic, as an `Option`: `none` is a Go panic, such as an index out of range.
use Prim.Native.Nat.{ℕ}
use mathlib.Core.List.{List}
use mathlib.Core.Path.{◌≡◌, refl, ap}
use mathlib.Core.Bool.{Bool, true, false}
use n2k.Prelude.Maps.{or_else}
use mathlib.Core.Option.{Option, none, some}
use n2k.Prelude.Lists.{length, take, drop}
use n2k.Prelude.Tests.{leb, if◌then◌else◌}

infixl 5 ◌>>=◌
abbrev pub ◌>>=◌ {ℓ κ} : {A : Type ℓ} {B : Type κ} → Option A → (A → Option B) → Option B
none >>= f = none
some a >>= f = f a

-- `xs[n:]` and `xs[:n]`.
abbrev pub slice_from {ℓ} : {A : Type ℓ} → ℕ → List A → Option (List A)
slice_from n xs = if leb n (length xs) then some (drop n xs) else none

abbrev pub slice_to {ℓ} : {A : Type ℓ} → ℕ → List A → Option (List A)
slice_to n xs = if leb n (length xs) then some (take n xs) else none

-- A run that does not panic got a value from its first part.
pub bind_inv {ℓ κ} :
    {A : Type ℓ} {B : Type κ} (o : Option A) (f : A → Option B) (b : B)
    → (o >>= f) ≡ some b
    → (a : A) × (o ≡ some a) × (f a ≡ some b)
bind_inv none f b e = absurd cc
bind_inv (some a) f b e = (a, refl, e)

pub some_inj {ℓ} : {A : Type ℓ} {a b : A} → some a ≡ some b → a ≡ b
some_inj {a} e = ap (or_else a) e

-- What a test let through.
pub if_some {ℓ} : {A : Type ℓ} (t : Bool) (a b : A) → (if t then some a else none) ≡ some b → a ≡ b
if_some true a b e = some_inj e
if_some false a b e = absurd cc
