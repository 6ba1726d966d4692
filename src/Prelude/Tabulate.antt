-- ===== src/Prelude/Tabulate.antt =====
-- Arrays given by a function of the index.
use Prim.Native.Nat.{ℕ, zero, suc, ◌+◌, ◌≤◌, ◌<◌}
use mathlib.Core.Path.{◌≡◌, refl, sym, ap, ap₂}
use mathlib.Core.Logic.{◌≢◌}
use mathlib.Core.List.{List, [], ◌∷◌}
use mathlib.Core.Option.{some}
use native.Mathlib.Omega.{arith}
use n2k.Prelude.Lists.{length, get_elem?, set, replicate}

module _ {ℓ} {A : Type ℓ} where
  -- `f i, f (i + 1), …`, `n` of them.
  abbrev pub tabulate : (ℕ → A) → ℕ → ℕ → List A
  tabulate f i zero = []
  tabulate f i (suc n) = f i ∷ tabulate f (i + 1) n

module _ {ℓ} {A : Type ℓ} where
  pub tabulate_ext :
      (f g : ℕ → A) (n i : ℕ)
      → ((j : ℕ) → i ≤ j → j < i + n → f j ≡ g j)
      → tabulate f i n ≡ tabulate g i n
  tabulate_ext f g zero i h = refl
  tabulate_ext f g (suc n) i h =
      ap₂ ◌∷◌ (h i (omega arith) (omega arith))
        (tabulate_ext f g n (i + 1) (λ j p q. h j (omega arith) (omega arith)))

  pub length-tabulate : (f : ℕ → A) (i n : ℕ) → length (tabulate f i n) ≡ n
  length-tabulate f i zero = refl
  length-tabulate f i (suc n) = ap suc (length-tabulate f (i + 1) n)

  pub get_elem?-tabulate :
      (f : ℕ → A) (n i k : ℕ) → k < n → get_elem? (tabulate f i n) k ≡ some (f (i + k))
  get_elem?-tabulate f zero i k h = elim h [ ]
  get_elem?-tabulate f (suc n) i zero h = ap (λ t. some (f t)) (omega arith)
  get_elem?-tabulate f (suc n) i (suc k) h =
      rw (get_elem?-tabulate f n (i + 1) k (omega arith)) (ap (λ t. some (f t)) (omega arith))

  -- A write to one place is a change of the function there.
  pub set-tabulate :
      (f g : ℕ → A) (n i k : ℕ)
      → ((j : ℕ) → j ≢ i + k → g j ≡ f j)
      → set (tabulate f i n) k (g (i + k)) ≡ tabulate g i n
  set-tabulate f g zero i k h = refl
  set-tabulate f g (suc n) i zero h =
      ap₂ ◌∷◌ (ap g (omega arith)) (tabulate_ext f g n (i + 1) (λ j p q. sym (h j (omega arith))))
  set-tabulate f g (suc n) i (suc k) h =
      let place : i + suc k ≡ i + 1 + k = omega arith in
      rw place (
        ap₂ ◌∷◌ (sym (h i (omega arith))) (set-tabulate f g n (i + 1) k (λ j p. h j (omega arith))))

  pub replicate-tabulate : (a : A) (i n : ℕ) → replicate n a ≡ tabulate (λ _. a) i n
  replicate-tabulate a i zero = refl
  replicate-tabulate a i (suc n) = ap (λ r. a ∷ r) (replicate-tabulate a (i + 1) n)
