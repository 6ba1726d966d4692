-- ===== src/Adapter/Window.antt =====
-- internal/adapter/canadapter: the bytes of a payload as its frames carry them, with 0xFF behind
-- the end.
use n2k.Prelude.{
  ℕ, zero, suc, ◌+◌, ◌*◌, ◌≤◌, ◌<◌, ◌≡◌, refl, ap, ap₂, ◌∙◌, List, [], ◌∷◌, ◌++◌, arith, length,
  get_or, take,
}
use n2k.Prelude.Tabulate.{tabulate}

pub tabulate-append {ℓ} :
    {A : Type ℓ} (f : ℕ → A) (m n i : ℕ)
    → tabulate f i m ++ tabulate f (i + m) n ≡ tabulate f i (m + n)
tabulate-append f zero n i = ap₂ (λ a b. tabulate f a b) (omega arith) (omega arith)
tabulate-append f (suc m) n i =
    let place : i + suc m ≡ i + 1 + m = omega arith in
    let size : suc m + n ≡ suc (m + n) = omega arith in
    rw (place, size) (ap (λ r. f i ∷ r) (tabulate-append f m n (i + 1)))

take-tabulate :
    (d : List ℕ) (f : ℕ → ℕ) (i n : ℕ)
    → length d ≤ n
    → ((j : ℕ) → j < length d → f (i + j) ≡ get_or d j 0xFF)
    → take (length d) (tabulate f i n) ≡ d
take-tabulate [] f i n h e = refl
take-tabulate (x ∷ d) f i zero h e = absurd (omega arith)
take-tabulate (x ∷ d) f i (suc n) h e = ap₂ ◌∷◌ (ap f (omega arith) ∙ e 0 (omega arith)) (
    take-tabulate d f (i + 1) n (omega arith) (λ j p. ap f (omega arith) ∙ e (suc j) (omega arith)))

-- `n` bytes of the payload from `i` on.
abbrev pub window : List ℕ → ℕ → ℕ → List ℕ
window d i n = tabulate (λ j. get_or d j 0xFF) i n

pub take-window : (d : List ℕ) (n : ℕ) → length d ≤ n → take (length d) (window d 0 n) ≡ d
take-window d n h = take-tabulate d _ 0 n h (λ j p. ap (λ t. get_or d t 0xFF) (omega arith))

-- The bytes that the frames before frame `k` carry: frame 0 carries six and each later one seven.
abbrev pub before : ℕ → ℕ
before zero = 0
before (suc k) = 7 * k + 6

-- The bytes that frame `k` carries.
abbrev pub chunk : List ℕ → ℕ → List ℕ
chunk d zero = window d 0 6
chunk d (suc k) = window d (7 * k + 6) 7

pub window-chunk :
    (d : List ℕ) (k : ℕ) → window d 0 (before k) ++ chunk d k ≡ window d 0 (before (suc k))
window-chunk d zero = refl
window-chunk d (suc k) =
    ap (λ t. window d 0 (7 * k + 6) ++ window d t 7) {x = 7 * k + 6} (omega arith)
    ∙ tabulate-append (λ j. get_or d j 0xFF) (7 * k + 6) 7 0
    ∙ ap (window d 0) (omega arith)
