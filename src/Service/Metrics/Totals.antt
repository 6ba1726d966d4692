-- ===== src/Service/Metrics/Totals.antt =====
-- internal/n2kinternal/processing_metrics.go, `durationStats`: what its three numbers say of the durations.
use native.Mathlib.Nat.{mul-le-mul_left, le_of_mul-le-mul_left, div-mul-le_self}
use n2k.Prelude.{
  ℕ, ◌+◌, ◌*◌, ◌/◌, ◌^◌, ◌≤◌, ◌<◌, ◌≡◌, refl, inl, inr, List, [], ◌∷◌, ltb, ◌==◌, Bool-cases,
  length, arith, if◌then◌else◌, ltb→ge, u64,
}
use n2k.Service.Metrics.{DurationStats, no_stats, observe, avg}

pub observe_all : List ℕ → DurationStats → DurationStats
observe_all [] s = s
observe_all (d ∷ ds) s = observe_all ds (observe d s)

pub sum : List ℕ → ℕ
sum [] = 0
sum (d ∷ ds) = d + sum ds

pub maximum : List ℕ → ℕ
maximum [] = 0
maximum (d ∷ ds) = if ltb d (maximum ds) then maximum ds else d

sum-le : (ds : List ℕ) → sum ds ≤ length ds * maximum ds
unfolding sum maximum
sum-le [] = omega arith
sum-le (d ∷ ds) = elim (Bool-cases (ltb d (maximum ds))) [
  | inl e ↦ rw e (ground (arith, sum-le ds))
  | inr e ↦
      let wider = mul-le-mul_left (length ds) (ltb→ge d (maximum ds) e) in
      rw e (omega (arith, sum-le ds, wider))
]

-- What is observed on top of other durations.
observe_all_lem :
    (ds : List ℕ) (s : DurationStats)
    → s.count + length ds < 2 ^ 64
    → observe_all ds s ≡ record {
      count = s.count + length ds;
      total = s.total + sum ds;
      max = if ltb s.max (maximum ds) then maximum ds else s.max;
    }
unfolding observe_all sum maximum observe
observe_all_lem [] s small = ground arith
observe_all_lem (d ∷ ds) s small =
    let one : u64 (s.count + 1) ≡ s.count + 1 = omega (arith, small) in
    let later = observe_all_lem ds (observe d s) (rw one (omega (arith, small))) in
    rw (later, one) (ground arith)

window_lem :
    (ds : List ℕ)
    → length ds < 2 ^ 63
    → observe_all ds no_stats ≡ record { count = length ds; total = sum ds; max = maximum ds }
window_lem ds small = rw (observe_all_lem ds no_stats (omega (arith, small))) (ground arith)

avg-le :
    (n total max : ℕ) → total ≤ n * max → avg (record { count = n; total = total; max = max }) ≤ max
unfolding avg
avg-le n total max h = elim (Bool-cases (n == 0)) [
  | inl e ↦ rw e (omega arith)
  | inr e ↦
      let pos : 0 < n = ground arith in
      let quotient : total / n ≤ max =
        le_of_mul-le-mul_left {k = n} (omega (arith, div-mul-le_self total n)) pos in
      ground arith
]

-- Fewer than 2^63 durations that are observed from nothing on are counted and summed up, and their average is at
-- most the maximum that is kept, which is the greatest of them.
pub observe_all_window :
    (ds : List ℕ)
    → length ds < 2 ^ 63
    → let s = observe_all ds no_stats in
      (s.count ≡ length ds) × (s.total ≡ sum ds) × (s.max ≡ maximum ds) × (avg s ≤ s.max)
observe_all_window ds small =
    rw (window_lem ds small)
      (refl, refl, refl, avg-le (length ds) (sum ds) (maximum ds) (sum-le ds))
