-- ===== src/Endpoint/SocketCan/Retry.antt =====
-- pkg/endpoint/socketcanendpoint/socketcanendpoint.go, `socketCANRetryPolicy`: how long a frame waits before it
-- is written again.
use n2k.Prelude.{
  ℕ, zero, suc, ◌*◌, ◌^◌, ◌≤◌, ◌≡◌, ap, ◌∙◌, min, arith, leb, leb→le, leb→gt, ◌-◌, Bool-cases, inl,
  inr,
}
use n2k.Prelude.Pow.{pow_pos}
use native.Mathlib.Nat.{pow-suc}
use n2k.Converter.{Frame}
use n2k.Endpoint.SocketCan.{retry_policy, delay_loop, delay, is_low_priority}

-- The delay doubles until it is the largest.
delay_loop_lem : (n most d : ℕ) → d ≤ most → delay_loop n most d ≡ min (d * 2 ^ n) most
unfolding delay_loop
delay_loop_lem zero most d small = omega (arith, small)
delay_loop_lem (suc n) most d small = elim (Bool-cases (leb most (d * 2))) [
  | inl far ↦ rw far (
      let more : 2 ^ n ≡ suc (2 ^ n - 1) = omega (arith, pow_pos n) in
      omega (
        arith,
        leb→le most (d * 2) far,
        ap (λ (t : ℕ). d * t) (pow-suc 2 n),
        ap (λ (t : ℕ). d * t) more,
      ))
  | inr near ↦ rw near (
      delay_loop_lem n most (d * 2) (omega (arith, leb→gt most (d * 2) near))
      ∙ ap (λ (t : ℕ). min t most) (omega (arith, ap (λ (t : ℕ). d * t) (pow-suc 2 n))))
]

policy_lem : (f : Frame) → (retry_policy f).initial_delay ≤ (retry_policy f).max_delay
unfolding retry_policy
policy_lem f = elim (Bool-cases (is_low_priority f)) [
  | inl low ↦ rw low (omega arith)
  | inr high ↦ rw high (omega arith)
]

-- The attempts of a frame are counted from 0: the delay after attempt `n` has found the buffer full, before the
-- frame is written again or put back in its queue for attempt `n + 1`, is the first of its policy times 2 ^ n, or
-- the policy's largest where that is less; it is never less than the first, nor more than the largest.
pub delay_lem :
    (f : Frame) (n : ℕ)
    → (delay (retry_policy f) n
        ≡ min ((retry_policy f).initial_delay * 2 ^ n) (retry_policy f).max_delay)
      × ((retry_policy f).initial_delay ≤ delay (retry_policy f) n)
      × (delay (retry_policy f) n ≤ (retry_policy f).max_delay)
delay_lem f n =
    let p = retry_policy f in
    let e = delay_loop_lem n p.max_delay p.initial_delay (policy_lem f) in
    let more : 2 ^ n ≡ suc (2 ^ n - 1) = omega (arith, pow_pos n) in
    (e, omega (arith, e, policy_lem f, ap (λ (t : ℕ). p.initial_delay * t) more), omega (arith, e))
