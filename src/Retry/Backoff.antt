-- ===== src/Retry/Backoff.antt =====
-- `delay_before_attempt_ms` of src/retry.rs against the formula of its comment, on unbounded
-- numbers.
use data_spark.Prelude.{
  ℕ, zero, suc, ◌+◌, ◌-◌, ◌*◌, ◌^◌, ◌≤◌, min, ◌≡◌, arith, u32_max, u64_max, ◌⊎◌, inl, inr, ◌∙◌,
  saturating_mul, saturating_pow,
}
use native.Mathlib.Nat.{le_trans, pow-le-pow_right, mul-le-mul_left}
use data_spark.Retry.{RetryPolicy, delay_before_attempt_ms}

-- min(initial_delay_ms * 2^(n-2), max_delay_ms)
abbrev pub backoff : RetryPolicy → ℕ → ℕ
backoff policy n = min (policy.initial_delay_ms * 2 ^ (n - 2)) policy.max_delay_ms

clamp_saturated :
    (a i m : ℕ) → m ≤ u64_max → min (min (min a u64_max * i) u64_max) m ≡ min (i * a) m
clamp_saturated a zero m h = omega arith
clamp_saturated a (suc i) m h = grind arith

both_saturated :
    (a b i m : ℕ) → m ≤ u64_max → u64_max ≤ a → u64_max ≤ b → min (i * a) m ≡ min (i * b) m
both_saturated a b zero m h p q = omega arith
both_saturated a b (suc i) m h p q = grind arith

saturates : (d : ℕ) → 64 ≤ d → u64_max ≤ 2 ^ d
saturates d h = le_trans (omega arith) (pow-le-pow_right {n = 2} (omega arith) {i = 64} {j = d} h)

-- The exponent is cut only where both powers are saturated already.
cut_exponent :
    (d e i m : ℕ)
    → m ≤ u64_max
    → (d ≡ e) ⊎ ((64 ≤ d) × (64 ≤ e))
    → min (saturating_mul (saturating_pow 2 d) i) m ≡ min (i * 2 ^ e) m
cut_exponent d e i m h (inl p) = rw (← p) (clamp_saturated (2 ^ d) i m h)
cut_exponent d e i m h (inr (p, q)) =
    clamp_saturated (2 ^ d) i m h
    ∙ both_saturated (2 ^ d) (2 ^ e) i m h (saturates d p) (saturates e q)

exponent_cases : (e : ℕ) → (min e u32_max ≡ e) ⊎ ((64 ≤ min e u32_max) × (64 ≤ e))
exponent_cases e = grind arith

-- For a policy whose cap is a `u64`, the wait before attempt n is exactly
-- min(initial_delay_ms * 2^(n-2), max_delay_ms) over unbounded numbers: neither the saturating
-- arithmetic nor the cut of the exponent to a `u32` ever shows.
pub delay-eq-backoff :
    (policy : RetryPolicy) (n : ℕ)
    → policy.max_delay_ms ≤ u64_max
    → delay_before_attempt_ms policy n ≡ backoff policy n
unfolding delay_before_attempt_ms
delay-eq-backoff policy n h =
    cut_exponent (min (n - 2) u32_max) (n - 2) policy.initial_delay_ms policy.max_delay_ms h
      (exponent_cases (n - 2))

-- For a policy whose cap is a `u64`, the waits never shrink from one attempt to the next, and stay
-- within the cap.
delay_monotone :
    (policy : RetryPolicy) (n : ℕ)
    → policy.max_delay_ms ≤ u64_max
    → (delay_before_attempt_ms policy n ≤ delay_before_attempt_ms policy (n + 1))
      × (delay_before_attempt_ms policy n ≤ policy.max_delay_ms)
delay_monotone policy n h =
    rw (delay-eq-backoff policy n h, delay-eq-backoff policy (n + 1) h) (min_mono, omega arith)
  where
    grows : policy.initial_delay_ms * 2 ^ (n - 2) ≤ policy.initial_delay_ms * 2 ^ (n + 1 - 2)
    grows =
        mul-le-mul_left policy.initial_delay_ms
          (pow-le-pow_right {n = 2} (omega arith) {i = n - 2} {j = n + 1 - 2} (omega arith))

    min_mono : backoff policy n ≤ backoff policy (n + 1)
    min_mono = omega (arith, grows)
