-- ===== src/Store/Health/Cooldown.antt =====
-- The length of a suspension (crates/refract-store/src/health_repo.rs).
use native.Mathlib.Nat.{
  mul-le-mul, pow-le-pow_right, one-le-pow, le-mul_of_pos_right, mul-le-mul_left as mul-le-mul_l,
}
use refract.Base.{ℕ, ◌-◌, ◌*◌, ◌^◌, ◌≤◌, ◌<◌, min, ◌≡◌, arith, ◌⊎◌, ◌↔◌, ok}
use refract.Store.Health.{BreakerPolicy, validate_breaker, cooldown_for}

-- What the administration can set.
abbrev pub BreakerIsValid : BreakerPolicy → Type 0
BreakerIsValid p =
    (p.failure_threshold ≤ 1000)
    × (1 ≤ p.base_cooldown_secs)
    × (p.base_cooldown_secs ≤ p.max_cooldown_secs)
    × (p.max_cooldown_secs ≤ 86400)

-- The check of the parameters passes exactly the policies within the bounds.
pub validate_breaker_iff : (p : BreakerPolicy) → (validate_breaker p ≡ ok tt) ↔ BreakerIsValid p
unfolding validate_breaker
validate_breaker_iff p = ground arith

-- The cooldown before the policy's limit.
abbrev pub doubled : BreakerPolicy → ℕ → ℕ
doubled p n = p.base_cooldown_secs * 2 ^ min (n - p.failure_threshold) 16

factor_bound : (n : ℕ) → 2 ^ min n 16 ≤ 2 ^ 16
factor_bound n = pow-le-pow_right (omega arith) {j = 16} (omega arith)

factor_mono : (m n : ℕ) → m ≤ n → 2 ^ min m 16 ≤ 2 ^ min n 16
factor_mono m n h = pow-le-pow_right (omega arith) (omega arith)

factor_positive : (n : ℕ) → 1 ≤ 2 ^ min n 16
factor_positive n = one-le-pow (min n 16) 2 (omega arith)

doubled_bound : (p : BreakerPolicy) (n : ℕ) → BreakerIsValid p → doubled p n ≤ 86400 * 2 ^ 16
doubled_bound p n v = mul-le-mul {n₂ = 86400} (omega arith) (factor_bound (n - p.failure_threshold))

doubled_base : (p : BreakerPolicy) (n : ℕ) → p.base_cooldown_secs ≤ doubled p n
doubled_base p n =
    le-mul_of_pos_right p.base_cooldown_secs (factor_positive (n - p.failure_threshold))

doubled_mono : (p : BreakerPolicy) (m n : ℕ) → m ≤ n → doubled p m ≤ doubled p n
doubled_mono p m n h =
    mul-le-mul_l p.base_cooldown_secs
      (factor_mono (m - p.failure_threshold) (n - p.failure_threshold) (omega arith))

-- With a valid policy there is no suspension below the threshold, nor when the breaker is off. From the threshold
-- on, the base time doubles with each further failure, sixteen times at most, up to the limit,
-- and the multiplication does not overflow; the time lies between the base and the limit.
pub cooldown_for_lem :
    (p : BreakerPolicy) (n : ℕ)
    → BreakerIsValid p
    → (((p.failure_threshold ≡ 0) ⊎ (n < p.failure_threshold)) × (cooldown_for p n ≡ 0))
      ⊎ ((0 < p.failure_threshold)
          × (p.failure_threshold ≤ n)
          × (cooldown_for p n ≡ min (doubled p n) p.max_cooldown_secs)
          × (p.base_cooldown_secs ≤ cooldown_for p n)
          × (cooldown_for p n ≤ p.max_cooldown_secs))
unfolding cooldown_for
cooldown_for_lem p n v = ground (arith, doubled_bound p n v, doubled_base p n)

-- More failures never shorten the suspension.
cooldown_for_mono : (p : BreakerPolicy) (m n : ℕ) → m ≤ n → cooldown_for p m ≤ cooldown_for p n
unfolding cooldown_for
cooldown_for_mono p m n h = ground (arith, doubled_mono p m n h)
