-- ===== src/Examples/Health.antt =====
-- The breaker's theorems at a concrete history.
use refract.Base.{ℕ, ◌∷◌, [], List, ◌≡◌, refl, ◌<◌, ◌≤◌, none, some, arith, min, ◌⊎◌, Option}
use refract.Core.Protocol.{chat}
use refract.Store.Health.{
  HealthRepo, Key, default_breaker, cooldown_for, record_failure, record_success,
}
use refract.Store.Health.Cache.{IsCoherent}
use refract.Store.Health.Cooldown.{BreakerIsValid, cooldown_for_lem, doubled}
use refract.Store.Health.Runs.{
  run_ops, run_ops-IsCoherent, empty_repo, Op, succeeded, failed, asked, restarted, lifted,
}
use refract.Store.Health.Suspension.{IsSuspendedAt, failures-trip, fail_all, Failure}

abbrev key : Key
key = (1, chat)

abbrev exact : ℕ → Option ℕ
exact n = some n

abbrev new_repo : HealthRepo
new_repo = empty_repo default_breaker

abbrev history : List (ℕ × Op)
history =
    (5, failed 1 key "timeout" (some 40))
    ∷ (10, asked key)
    ∷ (3, restarted)
    ∷ (2, succeeded key 120)
    ∷ (1, lifted key)
    ∷ []

abbrev four_failures : List Failure
four_failures =
    (10, 10, "a", none) ∷ (11, 11, "b", none) ∷ (12, 12, "c", none) ∷ (13, 13, "d", none) ∷ []

default_BreakerIsValid : BreakerIsValid default_breaker
default_BreakerIsValid = (omega arith, omega arith, omega arith, omega arith)

run_ops-IsCoherent_example :
    IsCoherent (run_ops exact 0 new_repo history).0 (run_ops exact 0 new_repo history).1
run_ops-IsCoherent_example = run_ops-IsCoherent exact default_breaker history

failures-trip_example :
    IsSuspendedAt 40
      (record_failure exact 14 15
        (fail_all exact (record_success 0 new_repo key 80).1 key four_failures)
        key
        "e"
        none).1
      key
failures-trip_example =
    failures-trip exact 0 80 new_repo key four_failures 14 15 40 "e" none default_BreakerIsValid
      (omega arith) (omega arith) (omega arith) (omega arith) (omega arith) (omega arith)

cooldown_for_example :
    (((default_breaker.failure_threshold ≡ 0) ⊎ (7 < 5)) × (cooldown_for default_breaker 7 ≡ 0))
    ⊎ ((0 < 5)
        × (5 ≤ 7)
        × (cooldown_for default_breaker 7 ≡ min (doubled default_breaker 7) 900)
        × (30 ≤ cooldown_for default_breaker 7)
        × (cooldown_for default_breaker 7 ≤ 900))
cooldown_for_example = cooldown_for_lem default_breaker 7 default_BreakerIsValid

seven_failures : cooldown_for default_breaker 7 ≡ 120
unfolding cooldown_for
seven_failures = refl
