-- ===== src/Api/Rate/Register.antt =====
-- The limits of registrations by address (crates/refract-api/src/rate.rs, `AuthRateLimiter`). An
-- instant is its number of nanoseconds, read once for a call; the addresses are any type with a test
-- of equality.
pub mod Hourly
pub mod Attempts
use refract.Base.{
  ℕ, ◌+◌, ◌-◌, ◌*◌, ◌/◌, ◌^◌, min, max, List, [], Option, none, some, leb, if◌then◌else◌,
}
use refract.Base.Maps.{Eq, lookup, put, delete}

abbrev pub second : ℕ
second = 1000000000

abbrev pub hour : ℕ
hour = 3600

abbrev pub day : ℕ
day = 86400

-- How often an address came since the instant.
pub record Counted : Type 0 where
  pub count : ℕ
  pub since : ℕ

pub record AuthRateLimiter {ℓ} (K : Type ℓ) : Type ℓ where
  pub hourly : List (K × Counted)
  pub daily : List (K × Counted)

abbrev pub new_limiter {ℓ} : {K : Type ℓ} → AuthRateLimiter K
new_limiter = record { hourly = []; daily = [] }

-- The entry that a record starts from, in a window of the given seconds.
unfoldable pub open_count : Option Counted → ℕ → ℕ → Counted
open_count none window now = record { count = 0; since = now }
open_count (some c) window now =
    if leb (window * second) (now - c.since) then record { count = 0; since = now } else c

abbrev pub counted_once : Counted → Counted
counted_once c = record c { count = min (c.count + 1) (2 ^ 32 - 1) }

module _ {ℓ} {K : Type ℓ} ⦃e : Eq K⦄ where
  -- One window of `check_register`: the seconds to wait, if the limit is reached, and the map without
  -- an entry that has expired.
  unfoldable pub check_window : List (K × Counted) → K → ℕ → ℕ → ℕ → Option ℕ × List (K × Counted)
  check_window m ip window limit now =
      let dropped = delete ip m in
      elim (lookup ip m) [
        | none ↦ (none, m)
        | some c ↦
            if leb (window * second) (now - c.since)
            then (none, dropped)
            else if leb limit c.count
            then (some (max (window - (now - c.since) / second) 1), m)
            else (none, m)
      ]

  -- `AuthRateLimiter::check_register`.
  unfoldable pub check_register : AuthRateLimiter K → K → ℕ → Option ℕ × AuthRateLimiter K
  unfolding check_window
  check_register l ip now =
      let (wait, hourly') = check_window l.hourly ip hour 5 now in
      let (wait_day, daily') = check_window l.daily ip day 3 now in
      elim wait [
        | some w ↦ (some w, record l { hourly = hourly' })
        | none ↦ (wait_day, record { hourly = hourly'; daily = daily' })
      ]

  -- `AuthRateLimiter::record_register_attempt`.
  unfoldable pub record_register_attempt : AuthRateLimiter K → K → ℕ → AuthRateLimiter K
  unfolding open_count
  record_register_attempt l ip now = record l {
    hourly = put ip (counted_once (open_count (lookup ip l.hourly) hour now)) l.hourly;
  }

  -- `AuthRateLimiter::record_register_success`.
  unfoldable pub record_register_success : AuthRateLimiter K → K → ℕ → AuthRateLimiter K
  unfolding open_count
  record_register_success l ip now = record l {
    daily = put ip (counted_once (open_count (lookup ip l.daily) day now)) l.daily;
  }
