-- ===== src/Api/Rate/Register/Hourly.antt =====
-- What the calls of the limiter of registrations do to the hourly entry of an address
-- (crates/refract-api/src/rate.rs, `AuthRateLimiter`).
use refract.Base.{
  ℕ, ◌+◌, ◌-◌, ◌*◌, ◌≤◌, ◌<◌, ◌≡◌, arith, List, Option, none, some, if◌then◌else◌, leb, refl,
  Bool-cases, ap, ◌∙◌, inl, inr,
}
use refract.Base.Maps.{Eq, lookup, lookup-put, lookup-delete}
use refract.Api.Rate.Register.{
  second, hour, Counted, AuthRateLimiter, open_count, counted_once, check_window, check_register,
  record_register_attempt, record_register_success,
}

-- What an entry leaves open before the end.
abbrev pub open_slots : Option Counted → ℕ → ℕ
open_slots none end = 5
open_slots (some c) end = if leb end (c.since + hour * second) then 5 - c.count else 5 - c.count + 5

-- The entry is of the past, and has counted.
abbrev pub IsKept : Option Counted → ℕ → Type 0
IsKept none now = Unit
IsKept (some c) now = (c.since ≤ now) × (1 ≤ c.count)

pub IsKept-later :
    (o : Option Counted) (now later : ℕ) → now ≤ later → IsKept o now → IsKept o later
IsKept-later none now later l h = tt
IsKept-later (some c) now later l h = (omega arith, h.1)

pub open_slots-le : (o : Option Counted) (end now : ℕ) → IsKept o now → open_slots o end ≤ 9
open_slots-le none end now h = omega arith
open_slots-le (some c) end now h = ground arith

-- What a look leaves of an entry.
abbrev pub still : Option Counted → ℕ → Option Counted
still none now = none
still (some c) now = if leb (hour * second) (now - c.since) then none else some c

-- What an attempt makes of an entry.
abbrev pub counted : Option Counted → ℕ → Option Counted
counted o now = some (counted_once (open_count o hour now))

-- The limit is not reached.
abbrev pub IsOpen : Option Counted → ℕ → Type 0
IsOpen none now = Unit
IsOpen (some c) now = c.count < 5

pub still-slots :
    (o : Option Counted) (now end : ℕ)
    → now < end
    → end ≤ now + hour * second
    → IsKept o now
    → (open_slots (still o now) end ≤ open_slots o end) × IsKept (still o now) now
still-slots none now end a b h = (omega arith, tt)
still-slots (some c) now end a b h = ground arith

pub counted-slots :
    (o : Option Counted) (now end : ℕ)
    → now < end
    → end ≤ now + hour * second
    → IsKept o now
    → IsOpen (still o now) now
    → (1 + open_slots (counted (still o now) now) end ≤ open_slots o end)
      × IsKept (counted (still o now) now) now
unfolding open_count
counted-slots none now end a b h n = ground arith
counted-slots (some c) now end a b h n = ground arith

module _ {ℓ} {K : Type ℓ} ⦃e : Eq K⦄ where
  window-lookup :
      (m : List (K × Counted)) (ip k : K) (now : ℕ)
      → lookup k (check_window m ip hour 5 now).1
        ≡ (if e.beq ip k then still (lookup k m) now else lookup k m)
  unfolding check_window
  window-lookup m ip k now = elim (Bool-cases (e.beq ip k)) [
    | inl q ↦ let same = (e.beq_iff ip k).0 q in ground (arith, lookup-delete ip k m)
    | inr q ↦ ground (arith, lookup-delete ip k m)
  ]

  pub window-IsOpen :
      (m : List (K × Counted)) (ip : K) (now : ℕ)
      → (check_window m ip hour 5 now).0 ≡ none
      → IsOpen (still (lookup ip m) now) now
  unfolding check_window
  window-IsOpen m ip now h = ground arith

  check-hourly :
      (l : AuthRateLimiter K) (ip : K) (now : ℕ)
      → (check_register l ip now).1.hourly ≡ (check_window l.hourly ip hour 5 now).1
  unfolding check_register
  check-hourly l ip now = ground arith

  pub check-IsOpen :
      (l : AuthRateLimiter K) (ip : K) (now : ℕ)
      → (check_register l ip now).0 ≡ none
      → (check_window l.hourly ip hour 5 now).0 ≡ none
  unfolding check_register
  check-IsOpen l ip now h = ground arith

  pub attempt-lookup :
      (l : AuthRateLimiter K) (ip k : K) (now : ℕ)
      → lookup k (record_register_attempt l ip now).hourly
        ≡ (if e.beq ip k then counted (lookup ip l.hourly) now else lookup k l.hourly)
  unfolding record_register_attempt
  attempt-lookup l ip k now = lookup-put ip k _ l.hourly

  pub checked-lookup :
      (l : AuthRateLimiter K) (ip k : K) (now : ℕ)
      → lookup k (check_register l ip now).1.hourly
        ≡ (if e.beq ip k then still (lookup k l.hourly) now else lookup k l.hourly)
  checked-lookup l ip k now =
      ap (lookup k) (check-hourly l ip now) ∙ window-lookup l.hourly ip k now

  pub success-hourly :
      (l : AuthRateLimiter K) (ip : K) (now : ℕ)
      → (record_register_success l ip now).hourly ≡ l.hourly
  unfolding record_register_success
  success-hourly l ip now = refl
