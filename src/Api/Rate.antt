-- ===== src/Api/Rate.antt =====
-- The rate limits by key and by address (crates/refract-api/src/rate.rs). The clock is an argument.
pub mod Windows
pub mod Limit
pub mod Register
pub mod TtlCache
use refract.Base.{
  ℕ, ◌+◌, ◌-◌, ◌/◌, ◌%◌, ◌^◌, min, Bool, true, false, not, ◌&&◌, List, [], ◌∷◌, Option, none, some,
  ltb, leb, ◌==◌, if◌then◌else◌, length, Result, ok, err, ℤ, pos_part,
}
use refract.Base.Maps.{Eq, lookup, put, retain_entries}

pub record Window : Type 0 where
  pub minute : ℕ
  pub requests : ℕ
  pub tokens : ℕ

pub data RateDimension : Type 0 where
  of_requests of_tokens : RateDimension

pub record RateExceeded : Type 0 where
  pub dimension : RateDimension
  pub retry_after_secs : ℕ

abbrev pub global_window_key : ℕ
global_window_key = 0

abbrev pub max_windows : ℕ
max_windows = 10000

abbrev pub u64_max : ℕ
u64_max = 2 ^ 64 - 1

-- A limit that is not positive is none.
abbrev pub is_limit : ℤ → Bool
is_limit n = ltb 0 (pos_part n)

abbrev pub exceeded : RateDimension → ℕ → RateExceeded
exceeded d now = record { dimension = d; retry_after_secs = 60 - now % 60 }

-- The check of a window and the count of the request.
unfoldable pub admit_window : Window → ℤ → ℤ → ℕ → Result {0, 0} Unit RateExceeded × Window
admit_window w rpm tpm now =
    if is_limit rpm && leb (pos_part rpm) w.requests
    then (err (exceeded of_requests now), w)
    else if is_limit tpm && leb (pos_part tpm) w.tokens
    then (err (exceeded of_tokens now), w)
    else (ok tt, record w { requests = (w.requests + 1) % 2 ^ 64 })

-- The window of a key for a minute: a new one if there is none or if it is of another minute.
unfoldable pub open_window : Option Window → ℕ → Window
open_window none minute = record { minute = minute; requests = 0; tokens = 0 }
open_window (some w) minute =
    if w.minute == minute then w else record { minute = minute; requests = 0; tokens = 0 }

module _ {ℓ} {K : Type ℓ} ⦃e : Eq K⦄ where
  unfoldable pub prune_stale_windows : List (K × Window) → ℕ → List (K × Window)
  prune_stale_windows ws minute =
      if ltb max_windows (length ws) then retain_entries (λ k w. w.minute == minute) ws else ws

  -- `RateLimiter::admit_at`.
  unfoldable pub admit_at :
      List (K × Window) → K → ℤ → ℤ → ℕ → Result {0, 0} Unit RateExceeded × List (K × Window)
  unfolding prune_stale_windows open_window admit_window
  admit_at ws k rpm tpm now =
      let kept = prune_stale_windows ws (now / 60) in
      let (verdict, w) = admit_window (open_window (lookup k kept) (now / 60)) rpm tpm now in
      (verdict, put k w kept)

  -- `RateLimiter::admit`.
  unfoldable pub admit :
      List (K × Window) → K → ℤ → ℤ → ℕ → Result {0, 0} Unit RateExceeded × List (K × Window)
  unfolding admit_at
  admit ws k rpm tpm now =
      if not (is_limit rpm) && not (is_limit tpm) then (ok tt, ws) else admit_at ws k rpm tpm now

  unfoldable pub add_tokens_at : List (K × Window) → K → ℕ → ℕ → List (K × Window)
  unfolding prune_stale_windows open_window
  add_tokens_at ws k tokens now =
      let kept = prune_stale_windows ws (now / 60) in
      let w = open_window (lookup k kept) (now / 60) in
      put k (record w { tokens = min (w.tokens + tokens) u64_max }) kept

  -- `RateLimiter::add_tokens`.
  unfoldable pub add_tokens : List (K × Window) → K → ℕ → ℕ → List (K × Window)
  unfolding add_tokens_at
  add_tokens ws k tokens now = if tokens == 0 then ws else add_tokens_at ws k tokens now

-- The window of an address.
pub record IpWindow : Type 0 where
  pub minute : ℕ
  pub requests : ℕ

unfoldable pub open_ip_window : Option IpWindow → ℕ → IpWindow
open_ip_window none minute = record { minute = minute; requests = 0 }
open_ip_window (some w) minute =
    if w.minute == minute then w else record { minute = minute; requests = 0 }

unfoldable pub admit_ip_window : IpWindow → ℕ → ℕ → Result {0, 0} Unit RateExceeded × IpWindow
admit_ip_window w rpm now =
    if leb rpm w.requests
    then (err (exceeded of_requests now), w)
    else (ok tt, record w { requests = (w.requests + 1) % 2 ^ 64 })

module _ {ℓ} {K : Type ℓ} ⦃e : Eq K⦄ where
  prune_ip : List (K × IpWindow) → ℕ → List (K × IpWindow)
  prune_ip ws minute =
      if ltb 10000 (length ws) then retain_entries (λ k w. w.minute == minute) ws else ws

  -- `IpRateLimiter::admit`.
  unfoldable pub admit_ip :
      List (K × IpWindow) → K → ℕ → ℕ → Result {0, 0} Unit RateExceeded × List (K × IpWindow)
  unfolding prune_ip open_ip_window admit_ip_window
  admit_ip ws ip rpm now =
      if rpm == 0
      then (ok tt, ws)
      else let kept = prune_ip ws (now / 60) in
        let (verdict, w) = admit_ip_window (open_ip_window (lookup ip kept) (now / 60)) rpm now in
        (verdict, put ip w kept)
