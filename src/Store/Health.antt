-- ===== src/Store/Health.antt =====
-- The health of the endpoints and their circuit breaker (crates/refract-store/src/health_repo.rs). The table
-- `channel_health` is a map from channel and protocol to its columns; a time is a number of seconds,
-- and each reading of the clock is an argument.
pub mod Cooldown
pub mod Cache
pub mod Runs
pub mod Suspension
use refract.Base.{
  ℕ, ◌+◌, ◌-◌, ◌*◌, ◌/◌, ◌%◌, ◌^◌, min, max, Bool, true, false, ◌||◌, List, [], ◌∷◌, Option, none,
  some, String, ltb, leb, ◌==◌, if◌then◌else◌, is_some, trim, char_count, take_chars, Result, ok,
  err,
}
use mathlib.Core.Option
use refract.Base.Maps.{lookup, put, delete, nat_eq, pair_eq, Eq}
use refract.Core.Protocol.{Protocol, protocol_eq}
use refract.Core.Protocol.Names.{protocol_eq_iff}

instance abbrev pub protocol_key : Eq Protocol
protocol_key = record { beq = protocol_eq; beq_iff = protocol_eq_iff }

abbrev pub Key : Type 0
Key = ℕ × Protocol

-- A row of the table, as `EndpointHealth` shows it.
pub record EndpointHealth : Type 0 where
  pub consecutive_fails : ℕ
  pub total_requests : ℕ
  pub total_failures : ℕ
  pub last_success_at : Option ℕ
  pub last_failure_at : Option ℕ
  pub last_error : Option String
  pub suspended_until : Option ℕ
  pub avg_latency_ms : ℕ

-- `EndpointHealth::is_suspended_at`.
unfoldable pub is_suspended_at : EndpointHealth → ℕ → Bool
is_suspended_at h now = elim h.suspended_until [ none ↦ false | some until ↦ ltb now until ]

pub record BreakerPolicy : Type 0 where
  pub failure_threshold : ℕ
  pub base_cooldown_secs : ℕ
  pub max_cooldown_secs : ℕ

abbrev pub default_breaker : BreakerPolicy
default_breaker = record { failure_threshold = 5; base_cooldown_secs = 30; max_cooldown_secs = 900 }

abbrev pub max_failure_threshold : ℕ
max_failure_threshold = 1000

abbrev pub max_cooldown_limit : ℕ
max_cooldown_limit = 86400

pub data BreakerError : Type 0 where
  bad_threshold bad_base bad_max : BreakerError

-- `BreakerPolicy::validate`, with an error for each message.
unfoldable pub validate_breaker : BreakerPolicy → Result {0, 0} Unit BreakerError
validate_breaker p =
    if ltb max_failure_threshold p.failure_threshold
    then err bad_threshold
    else if p.base_cooldown_secs == 0 || ltb max_cooldown_limit p.base_cooldown_secs
    then err bad_base
    else if ltb p.max_cooldown_secs p.base_cooldown_secs
        || ltb max_cooldown_limit p.max_cooldown_secs
    then err bad_max
    else ok tt

abbrev pub u64_max : ℕ
u64_max = 2 ^ 64 - 1

-- `BreakerPolicy::cooldown_for`, in seconds.
unfoldable pub cooldown_for : BreakerPolicy → ℕ → ℕ
cooldown_for p fails =
    if p.failure_threshold == 0 || ltb fails p.failure_threshold
    then 0
    else min (min (p.base_cooldown_secs * 2 ^ min (fails - p.failure_threshold) 16) u64_max)
        p.max_cooldown_secs

abbrev pub max_error_len : ℕ
max_error_len = 500

unfoldable pub truncate_error : String → String
truncate_error e =
    let trimmed = trim e in
    if leb (char_count trimmed) max_error_len then trimmed else take_chars max_error_len trimmed

-- `HealthRepo`: the table, the policy and the cache of the suspensions.
pub record HealthRepo : Type 0 where
  pub table : List (Key × EndpointHealth)
  pub policy : BreakerPolicy
  pub suspensions : List (Key × ℕ)

unfoldable pub set_policy : HealthRepo → BreakerPolicy → HealthRepo
set_policy r p = record r { policy = p }

-- `HealthRepo::get`.
unfoldable pub get : HealthRepo → Key → Option EndpointHealth
get r k = lookup k r.table

-- The cache with the suspension of a row that is not over.
warm_row : ℕ → Key → Option ℕ → List (Key × ℕ) → List (Key × ℕ)
warm_row now k none cache = cache
warm_row now k (some until) cache = if ltb now until then put k until cache else cache

warm : ℕ → List (Key × EndpointHealth) → List (Key × ℕ) → List (Key × ℕ)
unfolding warm_row
warm now [] cache = cache
warm now ((k, h) ∷ rows) cache = warm now rows (warm_row now k h.suspended_until cache)

-- `HealthRepo::warm_cache`: the cache is filled when the program starts.
unfoldable pub warm_cache : ℕ → HealthRepo → HealthRepo
unfolding warm
warm_cache now r = record r { suspensions = warm now r.table [] }

-- `HealthRepo::suspended_until`: an entry that is over is dropped.
unfoldable pub suspended_until : ℕ → HealthRepo → Key → Option ℕ × HealthRepo
suspended_until now r k = elim (lookup k r.suspensions) [
  | none ↦ (none, r)
  | some until ↦
      if ltb now until
      then (some until, r)
      else (none, record r { suspensions = delete k r.suspensions })
]

unfoldable pub cache_suspension : ℕ → HealthRepo → Key → Option ℕ → HealthRepo
cache_suspension now r k none = record r { suspensions = delete k r.suspensions }
cache_suspension now r k (some until) =
    if ltb now until
    then record r { suspensions = put k until r.suspensions }
    else record r { suspensions = delete k r.suspensions }

-- The statement's moving average: a quarter of the new sample, cut to a whole number.
unfoldable pub smooth : ℕ → ℕ → ℕ
smooth avg sample = if avg == 0 then sample else (avg * 3 + sample) / 4

-- The row after a success.
unfoldable pub success_row : ℕ → ℕ → Option EndpointHealth → EndpointHealth
unfolding smooth
success_row now latency none = record {
  consecutive_fails = 0;
  total_requests = 1;
  total_failures = 0;
  last_success_at = some now;
  last_failure_at = none;
  last_error = none;
  suspended_until = none;
  avg_latency_ms = latency;
}
success_row now latency (some h) = record h {
  consecutive_fails = 0;
  total_requests = h.total_requests + 1;
  last_success_at = some now;
  suspended_until = none;
  avg_latency_ms = smooth h.avg_latency_ms latency;
}

-- `HealthRepo::record_success`: whether the endpoint was suspended.
unfoldable pub record_success : ℕ → HealthRepo → Key → ℕ → Bool × HealthRepo
unfolding suspended_until success_row cache_suspension
record_success now r k latency =
    let (was, r1) = suspended_until now r k in
    let r2 = record r1 { table = put k (success_row now latency (get r1 k)) r1.table } in
    (is_some was, cache_suspension now r2 k none)

-- The row after a failure, before the suspension is decided.
unfoldable pub failure_row : ℕ → String → Option EndpointHealth → EndpointHealth
unfolding truncate_error
failure_row now e none = record {
  consecutive_fails = 1;
  total_requests = 1;
  total_failures = 1;
  last_success_at = none;
  last_failure_at = some now;
  last_error = some (truncate_error e);
  suspended_until = none;
  avg_latency_ms = 0;
}
failure_row now e (some h) = record h {
  consecutive_fails = h.consecutive_fails + 1;
  total_requests = h.total_requests + 1;
  total_failures = h.total_failures + 1;
  last_failure_at = some now;
  last_error = some (truncate_error e);
}

-- The later of two times that may be absent.
later : Option ℕ → Option ℕ → Option ℕ
later none b = b
later (some a) none = some a
later (some a) (some b) = some (max a b)

and_then : Option ℕ → (ℕ → Option ℕ) → Option ℕ
and_then none f = none
and_then (some w) f = f w

-- When the suspension ends: by the breaker's policy, and by what the upstream asked for. `Duration::from_std`
-- is an argument: it refuses a time that is too long.
unfoldable pub suspend_until : (ℕ → Option ℕ) → ℕ → BreakerPolicy → ℕ → Option ℕ → Option ℕ
unfolding later cooldown_for and_then
suspend_until from_std now p fails retry_after =
    let d = cooldown_for p (fails % 2 ^ 32) in
    later (if ltb 0 d then some (now + d) else none)
      (Option.map (λ w. now + w) (and_then retry_after from_std))

suspend_row : Option ℕ → EndpointHealth → EndpointHealth
suspend_row none h = h
suspend_row (some until) h = record h { suspended_until = some until }

suspend_cache : ℕ → Option ℕ → HealthRepo → Key → HealthRepo
suspend_cache now none r k = r
suspend_cache now (some until) r k = cache_suspension now r k (some until)

-- `HealthRepo::record_failure`: the row that is read back. The second time is the clock's when the cache is written.
unfoldable pub record_failure :
    (ℕ → Option ℕ) → ℕ → ℕ → HealthRepo → Key → String → Option ℕ → EndpointHealth × HealthRepo
unfolding failure_row suspend_until suspend_row suspend_cache
record_failure from_std now now' r k e retry_after =
    let h = failure_row now e (get r k) in
    let until = suspend_until from_std now r.policy h.consecutive_fails retry_after in
    let row = suspend_row until h in
    (row, suspend_cache now' until (record r { table = put k row r.table }) k)

-- A row that is not there is not made.
reset_rows : Key → Option EndpointHealth → List (Key × EndpointHealth) → List (Key × EndpointHealth)
reset_rows k none rows = rows
reset_rows k (some h) rows = put k (record h { consecutive_fails = 0; suspended_until = none }) rows

-- `HealthRepo::reset`: lifts a suspension by hand.
unfoldable pub reset : HealthRepo → Key → HealthRepo
unfolding cache_suspension reset_rows
reset r k = cache_suspension 0 (record r { table = reset_rows k (get r k) r.table }) k none

clear_rows : List (Key × EndpointHealth) → List (Key × EndpointHealth)
clear_rows [] = []
clear_rows ((k, h) ∷ rows) =
    (k, record h { total_requests = 0; total_failures = 0; avg_latency_ms = 0 }) ∷ clear_rows rows

-- `HealthRepo::clear_counters`.
unfoldable pub clear_counters : HealthRepo → HealthRepo
unfolding clear_rows
clear_counters r = record r { table = clear_rows r.table }
