-- ===== src/Store/Health/Suspension.antt =====
-- What failures and successes do to the suspension of an endpoint (crates/refract-store/src/health_repo.rs).
use refract.Base.{
  ℕ, ◌+◌, ◌≤◌, ◌<◌, ◌%◌, ◌^◌, max, ◌≡◌, refl, arith, true, List, [], ◌∷◌, Option, none, some,
  String, ltb, if◌then◌else◌, is_some, ap, subst, sym, ◌∙◌, length,
}
use mathlib.Core.Option
use refract.Base.Maps.{lookup, put, nat_eq, pair_eq, lookup-put, beq_refl}
use refract.Store.Health.{
  Key, protocol_key, EndpointHealth, BreakerPolicy, HealthRepo, get, suspended_until,
  cache_suspension, cooldown_for, success_row, record_success, failure_row, suspend_until,
  suspend_row, suspend_cache, record_failure, later, and_then,
}
use refract.Store.Health.Cache.{active, cache_table, cache_some, cache_none, cached}
use refract.Store.Health.Cooldown.{BreakerIsValid, cooldown_for_lem}

-- Whether the router finds the endpoint suspended at a time.
abbrev pub IsSuspendedAt : ℕ → HealthRepo → Key → Type 0
IsSuspendedAt now r k = is_some (suspended_until now r k).0 ≡ true

pub read-active :
    (now : ℕ) (r : HealthRepo) (k : Key) → (suspended_until now r k).0 ≡ active now (cached r k)
unfolding suspended_until
read-active now r k = ground arith

-- The failures in a row that the table counts.
abbrev pub fails_of : Option EndpointHealth → ℕ
fails_of none = 0
fails_of (some h) = h.consecutive_fails

failure_row-fails :
    (t : ℕ) (e : String) (o : Option EndpointHealth)
    → (failure_row t e o).consecutive_fails ≡ fails_of o + 1
unfolding failure_row
failure_row-fails t e none = refl
failure_row-fails t e (some h) = refl

suspend_row-fails :
    (o : Option ℕ) (h : EndpointHealth) → (suspend_row o h).consecutive_fails ≡ h.consecutive_fails
unfolding suspend_row
suspend_row-fails none h = refl
suspend_row-fails (some u) h = refl

later-left :
    (a : ℕ) (o : Option ℕ) (now : ℕ) → now < a → (x : ℕ) × (later (some a) o ≡ some x) × (now < x)
unfolding later
later-left a none now h = (a, refl, h)
later-left a (some b) now h = (max a b, refl, omega arith)

later-right :
    (o : Option ℕ) (b now : ℕ) → now < b → (x : ℕ) × (later o (some b) ≡ some x) × (now < x)
unfolding later
later-right none b now h = (b, refl, h)
later-right (some a) b now h = (max a b, refl, omega arith)

breaker_some :
    (d' d t : ℕ)
    → d' ≡ d
    → 0 < d
    → ◌≡◌ {A = Option ℕ} (if ltb 0 d' then some (t + d') else none) (some (t + d))
breaker_some d' d t e h = ground arith

-- The time that the suspension ends covers the breaker's cooldown and what the upstream asked for.
suspend_until-cooldown :
    (from_std : ℕ → Option ℕ) (t : ℕ) (p : BreakerPolicy) (n : ℕ) (w : Option ℕ) (now : ℕ)
    → n < 2 ^ 32
    → t ≤ now
    → now < t + cooldown_for p n
    → (x : ℕ) × (suspend_until from_std t p n w ≡ some x) × (now < x)
unfolding suspend_until
suspend_until-cooldown from_std t p n w now small le h =
    let d = cooldown_for p n in
    let wrapped : cooldown_for p (n % 2 ^ 32) ≡ d = ap (cooldown_for p) (omega arith) in
    let breaker = breaker_some (cooldown_for p (n % 2 ^ 32)) d t wrapped (omega arith) in
    let hold = Option.map (λ v. t + v) (and_then w from_std) in
    let (x, e, l) = later-left (t + d) hold now h in (x, ap (λ o. later o hold) breaker ∙ e, l)

suspend_until-retry_after :
    (from_std : ℕ → Option ℕ) (t : ℕ) (p : BreakerPolicy) (n s d now : ℕ)
    → from_std s ≡ some d
    → now < t + d
    → (x : ℕ) × (suspend_until from_std t p n (some s) ≡ some x) × (now < x)
unfolding suspend_until and_then
suspend_until-retry_after from_std t p n s d now e h =
    let b = cooldown_for p (n % 2 ^ 32) in
    let breaker : Option ℕ = if ltb 0 b then some (t + b) else none in
    let (x, f, l) = later-right breaker (t + d) now h in
    (x, ap (λ o. later breaker (Option.map (λ v. t + v) o)) e ∙ f, l)

suspend_cached :
    (t' now : ℕ) (r : HealthRepo) (k : Key) (o : Option ℕ) (x : ℕ)
    → o ≡ some x
    → t' ≤ now
    → now < x
    → IsSuspendedAt now (suspend_cache t' o r k) k
unfolding suspend_cache
suspend_cached t' now r k none x e l h = cc
suspend_cached t' now r k (some y) x e l h =
    ground (
      arith,
      read-active now (cache_suspension t' r k (some y)) k,
      cache_some t' r k k y,
      beq_refl k,
    )

-- When the failures in a row reach the breaker's threshold, the endpoint is suspended from the moment of the failure for the
-- cooldown of that many failures, whatever the upstream asked for.
pub record_failure-cooldown :
    (from_std : ℕ → Option ℕ) (t t' now : ℕ) (r : HealthRepo) (k : Key) (e : String) (w : Option ℕ)
    → fails_of (get r k) + 1 < 2 ^ 32
    → t ≤ t'
    → t' ≤ now
    → now < t + cooldown_for r.policy (fails_of (get r k) + 1)
    → IsSuspendedAt now (record_failure from_std t t' r k e w).1 k
unfolding record_failure
record_failure-cooldown from_std t t' now r k e w small le l h =
    let row = failure_row t e (get r k) in
    let n = row.consecutive_fails in
    let count = failure_row-fails t e (get r k) in
    let (x, f, later_than) =
      suspend_until-cooldown from_std t r.policy n w now (omega arith) (omega arith)
        (subst (λ m. now < t + cooldown_for r.policy m) (sym count) h) in
    let o = suspend_until from_std t r.policy n w in
    suspend_cached t' now (record r { table = put k (suspend_row o row) r.table }) k o x f l
      later_than

-- When the upstream says how long to wait, the endpoint is suspended that long, even below the threshold, provided that the
-- conversion of the time succeeds.
pub record_failure-retry_after :
    (from_std : ℕ → Option ℕ) (t t' now : ℕ) (r : HealthRepo) (k : Key) (e : String) (s d : ℕ)
    → from_std s ≡ some d
    → t' ≤ now
    → now < t + d
    → IsSuspendedAt now (record_failure from_std t t' r k e (some s)).1 k
unfolding record_failure
record_failure-retry_after from_std t t' now r k e s d c l h =
    let row = failure_row t e (get r k) in
    let n = row.consecutive_fails in
    let (x, f, later_than) = suspend_until-retry_after from_std t r.policy n s d now c h in
    let o = suspend_until from_std t r.policy n (some s) in
    suspend_cached t' now (record r { table = put k (suspend_row o row) r.table }) k o x f l
      later_than

written :
    (t : ℕ) (r : HealthRepo) (k : Key) (row : EndpointHealth) (o : Option ℕ)
    → get (cache_suspension t (record r { table = put k row r.table }) k o) k ≡ some row
unfolding get
written t r k row o =
    ap (lookup k) (cache_table t (record r { table = put k row r.table }) k o)
    ∙ lookup-put k k row r.table
    ∙ rw (beq_refl k) refl

uncached :
    (t now : ℕ) (r : HealthRepo) (k : Key)
    → (suspended_until now (cache_suspension t r k none) k).0 ≡ none
uncached t now r k =
    read-active now (cache_suspension t r k none) k
    ∙ ap (active now) {y = none} (cache_none t r k k ∙ rw (beq_refl k) refl)

success_row-fails :
    (t latency : ℕ) (o : Option EndpointHealth) → (success_row t latency o).consecutive_fails ≡ 0
unfolding success_row
success_row-fails t latency none = refl
success_row-fails t latency (some h) = refl

-- A success lifts the suspension at once and for good: at every time the endpoint is not suspended, and its
-- failures in a row are none.
record_success-lifts :
    (t now : ℕ) (r : HealthRepo) (k : Key) (latency : ℕ)
    → ((suspended_until now (record_success t r k latency).1 k).0 ≡ none)
      × (fails_of (get (record_success t r k latency).1 k) ≡ 0)
unfolding record_success
record_success-lifts t now r k latency =
    let s = (suspended_until t r k).1 in
    let row = success_row t latency (get s k) in
    (
      uncached t now (record s { table = put k row s.table }) k,
      ap fails_of (written t s k row none) ∙ success_row-fails t latency (get s k),
    )

-- A failure of the endpoint: the two readings of the clock, the error and the upstream's wish.
abbrev pub Failure : Type 0
Failure = ℕ × ℕ × String × Option ℕ

abbrev pub fail_all : (ℕ → Option ℕ) → HealthRepo → Key → List Failure → HealthRepo
fail_all from_std r k [] = r
fail_all from_std r k ((t, t', e, w) ∷ fs) =
    fail_all from_std (record_failure from_std t t' r k e w).1 k fs

written_row :
    (t : ℕ) (r : HealthRepo) (k : Key) (row : EndpointHealth) (o : Option ℕ)
    → get (suspend_cache t o (record r { table = put k row r.table }) k) k ≡ some row
unfolding suspend_cache get
written_row t r k row none = lookup-put k k row r.table ∙ rw (beq_refl k) refl
written_row t r k row (some u) = written t r k row (some u)

record_failure-row :
    (from_std : ℕ → Option ℕ) (t t' : ℕ) (r : HealthRepo) (k : Key) (e : String) (w : Option ℕ)
    → get (record_failure from_std t t' r k e w).1 k ≡ some (record_failure from_std t t' r k e w).0
unfolding record_failure
record_failure-row from_std t t' r k e w =
    let h = failure_row t e (get r k) in
    let o = suspend_until from_std t r.policy h.consecutive_fails w in
    written_row t' r k (suspend_row o h) o

record_failure-fails :
    (from_std : ℕ → Option ℕ) (t t' : ℕ) (r : HealthRepo) (k : Key) (e : String) (w : Option ℕ)
    → (record_failure from_std t t' r k e w).0.consecutive_fails ≡ fails_of (get r k) + 1
unfolding record_failure
record_failure-fails from_std t t' r k e w =
    let h = failure_row t e (get r k) in
    suspend_row-fails (suspend_until from_std t r.policy h.consecutive_fails w) h
    ∙ failure_row-fails t e (get r k)

suspend-policy :
    (t : ℕ) (o : Option ℕ) (r : HealthRepo) (k : Key) → (suspend_cache t o r k).policy ≡ r.policy
unfolding suspend_cache cache_suspension
suspend-policy t none r k = refl
suspend-policy t (some u) r k = ground arith

fail_all-policy :
    (from_std : ℕ → Option ℕ) (r : HealthRepo) (k : Key) (fs : List Failure)
    → (fail_all from_std r k fs).policy ≡ r.policy
unfolding record_failure
fail_all-policy from_std r k [] = refl
fail_all-policy from_std r k ((t, t', e, w) ∷ fs) =
    let h = failure_row t e (get r k) in
    let o = suspend_until from_std t r.policy h.consecutive_fails w in
    fail_all-policy from_std (record_failure from_std t t' r k e w).1 k fs
    ∙ suspend-policy t' o (record r { table = put k (suspend_row o h) r.table }) k

fail_all-fails :
    (from_std : ℕ → Option ℕ) (r : HealthRepo) (k : Key) (fs : List Failure)
    → fails_of (get (fail_all from_std r k fs) k) ≡ fails_of (get r k) + length fs
fail_all-fails from_std r k [] = omega arith
fail_all-fails from_std r k ((t, t', e, w) ∷ fs) =
    let r' = (record_failure from_std t t' r k e w).1 in
    let n =
      ap fails_of (record_failure-row from_std t t' r k e w)
      ∙ record_failure-fails from_std t t' r k e w in
    omega (arith, fail_all-fails from_std r' k fs, n)

cooldown_reached :
    (p : BreakerPolicy) (n : ℕ)
    → BreakerIsValid p
    → 0 < p.failure_threshold
    → p.failure_threshold ≤ n
    → p.base_cooldown_secs ≤ cooldown_for p n
cooldown_reached p n v on h = ground (arith, cooldown_for_lem p n v)

success-policy :
    (t : ℕ) (r : HealthRepo) (k : Key) (latency : ℕ)
    → (record_success t r k latency).1.policy ≡ r.policy
unfolding record_success suspended_until cache_suspension
success-policy t r k latency = ground arith

-- Under a valid policy with the breaker on: after a success and then failures in a row whose number,
-- the last one counted, is at least the threshold (and fits 32 bits), the endpoint is suspended from
-- the moment the last failure is cached, for at least the base cooldown since its clock was read.
pub failures-trip :
    (from_std : ℕ → Option ℕ) (t₀ latency : ℕ) (r : HealthRepo) (k : Key) (fs : List Failure)
    (t t' now : ℕ) (e : String) (w : Option ℕ)
    → BreakerIsValid r.policy
    → 0 < r.policy.failure_threshold
    → r.policy.failure_threshold ≤ length fs + 1
    → length fs + 1 < 2 ^ 32
    → t ≤ t'
    → t' ≤ now
    → now < t + r.policy.base_cooldown_secs
    → IsSuspendedAt now
        (record_failure from_std t t'
          (fail_all from_std (record_success t₀ r k latency).1 k fs)
          k
          e
          w).1
        k
failures-trip from_std t₀ latency r k fs t t' now e w v on reached small le l h =
    let s = (record_success t₀ r k latency).1 in
    let u = fail_all from_std s k fs in
    let same : u.policy ≡ r.policy =
      fail_all-policy from_std s k fs ∙ success-policy t₀ r k latency in
    let count : fails_of (get u k) ≡ length fs =
      omega (arith, fail_all-fails from_std s k fs, (record_success-lifts t₀ now r k latency).1) in
    let long : now < t + cooldown_for r.policy (length fs + 1) =
      omega (arith, cooldown_reached r.policy (length fs + 1) v on reached) in
    record_failure-cooldown from_std t t' now u k e w (omega arith) le l (
      subst (λ q. now < t + cooldown_for q (fails_of (get u k) + 1)) (sym same)
        (subst (λ m. now < t + cooldown_for r.policy (m + 1)) (sym count) long))
