-- ===== src/Store/Health/Cache.antt =====
-- The cache of the suspensions against the table (crates/refract-store/src/health_repo.rs).
use refract.Base.{ℕ, ◌≤◌, ◌≡◌, refl, arith, Bool, Option, none, some, ltb, if◌then◌else◌}
use refract.Base.Maps.{lookup, put, nat_eq, pair_eq, lookup-put, lookup-delete}
use refract.Store.Health.{
  Key, protocol_key, EndpointHealth, HealthRepo, get, suspended_until, cache_suspension,
  success_row, record_success,
}

-- A suspension that is not over at a time.
abbrev pub active : ℕ → Option ℕ → Option ℕ
active now none = none
active now (some until) = if ltb now until then some until else none

abbrev pub until_of : Option EndpointHealth → Option ℕ
until_of none = none
until_of (some h) = h.suspended_until

-- At a time, the cache holds the suspensions of the table that are not over.
abbrev pub IsCoherentAt : ℕ → HealthRepo → Key → Type 0
IsCoherentAt now r k = active now (lookup k r.suspensions) ≡ active now (until_of (get r k))

abbrev pub IsCoherent : ℕ → HealthRepo → Type 0
IsCoherent now r = (k : Key) → IsCoherentAt now r k

active-later :
    (m n : ℕ) (a b : Option ℕ) → m ≤ n → active m a ≡ active m b → active n a ≡ active n b
active-later m n none none h e = refl
active-later m n none (some b) h e = ground arith
active-later m n (some a) none h e = ground arith
active-later m n (some a) (some b) h e = ground arith

pub IsCoherent-later : (m n : ℕ) (r : HealthRepo) → m ≤ n → IsCoherent m r → IsCoherent n r
IsCoherent-later m n r h c k =
    active-later m n (lookup k r.suspensions) (until_of (get r k)) h (c k)

abbrev pub same_key : Key → Key → Bool
same_key a b = pair_eq.beq a b

abbrev pub cached : HealthRepo → Key → Option ℕ
cached r k = lookup k r.suspensions

pub cache_none :
    (t : ℕ) (r : HealthRepo) (k j : Key)
    → cached (cache_suspension t r k none) j ≡ (if same_key k j then none else cached r j)
unfolding cache_suspension
cache_none t r k j = lookup-delete k j r.suspensions

pub cache_some :
    (t : ℕ) (r : HealthRepo) (k j : Key) (until : ℕ)
    → cached (cache_suspension t r k (some until)) j
      ≡ (if same_key k j then active t (some until) else cached r j)
unfolding cache_suspension
cache_some t r k j until =
    ground (arith, lookup-delete k j r.suspensions, lookup-put k j until r.suspensions)

pub cache_table :
    (t : ℕ) (r : HealthRepo) (k : Key) (o : Option ℕ) → (cache_suspension t r k o).table ≡ r.table
unfolding cache_suspension
cache_table t r k none = refl
cache_table t r k (some until) = ground arith

pub read_cached :
    (t : ℕ) (r : HealthRepo) (k j : Key)
    → cached (suspended_until t r k).1 j
      ≡ (if same_key k j then active t (cached r j) else cached r j)
unfolding suspended_until
read_cached t r k j = ground (arith, lookup-delete k j r.suspensions, pair_eq.beq_iff k j)

pub read_table : (t : ℕ) (r : HealthRepo) (k : Key) → (suspended_until t r k).1.table ≡ r.table
unfolding suspended_until
read_table t r k = ground arith

pub read-IsCoherentAt :
    (t now : ℕ) (r : HealthRepo) (k j : Key)
    → t ≤ now
    → IsCoherentAt now r j
    → IsCoherentAt now (suspended_until t r k).1 j
unfolding get
read-IsCoherentAt t now r k j h c = ground (arith, read_cached t r k j, read_table t r k)

cleared :
    (t latency : ℕ) (o : Option EndpointHealth)
    → active t none ≡ active t (success_row t latency o).suspended_until
unfolding success_row
cleared t latency none = refl
cleared t latency (some h) = refl

-- The repository after a row was written and the cache with it.
pub wrote-IsCoherentAt :
    (t now : ℕ) (r : HealthRepo) (k j : Key) (row : EndpointHealth) (o : Option ℕ)
    → t ≤ now
    → active t o ≡ active t row.suspended_until
    → IsCoherentAt now r j
    → IsCoherentAt now (cache_suspension t (record r { table = put k row r.table }) k o) j
unfolding get cache_suspension
wrote-IsCoherentAt t now r k j row none h e c = ground (
  arith,
  lookup-delete k j r.suspensions,
  lookup-put k j row r.table,
  active-later t now none row.suspended_until h e,
)
wrote-IsCoherentAt t now r k j row (some until) h e c = ground (
  arith,
  lookup-delete k j r.suspensions,
  lookup-put k j until r.suspensions,
  lookup-put k j row r.table,
  active-later t now (some until) row.suspended_until h e,
)

pub success-IsCoherentAt :
    (t now : ℕ) (r : HealthRepo) (k j : Key) (latency : ℕ)
    → t ≤ now
    → IsCoherentAt now r j
    → IsCoherentAt now (record_success t r k latency).1 j
unfolding record_success
success-IsCoherentAt t now r k j latency h c =
    let s = (suspended_until t r k).1 in
    let row = success_row t latency (get s k) in
    wrote-IsCoherentAt t now s k j row none h (cleared t latency (get s k))
      (read-IsCoherentAt t now r k j h c)
