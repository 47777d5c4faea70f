-- ===== src/Store/Health/Runs.antt =====
-- The histories of the repository (crates/refract-store/src/health_repo.rs).
use refract.Base.{
  ℕ, ◌+◌, ◌≤◌, ◌≡◌, refl, arith, List, [], ◌∷◌, Option, none, some, String, if◌then◌else◌, inl, ◌⊎◌,
  option_or, ap, sym, ◌∙◌, subst,
}
use refract.Base.Maps.{lookup, put, nat_eq, pair_eq, lookup-put, lookup-delete}
use refract.Base.Keyed.{IsKeyed, put-IsKeyed}
use refract.Store.Health.{
  Key, protocol_key, EndpointHealth, BreakerPolicy, HealthRepo, get, set_policy, warm, warm_row,
  warm_cache, suspended_until, cache_suspension, success_row, record_success, failure_row,
  suspend_until, suspend_row, suspend_cache, record_failure, reset, reset_rows, clear_rows,
  clear_counters,
}
use refract.Store.Health.Cache.{
  active, until_of, IsCoherentAt, IsCoherent, IsCoherent-later, same_key, read-IsCoherentAt,
  success-IsCoherentAt, wrote-IsCoherentAt, cache_table, read_table,
}

kept_row :
    (t : ℕ) (e : String) (o : Option EndpointHealth)
    → (failure_row t e o).suspended_until ≡ until_of o
unfolding failure_row
kept_row t e none = refl
kept_row t e (some h) = refl

row_only :
    (now : ℕ) (r : HealthRepo) (k j : Key) (row : EndpointHealth)
    → row.suspended_until ≡ until_of (get r k)
    → IsCoherentAt now r j
    → IsCoherentAt now (record r { table = put k row r.table }) j
unfolding get
row_only now r k j row e c = ground (arith, lookup-put k j row r.table, pair_eq.beq_iff k j)

suspend-IsCoherentAt :
    (t now : ℕ) (r : HealthRepo) (k j : Key) (h : EndpointHealth) (o : Option ℕ)
    → t ≤ now
    → h.suspended_until ≡ until_of (get r k)
    → IsCoherentAt now r j
    → IsCoherentAt now
        (suspend_cache t o (record r { table = put k (suspend_row o h) r.table }) k)
        j
unfolding suspend_cache suspend_row
suspend-IsCoherentAt t now r k j h none l e c = row_only now r k j h e c
suspend-IsCoherentAt t now r k j h (some until) l e c =
    wrote-IsCoherentAt t now r k j (record h { suspended_until = some until }) (some until) l refl c

failure-IsCoherentAt :
    (from_std : ℕ → Option ℕ) (t t' now : ℕ) (r : HealthRepo) (k j : Key) (e : String)
    (w : Option ℕ)
    → t' ≤ now
    → IsCoherentAt now r j
    → IsCoherentAt now (record_failure from_std t t' r k e w).1 j
unfolding record_failure
failure-IsCoherentAt from_std t t' now r k j e w l c =
    let h = failure_row t e (get r k) in
    suspend-IsCoherentAt t' now r k j h (suspend_until from_std t r.policy h.consecutive_fails w) l
      (kept_row t e (get r k)) c

absent-IsCoherentAt :
    (now : ℕ) (r : HealthRepo) (k j : Key)
    → get r k ≡ none
    → IsCoherentAt now r j
    → IsCoherentAt now (cache_suspension 0 r k none) j
unfolding get cache_suspension
absent-IsCoherentAt now r k j e c =
    ground (arith, lookup-delete k j r.suspensions, pair_eq.beq_iff k j)

reset_rows-IsCoherentAt :
    (now : ℕ) (r : HealthRepo) (k j : Key) (o : Option EndpointHealth)
    → get r k ≡ o
    → IsCoherentAt now r j
    → IsCoherentAt now (cache_suspension 0 (record r { table = reset_rows k o r.table }) k none) j
unfolding reset_rows
reset_rows-IsCoherentAt now r k j none e c = absent-IsCoherentAt now r k j e c
reset_rows-IsCoherentAt now r k j (some h) e c =
    wrote-IsCoherentAt 0 now r k j (record h { consecutive_fails = 0; suspended_until = none }) none
      (omega arith) refl c

reset-IsCoherentAt :
    (now : ℕ) (r : HealthRepo) (k j : Key) → IsCoherentAt now r j → IsCoherentAt now (reset r k) j
unfolding reset
reset-IsCoherentAt now r k j c = reset_rows-IsCoherentAt now r k j (get r k) refl c

cleared_until :
    (k : Key) (rows : List (Key × EndpointHealth))
    → until_of (lookup k (clear_rows rows)) ≡ until_of (lookup k rows)
unfolding clear_rows lookup
cleared_until k [] = refl
cleared_until k ((j, h) ∷ rows) = ground (arith, cleared_until k rows)

clear-IsCoherentAt :
    (now : ℕ) (r : HealthRepo) (j : Key)
    → IsCoherentAt now r j
    → IsCoherentAt now (clear_counters r) j
unfolding clear_counters get
clear-IsCoherentAt now r j c = c ∙ ap (active now) (sym (cleared_until j r.table))

cleared_none :
    (k : Key) (rows : List (Key × EndpointHealth))
    → lookup k rows ≡ none
    → lookup k (clear_rows rows) ≡ none
unfolding clear_rows lookup
cleared_none k [] e = refl
cleared_none k ((j, h) ∷ rows) e = ground (arith, cleared_none k rows)

clear-IsKeyed : (rows : List (Key × EndpointHealth)) → IsKeyed rows → IsKeyed (clear_rows rows)
unfolding clear_rows
clear-IsKeyed [] d = tt
clear-IsKeyed ((k, h) ∷ rows) d = (cleared_none k rows d.0, clear-IsKeyed rows d.1)

warm_row-lookup :
    (now : ℕ) (k j : Key) (o : Option ℕ) (cache : List (Key × ℕ))
    → lookup j (warm_row now k o cache)
      ≡ (if same_key k j then option_or (active now o) (lookup j cache) else lookup j cache)
unfolding warm_row
warm_row-lookup now k j none cache = ground arith
warm_row-lookup now k j (some until) cache = ground (arith, lookup-put k j until cache)

-- What `warm` finds for a key: what the cache had, or the suspension of its row.
warm-lookup :
    (now : ℕ) (rows : List (Key × EndpointHealth)) (cache : List (Key × ℕ)) (j : Key)
    → IsKeyed rows
    → (lookup j cache ≡ none) ⊎ (lookup j rows ≡ none)
    → active now (lookup j (warm now rows cache))
      ≡ option_or (active now (lookup j cache)) (active now (until_of (lookup j rows)))
unfolding warm lookup
warm-lookup now [] cache j d h = ground arith
warm-lookup now ((k, g) ∷ rows) cache j d h =
    let cache' = warm_row now k g.suspended_until cache in
    ground (
      arith,
      warm-lookup now rows cache' j d.1,
      pair_eq.beq_iff k j,
      warm_row-lookup now k j g.suspended_until cache,
    )

-- The operations of the repository. A failure is written to the cache some seconds after the clock was read.
pub data Op : Type 0 where
  succeeded : Key → ℕ → Op
  failed : ℕ → Key → String → Option ℕ → Op
  asked : Key → Op
  lifted : Key → Op
  counters_cleared : Op
  policy_set : BreakerPolicy → Op
  restarted : Op

abbrev pub lasts : Op → ℕ
lasts (failed delay k e w) = delay
lasts _ = 0

unfoldable pub apply_op : (ℕ → Option ℕ) → ℕ → Op → HealthRepo → HealthRepo
apply_op from_std t (succeeded k latency) r = (record_success t r k latency).1
apply_op from_std t (failed delay k e w) r = (record_failure from_std t (t + delay) r k e w).1
apply_op from_std t (asked k) r = (suspended_until t r k).1
apply_op from_std t (lifted k) r = reset r k
apply_op from_std t counters_cleared r = clear_counters r
apply_op from_std t (policy_set p) r = set_policy r p
apply_op from_std t restarted r = warm_cache t r

-- The time and the repository after operations that come the given seconds after one another.
unfoldable pub run_ops : (ℕ → Option ℕ) → ℕ → HealthRepo → List (ℕ × Op) → ℕ × HealthRepo
unfolding apply_op
run_ops from_std t r [] = (t, r)
run_ops from_std t r ((gap, op) ∷ ops) =
    run_ops from_std (t + gap + lasts op) (apply_op from_std (t + gap) op r) ops

-- The repository of an empty table.
abbrev pub empty_repo : BreakerPolicy → HealthRepo
empty_repo p = record { table = []; policy = p; suspensions = [] }

warm-IsCoherentAt :
    (t : ℕ) (r : HealthRepo) (j : Key) → IsKeyed r.table → IsCoherentAt t (warm_cache t r) j
unfolding warm_cache get lookup
warm-IsCoherentAt t r j d = warm-lookup t r.table [] j d (inl refl)

op-IsCoherent :
    (from_std : ℕ → Option ℕ) (t : ℕ) (op : Op) (r : HealthRepo)
    → IsKeyed r.table
    → IsCoherent t r
    → IsCoherent (t + lasts op) (apply_op from_std t op r)
unfolding apply_op set_policy get
op-IsCoherent from_std t (succeeded k latency) r d c j =
    success-IsCoherentAt t (t + 0) r k j latency (omega arith)
      (IsCoherent-later t (t + 0) r (omega arith) c j)
op-IsCoherent from_std t (failed delay k e w) r d c j =
    failure-IsCoherentAt from_std t (t + delay) (t + delay) r k j e w (omega arith)
      (IsCoherent-later t (t + delay) r (omega arith) c j)
op-IsCoherent from_std t (asked k) r d c j =
    read-IsCoherentAt t (t + 0) r k j (omega arith) (IsCoherent-later t (t + 0) r (omega arith) c j)
op-IsCoherent from_std t (lifted k) r d c j =
    reset-IsCoherentAt (t + 0) r k j (IsCoherent-later t (t + 0) r (omega arith) c j)
op-IsCoherent from_std t counters_cleared r d c j =
    clear-IsCoherentAt (t + 0) r j (IsCoherent-later t (t + 0) r (omega arith) c j)
op-IsCoherent from_std t (policy_set p) r d c j = IsCoherent-later t (t + 0) r (omega arith) c j
op-IsCoherent from_std t restarted r d c j =
    IsCoherent-later t (t + 0) (warm_cache t r) (omega arith) (λ i. warm-IsCoherentAt t r i d) j

success-IsKeyed :
    (t : ℕ) (r : HealthRepo) (k : Key) (latency : ℕ)
    → IsKeyed r.table
    → IsKeyed (record_success t r k latency).1.table
unfolding record_success
success-IsKeyed t r k latency d =
    let s = (suspended_until t r k).1 in
    let row = success_row t latency (get s k) in
    subst IsKeyed (sym (cache_table t (record s { table = put k row s.table }) k none))
      (put-IsKeyed k row s.table (subst IsKeyed (sym (read_table t r k)) d))

suspend-table :
    (t : ℕ) (o : Option ℕ) (r : HealthRepo) (k : Key) → (suspend_cache t o r k).table ≡ r.table
unfolding suspend_cache
suspend-table t none r k = refl
suspend-table t (some until) r k = cache_table t r k (some until)

failure-IsKeyed :
    (from_std : ℕ → Option ℕ) (t t' : ℕ) (r : HealthRepo) (k : Key) (e : String) (w : Option ℕ)
    → IsKeyed r.table
    → IsKeyed (record_failure from_std t t' r k e w).1.table
unfolding record_failure
failure-IsKeyed from_std t t' r k e w d =
    let h = failure_row t e (get r k) in
    let o = suspend_until from_std t r.policy h.consecutive_fails w in
    let row = suspend_row o h in
    subst IsKeyed (sym (suspend-table t' o (record r { table = put k row r.table }) k))
      (put-IsKeyed k row r.table d)

reset_rows-IsKeyed :
    (k : Key) (o : Option EndpointHealth) (rows : List (Key × EndpointHealth))
    → IsKeyed rows
    → IsKeyed (reset_rows k o rows)
unfolding reset_rows
reset_rows-IsKeyed k none rows d = d
reset_rows-IsKeyed k (some h) rows d =
    put-IsKeyed k (record h { consecutive_fails = 0; suspended_until = none }) rows d

reset-IsKeyed : (r : HealthRepo) (k : Key) → IsKeyed r.table → IsKeyed (reset r k).table
unfolding reset
reset-IsKeyed r k d =
    subst IsKeyed (sym (cache_table 0 (record r { table = reset_rows k (get r k) r.table }) k none))
      (reset_rows-IsKeyed k (get r k) r.table d)

op-IsKeyed :
    (from_std : ℕ → Option ℕ) (t : ℕ) (op : Op) (r : HealthRepo)
    → IsKeyed r.table
    → IsKeyed (apply_op from_std t op r).table
unfolding apply_op clear_counters set_policy warm_cache
op-IsKeyed from_std t (succeeded k latency) r d = success-IsKeyed t r k latency d
op-IsKeyed from_std t (failed delay k e w) r d = failure-IsKeyed from_std t (t + delay) r k e w d
op-IsKeyed from_std t (asked k) r d = subst IsKeyed (sym (read_table t r k)) d
op-IsKeyed from_std t (lifted k) r d = reset-IsKeyed r k d
op-IsKeyed from_std t counters_cleared r d = clear-IsKeyed r.table d
op-IsKeyed from_std t (policy_set p) r d = d
op-IsKeyed from_std t restarted r d = d

run_from :
    (from_std : ℕ → Option ℕ) (t : ℕ) (r : HealthRepo) (ops : List (ℕ × Op))
    → IsKeyed r.table
    → IsCoherent t r
    → IsCoherent (run_ops from_std t r ops).0 (run_ops from_std t r ops).1
unfolding run_ops
run_from from_std t r [] d c = c
run_from from_std t r ((gap, op) ∷ ops) d c =
    run_from from_std (t + gap + lasts op) (apply_op from_std (t + gap) op r) ops
      (op-IsKeyed from_std (t + gap) op r d)
      (op-IsCoherent from_std (t + gap) op r d (IsCoherent-later t (t + gap) r (omega arith) c))

-- Whatever the operations on a new repository and the times between them, restarts included, the cache answers as the
-- table does: at the time that is reached, for every endpoint, the suspensions that the two
-- hold and that are not over are the same.
pub run_ops-IsCoherent :
    (from_std : ℕ → Option ℕ) (p : BreakerPolicy) (ops : List (ℕ × Op))
    → IsCoherent (run_ops from_std 0 (empty_repo p) ops).0 (run_ops from_std 0 (empty_repo p) ops).1
unfolding get lookup
run_ops-IsCoherent from_std p ops = run_from from_std 0 (empty_repo p) ops tt (λ k. refl)
