-- ===== src/Router/Executor/Order.antt =====
-- The order in which the candidates are tried (crates/refract-router/src/executor.rs).
use refract.Base.{
  ℕ, suc, ◌+◌, ◌<◌, min, max, ◌≡◌, refl, arith, Bool, true, false, not, List, [], ◌∷◌, ◌++◌, Option,
  none, some, if◌then◌else◌, is_some, take, length, All, ap, ap₂, sym, ◌∙◌, subst, Bool-cases, inl,
  inr, All-append, All-mono, All-take, length-take, length-append,
}
use refract.Base.Maps.{nat_eq, pair_eq}
use refract.Store.Health.{HealthRepo, Key, suspended_until, protocol_key}
use refract.Store.Health.Cache.{active, cached, read_cached}
use refract.Store.Health.Suspension.{read-active}
use refract.Router.Plan.{Candidate, Route}
use refract.Router.Executor.{RouterConfig, endpoint_key, split_health, prioritize}

-- Whether the health says that the candidate's endpoint is suspended at a time.
abbrev pub is_down : ℕ → HealthRepo → Candidate → Bool
is_down now r c = is_some (suspended_until now r (endpoint_key c)).0

-- The positions of the candidates that pass a test, counted from a number.
abbrev pub positions : (Candidate → Bool) → ℕ → List Candidate → List ℕ
positions test i [] = []
positions test i (c ∷ cs) =
    let rest = positions test (suc i) cs in if test c then i ∷ rest else rest

active_twice : (now : ℕ) (o : Option ℕ) → active now (active now o) ≡ active now o
active_twice now none = refl
active_twice now (some u) = ground arith

-- Reading one endpoint does not change what is read of another.
read_again :
    (now : ℕ) (r : HealthRepo) (k j : Key)
    → (suspended_until now (suspended_until now r k).1 j).0 ≡ (suspended_until now r j).0
read_again now r k j = ground (
  arith,
  read-active now r j,
  read-active now (suspended_until now r k).1 j,
  read_cached now r k j,
  active_twice now (cached r j),
)

split_health-positions :
    (now : ℕ) (r₀ r : HealthRepo) (i : ℕ) (cs : List Candidate)
    → ((c : Candidate) → is_down now r c ≡ is_down now r₀ c)
    → ((split_health now r i cs).0 ≡ positions (λ c. not (is_down now r₀ c)) i cs)
      × ((split_health now r i cs).1 ≡ positions (λ c. is_down now r₀ c) i cs)
unfolding split_health
split_health-positions now r₀ r i [] same = (refl, refl)
split_health-positions now r₀ r i (c ∷ cs) same =
    let r1 = (suspended_until now r (endpoint_key c)).1 in
    let (e, f) =
      split_health-positions now r₀ r1 (suc i) cs
        (λ d. ap is_some (read_again now r (endpoint_key c) (endpoint_key d)) ∙ same d) in
    ground (arith, same c, e, f)

append_nil : (is : List ℕ) → is ++ [] ≡ is
append_nil [] = refl
append_nil (i ∷ is) = ap (◌∷◌ i) (append_nil is)

prioritized :
    {h h' d d' : List ℕ} (n : ℕ) (last : Bool)
    → h ≡ h'
    → d ≡ d'
    → take n (if last then h ++ d else h) ≡ take n (h' ++ (if last then d' else []))
prioritized n true e f = ap₂ (λ a b. take n (a ++ b)) e f
prioritized {h} n false e f = ap (take n) (e ∙ sym (append_nil _))

-- The candidates whose endpoints are not suspended when the search begins come first, in the order of the route; the
-- suspended ones follow in their order if the configuration lets them be the last resort, and
-- are left out otherwise. The list is cut to the route's limit, but not below one.
pub prioritize_lem :
    (config : RouterConfig) (now : ℕ) (r : HealthRepo) (route : Route)
    → (prioritize config now r route).0
      ≡ take (max route.attempt_cap 1) (
          positions (λ c. not (is_down now r c)) 0 route.attempts
          ++ (if config.allow_suspended_as_last_resort
              then positions (λ c. is_down now r c) 0 route.attempts
              else []))
unfolding prioritize
prioritize_lem config now r route =
    let (e, f) = split_health-positions now r r 0 route.attempts (λ c. refl) in
    prioritized (max route.attempt_cap 1) config.allow_suspended_as_last_resort e f

positions-lt :
    (test : Candidate → Bool) (i : ℕ) (cs : List Candidate)
    → All (λ j. j < i + length cs) (positions test i cs)
positions-lt test i [] = tt
positions-lt test i (c ∷ cs) =
    let rest : All (λ j. j < i + length (c ∷ cs)) (positions test (suc i) cs) =
      All-mono (λ j. j < suc i + length cs) (λ j. j < i + length (c ∷ cs)) (λ j h. omega arith)
        (positions test (suc i) cs) (positions-lt test (suc i) cs) in
    elim (Bool-cases (test c)) [ inl e ↦ rw e (omega arith, rest) | inr e ↦ rw e rest ]

positions-count :
    (test : Candidate → Bool) (i : ℕ) (cs : List Candidate)
    → length (positions (λ c. not (test c)) i cs) + length (positions test i cs) ≡ length cs
positions-count test i [] = omega arith
positions-count test i (c ∷ cs) = ground (arith, positions-count test (suc i) cs)

in_range : (n : ℕ) (is : List ℕ) → All (λ i. i < 0 + n) is → All (λ i. i < n) is
in_range n is h = All-mono (λ i. i < 0 + n) (λ i. i < n) (λ i l. omega arith) is h

if_All :
    (n : ℕ) (b : Bool) (is : List ℕ) → All (λ i. i < n) is → All (λ i. i < n) (if b then is else [])
if_All n true is h = h
if_All n false is h = tt

-- Every position to try is one of the route.
pub prioritize-in_range :
    (config : RouterConfig) (now : ℕ) (r : HealthRepo) (route : Route)
    → All (λ i. i < length route.attempts) (prioritize config now r route).0
prioritize-in_range config now r route =
    let n = length route.attempts in
    let up = positions (λ c. not (is_down now r c)) 0 route.attempts in
    let down = positions (λ c. is_down now r c) 0 route.attempts in
    let a : All (λ i. i < n) up =
      in_range n up (positions-lt (λ c. not (is_down now r c)) 0 route.attempts) in
    let b : All (λ i. i < n) down =
      in_range n down (positions-lt (λ c. is_down now r c) 0 route.attempts) in
    subst (All (λ i. i < n)) (sym (prioritize_lem config now r route)) (
      All-take (λ i. i < n) (max route.attempt_cap 1)
        (up ++ (if config.allow_suspended_as_last_resort then down else []))
        (All-append (λ i. i < n) up (if config.allow_suspended_as_last_resort then down else []) a
          (if_All n config.allow_suspended_as_last_resort down b)))

-- When the suspended candidates may be the last resort, as many positions are tried as the route has and
-- its limit allows: a route with candidates is never given up because all of them are suspended.
pub length-prioritize :
    (config : RouterConfig) (now : ℕ) (r : HealthRepo) (route : Route)
    → config.allow_suspended_as_last_resort ≡ true
    → length (prioritize config now r route).0
      ≡ min (max route.attempt_cap 1) (length route.attempts)
length-prioritize config now r route h =
    let up = positions (λ c. not (is_down now r c)) 0 route.attempts in
    let down = positions (λ c. is_down now r c) 0 route.attempts in
    ap length (prioritize_lem config now r route)
    ∙ rw h (
        length-take (max route.attempt_cap 1) (up ++ down)
        ∙ ap (min (max route.attempt_cap 1))
            (length-append up down ∙ positions-count (λ c. is_down now r c) 0 route.attempts))
