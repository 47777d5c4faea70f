-- ===== src/Router/Executor/Loop/Total.antt =====
-- The whole search ends with a result (crates/refract-router/src/executor.rs).
use refract.Base.{
  ℕ, zero, suc, ◌+◌, ◌-◌, ◌≤◌, ◌<◌, ◌^◌, ◌≡◌, refl, arith, List, [], ◌∷◌, Option, none, some,
  Result, get_elem?, length, All, sym, subst,
}
use refract.Core.Error.{GatewayError}
use refract.Core.Channel.{pool_len, key_pool}
use refract.Router.Keys.{KeySelector, start}
use refract.Router.Keys.Rotation.{pool_len-positive}
use refract.Router.Plan.{Candidate, Route}
use refract.Router.Executor.{RouterConfig, prioritize, no_candidates}
use refract.Router.Executor.Order.{prioritize-in_range}
use refract.Router.Executor.Loop.{
  Services, Verdict, again, move_on, finished, RouteOutcome, LoopState, rounds, Progress,
  try_candidate, try_all, execute_normalized, enter, candidate_policy, progress_of,
}
use refract.Router.Executor.Loop.Budget.{
  rounds_left, Ended, Within, AllWithin, rounds-Ended, rounds-Within,
}
use refract.Store.Health.{HealthRepo}

module _ {ℓ} {P : Type ℓ} (s : Services P) (config : RouterConfig) (route : Route) where
  -- The fuel that a candidate needs: its keys and its retries of empty replies.
  abbrev pub Fuelled : ℕ → Candidate → Type 0
  Fuelled n c =
      pool_len (key_pool c.channel c.endpoint) + (candidate_policy config c).max_retries ≤ n

  -- The logged calls are as many as the count says, and the count is within the budget.
  abbrev pub Afforded : Progress → Type 0
  Afforded p = (length p.sent ≡ p.calls) × (p.calls ≤ route.max_upstream_calls)

  abbrev Settled : Option (Option (Result (RouteOutcome P) GatewayError) × Progress) → Type 0
  Settled none = ⊥
  Settled (some (r, p)) = Afforded p

  entered :
      (c : Candidate) (p : Progress)
      → rounds_left (candidate_policy config c) (enter s config route c p)
        ≡ (pool_len (key_pool c.channel c.endpoint) - 1)
          + ((candidate_policy config c).max_retries - 0)
  unfolding enter start
  entered c p = refl

  entered_calls :
      (c : Candidate) (p : Progress)
      → Afforded p
      → Within s route c (candidate_policy config c) (enter s config route c p)
  unfolding enter
  entered_calls c p a = a

  found :
      (n i : ℕ) (cs : List Candidate)
      → All (Fuelled n) cs
      → i < length cs
      → (c : Candidate) × (get_elem? cs i ≡ some c) × Fuelled n c
  found n i [] f l = elim l [ ]
  found n zero (c ∷ cs) f l = (c, refl, f.0)
  found n (suc i) (c ∷ cs) f l = found n i cs f.1 (omega arith)

  settled :
      (c : Candidate) (p : Progress) (r : Option (Verdict P × LoopState))
      → Ended s route c (candidate_policy config c) r
      → AllWithin s route c (candidate_policy config c) r
      → Settled (elim r [
        | none ↦ none
        | some (again, st) ↦ none
        | some (move_on e, st) ↦ some (none, progress_of st e)
        | some (finished x, st) ↦ some (some x, progress_of st p.last_error)
      ])
  settled c p none h w = h
  settled c p (some (again, st)) h w = h
  settled c p (some (move_on e, st)) h w = w
  settled c p (some (finished x, st)) h w = w

  encoded :
      (p : Progress) (o : Option GatewayError)
      (rest : Option (Option (Result (RouteOutcome P) GatewayError) × Progress))
      → Afforded p
      → Settled rest
      → Settled (elim o [ some e ↦ some (none, record p { last_error = e }) | none ↦ rest ])
  encoded p none rest a h = h
  encoded p (some e) rest a h = a

  try_candidate-Settled :
      (n : ℕ) (c : Candidate) (p : Progress)
      → 0 < route.max_upstream_calls
      → route.max_upstream_calls < 2 ^ 32
      → Fuelled n c
      → Afforded p
      → Settled (try_candidate s config route n c p)
  unfolding try_candidate
  try_candidate-Settled n c p b w f a =
      let st = enter s config route c p in
      let policy = candidate_policy config c in
      let r = rounds s route c policy n st in
      let fuel : rounds_left policy st < n =
        omega (arith, entered c p, f, pool_len-positive (key_pool c.channel c.endpoint)) in
      encoded p (s.encode_error c)
        (elim r [
          | none ↦ none
          | some (again, st') ↦ none
          | some (move_on e, st') ↦ some (none, progress_of st' e)
          | some (finished x, st') ↦ some (some x, progress_of st' p.last_error)
        ])
        a
        (settled c p r (rounds-Ended s route c policy n st fuel)
          (rounds-Within s route c policy n st b w (entered_calls c p a)))

  -- The search has come to a result.
  abbrev Paid : Option (Result (RouteOutcome P) GatewayError × Progress) → Type 0
  Paid none = ⊥
  Paid (some (r, p)) = Afforded p

  -- The search has come to a result, and the log of the calls to upstreams is no longer than the budget.
  abbrev pub Concluded : Option (Result (RouteOutcome P) GatewayError × Progress) → Type 0
  Concluded none = ⊥
  Concluded (some (r, p)) = length p.sent ≤ route.max_upstream_calls

  Paid-Concluded :
      (o : Option (Result (RouteOutcome P) GatewayError × Progress)) → Paid o → Concluded o
  Paid-Concluded none h = h
  Paid-Concluded (some (r, p)) h = omega arith

  went_on :
      (o : Option (Option (Result (RouteOutcome P) GatewayError) × Progress))
      (f : Progress → Option (Result (RouteOutcome P) GatewayError × Progress))
      → Settled o
      → ((p : Progress) → Afforded p → Paid (f p))
      → Paid (elim o [ none ↦ none | some (some r, p) ↦ some (r, p) | some (none, p) ↦ f p ])
  went_on none f h g = h
  went_on (some (some r, p)) f h g = h
  went_on (some (none, p)) f h g = g p h

  try_all-Paid :
      (n : ℕ) (is : List ℕ) (p : Progress)
      → 0 < route.max_upstream_calls
      → route.max_upstream_calls < 2 ^ 32
      → All (Fuelled n) route.attempts
      → All (λ i. i < length route.attempts) is
      → Afforded p
      → Paid (try_all s config route n is p)
  unfolding try_all
  try_all-Paid n [] p b w f l a = a
  try_all-Paid n (i ∷ is) p b w f l a =
      let (c, e, fuel) = found n i route.attempts f l.0 in
      subst
        (λ o. Paid (elim o [
          | none ↦ none
          | some d ↦ elim (try_candidate s config route n d p) [
            | none ↦ none
            | some (some r, p') ↦ some (r, p')
            | some (none, p') ↦ try_all s config route n is p'
          ]
        ]))
        (sym e)
        (went_on (try_candidate s config route n c p) (λ p'. try_all s config route n is p')
          (try_candidate-Settled n c p b w fuel a) (λ p' a'. try_all-Paid n is p' b w f l.1 a'))

  -- With a budget of calls that is a positive number of 32 bits, and with fuel for each candidate's keys and retries of
  -- empty replies: the search ends with a result, and of all the calls it has sent to upstreams, of whatever candidate and
  -- with whatever key, there are at most as many as the budget, whatever the upstreams answer.
  pub execute_normalized-Concluded :
      (n : ℕ) (health : HealthRepo) (keys : KeySelector)
      → 0 < route.max_upstream_calls
      → route.max_upstream_calls < 2 ^ 32
      → All (Fuelled n) route.attempts
      → Concluded (execute_normalized s config route n health keys)
  unfolding execute_normalized
  execute_normalized-Concluded n health keys b w f =
      let searched = execute_normalized s config route n health keys in
      Paid-Concluded searched (
        try_all-Paid n (prioritize config (s.clock 0) health route).0
          (record {
            health = (prioritize config (s.clock 0) health route).1;
            keys = keys;
            attempts = 0;
            calls = 0;
            last_error = no_candidates route;
            sent = [];
          })
          b w f (prioritize-in_range config (s.clock 0) health route) (refl, omega arith))
