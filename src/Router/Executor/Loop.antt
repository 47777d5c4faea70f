-- ===== src/Router/Executor/Loop.antt =====
-- The loop over the candidates and their keys (crates/refract-router/src/executor.rs, `execute_normalized`).
pub mod Budget
pub mod Total
use refract.Base.{
  ℕ, zero, suc, ◌+◌, min, Bool, true, false, ◌&&◌, List, [], ◌∷◌, Option, none, some, String,
  if◌then◌else◌, Result, ok, err, get_elem?,
}
use refract.Core.Protocol.{Protocol}
use refract.Core.Error.{GatewayError, is_retryable}
use refract.Core.Channel.{EmptyResponseRetryPolicy, resolve_retry, key_pool, pool_len}
use refract.Router.Plan.{Candidate, Route, needs_transcode, upstream_model}
use refract.Router.Keys.{
  KeySelector, KeyRotator, start, rotate, exhausted_error, hint, current, commit,
}
use refract.Store.Health.{HealthRepo, record_success, record_failure}
use refract.Router.Executor.{
  RouterConfig, endpoint_key, prioritize, affects_endpoint_health, annotate_candidate_error,
  should_retry_empty, check_budget, no_candidates,
}

-- What the client and the decoder make of a reply.
pub record Reply {ℓ} (P : Type ℓ) : Type ℓ where
  pub is_null : Bool
  pub is_200 : Bool
  pub body_time : ℕ
  pub latency_ms : ℕ
  pub decoded : Result P GatewayError

-- The codecs, the client, the clock and the texts. Calls are numbered, also for the clock.
pub record Services {ℓ} (P : Type ℓ) : Type ℓ where
  pub encode_error : Candidate → Option GatewayError
  pub send : ℕ → Candidate → String → Result (Reply P) GatewayError
  pub payload_is_empty : P → Bool
  pub strict_200_error : Bool → Candidate → GatewayError → GatewayError
  pub invalid_200_error : Candidate → Reply P → GatewayError
  pub clock : ℕ → ℕ
  pub from_std : ℕ → Option ℕ
  pub error_text : GatewayError → String
  pub decimal : ℕ → String
  pub draw : ℕ → ℕ

pub record RouteOutcome {ℓ} (P : Type ℓ) : Type ℓ where
  pub channel_id : ℕ
  pub channel_name : String
  pub upstream_protocol : Protocol
  pub upstream_model_name : String
  pub transcoded : Bool
  pub attempts : ℕ
  pub latency_ms : ℕ
  pub credential_hint : Option String
  pub payload : P

-- What the loop changes, for one candidate. `sent` is no state of the code: it is the log of the calls to
-- upstreams, each with its candidate and key, the last one first, and nothing reads it.
pub record LoopState : Type 0 where
  pub health : HealthRepo
  pub keys : KeySelector
  pub attempts : ℕ
  pub calls : ℕ
  pub rotator : KeyRotator
  pub empty_retries : ℕ
  pub sent : List (Candidate × String)

pub data Verdict {ℓ} (P : Type ℓ) : Type ℓ where
  again : Verdict P
  move_on : GatewayError → Verdict P
  finished : Result (RouteOutcome P) GatewayError → Verdict P

module _ {ℓ} {P : Type ℓ} (s : Services P) (route : Route) (c : Candidate)
    (policy : EmptyResponseRetryPolicy) where
  outcome : LoopState → ℕ → P → RouteOutcome P
  outcome st latency payload = record {
    channel_id = c.channel.id;
    channel_name = c.channel.name;
    upstream_protocol = c.endpoint.protocol;
    upstream_model_name = upstream_model c;
    transcoded = needs_transcode c route.inbound;
    attempts = st.attempts;
    latency_ms = latency;
    credential_hint = some (hint st.rotator);
    payload = payload;
  }

  -- The health after a failure, if it counts for the endpoint.
  note_failure : LoopState → GatewayError → HealthRepo
  note_failure st e =
      if affects_endpoint_health e.kind
      then (record_failure s.from_std (s.clock st.calls) (s.clock st.calls) st.health
          (endpoint_key c) (s.error_text e) e.retry_after).1
      else st.health

  -- `on_failure`: another key if there is one; otherwise the channel has failed.
  unfoldable pub on_failure : LoopState → GatewayError → Verdict P × LoopState
  unfolding note_failure
  on_failure st e =
      let (rotator', more) = rotate st.rotator e.kind in
      let annotated =
        annotate_candidate_error (exhausted_error s.decimal rotator' e) c st.attempts in
      let hinted = record annotated { credential_hint = some (hint rotator') } in
      if more then (again, record st { rotator = rotator' }) else (
        (if is_retryable annotated.kind then move_on hinted else finished (err hinted)),
        record st { rotator = rotator'; health = note_failure st annotated },
      )

  -- A reply that the decoder reads.
  on_payload : LoopState → Reply P → P → Verdict P × LoopState
  unfolding outcome
  on_payload st reply payload =
      if s.payload_is_empty payload && should_retry_empty policy reply.body_time st.empty_retries
      then (again, record st { empty_retries = suc st.empty_retries })
      else (
        finished (ok (outcome st reply.latency_ms payload)),
        record st {
          health =
              (record_success (s.clock st.calls) st.health (endpoint_key c) reply.latency_ms).1;
          keys = commit st.keys st.rotator;
        },
      )

  on_decoded : LoopState → Reply P → Result P GatewayError → Verdict P × LoopState
  unfolding on_payload on_failure
  on_decoded st reply (ok payload) = on_payload st reply payload
  on_decoded st reply (err e) =
      on_failure st
        (if reply.is_200 && policy.reject_nonstandard_200 then s.invalid_200_error c reply else e)

  on_reply : LoopState → Result (Reply P) GatewayError → Verdict P × LoopState
  unfolding on_decoded on_failure
  on_reply st (err e) = on_failure st (s.strict_200_error policy.reject_nonstandard_200 c e)
  on_reply st (ok reply) =
      let refused = annotate_candidate_error (s.invalid_200_error c reply) c st.attempts in
      if reply.is_null && should_retry_empty policy reply.body_time st.empty_retries
      then (again, record st { empty_retries = suc st.empty_retries })
      else if reply.is_200 && (reply.is_null && policy.reject_nonstandard_200)
      then (finished (err refused), record st { health = note_failure st refused })
      else on_decoded st reply reply.decoded

  -- One round: the budget, the call and what follows from the reply.
  unfoldable pub round : LoopState → Verdict P × LoopState
  unfolding on_reply
  round st =
      let tried = record st { attempts = min (st.attempts + 1) 255 } in
      elim (check_budget route.max_upstream_calls st.calls) [
        | err e ↦ (finished (err e), tried)
        | ok calls' ↦
            let key = current st.rotator in
            on_reply (record tried { calls = calls'; sent = (c, key) ∷ st.sent })
              (s.send st.calls c key)
      ]

  -- The rounds of a candidate; `none` is the end of the fuel.
  unfoldable pub rounds : ℕ → LoopState → Option (Verdict P × LoopState)
  unfolding round
  rounds zero st = none
  rounds (suc n) st =
      let (v, st') = round st in
      let rest = rounds n st' in
      elim v [
        | again ↦ rest
        | move_on e ↦ some (move_on e, st')
        | finished r ↦ some (finished r, st')
      ]

-- What goes from one candidate to the next, with the log of the calls.
pub record Progress : Type 0 where
  pub health : HealthRepo
  pub keys : KeySelector
  pub attempts : ℕ
  pub calls : ℕ
  pub last_error : GatewayError
  pub sent : List (Candidate × String)

abbrev pub candidate_policy : RouterConfig → Candidate → EmptyResponseRetryPolicy
candidate_policy config c = resolve_retry c.channel.empty_response_retry config.empty_response_retry

abbrev pub progress_of : LoopState → GatewayError → Progress
progress_of st e = record {
  health = st.health;
  keys = st.keys;
  attempts = st.attempts;
  calls = st.calls;
  last_error = e;
  sent = st.sent;
}

module _ {ℓ} {P : Type ℓ} (s : Services P) (config : RouterConfig) (route : Route) where
  -- The state in which a candidate starts, with the key that the selector chooses.
  unfoldable pub enter : Candidate → Progress → LoopState
  enter c p =
      let (rotator, keys') =
        start s.draw p.keys c.channel.id (key_pool c.channel c.endpoint) route.identity in
      record {
        health = p.health;
        keys = keys';
        attempts = p.attempts;
        calls = p.calls;
        rotator = rotator;
        empty_retries = 0;
        sent = p.sent;
      }

  -- A candidate: the end of the search, or what goes to the next one.
  unfoldable pub try_candidate :
      ℕ → Candidate → Progress → Option (Option (Result (RouteOutcome P) GatewayError) × Progress)
  unfolding enter
  try_candidate n c p = elim (s.encode_error c) [
    | some e ↦ some (none, record p { last_error = e })
    | none ↦ elim (rounds s route c (candidate_policy config c) n (enter c p)) [
      | none ↦ none
      | some (again, st) ↦ none
      | some (move_on e, st) ↦ some (none, progress_of st e)
      | some (finished r, st) ↦ some (some r, progress_of st p.last_error)
    ]
  ]

  -- The candidates at the given positions in turn; a position out of range is `none`.
  unfoldable pub try_all :
      ℕ → List ℕ → Progress → Option (Result (RouteOutcome P) GatewayError × Progress)
  unfolding try_candidate
  try_all n [] p = some (err p.last_error, p)
  try_all n (i ∷ is) p = elim (get_elem? route.attempts i) [
    | none ↦ none
    | some c ↦ elim (try_candidate n c p) [
      | none ↦ none
      | some (some r, p') ↦ some (r, p')
      | some (none, p') ↦ try_all n is p'
    ]
  ]

  -- `RouteExecutor::execute_normalized`, with fuel for the rounds of each candidate.
  unfoldable pub execute_normalized :
      ℕ → HealthRepo → KeySelector → Option (Result (RouteOutcome P) GatewayError × Progress)
  unfolding try_all
  execute_normalized n health keys =
      let (order, health') = prioritize config (s.clock 0) health route in
      try_all n order (record {
        health = health';
        keys = keys;
        attempts = 0;
        calls = 0;
        last_error = no_candidates route;
        sent = [];
      })
