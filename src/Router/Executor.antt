-- ===== src/Router/Executor.antt =====
-- The execution of a route (crates/refract-router/src/executor.rs): which candidates are tried in which order,
-- when a key is changed, when an empty reply is asked again, what the health records and when the
-- search ends. The codecs, the HTTP client, the clock and the texts of errors are the record
-- `Services`; a reply is what the client and the decoder make of it.
pub mod Order
pub mod Loop
pub mod StreamEvents
pub mod Streams
use Prim.Native.String.{◌++◌ as append_text}
use refract.Base.{
  ℕ, zero, suc, ◌+◌, ◌-◌, ◌*◌, ◌^◌, min, max, Bool, true, false, not, ◌&&◌, List, [], ◌∷◌, ◌++◌,
  Option, none, some, String, ltb, leb, if◌then◌else◌, is_some, option_or, take, get_elem?, Result,
  ok, err,
}
use refract.Core.Protocol.{Protocol, as_str}
use refract.Core.Error.{
  ErrorKind, GatewayError, new_error, with_protocol, with_channel, budget_exhausted, is_retryable,
  unauthenticated, permission_denied, rate_limited, upstream_error, invalid_upstream_response,
  timeout, configuration, not_found, no_available_channel,
}
use refract.Core.Channel.{EmptyResponseRetryPolicy, retry_enabled, resolve_retry, key_pool}
use refract.Router.Plan.{Candidate, Route, needs_transcode, upstream_model}
use refract.Router.Keys.{
  KeySelector, KeyRotator, start, rotate, exhausted_error, hint, current, commit,
}
use refract.Store.Health.{HealthRepo, Key, suspended_until, record_success, record_failure}

pub record RouterConfig : Type 0 where
  pub allow_suspended_as_last_resort : Bool
  pub empty_response_retry : EmptyResponseRetryPolicy

abbrev pub endpoint_key : Candidate → Key
endpoint_key c = (c.channel.id, c.endpoint.protocol)

-- The positions of the candidates that are not suspended and of those that are, with one reading of
-- the clock for the whole list.
split_health : ℕ → HealthRepo → ℕ → List Candidate → List ℕ × List ℕ × HealthRepo
split_health now r i [] = ([], [], r)
split_health now r i (c ∷ cs) =
    let (until, r1) = suspended_until now r (endpoint_key c) in
    let (healthy, suspended, r2) = split_health now r1 (suc i) cs in
    if is_some until then (healthy, i ∷ suspended, r2) else (i ∷ healthy, suspended, r2)

-- `RouteExecutor::prioritize`: the positions to try.
unfoldable pub prioritize : RouterConfig → ℕ → HealthRepo → Route → List ℕ × HealthRepo
unfolding split_health
prioritize config now r route =
    let (healthy, suspended, r') = split_health now r 0 route.attempts in
    (
      take (max route.attempt_cap 1)
          (if config.allow_suspended_as_last_resort then healthy ++ suspended else healthy),
      r',
    )

unfoldable pub affects_endpoint_health : ErrorKind → Bool
affects_endpoint_health unauthenticated = true
affects_endpoint_health permission_denied = true
affects_endpoint_health rate_limited = true
affects_endpoint_health upstream_error = true
affects_endpoint_health invalid_upstream_response = true
affects_endpoint_health timeout = true
affects_endpoint_health configuration = true
affects_endpoint_health not_found = true
affects_endpoint_health _ = false

-- `annotate_candidate_error`: what the error does not say yet of the candidate.
unfoldable pub annotate_candidate_error : GatewayError → Candidate → ℕ → GatewayError
annotate_candidate_error e c attempts = record e {
  channel_id = option_or e.channel_id (some c.channel.id);
  protocol = option_or e.protocol (some c.endpoint.protocol);
  channel_name = option_or e.channel_name (some c.channel.name);
  upstream_model = option_or e.upstream_model (some (upstream_model c));
  attempts = attempts;
}

-- `should_retry_empty`; the time from the first byte to the end is in nanoseconds.
unfoldable pub should_retry_empty : EmptyResponseRetryPolicy → ℕ → ℕ → Bool
should_retry_empty p body_time retries =
    retry_enabled p && (ltb retries p.max_retries && leb body_time (p.window_secs * 1000000000))

-- `check_budget`: the count of the calls to the upstream, which stops at 32 bits.
unfoldable pub check_budget : ℕ → ℕ → Result {0, 0} ℕ GatewayError
check_budget limit count =
    if ltb 0 limit && leb limit count
    then err budget_exhausted
    else ok (min (count + 1) (2 ^ 32 - 1))

unfoldable pub no_candidates : Route → GatewayError
no_candidates route = with_protocol route.inbound (
    new_error no_available_channel (
      append_text "no channel can serve model `" (
        append_text route.model
          (append_text "` over the " (append_text (as_str route.inbound) " protocol")))))
