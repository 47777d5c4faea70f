-- ===== src/Examples/Execution.antt =====
-- The executor's theorems at a concrete route, with an upstream that refuses the first key.
use refract.Base.{
  zero, suc, [], ◌≡◌, refl, ◌++◌, none, some, arith, true, false, not, String, ok, err, max, take,
  if◌then◌else◌, All, trim,
}
use refract.Core.Error.{new_error, rate_limited}
use refract.Core.Channel.{default_retry_policy, key_pool, resolve_retry, is_blank}
use refract.Router.Keys.{new_selector}
use refract.Store.Health.{HealthRepo, default_breaker}
use refract.Store.Health.Runs.{empty_repo}
use refract.Router.Executor.{RouterConfig, prioritize}
use refract.Router.Executor.Order.{positions, is_down, prioritize_lem}
use refract.Router.Executor.Loop.{Services, Reply, execute_normalized}
use refract.Router.Executor.Loop.Total.{Concluded, Fuelled, execute_normalized-Concluded}
use refract.Examples.{two_attempts}
use refract.Base.{ℕ, List, ◌∷◌, Option, map, ◌⊎◌}
use refract.Core.Protocol.{chat}
use refract.Codec.Aggregate.{text_delta}
use refract.Store.Health.{record_success}
use refract.Router.Executor.Streams.{
  StreamServices, Round, arrives, finishes, opened, preflight, new_preflight, track_stream,
}
use refract.Router.Executor.Streams.Kept.{items, results, has_any_output, preflight-delivers}

abbrev config : RouterConfig
config = record {
  allow_suspended_as_last_resort = true;
  empty_response_retry = default_retry_policy;
}

abbrev repo : HealthRepo
repo = empty_repo default_breaker

abbrev good_reply : Reply String
good_reply = record {
  is_null = false;
  is_200 = true;
  body_time = 5;
  latency_ms = 90;
  decoded = ok "hello";
}

abbrev services : Services String
services = record {
  encode_error = λ c. none;
  send = λ n c k. elim n [ zero ↦ err (new_error rate_limited "quota") | suc m ↦ ok good_reply ];
  payload_is_empty = λ p. false;
  strict_200_error = λ b c e. e;
  invalid_200_error = λ c r. new_error rate_limited "unreadable";
  clock = λ n. n;
  from_std = λ n. some n;
  error_text = λ e. e.message;
  decimal = λ n. "n";
  draw = λ n. 0;
}

prioritize_example :
    (prioritize config 3 repo two_attempts).0
    ≡ take (max 3 1) (
        positions (λ c. not (is_down 3 repo c)) 0 two_attempts.attempts
        ++ (if true then positions (λ c. is_down 3 repo c) 0 two_attempts.attempts else []))
prioritize_example = prioritize_lem config 3 repo two_attempts

enough_fuel : All (Fuelled services config two_attempts 9) two_attempts.attempts
unfolding resolve_retry key_pool is_blank trim
enough_fuel = (omega arith, (omega arith, tt))

execute_normalized_example :
    Concluded services config two_attempts
      (execute_normalized services config two_attempts 9 repo new_selector)
execute_normalized_example =
    execute_normalized-Concluded services config two_attempts 9 repo new_selector (omega arith)
      (omega arith) enough_fuel

-- A decoder for which an event is the text that it adds.
abbrev text_services : StreamServices String Unit
text_services = record {
  start = tt;
  decode = λ e d. (ok (text_delta 0 e ∷ []), d);
  size = λ e. 8;
  strict = false;
  invalid_event = λ e. new_error rate_limited "unreadable";
  invalid_stream = λ es. new_error rate_limited "unreadable";
}

-- A blank event is not enough to hand the stream on.
abbrev three_events : List (Round String)
three_events =
    (0, arrives 5 (ok " "))
    ∷ (5, arrives 6 (ok "a"))
    ∷ (6, arrives 7 (ok "b"))
    ∷ (7, finishes 8)
    ∷ []

abbrev rest_of : List (Round String)
rest_of = (6, arrives 7 (ok "b")) ∷ (7, finishes 8) ∷ []

opened_at_output :
    preflight text_services default_retry_policy
      (new_preflight text_services default_retry_policy)
      three_events
    ≡ opened (" " ∷ "a" ∷ []) none rest_of
unfolding preflight
opened_at_output = refl

preflight-delivers_example :
    (track_stream services.from_std services.error_text 9 9 90
        (1, chat)
        4
        (map ok (" " ∷ "a" ∷ []) ++ results rest_of)
        repo
      ≡ (map ok (items three_events), (record_success 9 repo (1, chat) 90).1))
    × (◌≡◌ {A = Option ℕ} none none
        ⊎ (has_any_output text_services default_retry_policy tt (" " ∷ "a" ∷ []) ≡ false))
preflight-delivers_example =
    preflight-delivers text_services default_retry_policy services.from_std services.error_text 9 9
      90 (1, chat) repo 4 three_events (" " ∷ "a" ∷ []) none rest_of opened_at_output refl
      (omega arith)
