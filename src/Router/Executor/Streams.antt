-- ===== src/Router/Executor/Streams.antt =====
-- The start and the tracking of a stream of events (crates/refract-router/src/executor.rs, `preflight_sse_stream` and
-- `track_stream`). The upstream and the clock are the rounds of the loop: the reading of the clock at the head of a
-- round, in nanoseconds, and what the wait of the round gives. The decoder, the size of an event and the texts of
-- refusals are the record `StreamServices`.
pub mod Kept
use Prim.Native.Char.{code}
use Prim.Native.String
use refract.Base.{
  ℕ, zero, suc, ◌+◌, ◌-◌, ◌*◌, ◌^◌, min, ◌==◌, Bool, true, false, not, ◌&&◌, ◌||◌, List, [], ◌∷◌,
  ◌++◌, Option, none, some, String, leb, ltb, if◌then◌else◌, any, trim, is_empty_text, option_or,
  Result, ok, err,
}
use refract.Core.Error.{
  ErrorKind, GatewayError, new_error, rate_limited, unauthenticated, permission_denied,
  invalid_request, upstream_error, timeout,
}
use refract.Core.Channel.{EmptyResponseRetryPolicy, retry_enabled}
use refract.Codec.Aggregate.{
  StreamEvent, text_delta, thinking_delta, refusal_delta, tool_call_start, tool_call_args_delta,
  error_event, ping,
}
use refract.Store.Health.{HealthRepo, Key, record_success, record_failure}
use refract.Router.Executor.{affects_endpoint_health}
use refract.Router.Executor.StreamEvents.{validate_stream_events, stream_events_have_output}

abbrev pub preflight_limit : ℕ
preflight_limit = 1024 * 1024

-- What the wait of a round gives: an item of the stream, its end, no item in the idle time, or the end of the time in
-- which empty replies are asked again.
pub data Wait (E : Type 0) : Type 0 where
  arrives : ℕ → Result {0, 0} E GatewayError → Wait E
  finishes : ℕ → Wait E
  idles : Wait E
  window_ends : Wait E

abbrev pub Round : Type 0 → Type 0
Round E = ℕ × Wait E

pub record StreamServices (E D : Type 0) : Type 0 where
  pub start : D
  pub decode : E → D → Result {0, 0} (List StreamEvent) GatewayError × D
  pub size : E → ℕ
  pub strict : Bool
  pub invalid_event : E → GatewayError
  pub invalid_stream : List E → GatewayError

pub record Preflight (E D : Type 0) : Type 0 where
  pub decoder : D
  pub prefix : List E
  pub bytes : ℕ
  pub first_byte_at : Option ℕ
  pub saw_valid_event : Bool

-- The stream is handed on with what was read of it, or refused; or no round is left and the loop still waits.
pub data Opening (E : Type 0) : Type 0 where
  opened : List E → Option ℕ → List (Round E) → Opening E
  refused : GatewayError → Opening E
  waiting : Opening E

module _ {E D : Type 0} (s : StreamServices E D) (p : EmptyResponseRetryPolicy) where
  abbrev pub new_preflight : Preflight E D
  new_preflight = record {
    decoder = s.start;
    prefix = [];
    bytes = 0;
    first_byte_at = none;
    saw_valid_event = false;
  }

  abbrev elapsed : Option ℕ → ℕ → ℕ
  elapsed none now = 0
  elapsed (some t) now = now - t

  window_is_over : Preflight E D → ℕ → Bool
  unfolding retry_enabled
  window_is_over st now =
      st.saw_valid_event
      && (retry_enabled p && leb (p.window_secs * 1000000000) (elapsed st.first_byte_at now))

  -- What an event that is decoded brings: the state, and whether the stream is handed on.
  unfoldable pub absorb_events :
      E → D → List StreamEvent → Preflight E D → Result {0, 0} (Bool × Preflight E D) GatewayError
  unfolding validate_stream_events stream_events_have_output retry_enabled
  absorb_events e d es st = elim (validate_stream_events es) [
    | err x ↦ err x
    | ok meaningful ↦ ok (
      stream_events_have_output es || (meaningful && not (retry_enabled p)),
      record st {
        decoder = d;
        prefix = st.prefix ++ e ∷ [];
        saw_valid_event = st.saw_valid_event || meaningful;
      },
    )
  ]

  decode_item : E → Preflight E D → Result {0, 0} (Bool × Preflight E D) GatewayError
  unfolding absorb_events
  decode_item e st =
      let (r, d) = s.decode e st.decoder in
      elim r [
        | err x ↦ err (if s.strict then s.invalid_event e else x)
        | ok es ↦ absorb_events e d es st
      ]

  unfoldable pub take_item :
      ℕ → E → Preflight E D → Result {0, 0} (Bool × Preflight E D) GatewayError
  unfolding decode_item
  take_item now e st =
      let bytes = min (st.bytes + s.size e) (2 ^ 64 - 1) in
      if ltb preflight_limit bytes
      then err
          (new_error upstream_error "upstream produced over 1 MiB before its first model output")
      else decode_item e
          (record st { bytes = bytes; first_byte_at = option_or st.first_byte_at (some now) })

  unfoldable pub stream_end : Preflight E D → ℕ → List (Round E) → Opening E
  stream_end st now rest =
      if st.saw_valid_event
      then opened st.prefix (some (elapsed st.first_byte_at now)) rest
      else refused (
          if s.strict
          then s.invalid_stream st.prefix
          else new_error upstream_error "upstream stream ended before its first valid event")

  -- `preflight_sse_stream`, from a state of its loop.
  unfoldable pub preflight : Preflight E D → List (Round E) → Opening E
  unfolding window_is_over take_item stream_end
  preflight st [] = waiting
  preflight st ((head, wait) ∷ rs) = elim (window_is_over st head) [
    | true ↦ opened st.prefix none ((head, wait) ∷ rs)
    | false ↦ elim wait [
      | window_ends ↦ opened st.prefix none rs
      | idles ↦ refused (
          new_error timeout
            "upstream did not produce a valid first stream event before the idle deadline")
      | finishes now ↦ stream_end st now rs
      | arrives now (err x) ↦ refused x
      | arrives now (ok e) ↦ elim (take_item now e st) [
        | err x ↦ refused x
        | ok (ready, st') ↦ elim ready [
          | true ↦ opened st'.prefix none rs
          | false ↦ preflight st' rs
        ]
      ]
    ]
  ]

-- `prepend_stream` and `track_stream`: what the client of a stream gets by so many polls, and the health behind them. A
-- client that goes away polls no more.
module _ {E : Type 0} (from_std : ℕ → Option ℕ) (error_text : GatewayError → String) where
  unfoldable pub track_stream :
      ℕ
      → ℕ
      → ℕ
      → Key
      → ℕ
      → List (Result {0, 0} E GatewayError)
      → HealthRepo
      → List (Result {0, 0} E GatewayError) × HealthRepo
  unfolding affects_endpoint_health record_success record_failure
  track_stream now now' latency k zero items r = ([], r)
  track_stream now now' latency k (suc polls) [] r = ([], (record_success now r k latency).1)
  track_stream now now' latency k (suc polls) (ok e ∷ items) r =
      let (out, r') = track_stream now now' latency k polls items r in (ok e ∷ out, r')
  track_stream now now' latency k (suc polls) (err x ∷ items) r = (
    err x ∷ [],
    if affects_endpoint_health x.kind
        then (record_failure from_std now now' r k (error_text x) x.retry_after).1
        else r,
  )
