-- ===== src/Router/Executor/StreamEvents.antt =====
-- What the events at the start of a stream mean (crates/refract-router/src/executor.rs, `validate_stream_events` and
-- `stream_events_have_output`).
use Prim.Native.Char.{code}
use refract.Base.{
  ℕ, ◌+◌, ◌==◌, Bool, true, false, not, ◌&&◌, ◌||◌, List, [], ◌∷◌, Option, none, some, String, leb,
  if◌then◌else◌, any, trim, is_empty_text, Result, ok, err,
}
use refract.Core.Error.{
  ErrorKind, GatewayError, new_error, rate_limited, unauthenticated, permission_denied,
  invalid_request, upstream_error,
}
use refract.Codec.Aggregate.{
  StreamEvent, text_delta, thinking_delta, refusal_delta, tool_call_start, tool_call_args_delta,
  error_event, ping,
}

-- `to_ascii_lowercase().contains`, of a word of small letters.
lower : ℕ → ℕ
lower c = if leb 65 c && leb c 90 then c + 32 else c

starts_lower : String → String → Bool
unfolding lower
starts_lower s String.[] = true
starts_lower String.[] (String.◌∷◌ d t) = false
starts_lower (String.◌∷◌ c s) (String.◌∷◌ d t) = lower (code c) == code d && starts_lower s t

unfoldable pub contains_lower : String → String → Bool
unfolding starts_lower
contains_lower String.[] t = is_empty_text t
contains_lower (String.◌∷◌ c s) t = starts_lower (String.◌∷◌ c s) t || contains_lower s t

unfoldable pub event_error_kind : String → ErrorKind
unfolding contains_lower
event_error_kind kind =
    if contains_lower kind "rate" || contains_lower kind "quota"
    then rate_limited
    else if contains_lower kind "auth"
    then unauthenticated
    else if contains_lower kind "permission" || contains_lower kind "forbidden"
    then permission_denied
    else if contains_lower kind "invalid"
    then invalid_request
    else upstream_error

is_ping : StreamEvent → Bool
is_ping ping = true
is_ping _ = false

-- The first error among the events.
first_error : List StreamEvent → Option GatewayError
unfolding event_error_kind
first_error [] = none
first_error (error_event message kind ∷ es) = some (new_error (event_error_kind kind) message)
first_error (e ∷ es) = first_error es

-- `validate_stream_events`: whether an event means anything.
unfoldable pub validate_stream_events : List StreamEvent → Result {0, 0} Bool GatewayError
unfolding first_error is_ping any
validate_stream_events es = elim (first_error es) [
  | some e ↦ err e
  | none ↦ ok (any (λ e. not (is_ping e)) es)
]

has_output : StreamEvent → Bool
unfolding trim
has_output (text_delta i t) = not (is_empty_text (trim t))
has_output (thinking_delta i t) = not (is_empty_text (trim t))
has_output (refusal_delta i t) = not (is_empty_text (trim t))
has_output (tool_call_start i id name s) = true
has_output (tool_call_args_delta i t) = not (is_empty_text (trim t))
has_output _ = false

unfoldable pub stream_events_have_output : List StreamEvent → Bool
unfolding has_output any
stream_events_have_output es = any has_output es
